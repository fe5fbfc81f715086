-- ===== src/Core/RingBuffer/Laws.antt =====
-- core/ring_buffer.h: what each operation of the ring does to the indices that it holds.
use cpp_lkm.Prelude.{
  ℕ, ◌+◌, ◌-◌, ◌%◌, ◌≤◌, ◌<◌, ◌≡◌, ◌≢◌, ◌↔◌, ◌⊎◌, refl, sym, ap, ap₂, ◌∙◌, true, false, List, [],
  ◌∷◌, ◌++◌, All, arith, u64_mod, ok, inl, inr,
}
use native.Mathlib.Nat.{mod-add-mod, mod-eq_of_lt, mod-eq-sub-mod}
use native.Mathlib.Decide.{dec_lt, ℕ_discrete}
use cpp_lkm.Core.RingBuffer.{RingBuffer, distance, reset, push_back, pop_front, erase_from, erase}
use cpp_lkm.Core.RingBuffer.Contents.{IsValid, run, contents, run-add_one, run_of_pos, run-All-ne}

-- the next end: one step further, going round at the capacity
end-step :
    (r : RingBuffer)
    → IsValid r
    → (r.end_index + 1) % r.capacity ≡ (r.start_index + (r.size + 1)) % r.capacity
end-step r v = rw (v.end_at, mod-add-mod) (ap (λ k. k % r.capacity) (omega arith))

-- the ring that a push leaves
abbrev pub pushed : RingBuffer → RingBuffer
pushed r = record r { end_index = (r.end_index + 1) % r.capacity; size = r.size + 1 }

-- A push on a valid ring that is not full hands out an index below the capacity that the ring does
-- not hold yet, appends it behind the others, and keeps the ring valid.
pub push_back_lem :
    (r : RingBuffer)
    → IsValid r
    → r.size < r.capacity
    → (push_back r ≡ ok (r.end_index, pushed r))
      × (contents (pushed r) ≡ contents r ++ (r.end_index ∷ []))
      × All (λ i. i ≢ r.end_index) (contents r)
      × (r.end_index < r.capacity)
      × IsValid (pushed r)
unfolding push_back
push_back_lem r v room = (
  ground arith,
  run-add_one r.capacity r.start_index r.size v.start_in
      ∙ ap (λ t. contents r ++ (t ∷ [])) (sym v.end_at),
  run-All-ne r.capacity r.start_index r.size r.size r.end_index v.start_in (omega arith) room
      v.end_at,
  omega arith,
  record { small = v.small; start_in = v.start_in; size_in = omega arith; end_at = end-step r v },
)

-- the same end, seen from one step further
step-end : (c s n : ℕ) → 0 < n → ((s + 1) % c + (n - 1)) % c ≡ (s + n) % c
step-end c s n h = rw mod-add-mod (ap (λ k. k % c) (omega arith))

-- the ring that a pop leaves
abbrev pub popped : RingBuffer → RingBuffer
popped r = record r { start_index = (r.start_index + 1) % r.capacity; size = r.size - 1 }

-- A pop on a valid ring that is not empty returns the oldest index, leaves the others in their
-- order, and keeps the ring valid.
pub pop_front_lem :
    (r : RingBuffer)
    → IsValid r
    → 0 < r.size
    → (pop_front r ≡ ok (r.start_index, popped r))
      × (contents r ≡ r.start_index ∷ contents (popped r))
      × IsValid (popped r)
unfolding pop_front
pop_front_lem r v some_held = (
  ground arith,
  run_of_pos r.capacity r.start_index r.size some_held,
  record {
    small = v.small;
    start_in = omega arith;
    size_in = omega arith;
    end_at = v.end_at ∙ sym (step-end r.capacity r.start_index r.size some_held);
  },
)

-- The fields of a ring.
abbrev pub ring : ℕ → ℕ → ℕ → ℕ → RingBuffer
ring s e n c = record { start_index = s; end_index = e; size = n; capacity = c }

-- The distance that `Reset` computes is exact: neither the sum nor the difference wraps visibly.
distance_lem :
    (s e n c : ℕ) → s < c → e < c → n < c → c < u64_mod → (distance s e c ≡ n) ↔ (e ≡ (s + n) % c)
unfolding distance
distance_lem s e n c hs he hn hc = elim (dec_lt (s + n) c) [
  | yes p ↦ (λ q. ground (arith, mod-eq_of_lt p), λ q. ground (arith, mod-eq_of_lt p))
  | no p ↦
      let around : (s + n) % c ≡ s + n - c =
        mod-eq-sub-mod {n = s + n} {m = c} (omega arith)
        ∙ mod-eq_of_lt {n = s + n - c} {m = c} (omega arith) in
      (λ q. ground arith, λ q. ground arith)
]

-- `Reset` accepts four 64-bit values exactly when they are the fields of a valid ring that is not
-- full; then the ring has these fields, and otherwise it is left as it was.
pub reset_lem :
    (s e n c : ℕ) (r : RingBuffer)
    → c < u64_mod
    → ((reset s e n c r ≡ (true, ring s e n c)) × IsValid (ring s e n c) × (n < c))
      ⊎ ((reset s e n c r ≡ (false, r)) × ¬ (IsValid (ring s e n c) × (n < c)))
unfolding reset
reset_lem s e n c r hc = elim (dec_lt n c) [
  | no p ↦ inr (ground arith, λ q. omega arith)
  | yes hn ↦ elim (dec_lt s c) [
    | no p ↦ inr (ground arith, λ q. omega arith)
    | yes hs ↦ elim (dec_lt e c) [
      | no p ↦ inr (ground arith, λ q. omega arith)
      | yes he ↦
          let exact = distance_lem s e n c hs he hn hc in
          elim (ℕ_discrete (distance s e c) n) [
            | yes p ↦ inl (
              ground arith,
              record { small = hc; start_in = hs; size_in = omega arith; end_at = exact.0 p },
              hn,
            )
            | no p ↦ inr (ground arith, λ q. p (exact.1 q.0.end_at))
          ]
    ]
  ]
]

tail_eq : {x y : ℕ} {l m : List ℕ} → x ∷ l ≡ y ∷ m → l ≡ m
tail_eq e = cc e

-- What `Erase` finds from the front of a run of `n` indices at `s`: the whole list, with the run
-- that is left, or that the list is no prefix of the run.
erase_from_lem :
    (c : ℕ) (l : List ℕ) (s n : ℕ)
    → c < u64_mod
    → s < c
    → n ≤ c
    → ((s' n' : ℕ) × (erase_from c l s n ≡ (true, s', n'))
        × (run c s n ≡ l ++ run c s' n')
        × (s' < c)
        × (n' ≤ n)
        × ((s' + n') % c ≡ (s + n) % c))
      ⊎ (((erase_from c l s n).0 ≡ false) × ((rest : List ℕ) → run c s n ≢ l ++ rest))
unfolding erase_from
erase_from_lem c [] s n hc hs hn = inl (s, n, refl, refl, hs, omega arith, refl)
erase_from_lem c (i ∷ l) s n hc hs hn = elim (ℕ_discrete n 0) [
  | yes p ↦ inr (ground arith, λ rest q. cc (ap (run c s) p))
  | no p ↦ elim (ℕ_discrete i s) [
    | no ne ↦ inr (ground arith, λ rest q. ne (ground (arith, run_of_pos c s n (omega arith))))
    | yes same ↦
        let step : erase_from c (i ∷ l) s n ≡ erase_from c l ((s + 1) % c) (n - 1) = ground arith in
        let pos : 0 < n = omega arith in
        elim (erase_from_lem c l ((s + 1) % c) (n - 1) hc (omega arith) (omega arith)) [
          | inl (s', n', went, split, hs', hn', at_end) ↦ inl (
            s',
            n',
            step ∙ went,
            run_of_pos c s n pos ∙ ap₂ ◌∷◌ (sym same) split,
            hs',
            omega arith,
            at_end ∙ step-end c s n pos,
          )
          | inr (stopped, apart) ↦ inr (
            ap (λ t. t.0) step ∙ stopped,
            λ rest q. apart rest (tail_eq (sym (run_of_pos c s n pos) ∙ q)),
          )
        ]
  ]
]

-- On a valid ring, `Erase` removes the list exactly when it is a prefix of the held indices; then
-- the rest is held and the ring stays valid. Otherwise the ring is left as it was.
pub erase_lem :
    (l : List ℕ) (r : RingBuffer)
    → IsValid r
    → ((rest : List ℕ) × (r' : RingBuffer) × (erase l r ≡ (true, r'))
        × (contents r ≡ l ++ rest)
        × (contents r' ≡ rest)
        × (r'.end_index ≡ r.end_index)
        × IsValid r')
      ⊎ ((erase l r ≡ (false, r)) × ((rest : List ℕ) → contents r ≢ l ++ rest))
unfolding erase
erase_lem l r v =
    elim (erase_from_lem r.capacity l r.start_index r.size v.small v.start_in v.size_in) [
      | inl (s', n', went, split, hs, hn, at_end) ↦ inl (
        run r.capacity s' n',
        record r { start_index = s'; size = n' },
        rw went,
        split,
        refl,
        refl,
        record {
          small = v.small;
          start_in = hs;
          size_in = omega (arith, v.size_in);
          end_at = v.end_at ∙ sym at_end;
        },
      )
      | inr (stopped, apart) ↦ inr (rw stopped, apart)
    ]
