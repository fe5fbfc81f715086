-- ===== src/Kstor/Journal/Session/Compact.antt =====
-- kstor/journal.cpp: what `CompactLog` makes of the ring.
use cpp_lkm.Prelude.{
  ℕ, zero, suc, ◌+◌, ◌<◌, ◌≡◌, refl, sym, ap, ◌∙◌, inl, inr, false, List, [], ◌∷◌, ◌++◌,
  append_assoc, append-nil, subst, length, All, arith, ◌==◌,
}
use mathlib.Core.List.{Perm, perm_middle}
use mathlib.Core.List.Perm
use native.Mathlib.Decide.{ℕ_discrete}
use cpp_lkm.Core.RingBuffer.{RingBuffer, erase}
use cpp_lkm.Core.RingBuffer.Contents.{IsValid, contents}
use cpp_lkm.Core.RingBuffer.Laws.{erase_lem}
use cpp_lkm.Kstor.Journal.Session.{compact_pass, compact_passes}
use cpp_lkm.Kstor.Journal.Transaction.{Transaction}

-- the transactions are not at the front of the ring
abbrev pub NoneErased : RingBuffer → List Transaction → Type 0
NoneErased r list = All (λ (tx : Transaction). (erase tx.index_list r).0 ≡ false) list

-- the indices of transactions, one after another
abbrev pub indices : List Transaction → List ℕ
indices [] = []
indices (tx ∷ list) = tx.index_list ++ indices list

indices-append : (xs ys : List Transaction) → indices (xs ++ ys) ≡ indices xs ++ indices ys
indices-append [] ys = refl
indices-append (tx ∷ xs) ys =
    ap (λ l. tx.index_list ++ l) (indices-append xs ys)
    ∙ sym (append_assoc tx.index_list (indices xs) (indices ys))

-- what a pass has done: the transactions in `gone` were erased
record Pass (list : List Transaction) (r : RingBuffer) (out : RingBuffer × List Transaction × ℕ)
    : Type 0 where
  pub gone : List Transaction
  pub parted : Perm list (gone ++ out.1)
  pub split : contents r ≡ indices gone ++ contents out.0
  pub valid : IsValid out.0
  pub count : length out.1 + out.2 ≡ length list
  pub stuck : out.2 ≡ 0 → (out.0 ≡ r) × (out.1 ≡ list) × NoneErased r list

-- a transaction that is left stands behind those that are gone
left_behind :
    {tx : Transaction} {list : List Transaction} (gone left : List Transaction)
    → Perm list (gone ++ left)
    → Perm (tx ∷ list) (gone ++ (tx ∷ left))
left_behind {tx = tx} gone left p = Perm.trans (Perm.cons tx p) (Perm.symm (perm_middle gone left))

compact_pass_lem :
    (list : List Transaction) (r : RingBuffer) → IsValid r → Pass list r (compact_pass list r)
unfolding compact_pass
compact_pass_lem [] r valid = record {
  gone = [];
  parted = Perm.nil;
  split = refl;
  valid = valid;
  count = refl;
  stuck = λ _. (refl, refl, tt);
}
compact_pass_lem (tx ∷ []) r valid = elim (erase_lem tx.index_list r valid) [
  | inl (rest, r', went, split, held, _, valid') ↦ rw went (record {
    gone = tx ∷ [];
    parted = Perm.rfl;
    split =
        split
        ∙ ap (λ l. tx.index_list ++ l) (sym held)
        ∙ ap (λ l. l ++ contents r') (sym (append-nil tx.index_list));
    valid = valid';
    count = refl;
    stuck = λ none. absurd (omega arith);
  })
  | inr (refused, _) ↦ rw refused (record {
    gone = [];
    parted = Perm.rfl;
    split = refl;
    valid = valid;
    count = refl;
    stuck = λ _. (refl, refl, (ap (λ o. o.0) refused, tt));
  })
]
compact_pass_lem (tx ∷ next ∷ list) r valid = elim (erase_lem tx.index_list r valid) [
  | inl (rest, r', went, split, held, _, valid') ↦
      let ih = compact_pass_lem list r' valid' in
      rw went (record {
        gone = tx ∷ ih.gone;
        parted = Perm.cons tx (left_behind ih.gone _ ih.parted);
        split =
            split
            ∙ ap (λ l. tx.index_list ++ l) (sym held ∙ ih.split)
            ∙ sym (append_assoc tx.index_list (indices ih.gone) _);
        valid = ih.valid;
        count = omega (arith, ih.count);
        stuck = λ none. absurd (omega arith);
      })
  | inr (refused, _) ↦
      let ih = compact_pass_lem (next ∷ list) r valid in
      rw refused (record {
        gone = ih.gone;
        parted = left_behind ih.gone _ ih.parted;
        split = ih.split;
        valid = ih.valid;
        count = omega (arith, ih.count);
        stuck = λ none.
            (let (same, all, not_erased) = ih.stuck none in
              (same, ap (λ l. tx ∷ l) all, (ap (λ o. o.0) refused, not_erased)));
      })
]

-- The passes of `CompactLog` over a valid ring, with at least one pass more than there are
-- transactions, part the transactions into those that are erased and those that are left: the ring
-- gives up exactly the indices of the erased ones, from its front and in the order in which they were
-- erased, and stays valid; of those that are left, none has its indices at the front of the log.
pub compact_passes_lem :
    (list : List Transaction) (fuel : ℕ) (r : RingBuffer)
    → IsValid r
    → length list < fuel
    → let (r', left) = compact_passes fuel list r in
      ((erased : List Transaction) × Perm list (erased ++ left)
        × (contents r ≡ indices erased ++ contents r'))
      × IsValid r'
      × NoneErased r' left
unfolding compact_passes
compact_passes_lem list zero r valid h = absurd (omega arith)
compact_passes_lem list (suc fuel) r valid h =
    let pass = compact_pass_lem list r valid in
    elim (ℕ_discrete (compact_pass list r).2 0) [
      | yes none ↦
          let (same, all, not_erased) = pass.stuck none in
          rw (none, same, all) (([], Perm.rfl, refl), valid, not_erased)
      | no some_erased ↦
          let ((erased, parted, split), valid', not_erased) =
            compact_passes_lem (compact_pass list r).1 fuel (compact_pass list r).0 pass.valid
              (omega (arith, pass.count)) in
          let again : ((compact_pass list r).2 == 0) ≡ false = ground arith in
          let held =
            contents (compact_passes fuel (compact_pass list r).1 (compact_pass list r).0).0 in
          rw again (
            (
              pass.gone ++ erased,
              subst (Perm list) (sym (append_assoc pass.gone erased _))
                  (Perm.trans pass.parted (Perm.append_left pass.gone parted)),
              pass.split
                  ∙ ap (λ l. indices pass.gone ++ l) split
                  ∙ sym (append_assoc (indices pass.gone) (indices erased) held)
                  ∙ ap (λ l. l ++ held) (sym (indices-append pass.gone erased)),
            ),
            valid',
            not_erased,
          )
    ]
