-- ===== src/Core/Btree/Insert/Above.antt =====
-- core/btree.h: `SplitChild` on the node above the child, and where a search goes afterwards.
use native.Mathlib.Decide.{dec_lt, ℕ_discrete}
use cpp_lkm.Prelude.{
  ℕ, zero, suc, ◌+◌, ◌-◌, ◌*◌, ◌≤◌, ◌<◌, ◌≡◌, ◌⊎◌, inl, inr, refl, sym, ap, ◌∙◌, subst, false, List,
  [], ◌∷◌, ◌++◌, append_assoc, some, map, length, length-map, length-take, length-drop,
  length-append, All, All-append, All-take, All-drop, arith, take, drop, get_elem?, set, inside-get,
}
use cpp_lkm.Core.Btree.{Node, Nodes, btree_node, to_list, from_list, key_at}
use cpp_lkm.Core.Btree.Around.{before, behind, map-append, entries-from_list, entries_around}
use cpp_lkm.Core.Btree.Insert.{put_at, split_child}
use cpp_lkm.Core.Btree.Insert.Split.{Halves}
use cpp_lkm.Core.Btree.Search.{IsPlace}
use cpp_lkm.Core.Btree.Shape.{weave, entries, IsNode, to_list-from_list, weave-mid, weave-follow}

module _ {ℓ} {A : Type ℓ} where
  pub length-put_at :
      (i : ℕ) (a : A) (list : List A)
      → i ≤ length list
      → length (put_at i a list) ≡ suc (length list)
  unfolding put_at
  length-put_at i a list h =
      omega (
        arith,
        length-append (take i list) (a ∷ drop i list),
        length-take i list,
        length-drop i list,
      )

  -- a child replaced by two
  pub two_for_one :
      (i : ℕ) (a b : A) (list : List A)
      → i < length list
      → put_at (suc i) b (set list i a) ≡ take i list ++ (a ∷ b ∷ drop (suc i) list)
  unfolding put_at
  two_for_one i a b [] h = absurd (omega arith)
  two_for_one zero a b (x ∷ list) h = refl
  two_for_one (suc i) a b (x ∷ list) h = ap (λ t. x ∷ t) (two_for_one i a b list (omega arith))

  pub get-first_of_two :
      (i : ℕ) (a : A) (list rest : List A)
      → i ≤ length list
      → get_elem? (take i list ++ (a ∷ rest)) i ≡ some a
  get-first_of_two zero a list rest h = refl
  get-first_of_two (suc i) a [] rest h = absurd (omega arith)
  get-first_of_two (suc i) a (x ∷ list) rest h = get-first_of_two i a list rest (omega arith)

  pub get-second_of_two :
      (i : ℕ) (a b : A) (list rest : List A)
      → i ≤ length list
      → get_elem? (take i list ++ (a ∷ b ∷ rest)) (suc i) ≡ some b
  get-second_of_two zero a b list rest h = refl
  get-second_of_two (suc i) a b [] rest h = absurd (omega arith)
  get-second_of_two (suc i) a b (x ∷ list) rest h = get-second_of_two i a b list rest (omega arith)

module _ {ℓ} {V : Type ℓ} where
  key_at-put_before :
      (i : ℕ) (e : ℕ × V) (es : List (ℕ × V)) (j : ℕ)
      → i ≤ length es
      → j < i
      → key_at (put_at i e es) j ≡ key_at es j
  unfolding put_at
  key_at-put_before zero e es j h k = absurd (omega arith)
  key_at-put_before (suc i) e [] j h k = absurd (omega arith)
  key_at-put_before (suc i) e (x ∷ es) zero h k = refl
  key_at-put_before (suc i) e (x ∷ es) (suc j) h k =
      key_at-put_before i e es j (omega arith) (omega arith)

  key_at-put_behind :
      (i : ℕ) (e : ℕ × V) (es : List (ℕ × V))
      → i < length es
      → key_at (put_at i e es) (suc i) ≡ key_at es i
  unfolding put_at
  key_at-put_behind i e [] h = absurd (omega arith)
  key_at-put_behind zero e (x ∷ es) h = refl
  key_at-put_behind (suc i) e (x ∷ es) h = key_at-put_behind i e es (omega arith)

  -- with one more entry at its place, the place of a key stays or moves on by one
  pub next_place :
      (es : List (ℕ × V)) (key i : ℕ) (e : ℕ × V) (i' : ℕ)
      → IsPlace es key i
      → IsPlace (put_at i e es) key i'
      → (i' ≡ i) ⊎ (i' ≡ suc i)
  next_place es key i e i' old new = elim (dec_lt i' i) [
    | yes less ↦ absurd (
        omega (
          arith,
          old.below i' less,
          key_at-put_before i e es i' old.inside less,
          new.above i' (omega arith) (omega (arith, length-put_at i e es old.inside, old.inside)),
        ))
    | no more ↦ elim (dec_lt (suc i) i') [
      | yes beyond ↦
          let inside : i < length es = omega (arith, new.inside, length-put_at i e es old.inside) in
          absurd (
            omega (
              arith,
              new.below (suc i) beyond,
              key_at-put_behind i e es inside,
              old.above i (omega arith) inside,
            ))
      | no near ↦ elim (ℕ_discrete i' i) [ yes same ↦ inl same | no other ↦ inr (omega arith) ]
    ]
  ]

  -- the node above a child that is split
  abbrev pub above_split :
      List (ℕ × V) → Nodes V → ℕ → {t height : ℕ} {n : Node V} → Halves t height n → Node V
  above_split es nodes i h =
      btree_node false (put_at i h.mid es)
        (from_list (take i (to_list nodes) ++ (h.left ∷ h.right ∷ drop (suc i) (to_list nodes))))

  pub split_child_lem :
      (t height : ℕ) (es : List (ℕ × V)) (nodes : Nodes V) (i : ℕ) (child : Node V)
      (h : Halves t height child)
      → get_elem? (to_list nodes) i ≡ some child
      → split_child t i (btree_node false es nodes) ≡ above_split es nodes i h
  unfolding split_child
  split_child_lem t height es nodes i child h found =
      let next : i + 1 ≡ suc i = omega arith in
      rw (found, split_child, h.split, next)
        (ap (λ list. btree_node false (put_at i h.mid es) (from_list list))
          (two_for_one i h.left h.right (to_list nodes) (inside-get (to_list nodes) i child found)))

  -- it keeps the entries
  pub entries-above_split :
      (t height : ℕ) (es : List (ℕ × V)) (nodes : Nodes V) (i : ℕ) (child : Node V)
      (h : Halves t height child)
      → get_elem? (to_list nodes) i ≡ some child
      → i ≤ length es
      → entries (above_split es nodes i h) ≡ entries (btree_node false es nodes)
  unfolding put_at
  entries-above_split t height es nodes i child h found inside =
      let list = to_list nodes in
      let front = take i list in
      let back = drop (suc i) list in
      let size : length (map entries front) ≡ length (take i es) = omega (
        arith,
        length-map front entries,
        length-take i list,
        length-take i es,
        inside-get list i child found,
      ) in
      entries-from_list false (put_at i h.mid es) (front ++ (h.left ∷ h.right ∷ back))
      ∙ ap (λ c. weave c (take i es ++ (h.mid ∷ drop i es)))
          (map-append front (h.left ∷ h.right ∷ back))
      ∙ weave-mid (map entries front) (entries h.left) (entries h.right ∷ map entries back)
          (take i es) h.mid (drop i es) size
      ∙ ap (λ x. before list es i ++ (entries h.left ++ (h.mid ∷ x)))
          (weave-follow (entries h.right) (map entries back) (drop i es))
      ∙ ap (λ x. before list es i ++ x)
          (sym (append_assoc (entries h.left) (h.mid ∷ entries h.right) (behind list es i)))
      ∙ ap (λ x. before list es i ++ (x ++ behind list es i)) (sym h.same)
      ∙ sym (entries_around false es nodes i child inside found)

  -- and the shape, if there was room for an entry
  pub above_split-IsNode :
      (t least height : ℕ) (es : List (ℕ × V)) (nodes : Nodes V) (i : ℕ) (child : Node V)
      (h : Halves t height child)
      → IsNode t least (suc height) (btree_node false es nodes)
      → get_elem? (to_list nodes) i ≡ some child
      → i ≤ length es
      → length es < 2 * t - 1
      → IsNode t (least + 1) (suc height) (above_split es nodes i h)
  above_split-IsNode t least height es nodes i child h shape found inside room =
      let list = to_list nodes in
      let IsChild : Node V → Type ℓ = IsNode t (t - 1) height in
      let two = take i list ++ (h.left ∷ h.right ∷ drop (suc i) list) in
      let size = length-put_at i h.mid es inside in
      let count : length two ≡ suc (length list) = omega (
        arith,
        length-append (take i list) (h.left ∷ h.right ∷ drop (suc i) list),
        length-take i list,
        length-drop (suc i) list,
        inside-get list i child found,
      ) in
      (
        refl,
        ap length (to_list-from_list two) ∙ omega (arith, count, size, shape.1),
        omega (arith, size, shape.2),
        omega (arith, size),
        subst (All IsChild) (sym (to_list-from_list two)) (
            All-append IsChild (take i list) (h.left ∷ h.right ∷ drop (suc i) list)
              (All-take IsChild i list shape.4)
              (h.left_shape, (h.right_shape, All-drop IsChild (suc i) list shape.4))),
      )
