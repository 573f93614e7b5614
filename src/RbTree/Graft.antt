-- ===== src/RbTree/Graft.antt =====
-- The walk of `cfs_enqueue` (process/process.c) to a new node's place, and where the node comes in
-- the order of the tree.
use apna_os.Prelude.{
  ℕ, zero, suc, ◌+◌, ◌≡◌, refl, ◌≤◌, true, false, Option, none, some, inl, inr, List, [], ◌∷◌, ◌++◌,
  length, length-append, ◌∙◌, ap, sym, ltb, Bool-cases, if◌then◌else◌, arith, ge→ltb,
}
use apna_os.Prelude.Int.{ℤ, pos, ltb_ℤ, ◌≤ℤ◌}
use apna_os.Prelude.Run.{done}
use apna_os.Process.Chain.{Sorted, AllAbove, insert}
use apna_os.RbTree.{RbTree, Link, at_root, left_of, right_of, find_link}
use apna_os.RbTree.Shape.{Tree, leaf, node, Stands}
use apna_os.RbTree.Sides.{on_left, on_right}
use apna_os.RbTree.Way.{Way, at_top, under, plug, elems}
use apna_os.RbTree.Fixup.{depth}

-- The pointers of the walk at a place.
abbrev pub parent_of : Way → Option ℕ
parent_of at_top = none
parent_of (under s c q u) = some q

abbrev pub link_of : Way → Link
link_of at_top = at_root
link_of (under on_left c q u) = left_of q
link_of (under on_right c q u) = right_of q

module _ (vruntime : ℕ → ℕ) (p : ℕ) where
  -- The key that orders the tree.
  abbrev pub key : ℕ → ℤ
  key a = pos (vruntime a)

  abbrev pub descend : Way → Tree → Way
  descend c leaf = c
  descend c (node l q r) =
      let left = descend (under on_left c q r) l in
      let right = descend (under on_right c q l) r in
      if ltb (vruntime p) (vruntime q) then left else right

  abbrev pub graft : Tree → Tree
  graft leaf = node leaf p leaf
  graft (node l q r) =
      let left = graft l in
      let right = graft r in if ltb (vruntime p) (vruntime q) then node left q r else node l q right

  pub descend-graft :
      (c : Way) (t : Tree) → plug (descend c t) (node leaf p leaf) ≡ plug c (graft t)
  descend-graft c leaf = refl
  descend-graft c (node l q r) = elim (Bool-cases (ltb (vruntime p) (vruntime q))) [
    | inl e ↦ rw e (descend-graft (under on_left c q r) l)
    | inr e ↦ rw e (descend-graft (under on_right c q l) r)
  ]

  pub descend-plug : (c : Way) (t : Tree) → plug (descend c t) leaf ≡ plug c t
  descend-plug c leaf = refl
  descend-plug c (node l q r) = elim (Bool-cases (ltb (vruntime p) (vruntime q))) [
    | inl e ↦ rw e (descend-plug (under on_left c q r) l)
    | inr e ↦ rw e (descend-plug (under on_right c q l) r)
  ]

  pub depth-descend : (c : Way) (t : Tree) → depth (descend c t) ≤ depth c + length (elems t)
  depth-descend c leaf = omega arith
  depth-descend c (node l q r) = elim (Bool-cases (ltb (vruntime p) (vruntime q))) [
    | inl e ↦
        let k = length-append (elems l) (q ∷ elems r) in
        rw e (omega (arith, depth-descend (under on_left c q r) l, k))
    | inr e ↦
        let k = length-append (elems l) (q ∷ elems r) in
        rw e (omega (arith, depth-descend (under on_right c q l) r, k))
  ]

  -- The walk ends where `descend` says, and changes nothing.
  pub find_link-descend :
      (fuel : ℕ) (t : RbTree) (c : Way) (at above : Option ℕ) (w : Tree)
      → Stands t.nodes at above w
      → length (elems w) ≤ fuel
      → find_link vruntime fuel p (parent_of c) (link_of c) at t
        ≡ done (parent_of (descend c w), link_of (descend c w)) t
  unfolding find_link
  find_link-descend fuel t c at above leaf s few = rw s refl
  find_link-descend zero t c at above (node l q r) s few =
      absurd (omega (arith, few, length-append (elems l) (q ∷ elems r)))
  find_link-descend (suc fuel) t c at above (node l q r) (e, (_, (sl, sr))) few =
      let k = length-append (elems l) (q ∷ elems r) in
      elim (Bool-cases (ltb (vruntime p) (vruntime q))) [
        | inl e' ↦
            rw (e, e')
              (find_link-descend fuel t (under on_left c q r) (t.nodes q).rb_left (some q) l sl
                (omega (arith, few, k)))
        | inr e' ↦
            rw (e, e')
              (find_link-descend fuel t (under on_right c q l) (t.nodes q).rb_right (some q) r sr
                (omega (arith, few, k)))
      ]

  key-test : (a b : ℕ) → ltb_ℤ (key a) (key b) ≡ ltb (vruntime a) (vruntime b)
  key-test a b =
      let zero_right : (n : ℕ) → n + 0 ≡ n = λ n. omega arith in
      rw (zero_right (vruntime a), zero_right (vruntime b)) refl

  insert-early :
      (a : List ℕ) (q : ℕ) (b : List ℕ)
      → ltb (vruntime p) (vruntime q) ≡ true
      → insert key p (a ++ q ∷ b) ≡ insert key p a ++ q ∷ b
  unfolding insert
  insert-early [] q b e = rw (key-test p q ∙ e) refl
  insert-early (x ∷ a) q b e = elim (Bool-cases (ltb (vruntime p) (vruntime x))) [
    | inl e' ↦ rw (key-test p x ∙ e') refl
    | inr e' ↦ rw (key-test p x ∙ e') (ap (λ l. x ∷ l) (insert-early a q b e))
  ]

  AllAbove-at : (z : ℤ) (a : List ℕ) (q : ℕ) (b : List ℕ) → AllAbove key z (a ++ q ∷ b) → z ≤ℤ key q
  AllAbove-at z [] q b (h, _) = h
  AllAbove-at z (x ∷ a) q b (_, h) = AllAbove-at z a q b h

  not_less : (q : ℕ) → ltb (vruntime p) (vruntime q) ≡ false → vruntime q ≤ vruntime p
  not_less q e = ground (arith, e)

  insert-late :
      (a : List ℕ) (q : ℕ) (b : List ℕ)
      → ltb (vruntime p) (vruntime q) ≡ false
      → Sorted key (a ++ q ∷ b)
      → insert key p (a ++ q ∷ b) ≡ a ++ q ∷ insert key p b
  unfolding insert
  insert-late [] q b e s = rw (key-test p q ∙ e) refl
  insert-late (x ∷ a) q b e (above, s) =
      let le : vruntime x ≤ vruntime p =
        omega (arith, AllAbove-at (key x) a q b above, not_less q e) in
      rw (key-test p x ∙ ge→ltb (vruntime p) (vruntime x) le)
        (ap (λ l. x ∷ l) (insert-late a q b e s))

  AllAbove-append : (z : ℤ) (a b : List ℕ) → AllAbove key z (a ++ b) → AllAbove key z a
  AllAbove-append z [] b h = tt
  AllAbove-append z (x ∷ a) b (e, h) = (e, AllAbove-append z a b h)

  Sorted-append :
      (a : List ℕ) (q : ℕ) (b : List ℕ) → Sorted key (a ++ q ∷ b) → Sorted key a × Sorted key b
  Sorted-append [] q b (_, s) = (tt, s)
  Sorted-append (x ∷ a) q b (above, s) =
      let (sa, sb) = Sorted-append a q b s in ((AllAbove-append (key x) a (q ∷ b) above, sa), sb)

  -- In a sorted tree the new node comes where the insertion into the list puts it.
  pub elems-graft : (t : Tree) → Sorted key (elems t) → elems (graft t) ≡ insert key p (elems t)
  unfolding insert
  elems-graft leaf s = refl
  elems-graft (node l q r) s =
      let (sl, sr) = Sorted-append (elems l) q (elems r) s in
      elim (Bool-cases (ltb (vruntime p) (vruntime q))) [
        | inl e ↦ rw e (
            ap (λ a. a ++ q ∷ elems r) (elems-graft l sl)
            ∙ sym (insert-early (elems l) q (elems r) e))
        | inr e ↦ rw e (
            ap (λ b. elems l ++ q ∷ b) (elems-graft r sr)
            ∙ sym (insert-late (elems l) q (elems r) e s))
      ]
