-- ===== src/RbTree/First.antt =====
-- `rb_first` of process/rbtree.h: the process that `cfs_dequeue_min` takes.
use apna_os.Prelude.{
  ℕ, zero, suc, ◌≡◌, refl, ◌≤◌, Option, none, some, List, [], ◌∷◌, ◌++◌, length, length-append, ◌∙◌,
  ap, sym, subst, arith,
}
use apna_os.Prelude.Run.{done}
use apna_os.RbTree.{RbTree, leftmost, rb_first}
use apna_os.RbTree.Shape.{Tree, leaf, node, Stands}
use apna_os.RbTree.Way.{elems}
use apna_os.RbTree.Enqueue.{IsRunTree}

abbrev pub first : List ℕ → Option ℕ
first [] = none
first (x ∷ xs) = some x

first-append : (a : List ℕ) (y : ℕ) (b c : List ℕ) → first ((a ++ y ∷ b) ++ c) ≡ first (a ++ y ∷ b)
first-append [] y b c = refl
first-append (x ∷ a) y b c = refl

leftmost-first :
    (fuel : ℕ) (t : RbTree) (at above : Option ℕ) (w : Tree)
    → Stands t.nodes at above w
    → length (elems w) ≤ fuel
    → leftmost fuel at t ≡ done (first (elems w)) t
unfolding leftmost
leftmost-first fuel t at above leaf s few = rw s refl
leftmost-first zero t at above (node l x r) s few =
    absurd (omega (arith, few, length-append (elems l) (x ∷ elems r)))
leftmost-first (suc fuel) t at above (node leaf x r) (e, (_, (sl, sr))) few = rw (e, sl) refl
leftmost-first (suc fuel) t at above (node (node l y l') x r) (e, (_, (sl, sr))) few =
    let k = length-append (elems l ++ y ∷ elems l') (x ∷ elems r) in
    rw (e, sl.0)
      (leftmost-first fuel t (t.nodes x).rb_left (some x) (node l y l') sl (omega (arith, few, k))
        ∙ ap (λ o. done o t) (sym (first-append (elems l) y (elems l') (x ∷ elems r))))

-- In a tree of the waiting processes by their virtual run times, with as much fuel as it has
-- nodes, `rb_first` ends with the first node of the order, whose virtual run time is the least, or
-- the null pointer where there is none, and changes nothing.
rb_first-first :
    (vruntime : ℕ → ℕ) (fuel : ℕ) (t : RbTree) (es : List ℕ)
    → IsRunTree vruntime t es
    → length es ≤ fuel
    → rb_first fuel t ≡ done (first es) t
unfolding rb_first
rb_first-first vruntime fuel t es v few =
    let whole = v.red_black.whole in
    leftmost-first fuel t t.root none v.red_black.tree whole.stands
      (subst (λ es. length es ≤ fuel) (sym whole.order) few)
    ∙ ap (λ es. done (first es) t) whole.order
