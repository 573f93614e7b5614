-- ===== src/RbTree/Loop.antt =====
-- The loop of `rb_insert_color` in process/rbtree.c and its end.
use apna_os.Prelude.{
  [], ◌∷◌, ◌++◌, ℕ, zero, suc, ◌≡◌, refl, ◌≢◌, ◌<◌, false, Option, none, some, List, ◌∙◌, ap, sym,
  arith,
}
use apna_os.Prelude.Run
use apna_os.Prelude.Run.{Cmd, done, ◌>>◌, and_then, Returns, returns, bind, mono}
use apna_os.RbTree.{RbTree, set_red, insert_loop, blacken_root, rb_insert_color, is_red}
use apna_os.RbTree.Shape.{Tree, leaf, node}
use apna_os.RbTree.Sides.{on_left, on_right}
use apna_os.RbTree.Way.{Way, at_top, under, plug, elems}
use apna_os.RbTree.Place.{Whole}
use apna_os.RbTree.Colour.{Balanced, reds, Balanced-Same, set_red-here, set_red-Same}
use apna_os.RbTree.Paint.{Whole-set_red}
use apna_os.RbTree.Settle.{Pending}
use apna_os.RbTree.Fixup.{depth, RedBlack, LeftBy, is_red-top, round-Left}

-- As many rounds as there are nodes above the hole are enough.
loop-RedBlack :
    (fuel : ℕ) (t : RbTree) (es : List ℕ) (c : Way) (l : Tree) (x : ℕ) (r : Tree) (h : ℕ)
    → Pending t es c l x r h
    → depth c < fuel
    → Returns (λ _ t'. RedBlack t' es) (insert_loop fuel (some x) t)
unfolding insert_loop
loop-RedBlack zero t es c l x r h v few = absurd (omega (arith, few))
loop-RedBlack (suc fuel) t es c l x r h v few = bind (round-Left t es c l x r h v) (
    next λ t' y c' less l' r' h' pending.
      loop-RedBlack fuel t' es c' l' y r' h' pending (omega (arith, few, less)))
  where
    next :
        ((t' : RbTree) (y : ℕ) (c' : Way)
          → depth c' < depth c
          → (l' r' : Tree) (h' : ℕ) → Pending t' es c' l' y r' h'
          → Returns (λ _ t''. RedBlack t'' es) (insert_loop fuel (some y) t'))
        → (y : Option ℕ) (t' : RbTree) → LeftBy es (depth c) y t'
        → Returns (λ _ t''. RedBlack t'' es) (insert_loop fuel y t')
    next again none t' rb = returns rb
    next again (some y) t' (c', (less, (l', (r', (h', pending))))) =
        again t' y c' less l' r' h' pending

abbrev at_root : RbTree → Option ℕ → Run.Run RbTree (Unit {0})
at_root t none = Run.fault
at_root t (some top) = done tt (set_red top false t)

blacken-runs : (t : RbTree) (x : ℕ) → t.root ≡ some x → blacken_root t ≡ done tt (set_red x false t)
unfolding blacken_root
blacken-runs t x e = same t.root ∙ ap (at_root t) e
  where
    same :
        (o : Option ℕ)
        → ◌≡◌ {A = Run.Run RbTree (Unit {0})}
            (elim o [ none ↦ Run.fault | some top ↦ done tt (set_red top false t) ])
            (at_root t o)
    same none = refl
    same (some top) = refl

-- The black root: nothing else changes.
blacken-RedBlack :
    (t : RbTree) (es : List ℕ) (l : Tree) (x : ℕ) (r : Tree) (h : ℕ)
    → Whole t es (node l x r)
    → Balanced (reds t) (node l x r) h
    → Returns (λ _ t'. RedBlack t' es × (is_red t' t'.root ≡ false)) (blacken_root t)
blacken-RedBlack t es l x r h v (m, (bl, (br, _))) =
    let t' = set_red x false t in
    let ((xl, xr), _) = v.proper in
    let black = set_red-here x false t in
    rw (blacken-runs t x v.stands.0) (
      returns (
        record {
          tree = node l x r;
          whole = Whole-set_red x false t es (node l x r) v;
          height = suc m;
          balanced = (
            m,
            (
              Balanced-Same (reds t) (reds t') l m (set_red-Same x false t l xl) bl,
              (
                Balanced-Same (reds t) (reds t') r m (set_red-Same x false t r xr) br,
                rw black (refl, tt),
              ),
            ),
          );
        },
        is_red-top t' t'.root none (node l x r) (Whole-set_red x false t es (node l x r) v).stands
            ∙ black,
      ))

append-filled : (a : List ℕ) (x : ℕ) (b : List ℕ) → (a ++ x ∷ b) ≢ []
append-filled [] x b e = cc
append-filled (y ∷ a) x b e = cc

plug-filled : (c : Way) (l : Tree) (x : ℕ) (r : Tree) → elems (plug c (node l x r)) ≢ []
plug-filled at_top l x r = append-filled (elems l) x (elems r)
plug-filled (under on_left c p u) l x r = plug-filled c (node l x r) p u
plug-filled (under on_right c p u) l x r = plug-filled c u p (node l x r)

-- Where the nodes stand for a tree in which at most the red node `x` has a red parent, and the fuel
-- is more than the number of nodes above `x`, `rb_insert_color` of `x` ends without an access
-- through the null pointer. It leaves a red-black tree with a black root and the same nodes in the
-- same order.
pub rb_insert_color-RedBlack :
    (fuel : ℕ) (t : RbTree) (es : List ℕ) (c : Way) (l : Tree) (x : ℕ) (r : Tree) (h : ℕ)
    → Pending t es c l x r h
    → depth c < fuel
    → Returns (λ _ t'. RedBlack t' es × (is_red t' t'.root ≡ false)) (rb_insert_color fuel x t)
unfolding rb_insert_color
rb_insert_color-RedBlack fuel t es c l x r h v few =
    bind (loop-RedBlack fuel t es c l x r h v few)
      λ _ t' b. top-blacken t' b.tree b.height b.whole b.balanced
  where
    top-blacken :
        (t' : RbTree) (w : Tree) (h' : ℕ)
        → Whole t' es w
        → Balanced (reds t') w h'
        → Returns (λ _ t''. RedBlack t'' es × (is_red t'' t''.root ≡ false)) (blacken_root t')
    top-blacken t' leaf h' v' b = absurd (plug-filled c l x r (v.whole.order ∙ sym v'.order))
    top-blacken t' (node l' y r') h' v' b = blacken-RedBlack t' es l' y r' h' v' b
