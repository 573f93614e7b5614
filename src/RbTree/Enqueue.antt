-- ===== src/RbTree/Enqueue.antt =====
-- `cfs_enqueue` of process/process.c on the red-black tree of process/rbtree.c.
use apna_os.Prelude.{
  ℕ, ◌≡◌, refl, ◌≢◌, ◌<◌, Bool, true, false, not, none, List, [], ◌∷◌, ◌++◌, ◌∉◌, length, ◌∙◌, ap,
  sym, subst, true-ne-false, arith,
}
use apna_os.Prelude.Int.{pos}
use apna_os.Prelude.Run.{Returns, mono}
use apna_os.Process.Chain.{Sorted, insert, insert-Sorted}
use apna_os.RbTree.{RbTree, is_red, cfs_enqueue, rb_link_node}
use apna_os.RbTree.Shape.{Tree, leaf, node, Stands, Outside, Proper}
use apna_os.RbTree.Sides.{Side, join}
use apna_os.RbTree.Way.{Way, at_top, under, plug, elems}
use apna_os.RbTree.Colour.{
  top_red, Calm, Balanced, below_black, Rests, Wants, Balanced-split, top-join, Same, Balanced-Same,
  top-Same, reds,
}
use apna_os.RbTree.Settle.{Pending}
use apna_os.RbTree.Fixup.{RedBlack, is_red-top}
use apna_os.RbTree.Loop.{rb_insert_color-RedBlack}
use apna_os.RbTree.Graft.{
  parent_of, link_of, descend, descend-graft, descend-plug, depth-descend, find_link-descend,
  elems-graft,
}
use apna_os.RbTree.Linked.{Links, rb_link_node-Links}

-- The tree of the waiting processes: red-black with a black root, its nodes in the order of their
-- virtual run times.
pub record IsRunTree (vruntime : ℕ → ℕ) (t : RbTree) (es : List ℕ) : Type 0 where
  pub red_black : RedBlack t es
  pub black_root : is_red t t.root ≡ false
  pub sorted : Sorted (λ a. pos (vruntime a)) es

-- What a balanced tree has at a place.
record At (red : ℕ → Bool) (c : Way) (t : Tree) : Type 0 where
  height : ℕ
  tree : Balanced red t height
  way : Wants red c height
  parent : top_red red t ≡ true → below_black red c ≡ true

below-At :
    (red : ℕ → Bool) (s : Side) (c : Way) (t : Tree) (p : ℕ) (u : Tree)
    → At red c (join s t p u)
    → At red (under s c p u) t
below-At red s c t p u v =
    let (m, (bt, (bu, (e, calm)))) = Balanced-split red s t p u v.height v.tree in
    record {
      height = m;
      tree = bt;
      way = (
        bu,
        (
          rests (red p) (top_red red t) (top_red red u) (below_black red c) calm
              (λ e. v.parent (top-join red s t p u ∙ e)),
          subst (Wants red c) e v.way,
        ),
      );
      parent = λ e. black (red p) (top_red red t) (top_red red u) calm e;
    }
  where
    rests : (b a a' q : Bool) → Calm b a a' → (b ≡ true → q ≡ true) → Rests b a' q
    rests true a a' q (_, e) h = (e, h refl)
    rests false a a' q c h = tt

    black : (b a a' : Bool) → Calm b a a' → a ≡ true → not b ≡ true
    black true a a' (e, _) e' = absurd (true-ne-false e' e)
    black false a a' c e = refl

Balanced-At :
    (red : ℕ → Bool) (c : Way) (t : Tree) (h : ℕ)
    → Balanced red (plug c t) h
    → top_red red (plug c t) ≡ false
    → At red c t
Balanced-At red at_top t h b e = record {
  height = h;
  tree = b;
  way = tt;
  parent = λ e'. absurd (true-ne-false e' e);
}
Balanced-At red (under s c p u) t h b e =
    below-At red s c t p u (Balanced-At red c (join s t p u) h b e)

Same-others :
    (n : ℕ) (red red' : ℕ → Bool)
    → ((a : ℕ) → a ≢ n → red' a ≡ red a)
    → (t : Tree) → Outside n t
    → Same red red' t
Same-others n red red' h leaf o = tt
Same-others n red red' h (node l x r) (ol, (ne, or)) =
    (Same-others n red red' h l ol, (h x (λ e. ne (sym e)), Same-others n red red' h r or))

not-in-append :
    (n : ℕ) (a : List ℕ) (x : ℕ) (b : List ℕ) → n ∉ (a ++ x ∷ b) → (n ∉ a) × ((n ≢ x) × (n ∉ b))
not-in-append n [] x b (ne, h) = (tt, (ne, h))
not-in-append n (y ∷ a) x b (ne, h) =
    let (ha, (nx, hb)) = not-in-append n a x b h in ((ne, ha), (nx, hb))

not-in-Outside : (n : ℕ) (t : Tree) → n ∉ elems t → Outside n t
not-in-Outside n leaf h = tt
not-in-Outside n (node l x r) h =
    let (hl, (ne, hr)) = not-in-append n (elems l) x (elems r) h in
    (not-in-Outside n l hl, (ne, not-in-Outside n r hr))

-- The new node in its place, before the colours are put right.
linked-Pending :
    (t t' : RbTree) (c : Way) (n : ℕ) (es : List ℕ) (h : ℕ)
    → Links t t' c n
    → Outside n (plug c leaf)
    → Balanced (reds t) (plug c leaf) h
    → top_red (reds t) (plug c leaf) ≡ false
    → elems (plug c (node leaf n leaf)) ≡ es
    → Pending t' es c leaf n leaf 0
linked-Pending t t' c n es h v o b top order =
    let same = Same-others n (reds t) (reds t') v.others (plug c leaf) o in
    let at =
      Balanced-At (reds t') c leaf h (Balanced-Same (reds t) (reds t') (plug c leaf) h same b)
        (top-Same (reds t) (reds t') (plug c leaf) same ∙ top) in
    record {
      whole = v.whole es order;
      red = v.red;
      tree = (0, (refl, (refl, rw (v.red) (refl, (refl, refl)))));
      way = subst (Wants (reds t') c) at.tree at.way;
    }

-- In a red-black tree of the waiting processes by their virtual run times, where `p` is not in it
-- and the fuel is more than their number, `cfs_enqueue` of `p` ends without an access through the
-- null pointer. It leaves such a tree, and `p` stands in the order behind the processes whose
-- virtual run time is not larger than its own, before the others.
pub cfs_enqueue-insert :
    (vruntime : ℕ → ℕ) (fuel p : ℕ) (t : RbTree) (es : List ℕ)
    → IsRunTree vruntime t es
    → p ∉ es
    → length es < fuel
    → Returns
        (λ _ t'. IsRunTree vruntime t' (insert (λ a. pos (vruntime a)) p es))
        (cfs_enqueue vruntime fuel p t)
unfolding cfs_enqueue
cfs_enqueue-insert vruntime fuel p t es v new few =
    let w = v.red_black.tree in
    let whole = v.red_black.whole in
    let few' : length (elems w) < fuel = subst (λ es. length es < fuel) (sym whole.order) few in
    let c = descend vruntime p at_top w in
    let back : w ≡ plug c leaf = sym (descend-plug vruntime p at_top w) in
    let out = not-in-Outside p w (subst (λ es. p ∉ es) (sym whole.order) new) in
    let top = sym (is_red-top t t.root none w whole.stands) ∙ v.black_root in
    let sorted = subst (Sorted (λ a. pos (vruntime a))) (sym whole.order) v.sorted in
    let order =
      ap elems (descend-graft vruntime p at_top w)
      ∙ elems-graft vruntime p w sorted
      ∙ ap (insert (λ a. pos (vruntime a)) p) whole.order in
    let t' = rb_link_node p (parent_of c) (link_of c) t in
    let links =
      rb_link_node-Links t c p (subst (Stands t.nodes t.root none) back whole.stands)
        (subst Proper back whole.proper) (subst (Outside p) back out) in
    let pending =
      linked-Pending t t' c p (insert (λ a. pos (vruntime a)) p es) v.red_black.height links
        (subst (Outside p) back out)
        (subst (λ w. Balanced (reds t) w v.red_black.height) back v.red_black.balanced)
        (subst (λ w. top_red (reds t) w ≡ false) back top) order in
    rw (find_link-descend vruntime p fuel t at_top t.root none w whole.stands (omega (arith, few')))
      (mono
        (rb_insert_color-RedBlack fuel t' (insert (λ a. pos (vruntime a)) p es) c leaf p leaf 0
          pending (omega (arith, few', depth-descend vruntime p at_top w)))
        λ _ t'' (rb, black). record {
          red_black = rb;
          black_root = black;
          sorted = insert-Sorted (λ a. pos (vruntime a)) p es v.sorted;
        })
