-- ===== src/RbTree/Linked.antt =====
-- `rb_link_node` of process/rbtree.h at a free place of the tree.
use apna_os.Prelude.{
  ℕ, ◌≡◌, refl, ◌≢◌, true, Option, none, some, List, ◌∙◌, ap, sym, subst, update, update_self,
  update_ne, ℕ_discrete,
}
use apna_os.Process.{RbNode}
use apna_os.RbTree.{RbTree, at_root, left_of, right_of, rb_link_node}
use apna_os.RbTree.Shape.{Tree, leaf, node, Stands, Outside, Apart, Proper}
use apna_os.RbTree.Sides.{Side, on_left, on_right, flip, kid, join}
use apna_os.RbTree.Mirror.{Apart-right, Apart-leaf}
use apna_os.RbTree.Way.{Way, at_top, under, plug, elems, Hole, unplug, replug}
use apna_os.RbTree.Rehang.{plug-Proper, Stands-same, Hole-same, Apart-sym, Proper-Parts}
use apna_os.RbTree.Place.{Whole}
use apna_os.RbTree.Settle.{Outside-parts}
use apna_os.RbTree.Colour.{reds}
use apna_os.RbTree.Graft.{parent_of, link_of}

-- The second tree has the nodes of the first, and `n`.
record Grown (n : ℕ) (t u : Tree) : Type 0 where
  proper : Proper t → Proper u
  outside : (a : ℕ) → a ≢ n → Outside a t → Outside a u

Grown-Apart : {n : ℕ} {t u : Tree} → Grown n t u → (w : Tree) → Outside n w → Apart w t → Apart w u
Grown-Apart k leaf o h = tt
Grown-Apart k (node l x r) (ol, (ne, or)) (hl, (o, hr)) =
    (Grown-Apart k l ol hl, (k.outside x (λ e. ne (sym e)) o, Grown-Apart k r or hr))

Grown-join :
    (s : Side) (n : ℕ) (t u : Tree) (p : ℕ) (w : Tree)
    → n ≢ p
    → Outside n w
    → Grown n t u
    → Grown n (join s t p w) (join s u p w)
Grown-join on_left n t u p w ne o k = record {
  proper = λ ((ot, ow), (h, (pt, pw))). (
    (k.outside p (λ e. ne (sym e)) ot, ow),
    (Apart-sym w u (Grown-Apart k w o (Apart-sym t w h)), (k.proper pt, pw)),
  );
  outside = λ a ne (ot, o). (k.outside a ne ot, o);
}
Grown-join on_right n t u p w ne o k = record {
  proper = λ ((ow, ot), (h, (pw, pt))).
      ((ow, k.outside p (λ e. ne (sym e)) ot), (Grown-Apart k w o h, (pw, k.proper pt)));
  outside = λ a ne (ow, (ne', ot)). (ow, (ne', k.outside a ne ot));
}

-- A node that is not in the tree is not beside the way to a place of it.
plug-Outside : (c : Way) (n : ℕ) (t : Tree) → Outside n (plug c t) → Outside n t
plug-Outside at_top n t o = o
plug-Outside (under s c p u) n t o = (Outside-parts s n t p u (plug-Outside c n (join s t p u) o)).0

Grown-plug :
    (c : Way) (n : ℕ) (t u : Tree)
    → Outside n (plug c t)
    → Grown n t u
    → Grown n (plug c t) (plug c u)
Grown-plug at_top n t u o k = k
Grown-plug (under s c p w) n t u o k =
    let (_, (ne, ow)) = Outside-parts s n t p w (plug-Outside c n (join s t p w) o) in
    Grown-plug c n (join s t p w) (join s u p w) o (Grown-join s n t u p w ne ow k)

abbrev one : ℕ → Tree
one n = node leaf n leaf

pub one-Proper :
    (c : Way) (n : ℕ) → Proper (plug c leaf) → Outside n (plug c leaf) → Proper (plug c (one n))
one-Proper c n h o =
    (Grown-plug c n leaf (one n) o (record {
      proper = λ _. ((tt, tt), (tt, (tt, tt)));
      outside = λ a ne _. (tt, (ne, tt));
    })).proper
      h

-- What `rb_link_node` makes of the nodes.
pub record Links (t t' : RbTree) (c : Way) (n : ℕ) : Type 0 where
  pub whole : (es : List ℕ) → elems (plug c (one n)) ≡ es → Whole t' es (plug c (one n))
  pub red : reds t' n ≡ true
  pub others : (a : ℕ) → a ≢ n → reds t' a ≡ reds t a

abbrev fresh : Option ℕ → RbNode
fresh parent = record { rb_left = none; rb_right = none; rb_parent = parent; rb_red = true }

-- The writes of `rb_link_node` below the node `q`.
record Hung (t t' : RbTree) (s : Side) (q n : ℕ) : Type 0 where
  new : t'.nodes n ≡ fresh (some q)
  near : kid s (t'.nodes q) ≡ some n
  far : kid (flip s) (t'.nodes q) ≡ kid (flip s) (t.nodes q)
  parent : (t'.nodes q).rb_parent ≡ (t.nodes q).rb_parent
  red : reds t' q ≡ reds t q
  root : t'.root ≡ t.root
  others : (a : ℕ) → a ≢ n → a ≢ q → t'.nodes a ≡ t.nodes a

hang-Links :
    (t t' : RbTree) (s : Side) (c : Way) (q : ℕ) (u : Tree) (n : ℕ)
    → Stands t.nodes t.root none (plug (under s c q u) leaf)
    → Proper (plug (under s c q u) leaf)
    → Outside n (plug (under s c q u) leaf)
    → (n ≢ q → Hung t t' s q n)
    → Links t t' (under s c q u) n
hang-Links t t' s c q u n st proper o hung =
    let (at, (above, ((_, (k, (su, hole))), _))) = unplug t.nodes t.root (under s c q u) leaf st in
    let (_, (nq, _)) = Outside-parts s n leaf q u (plug-Outside c n (join s leaf q u) o) in
    let v = hung nq in
    let proper' = one-Proper (under s c q u) n proper o in
    let (pj, clear) = plug-Proper c (join s (one n) q u) proper' in
    let parts = Proper-Parts s (one n) q u pj in
    let same : (a : ℕ) → Outside a (join s (one n) q u) → t'.nodes a ≡ t.nodes a =
      λ a o. let ((_, (an, _)), (aq, _)) = Outside-parts s a (one n) q u o in v.others a an aq in
    let same' : (a : ℕ) → Outside a (node (one n) q leaf) → t'.nodes a ≡ t.nodes a =
      λ a o. let ((_, (an, _)), (aq, _)) = o in v.others a an aq in
    let su' =
      Stands-same t.nodes t'.nodes (kid (flip s) (t.nodes q)) (some q) u (node (one n) q leaf) same'
        (Apart-right u (one n) q leaf parts.apart parts.out' (Apart-leaf u)) su in
    let hole' =
      Hole-same t.nodes t'.nodes t.root t'.root c (some q) (t.nodes q).rb_parent
        (join s (one n) q u) same v.root clear hole in
    record {
      whole = λ es e. record {
        stands =
            replug t'.nodes t'.root (under s c q u) (some n) (some q) (one n)
              (
                refl,
                (
                  v.near,
                  (
                    subst (λ at. Stands t'.nodes at (some q) u) (sym v.far) su',
                    subst (λ up. Hole t'.nodes t'.root c (some q) up) (sym v.parent) hole',
                  ),
                ),
              )
              (refl, rw (v.new) (refl, (refl, refl)));
        proper = proper';
        order = e;
      };
      red = ap (λ v. v.rb_red) v.new;
      others = λ a an. elim (ℕ_discrete a q) [
        | yes e ↦ subst (λ a. reds t' a ≡ reds t a) (sym e) v.red
        | no aq ↦ ap (λ v. v.rb_red) (v.others a an aq)
      ];
    }

pub rb_link_node-Links :
    (t : RbTree) (c : Way) (n : ℕ)
    → Stands t.nodes t.root none (plug c leaf)
    → Proper (plug c leaf)
    → Outside n (plug c leaf)
    → Links t (rb_link_node n (parent_of c) (link_of c) t) c n
unfolding rb_link_node
rb_link_node-Links t at_top n s proper o =
    let t' = rb_link_node n none at_root t in
    let new : t'.nodes n ≡ fresh none = update_self t.nodes n (fresh none) in
    record {
      whole = λ es e. record {
        stands = (refl, rw new (refl, (refl, refl)));
        proper = one-Proper at_top n proper o;
        order = e;
      };
      red = ap (λ v. v.rb_red) new;
      others = λ a ne. ap (λ v. v.rb_red) (update_ne t.nodes n a (fresh none) (λ e. ne (sym e)));
    }
rb_link_node-Links t (under on_left c q u) n s proper o =
    let t1 = record t { nodes = update t.nodes n (fresh (some q)) } in
    hang-Links t (rb_link_node n (some q) (left_of q) t) on_left c q u n s proper o (λ ne.
      let at_n =
        update_ne t1.nodes q n (record (t1.nodes q) { rb_left = some n }) (λ e. ne (sym e)) in
      let at_q = update_self t1.nodes q (record (t1.nodes q) { rb_left = some n }) in
      let before = update_ne t.nodes n q (fresh (some q)) ne in
      record {
        new = at_n ∙ update_self t.nodes n (fresh (some q));
        near = ap (λ v. v.rb_left) at_q;
        far = ap (λ v. v.rb_right) at_q ∙ ap (λ v. v.rb_right) before;
        parent = ap (λ v. v.rb_parent) at_q ∙ ap (λ v. v.rb_parent) before;
        red = ap (λ v. v.rb_red) at_q ∙ ap (λ v. v.rb_red) before;
        root = refl;
        others = λ a an aq.
            update_ne t1.nodes q a (record (t1.nodes q) { rb_left = some n }) (λ e. aq (sym e))
            ∙ update_ne t.nodes n a (fresh (some q)) (λ e. an (sym e));
      })
rb_link_node-Links t (under on_right c q u) n s proper o =
    let t1 = record t { nodes = update t.nodes n (fresh (some q)) } in
    hang-Links t (rb_link_node n (some q) (right_of q) t) on_right c q u n s proper o (λ ne.
      let at_n =
        update_ne t1.nodes q n (record (t1.nodes q) { rb_right = some n }) (λ e. ne (sym e)) in
      let at_q = update_self t1.nodes q (record (t1.nodes q) { rb_right = some n }) in
      let before = update_ne t.nodes n q (fresh (some q)) ne in
      record {
        new = at_n ∙ update_self t.nodes n (fresh (some q));
        near = ap (λ v. v.rb_right) at_q;
        far = ap (λ v. v.rb_left) at_q ∙ ap (λ v. v.rb_left) before;
        parent = ap (λ v. v.rb_parent) at_q ∙ ap (λ v. v.rb_parent) before;
        red = ap (λ v. v.rb_red) at_q ∙ ap (λ v. v.rb_red) before;
        root = refl;
        others = λ a an aq.
            update_ne t1.nodes q a (record (t1.nodes q) { rb_right = some n }) (λ e. aq (sym e))
            ∙ update_ne t.nodes n a (fresh (some q)) (λ e. an (sym e));
      })
