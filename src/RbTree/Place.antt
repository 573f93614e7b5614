-- ===== src/RbTree/Place.antt =====
-- A rotation of process/rbtree.c at any place of the tree.
use apna_os.Prelude.{ℕ, ◌≡◌, refl, none, some, List, [], ◌∷◌, ◌++◌, ◌∙◌, ap, sym, subst}
use apna_os.Prelude.Run.{Returns, mono}
use apna_os.RbTree.{RbTree}
use apna_os.RbTree.Shape.{Tree, leaf, node, Stands, Outside, Apart, Proper, Apart-top}
use apna_os.RbTree.Sides.{Side, on_left, on_right, join, rotate}
use apna_os.RbTree.Mirror.{rotate-Turned}
use apna_os.RbTree.Way.{Way, at_top, under, plug, elems, unplug, replug, Hole, Stands-split}
use apna_os.RbTree.Rehang.{plug-Proper, Hole-Away, Hole-rehang, Apart-sym}

-- The second tree has the nodes of the first in the same order.
pub record Keeps (t u : Tree) : Type 0 where
  pub proper : Proper t → Proper u
  pub outside : (a : ℕ) → Outside a t → Outside a u
  pub order : elems u ≡ elems t

Keeps-Apart : {t u : Tree} → Keeps t u → (w : Tree) → Apart w t → Apart w u
Keeps-Apart k leaf h = tt
Keeps-Apart k (node l x r) (hl, (o, hr)) = (Keeps-Apart k l hl, (k.outside x o, Keeps-Apart k r hr))

Keeps-join :
    (s : Side) (t u : Tree) (p : ℕ) (w : Tree) → Keeps t u → Keeps (join s t p w) (join s u p w)
Keeps-join on_left t u p w k = record {
  proper = λ ((ot, ow), (h, (pt, pw))). (
    (k.outside p ot, ow),
    (Apart-sym w u (Keeps-Apart k w (Apart-sym t w h)), (k.proper pt, pw)),
  );
  outside = λ a (ot, o). (k.outside a ot, o);
  order = ap (λ l. l ++ p ∷ elems w) k.order;
}
Keeps-join on_right t u p w k = record {
  proper =
      λ ((ow, ot), (h, (pw, pt))). ((ow, k.outside p ot), (Keeps-Apart k w h, (pw, k.proper pt)));
  outside = λ a (ow, (ne, ot)). (ow, (ne, k.outside a ot));
  order = ap (λ l. elems w ++ p ∷ l) k.order;
}

pub Keeps-plug : (c : Way) (t u : Tree) → Keeps t u → Keeps (plug c t) (plug c u)
Keeps-plug at_top t u k = k
Keeps-plug (under s c p w) t u k =
    Keeps-plug c (join s t p w) (join s u p w) (Keeps-join s t u p w k)

append_assoc : (l m r : List ℕ) → (l ++ m) ++ r ≡ l ++ (m ++ r)
append_assoc [] m r = refl
append_assoc (x ∷ l) m r = ap (λ l. x ∷ l) (append_assoc l m r)

turn-Keeps :
    (s : Side) (l : Tree) (x : ℕ) (m : Tree) (y : ℕ) (r : Tree)
    → Keeps (join s l x (join s m y r)) (join s (join s l x m) y r)
turn-Keeps on_left l x m y r = record {
  proper = λ ((xl, (xm, (xy, xr))), (apl, (pl, ((ym, yr), (mr, (pm, pr)))))).
      let (yl, (lm, lr)) = Apart-top m y r l apl in
      (((yl, ((λ e. xy (sym e)), ym)), yr), ((lr, (xr, mr)), (((xl, xm), (lm, (pl, pm))), pr)));
  outside = λ a (ol, (ax, (om, (ay, or)))). ((ol, (ax, om)), (ay, or));
  order = append_assoc (elems l) (x ∷ elems m) (y ∷ elems r);
}
turn-Keeps on_right l x m y r = record {
  proper = λ (((xr, (xy, xm)), xl), ((rl, (yl, ml)), (((yr, ym), (rm, (pr, pm))), pl))). (
    (yr, (ym, ((λ e. xy (sym e)), yl))),
    (
      Apart-sym (node m x l) r (Apart-sym r m rm, (xr, Apart-sym r l rl)),
      (pr, ((xm, xl), (ml, (pm, pl)))),
    ),
  );
  outside = λ a ((or, (ay, om)), (ax, ol)). (or, (ay, (om, (ax, ol))));
  order = sym (append_assoc (elems r) (y ∷ elems m) (x ∷ elems l));
}

-- The tree from the root.
pub record Whole (t : RbTree) (es : List ℕ) (w : Tree) : Type 0 where
  pub stands : Stands t.nodes t.root none w
  pub proper : Proper w
  pub order : elems w ≡ es

pub top-Apart : (s : Side) (l : Tree) (x : ℕ) (r u : Tree) → Apart u (join s l x r) → Outside x u
top-Apart on_left l x r u h = (Apart-top l x r u h).0
top-Apart on_right l x r u h = (Apart-top r x l u h).0

-- After the rotation of `x` the nodes stand for a tree with the same nodes in the same order.
pub rotate-Whole :
    (s : Side) (c : Way) (x y : ℕ) (l m r : Tree) (es : List ℕ) (t : RbTree)
    → Whole t es (plug c (join s l x (join s m y r)))
    → Returns
        (λ _ t'.
          Whole t' es (plug c (join s (join s l x m) y r))
          × ((a : ℕ) → (t'.nodes a).rb_red ≡ (t.nodes a).rb_red))
        (rotate s x t)
rotate-Whole s c x y l m r es t v =
    let old = join s l x (join s m y r) in
    let new = join s (join s l x m) y r in
    let (at, (above, (hole, stands))) = unplug t.nodes t.root c old v.stands in
    let (e, (e', _)) = Stands-split t.nodes at above s l x (join s m y r) stands in
    let up = (t.nodes x).rb_parent in
    let hole' : Hole t.nodes t.root c (some x) up =
      subst (λ at. Hole t.nodes t.root c at up) e
        (subst (λ above. Hole t.nodes t.root c at above) (sym e') hole) in
    let stands' : Stands t.nodes (some x) up old =
      subst (λ at. Stands t.nodes at up old) e
        (subst (λ above. Stands t.nodes at above old) (sym e') stands) in
    let (proper, clear) = plug-Proper c old v.proper in
    let keeps = Keeps-plug c old new (turn-Keeps s l x m y r) in
    mono
      (rotate-Turned s x y l m r t stands' proper
        (Hole-Away t.nodes t.root c (some x) up old hole' clear))
      λ _ t' v'. (
        record {
          stands =
              replug t'.nodes t'.root c (some y) up new
                (Hole-rehang t t' c x y up old v'.hangs v'.others
                  (λ u. top-Apart s l x (join s m y r) u) v.proper hole')
                v'.stands;
          proper = keeps.proper v.proper;
          order = keeps.order ∙ v.order;
        },
        v'.reds,
      )
