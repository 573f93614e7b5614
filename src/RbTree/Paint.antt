-- ===== src/RbTree/Paint.antt =====
-- The change of a node's colour in process/rbtree.c, below and beside a place of the tree.
use apna_os.Prelude.{
  ℕ, ◌≡◌, refl, ◌≢◌, ◌⊎◌, inl, inr, Bool, true, false, not, Option, none, some, Array, List, ◌∙◌,
  sym, subst, update-view, true-ne-false,
}
use apna_os.Process.{RbNode}
use apna_os.RbTree.{RbTree, set_red}
use apna_os.RbTree.Shape.{Tree, leaf, node, Stands, Outside, Apart}
use apna_os.RbTree.Sides.{Side, on_left, on_right, join}
use apna_os.RbTree.Way.{Way, at_top, under, plug, Clear}
use apna_os.RbTree.Place.{Whole}
use apna_os.RbTree.Colour.{
  level, top_red, Calm, Balanced, below_black, Rests, Wants, Balanced-join, top-join, SameWay, reds,
  set_red-there, set_red-Same,
}

-- A node of the tree.
abbrev pub Has : ℕ → Tree → Type 0
Has n leaf = ⊥
Has n (node l x r) = Has n l ⊎ ((x ≡ n) ⊎ Has n r)

pub Has-top : (s : Side) (l : Tree) (x : ℕ) (r : Tree) → Has x (join s l x r)
Has-top on_left l x r = inr (inl refl)
Has-top on_right l x r = inr (inl refl)

pub Has-near : (s : Side) (n : ℕ) (l : Tree) (x : ℕ) (r : Tree) → Has n l → Has n (join s l x r)
Has-near on_left n l x r h = inl h
Has-near on_right n l x r h = inr (inr h)

pub Has-far : (s : Side) (n : ℕ) (l : Tree) (x : ℕ) (r : Tree) → Has n r → Has n (join s l x r)
Has-far on_left n l x r h = inr (inr h)
Has-far on_right n l x r h = inl h

Has-ne : (n p : ℕ) (t : Tree) → Has n t → Outside p t → n ≢ p
Has-ne n p leaf h o = absurd h
Has-ne n p (node l x r) (inl h) (ol, o) = Has-ne n p l h ol
Has-ne n p (node l x r) (inr (inl e)) (ol, (ne, or)) = λ e'. ne (sym e' ∙ sym e)
Has-ne n p (node l x r) (inr (inr h)) (ol, (ne, or)) = Has-ne n p r h or

Has-Apart : (n : ℕ) (u t : Tree) → Has n t → Apart u t → Outside n u
Has-Apart n leaf t h a = tt
Has-Apart n (node l x r) t h (al, (o, ar)) =
    (Has-Apart n l t h al, (Has-ne n x t h o, Has-Apart n r t h ar))

pub set_red-SameWay :
    (n : ℕ) (b : Bool) (t : RbTree) (c : Way) (w : Tree)
    → Has n w
    → Clear c w
    → SameWay (reds t) (reds (set_red n b t)) c
set_red-SameWay n b t at_top w h k = tt
set_red-SameWay n b t (under s c p u) w h (o, (a, k)) = (
  set_red-Same n b t u (Has-Apart n u w h a),
  (set_red-there n p b t (Has-ne n p w h o), set_red-SameWay n b t c w h k),
)

Stands-links :
    (b b' : Array RbNode)
    → ((a : ℕ) → (b' a).rb_left ≡ (b a).rb_left)
    → ((a : ℕ) → (b' a).rb_right ≡ (b a).rb_right)
    → ((a : ℕ) → (b' a).rb_parent ≡ (b a).rb_parent)
    → (at up : Option ℕ) (t : Tree) → Stands b at up t
    → Stands b' at up t
Stands-links b b' left right parent at up leaf s = s
Stands-links b b' left right parent at up (node l x r) (e, (p, (sl, sr))) = (
  e,
  (
    parent x ∙ p,
    (
      subst (λ at. Stands b' at (some x) l) (sym (left x))
          (Stands-links b b' left right parent (b x).rb_left (some x) l sl),
      subst (λ at. Stands b' at (some x) r) (sym (right x))
          (Stands-links b b' left right parent (b x).rb_right (some x) r sr),
    ),
  ),
)

pub Whole-set_red :
    (n : ℕ) (b : Bool) (t : RbTree) (es : List ℕ) (w : Tree)
    → Whole t es w
    → Whole (set_red n b t) es w
Whole-set_red n b t es w v =
    let changed = record (t.nodes n) { rb_red = b } in
    record {
      stands =
          Stands-links t.nodes (set_red n b t).nodes
            (update-view (λ v. v.rb_left) t.nodes n changed refl)
            (update-view (λ v. v.rb_right) t.nodes n changed refl)
            (update-view (λ v. v.rb_parent) t.nodes n changed refl) t.root none w v.stands;
      proper = v.proper;
      order = v.order;
    }

abbrev pub under_red_node : (ℕ → Bool) → Way → Bool
under_red_node red at_top = false
under_red_node red (under s c p u) = red p

pub black-not_red :
    (red : ℕ → Bool) (c : Way) → below_black red c ≡ true → under_red_node red c ≡ false
black-not_red red at_top e = refl
black-not_red red (under s c p u) e = black-of (red p) e
  where
    black-of : (b : Bool) → not b ≡ true → b ≡ false
    black-of true e = sym e
    black-of false e = refl

-- A black node, or a node below a black one, fills the hole.
pub Balanced-plug :
    (red : ℕ → Bool) (c : Way) (t : Tree) (h : ℕ)
    → Balanced red t h
    → Wants red c h
    → (top_red red t ≡ true → under_red_node red c ≡ false)
    → (h : ℕ) × Balanced red (plug c t) h
Balanced-plug red at_top t h b w meets = (h, b)
Balanced-plug red (under s c p u) t h b (bu, (rests, w)) meets =
    let joined = Balanced-join red s t p u (level (red p) h) (
      h,
      (
        b,
        (bu, (refl, calm (red p) (top_red red t) (top_red red u) (below_black red c) rests meets)),
      ),
    ) in
    Balanced-plug red c (join s t p u) (level (red p) h) joined w λ e.
      black-not_red red c
        (above (red p) (top_red red u) (below_black red c) rests (sym (top-join red s t p u) ∙ e))
  where
    calm : (b a a' q : Bool) → Rests b a' q → (a ≡ true → b ≡ false) → Calm b a a'
    calm true true a' q r m = absurd (true-ne-false refl (m refl))
    calm true false a' q (e, e') m = (refl, e)
    calm false a a' q r m = tt

    above : (b a q : Bool) → Rests b a q → b ≡ true → q ≡ true
    above true a q (e, e') h = e'
    above false a q r h = absurd (true-ne-false h refl)
