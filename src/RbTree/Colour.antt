-- ===== src/RbTree/Colour.antt =====
-- The colours of the tree in process/rbtree.c: no red node has a red child, and every way down
-- meets as many black nodes.
use apna_os.Prelude.{
  ℕ, suc, ◌≡◌, refl, ◌≢◌, Bool, true, false, not, ◌∙◌, ap, update_self, update_ne,
}
use apna_os.RbTree.{RbTree, set_red}
use apna_os.RbTree.Shape.{Tree, leaf, node, Outside}
use apna_os.RbTree.Sides.{Side, on_left, on_right, join}
use apna_os.RbTree.Way.{Way, at_top, under}

-- One more for a black node.
abbrev pub level : Bool → ℕ → ℕ
level true n = n
level false n = suc n

abbrev pub top_red : (ℕ → Bool) → Tree → Bool
top_red red leaf = false
top_red red (node l x r) = red x

-- A red node's children are black.
abbrev pub Calm : Bool → Bool → Bool → Type 0
Calm true a b = (a ≡ false) × (b ≡ false)
Calm false a b = Unit

-- A red-black tree with `h` black nodes on every way down from its top.
abbrev pub Balanced : (ℕ → Bool) → Tree → ℕ → Type 0
Balanced red leaf h = h ≡ 0
Balanced red (node l x r) h =
    (m : ℕ) × (Balanced red l m
      × (Balanced red r m × ((h ≡ level (red x) m) × Calm (red x) (top_red red l) (top_red red r))))

abbrev pub below_black : (ℕ → Bool) → Way → Bool
below_black red at_top = false
below_black red (under s c p u) = not (red p)

-- A red node beside the hole's way has a black child there and stands below a black node.
abbrev pub Rests : Bool → Bool → Bool → Type 0
Rests true a b = (a ≡ false) × (b ≡ true)
Rests false a b = Unit

-- The hole wants a tree of `h`. The link to the tree in the hole is left out.
abbrev pub Wants : (ℕ → Bool) → Way → ℕ → Type 0
Wants red at_top h = Unit
Wants red (under s c p u) h =
    Balanced red u h
    × (Rests (red p) (top_red red u) (below_black red c) × Wants red c (level (red p) h))

abbrev pub Joins : (ℕ → Bool) → Tree → ℕ → Tree → ℕ → Type 0
Joins red l x r h =
    (m : ℕ) × (Balanced red l m
      × (Balanced red r m × ((h ≡ level (red x) m) × Calm (red x) (top_red red l) (top_red red r))))

Calm-swap : (c a b : Bool) → Calm c a b → Calm c b a
Calm-swap true a b (e, e') = (e', e)
Calm-swap false a b h = tt

pub Balanced-join :
    (red : ℕ → Bool) (s : Side) (l : Tree) (x : ℕ) (r : Tree) (h : ℕ)
    → Joins red l x r h
    → Balanced red (join s l x r) h
Balanced-join red on_left l x r h j = j
Balanced-join red on_right l x r h (m, (bl, (br, (e, c)))) =
    (m, (br, (bl, (e, Calm-swap (red x) (top_red red l) (top_red red r) c))))

pub top-join :
    (red : ℕ → Bool) (s : Side) (l : Tree) (x : ℕ) (r : Tree) → top_red red (join s l x r) ≡ red x
top-join red on_left l x r = refl
top-join red on_right l x r = refl

pub Balanced-split :
    (red : ℕ → Bool) (s : Side) (l : Tree) (x : ℕ) (r : Tree) (h : ℕ)
    → Balanced red (join s l x r) h
    → Joins red l x r h
Balanced-split red on_left l x r h j = j
Balanced-split red on_right l x r h (m, (br, (bl, (e, c)))) =
    (m, (bl, (br, (e, Calm-swap (red x) (top_red red r) (top_red red l) c))))

-- The tree's nodes have the same colours.
abbrev pub Same : (ℕ → Bool) → (ℕ → Bool) → Tree → Type 0
Same red red' leaf = Unit
Same red red' (node l x r) = Same red red' l × ((red' x ≡ red x) × Same red red' r)

pub Same-trans : (a b c : ℕ → Bool) (t : Tree) → Same a b t → Same b c t → Same a c t
Same-trans a b c leaf h g = tt
Same-trans a b c (node l x r) (hl, (e, hr)) (gl, (e', gr)) =
    (Same-trans a b c l hl gl, (e' ∙ e, Same-trans a b c r hr gr))

pub top-Same : (red red' : ℕ → Bool) (t : Tree) → Same red red' t → top_red red' t ≡ top_red red t
top-Same red red' leaf h = refl
top-Same red red' (node l x r) (hl, (e, hr)) = e

pub Balanced-Same :
    (red red' : ℕ → Bool) (t : Tree) (h : ℕ)
    → Same red red' t
    → Balanced red t h
    → Balanced red' t h
Balanced-Same red red' leaf h s b = b
Balanced-Same red red' (node l x r) h (sl, (e, sr)) (m, (bl, (br, (e', c)))) = (
  m,
  (
    Balanced-Same red red' l m sl bl,
    (
      Balanced-Same red red' r m sr br,
      rw (e, top-Same red red' l sl, top-Same red red' r sr) (e', c),
    ),
  ),
)

abbrev pub SameWay : (ℕ → Bool) → (ℕ → Bool) → Way → Type 0
SameWay red red' at_top = Unit
SameWay red red' (under s c p u) = Same red red' u × ((red' p ≡ red p) × SameWay red red' c)

pub below_black-Same :
    (red red' : ℕ → Bool) (c : Way) → SameWay red red' c → below_black red' c ≡ below_black red c
below_black-Same red red' at_top h = refl
below_black-Same red red' (under s c p u) (h, (e, g)) = ap not e

pub Wants-Same :
    (red red' : ℕ → Bool) (c : Way) (h : ℕ) → SameWay red red' c → Wants red c h → Wants red' c h
Wants-Same red red' at_top h s w = tt
Wants-Same red red' (under s c p u) h (su, (e, sc)) (b, (rests, w)) = (
  Balanced-Same red red' u h su b,
  (
    rw (e, top-Same red red' u su, below_black-Same red red' c sc) rests,
    rw e (Wants-Same red red' c (level (red p) h) sc w),
  ),
)

-- The colours in the nodes.
abbrev pub reds : RbTree → ℕ → Bool
reds t a = (t.nodes a).rb_red

pub set_red-here : (n : ℕ) (b : Bool) (t : RbTree) → reds (set_red n b t) n ≡ b
set_red-here n b t = ap (λ v. v.rb_red) (update_self t.nodes n (record (t.nodes n) { rb_red = b }))

pub set_red-there : (n a : ℕ) (b : Bool) (t : RbTree) → n ≢ a → reds (set_red n b t) a ≡ reds t a
set_red-there n a b t ne =
    ap (λ v. v.rb_red) (update_ne t.nodes n a (record (t.nodes n) { rb_red = b }) ne)

pub set_red-Same :
    (n : ℕ) (b : Bool) (t : RbTree) (u : Tree)
    → Outside n u
    → Same (reds t) (reds (set_red n b t)) u
set_red-Same n b t leaf o = tt
set_red-Same n b t (node l x r) (ol, (ne, or)) =
    (set_red-Same n b t l ol, (set_red-there n x b t ne, set_red-Same n b t r or))

pub SameWay-trans : (a b c : ℕ → Bool) (d : Way) → SameWay a b d → SameWay b c d → SameWay a c d
SameWay-trans a b c at_top h g = tt
SameWay-trans a b c (under s d p u) (hu, (e, h)) (gu, (e', g)) =
    (Same-trans a b c u hu gu, (e' ∙ e, SameWay-trans a b c d h g))
