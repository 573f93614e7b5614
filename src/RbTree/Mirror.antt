-- ===== src/RbTree/Mirror.antt =====
-- The rotation to the right in process/rbtree.c is the one to the left in a mirror.
use apna_os.Prelude.{
  ℕ, ◌≡◌, refl, ◌≢◌, Option, none, some, Array, ◌∙◌, ap, sym, subst, fun_ext, update, Bool-cases,
  inl, inr, ◌==◌,
}
use apna_os.Prelude.Run.{Returns, returns}
use apna_os.Process.{RbNode}
use apna_os.RbTree.{
  RbTree, set_left, set_right, set_parent, points_to, adopt, hang_left, hang_right,
  rotate_left_with, rotate_right_with, rb_rotate_left, rb_rotate_right,
}
use apna_os.RbTree.Shape.{Tree, leaf, node, Stands, Outside, Apart, Proper, Away}
use apna_os.RbTree.Rotate.{turned}
use apna_os.RbTree.Sides.{
  Side, on_left, on_right, flip, kid, join, rotate, Rehangs, Turned, TurnedLeft-Turned,
}

-- The tree as in a mirror.
abbrev mir : RbNode → RbNode
mir n = record n { rb_left = n.rb_right; rb_right = n.rb_left }

abbrev mirror : RbTree → RbTree
mirror t = record { nodes = λ a. mir (t.nodes a); root = t.root }

mirror-update :
    (f : Array RbNode) (i : ℕ) (v : RbNode)
    → ◌≡◌ {A = Array RbNode} (λ a. mir (update f i v a)) (update (λ a. mir (f a)) i (mir v))
mirror-update f i v =
    fun_ext λ j. elim (Bool-cases (i == j)) [ inl e ↦ rw e refl | inr e ↦ rw e refl ]

mirror-write :
    (t : RbTree) (i : ℕ) (v : RbNode)
    → mirror (record t { nodes = update t.nodes i v })
      ≡ record { nodes = update (λ a. mir (t.nodes a)) i (mir v); root = t.root }
mirror-write t i v =
    ap (λ nodes. record { nodes = nodes; root = t.root }) (mirror-update t.nodes i v)

mirror-adopt : (z : Option ℕ) (x : ℕ) (t : RbTree) → mirror (adopt z x t) ≡ adopt z x (mirror t)
mirror-adopt none x t = refl
mirror-adopt (some w) x t = mirror-write t w (record (t.nodes w) { rb_parent = some x })

mirror-hang :
    (up : Option ℕ) (x y : ℕ) (t : RbTree)
    → mirror (hang_left up x y t) ≡ hang_right up x y (mirror t)
unfolding hang_left hang_right
mirror-hang none x y t = refl
mirror-hang (some p) x y t = elim (Bool-cases (points_to (t.nodes p).rb_left x)) [
  | inl e ↦ rw e (mirror-write t p (record (t.nodes p) { rb_left = some y }))
  | inr e ↦ rw e (mirror-write t p (record (t.nodes p) { rb_right = some y }))
]

-- The rotation to the right is the one to the left in the mirror.
mirror-rotate :
    (x y : ℕ) (t : RbTree) → mirror (rotate_left_with x y (mirror t)) ≡ rotate_right_with x y t
unfolding rotate_left_with rotate_right_with
mirror-rotate x y t =
    let up = (t.nodes x).rb_parent in
    let z = (t.nodes y).rb_right in
    let s1 = set_right x z (mirror t) in
    let s2 = adopt z x s1 in
    let s3 = set_left y (some x) s2 in
    let s4 = set_parent x (some y) s3 in
    let e1 : mirror s1 ≡ set_left x z t =
      mirror-write (mirror t) x (record ((mirror t).nodes x) { rb_right = z }) in
    let e2 : mirror s2 ≡ adopt z x (set_left x z t) = mirror-adopt z x s1 ∙ ap (adopt z x) e1 in
    let e3 : mirror s3 ≡ set_right y (some x) (adopt z x (set_left x z t)) =
      mirror-write s2 y (record (s2.nodes y) { rb_left = some x }) ∙ ap (set_right y (some x)) e2 in
    let e4 : mirror s4 ≡ set_parent x (some y) (set_right y (some x) (adopt z x (set_left x z t))) =
      mirror-write s3 x (record (s3.nodes x) { rb_parent = some y })
      ∙ ap (set_parent x (some y)) e3 in
    mirror-hang up x y (set_parent y up s4)
    ∙ ap (hang_right up x y)
        (mirror-write s4 y (record (s4.nodes y) { rb_parent = up }) ∙ ap (set_parent y up) e4)

abbrev mirror_tree : Tree → Tree
mirror_tree leaf = leaf
mirror_tree (node l x r) = node (mirror_tree r) x (mirror_tree l)

mirror-twice : (t : Tree) → mirror_tree (mirror_tree t) ≡ t
mirror-twice leaf = refl
mirror-twice (node l x r) = rw (mirror-twice l, mirror-twice r) refl

Stands-mirror :
    (b : Array RbNode) (at up : Option ℕ) (t : Tree)
    → Stands b at up t
    → Stands (λ a. mir (b a)) at up (mirror_tree t)
Stands-mirror b at up leaf s = s
Stands-mirror b at up (node l x r) (e, (p, (sl, sr))) = (
  e,
  (p, (Stands-mirror b (b x).rb_right (some x) r sr, Stands-mirror b (b x).rb_left (some x) l sl)),
)

Outside-mirror : (a : ℕ) (t : Tree) → Outside a t → Outside a (mirror_tree t)
Outside-mirror a leaf o = tt
Outside-mirror a (node l x r) (ol, (ne, or)) = (Outside-mirror a r or, (ne, Outside-mirror a l ol))

pub Apart-right :
    (t l : Tree) (x : ℕ) (r : Tree) → Apart t l → Outside x t → Apart t r → Apart t (node l x r)
Apart-right leaf l x r h o h' = tt
Apart-right (node t1 y t2) l x r (h1, (o1, h2)) (p1, (ne, p2)) (g1, (q1, g2)) =
    (Apart-right t1 l x r h1 p1 g1, ((o1, ((λ e. ne (sym e)), q1)), Apart-right t2 l x r h2 p2 g2))

pub Apart-leaf : (t : Tree) → Apart t leaf
Apart-leaf leaf = tt
Apart-leaf (node l x r) = (Apart-leaf l, (tt, Apart-leaf r))

-- Two trees that are apart are so in the mirror and the other way round.
Apart-mirror : (t u : Tree) → Apart t u → Apart (mirror_tree u) (mirror_tree t)
Apart-mirror leaf u h = Apart-leaf (mirror_tree u)
Apart-mirror (node l x r) u (hl, (o, hr)) =
    Apart-right (mirror_tree u) (mirror_tree r) x (mirror_tree l) (Apart-mirror r u hr)
      (Outside-mirror x u o) (Apart-mirror l u hl)

Proper-mirror : (t : Tree) → Proper t → Proper (mirror_tree t)
Proper-mirror leaf p = tt
Proper-mirror (node l x r) ((ol, or), (h, (pl, pr))) = (
  (Outside-mirror x r or, Outside-mirror x l ol),
  (Apart-mirror l r h, (Proper-mirror r pr, Proper-mirror l pl)),
)

Away-mirror : (up : Option ℕ) (t : Tree) → Away up t → Away up (mirror_tree t)
Away-mirror none t a = tt
Away-mirror (some p) t a = Outside-mirror p t a

kid-mirror : (s : Side) (n : RbNode) → kid s (mir n) ≡ kid (flip s) n
kid-mirror on_left n = refl
kid-mirror on_right n = refl

Rehangs-mirror :
    (up : Option ℕ) (x y : ℕ) (t u : RbTree)
    → Rehangs up x y (mirror t) u
    → Rehangs up x y t (mirror u)
Rehangs-mirror up x y t u h = record { at_root = h.at_root; below = below; root = h.root }
  where
    below :
        (s : Side) (p : ℕ)
        → up ≡ some p
        → kid s (t.nodes p) ≡ some x
        → kid (flip s) (t.nodes p) ≢ some x
        → (kid s (mir (u.nodes p)) ≡ some y)
          × ((kid (flip s) (mir (u.nodes p)) ≡ kid (flip s) (t.nodes p))
              × ((u.nodes p).rb_parent ≡ (t.nodes p).rb_parent))
    below on_left p e k ne = h.below on_right p e k ne
    below on_right p e k ne = h.below on_left p e k ne

module _ (x y : ℕ) (l m r : Tree) (t : RbTree) where
  to_right :
      Stands t.nodes (some x) (t.nodes x).rb_parent (join on_right l x (join on_right m y r))
      → Proper (join on_right l x (join on_right m y r))
      → Away (t.nodes x).rb_parent (join on_right l x (join on_right m y r))
      → Turned on_right x y l m r t (rotate_right_with x y t)
  to_right s p a =
      let whole = join on_right l x (join on_right m y r) in
      let up = (t.nodes x).rb_parent in
      let u = rotate_left_with x y (mirror t) in
      let v = TurnedLeft-Turned x y (mirror_tree l) (mirror_tree m) (mirror_tree r) (mirror t) u (
        turned x y (mirror_tree l) (mirror_tree m) (mirror_tree r) (mirror t)
          (Stands-mirror t.nodes (some x) up whole s) (Proper-mirror whole p)
          (Away-mirror up whole a)) in
      let back =
        Stands-mirror u.nodes (some y) up
          (node (node (mirror_tree l) x (mirror_tree m)) y (mirror_tree r)) v.stands in
      subst (Turned on_right x y l m r t) (mirror-rotate x y t) (record {
        stands = rw (mirror-twice l, mirror-twice m, mirror-twice r) at back;
        hangs = Rehangs-mirror up x y t u v.hangs;
        reds = v.reds;
        others = λ a o ne. ap mir (v.others a (Outside-mirror a whole o) ne);
      })

-- The rotation of `x` to a side takes the place of its child `y` on the other side. This is the
-- statement on `rb_rotate_left` for both sides.
pub rotate-Turned :
    (s : Side) (x y : ℕ) (l m r : Tree) (t : RbTree)
    → Stands t.nodes (some x) (t.nodes x).rb_parent (join s l x (join s m y r))
    → Proper (join s l x (join s m y r))
    → Away (t.nodes x).rb_parent (join s l x (join s m y r))
    → Returns (λ _ t'. Turned s x y l m r t t') (rotate s x t)
unfolding rotate rb_rotate_left rb_rotate_right
rotate-Turned on_left x y l m r t s p a =
    rw (s.1.1.1.0, rb_rotate_left)
      (returns (TurnedLeft-Turned x y l m r t (rotate_left_with x y t) (turned x y l m r t s p a)))
rotate-Turned on_right x y l m r t s p a =
    rw (s.1.1.0.0, rb_rotate_right) (returns (to_right x y l m r t s p a))
