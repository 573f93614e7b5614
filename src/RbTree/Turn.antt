-- ===== src/RbTree/Turn.antt =====
-- The writes of `rb_rotate_left` in process/rbtree.c.
use apna_os.Prelude.{
  ℕ, ◌≡◌, refl, ◌≢◌, Option, none, some, Array, ◌∙◌, ap, sym, subst, update_self, update_ne,
  update-view, Bool, Bool-cases, inl, inr, if◌then◌else◌,
}
use apna_os.Process.{RbNode}
use apna_os.RbTree.{
  RbTree, set_left, set_right, set_parent, points_to, adopt, hang_left, rotate_left_with,
}

-- What a rotation of `x` below `above` does, whose child `y` has the inner child `z`.
pub record Turns (x y : ℕ) (z above : Option ℕ) (b b' : Array RbNode) : Type 0 where
  pub low : b' x ≡ record (b x) { rb_right = z; rb_parent = some y }
  pub high : b' y ≡ record (b y) { rb_left = some x; rb_parent = above }
  pub inner : (w : ℕ) → z ≡ some w → b' w ≡ record (b w) { rb_parent = some x }
  pub others : (a : ℕ) → x ≢ a → y ≢ a → z ≢ some a → above ≢ some a → b' a ≡ b a

hang_left-others :
    (above : Option ℕ) (x y a : ℕ) (t : RbTree)
    → above ≢ some a
    → (hang_left above x y t).nodes a ≡ t.nodes a
unfolding hang_left
hang_left-others none x y a t ne = refl
hang_left-others (some p) x y a t ne = elim (Bool-cases (points_to (t.nodes p).rb_left x)) [
  | inl e ↦
      rw e (update_ne t.nodes p a (record (t.nodes p) { rb_left = some y }) (λ e. ne (ap some e)))
  | inr e ↦
      rw e (update_ne t.nodes p a (record (t.nodes p) { rb_right = some y }) (λ e. ne (ap some e)))
]

adopt-others :
    (z : Option ℕ) (x a : ℕ) (t : RbTree) → z ≢ some a → (adopt z x t).nodes a ≡ t.nodes a
adopt-others none x a t ne = refl
adopt-others (some w) x a t ne =
    update_ne t.nodes w a (record (t.nodes w) { rb_parent = some x }) (λ e. ne (ap some e))

adopt-child :
    (z : Option ℕ) (x w : ℕ) (t : RbTree)
    → z ≡ some w
    → (adopt z x t).nodes w ≡ record (t.nodes w) { rb_parent = some x }
adopt-child z x w t e =
    subst (λ z. (adopt z x t).nodes w ≡ record (t.nodes w) { rb_parent = some x }) (sym e)
      (update_self t.nodes w (record (t.nodes w) { rb_parent = some x }))

module _ (x y : ℕ) (t : RbTree) where
  abbrev above : Option ℕ
  above = (t.nodes x).rb_parent

  abbrev pub z : Option ℕ
  z = (t.nodes y).rb_left

  abbrev t1 : RbTree
  t1 = adopt z x (set_right x z t)

  abbrev t2 : RbTree
  t2 = set_left y (some x) t1

  abbrev t3 : RbTree
  t3 = set_parent x (some y) t2

  abbrev t4 : RbTree
  t4 = set_parent y above t3

  pub rotate_left_with-Turns :
      x ≢ y
      → z ≢ some x
      → z ≢ some y
      → above ≢ some x
      → above ≢ some y
      → ((w : ℕ) → z ≡ some w → above ≢ some w)
      → Turns x y z above t.nodes (rotate_left_with x y t).nodes
  unfolding rotate_left_with
  rotate_left_with-Turns xy zx zy px py pz =
      let yx : y ≢ x = λ e. xy (sym e) in
      let under : Option ℕ → RbNode → RbNode = λ p n. record n { rb_parent = p } in
      let over : RbNode → RbNode = λ n. record n { rb_left = some x } in
      let v1 = record (t.nodes x) { rb_right = z } in
      let at_x : t1.nodes x ≡ v1 =
        adopt-others z x x (set_right x z t) zx ∙ update_self t.nodes x v1 in
      let at_y : t1.nodes y ≡ t.nodes y =
        adopt-others z x y (set_right x z t) zy ∙ update_ne t.nodes x y v1 xy in
      let pass = λ (a : ℕ) (nx : x ≢ a) (ny : y ≢ a) (na : above ≢ some a).
        hang_left-others above x y a t4 na
        ∙ update_ne t3.nodes y a (record (t3.nodes y) { rb_parent = above }) ny
        ∙ update_ne t2.nodes x a (record (t2.nodes x) { rb_parent = some y }) nx
        ∙ update_ne t1.nodes y a (record (t1.nodes y) { rb_left = some x }) ny in
      record {
        low =
            hang_left-others above x y x t4 px
            ∙ update_ne t3.nodes y x (record (t3.nodes y) { rb_parent = above }) yx
            ∙ update_self t2.nodes x (record (t2.nodes x) { rb_parent = some y })
            ∙ ap (under (some y))
                (update_ne t1.nodes y x (record (t1.nodes y) { rb_left = some x }) yx ∙ at_x);
        high =
            hang_left-others above x y y t4 py
            ∙ update_self t3.nodes y (record (t3.nodes y) { rb_parent = above })
            ∙ ap (under above) (
                update_ne t2.nodes x y (record (t2.nodes x) { rb_parent = some y }) xy
                ∙ update_self t1.nodes y (record (t1.nodes y) { rb_left = some x })
                ∙ ap over at_y);
        inner = λ w e.
            let xw : x ≢ w = λ same. zx (e ∙ ap some (sym same)) in
            let yw : y ≢ w = λ same. zy (e ∙ ap some (sym same)) in
            pass w xw yw (pz w e)
            ∙ adopt-child z x w (set_right x z t) e
            ∙ ap (under (some x)) (update_ne t.nodes x w v1 xw);
        others = λ a nx ny nz na.
            pass a nx ny na ∙ adopt-others z x a (set_right x z t) nz ∙ update_ne t.nodes x a v1 nx;
      }

-- The link of the node above, or the root, leads to `y` instead of `x`.
abbrev pub Hangs : Option ℕ → ℕ → ℕ → RbTree → RbTree → Type 0
Hangs none x y t t' = t'.root ≡ some y
Hangs (some p) x y t t' =
    if points_to (t.nodes p).rb_left x
    then t'.nodes p ≡ record (t.nodes p) { rb_left = some y }
    else t'.nodes p ≡ record (t.nodes p) { rb_right = some y }

hang_left-Hangs :
    (above : Option ℕ) (x y : ℕ) (t : RbTree) → Hangs above x y t (hang_left above x y t)
unfolding hang_left
hang_left-Hangs none x y t = refl
hang_left-Hangs (some p) x y t = elim (Bool-cases (points_to (t.nodes p).rb_left x)) [
  | inl e ↦ rw e (update_self t.nodes p (record (t.nodes p) { rb_left = some y }))
  | inr e ↦ rw e (update_self t.nodes p (record (t.nodes p) { rb_right = some y }))
]

Hangs-same :
    (above : Option ℕ) (x y : ℕ) (t t' u : RbTree)
    → ((p : ℕ) → above ≡ some p → t'.nodes p ≡ t.nodes p)
    → Hangs above x y t' u
    → Hangs above x y t u
Hangs-same none x y t t' u same h = h
Hangs-same (some p) x y t t' u same h =
    subst
      (λ n.
        if points_to n.rb_left x
        then u.nodes p ≡ record n { rb_left = some y }
        else u.nodes p ≡ record n { rb_right = some y })
      (same p refl) h

pub rotate_left_with-Hangs :
    (x y : ℕ) (t : RbTree)
    → ((p : ℕ) → above x y t ≡ some p → (x ≢ p) × ((y ≢ p) × (z x y t ≢ some p)))
    → Hangs (above x y t) x y t (rotate_left_with x y t)
unfolding rotate_left_with
rotate_left_with-Hangs x y t far =
    Hangs-same (above x y t) x y t (t4 x y t) (rotate_left_with x y t)
      (λ p e.
        let (nx, (ny, nz)) = far p e in
        let t1 = t1 x y t in
        let t2 = t2 x y t in
        let t3 = t3 x y t in
        update_ne t3.nodes y p (record (t3.nodes y) { rb_parent = above x y t }) ny
        ∙ update_ne t2.nodes x p (record (t2.nodes x) { rb_parent = some y }) nx
        ∙ update_ne t1.nodes y p (record (t1.nodes y) { rb_left = some x }) ny
        ∙ adopt-others (z x y t) x p (set_right x (z x y t) t) nz
        ∙ update_ne t.nodes x p (record (t.nodes x) { rb_right = z x y t }) nx)
      (hang_left-Hangs (above x y t) x y (t4 x y t))

abbrev red_of : RbNode → Bool
red_of n = n.rb_red

adopt-reds :
    (z : Option ℕ) (x : ℕ) (t : RbTree) (a : ℕ)
    → red_of ((adopt z x t).nodes a) ≡ red_of (t.nodes a)
adopt-reds none x t a = refl
adopt-reds (some w) x t a =
    update-view red_of t.nodes w (record (t.nodes w) { rb_parent = some x }) refl a

hang_left-reds :
    (above : Option ℕ) (x y : ℕ) (t : RbTree) (a : ℕ)
    → red_of ((hang_left above x y t).nodes a) ≡ red_of (t.nodes a)
unfolding hang_left
hang_left-reds none x y t a = refl
hang_left-reds (some p) x y t a = elim (Bool-cases (points_to (t.nodes p).rb_left x)) [
  | inl e ↦ rw e (update-view red_of t.nodes p (record (t.nodes p) { rb_left = some y }) refl a)
  | inr e ↦ rw e (update-view red_of t.nodes p (record (t.nodes p) { rb_right = some y }) refl a)
]

-- A rotation changes no colour.
pub rotate_left_with-reds :
    (x y : ℕ) (t : RbTree) (a : ℕ) → ((rotate_left_with x y t).nodes a).rb_red ≡ (t.nodes a).rb_red
unfolding rotate_left_with
rotate_left_with-reds x y t a =
    let v1 = t1 x y t in
    let v2 = t2 x y t in
    let v3 = t3 x y t in
    hang_left-reds (above x y t) x y (t4 x y t) a
    ∙ update-view red_of v3.nodes y (record (v3.nodes y) { rb_parent = above x y t }) refl a
    ∙ update-view red_of v2.nodes x (record (v2.nodes x) { rb_parent = some y }) refl a
    ∙ update-view red_of v1.nodes y (record (v1.nodes y) { rb_left = some x }) refl a
    ∙ adopt-reds (z x y t) x (set_right x (z x y t) t) a
    ∙ update-view red_of t.nodes x (record (t.nodes x) { rb_right = z x y t }) refl a

adopt-root : (z : Option ℕ) (x : ℕ) (t : RbTree) → (adopt z x t).root ≡ t.root
adopt-root none x t = refl
adopt-root (some w) x t = refl

-- Below a node a rotation does not change the root.
pub rotate_left_with-root :
    (x y p : ℕ) (t : RbTree)
    → (t.nodes x).rb_parent ≡ some p
    → (rotate_left_with x y t).root ≡ t.root
unfolding rotate_left_with hang_left
rotate_left_with-root x y p t e =
    subst (λ up. (hang_left up x y (t4 x y t)).root ≡ t.root) (sym e)
      (elim (Bool-cases (points_to (((t4 x y t).nodes p).rb_left) x)) [
        | inl b ↦ rw b (adopt-root (z x y t) x (set_right x (z x y t) t))
        | inr b ↦ rw b (adopt-root (z x y t) x (set_right x (z x y t) t))
      ])
