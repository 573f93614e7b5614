-- ===== src/RbTree/Fixup.antt =====
-- The rounds of `rb_insert_color` in process/rbtree.c.
use apna_os.Prelude.{
  ℕ, suc, ◌≡◌, refl, ◌⊎◌, ◌<◌, inl, inr, Bool, true, false, not, Option, none, some, List, ◌∙◌, sym,
  subst, true-ne-false, Bool-cases, if◌then◌else◌, arith, eq→==,
}
use apna_os.Prelude.Run
use apna_os.Prelude.Run.{Cmd, done, ◌>>◌, and_then, Returns, returns, bind, mono}
use apna_os.RbTree.{
  RbTree, recolour, insert_left, insert_right, insert_round, under_red, is_red, points_to,
}
use apna_os.RbTree.Shape.{Tree, leaf, node, Stands, Outside}
use apna_os.RbTree.Sides.{Side, on_left, on_right, flip, kid, join, rotate, points_to-other}
use apna_os.RbTree.Shape.{top-Outside}
use apna_os.RbTree.Way.{Way, at_top, under, plug, unplug}
use apna_os.RbTree.Rehang.{plug-Proper}
use apna_os.RbTree.Place.{Whole, top-Apart}
use apna_os.RbTree.Colour.{top_red, Balanced, Rests, Wants, reds}
use apna_os.RbTree.Paint.{Balanced-plug, under_red_node}
use apna_os.RbTree.Settle.{Pending, settle, settle-Pending, Proper-Upper}
use apna_os.RbTree.Round.{Found, recolour-Pending, bent-Pending}

-- The number of nodes above the hole.
abbrev pub depth : Way → ℕ
depth at_top = 0
depth (under s c p u) = suc (depth c)

-- From the root stands a red-black tree with these nodes from left to right.
pub record RedBlack (t : RbTree) (es : List ℕ) : Type 0 where
  pub tree : Tree
  pub whole : Whole t es tree
  pub height : ℕ
  pub balanced : Balanced (reds t) tree height

-- What a round leaves: the tree, or a node to look at at a smaller depth.
abbrev pub LeftBy : List ℕ → ℕ → Option ℕ → RbTree → Type 0
LeftBy es n none t = RedBlack t es
LeftBy es n (some x) t =
    (c : Way) × ((depth c < n) × ((l : Tree) × ((r : Tree) × ((h : ℕ) × Pending t es c l x r h))))

abbrev insert_on : Side → ℕ → ℕ → ℕ → Cmd RbTree (Option ℕ)
insert_on on_left = insert_left
insert_on on_right = insert_right

abbrev body : Side → ℕ → ℕ → ℕ → Option ℕ → Bool → Bool → Cmd RbTree (Option ℕ)
body s x p g uncle red bent =
    if red
    then recolour p g uncle
    else (if bent then rotate s p >> settle s p x g else settle s x p g)

insert_on-runs :
    (s : Side) (x p g : ℕ) (t : RbTree)
    → insert_on s x p g t
      ≡ body s x p g
          (kid (flip s) (t.nodes g))
          (is_red t (kid (flip s) (t.nodes g)))
          (points_to (kid (flip s) (t.nodes p)) x)
          t
unfolding insert_left insert_right rotate
insert_on-runs on_left x p g t = refl
insert_on-runs on_right x p g t = refl

pub is_red-top :
    (t : RbTree) (at up : Option ℕ) (w : Tree)
    → Stands t.nodes at up w
    → is_red t at ≡ top_red (reds t) w
is_red-top t at up leaf s = rw s refl
is_red-top t at up (node l x r) (e, _) = rw e refl

-- The grandparent's test for its left child.
under_red-runs :
    (s : Side) (x p g : ℕ) (t : RbTree) (w : Tree)
    → kid s (t.nodes g) ≡ some p
    → Stands t.nodes (kid (flip s) (t.nodes g)) (some g) w
    → Outside p w
    → under_red x p (some g) t ≡ insert_on s x p g t
unfolding under_red
under_red-runs on_left x p g t w e sw o = rw (e, eq→== p p refl) refl
under_red-runs on_right x p g t w e sw o =
    rw
      (points_to-other (t.nodes g).rb_left p
        (top-Outside t.nodes (t.nodes g).rb_left (some g) p w sw o))
      refl

same_or_flip : (s s' : Side) → (s ≡ s') ⊎ (s ≡ flip s')
same_or_flip on_left on_left = inl refl
same_or_flip on_left on_right = inr refl
same_or_flip on_right on_left = inr refl
same_or_flip on_right on_right = inl refl

module _ (es : List ℕ) (c : Way) (l : Tree) (x : ℕ) (r : Tree) (p : ℕ) (u : Tree) (g h : ℕ)
    (t : RbTree) (s s' : Side) where
  abbrev Goal : Run.Run RbTree (Option ℕ) → Type 0
  Goal = Returns (LeftBy es (suc (suc (depth c))))

  red-Left :
      (bent : Bool) (at up : Option ℕ) (w : Tree)
      → Found t es c s s' l x r p u g w h
      → Stands t.nodes at up w
      → top_red (reds t) w ≡ true
      → Goal (body s' x p g at true bent t)
  red-Left bent at up leaf f sw red = absurd (true-ne-false red refl)
  red-Left bent at up (node wl v wr) f sw red = rw (sw.0) (
      mono (recolour-Pending f red) λ next t' (e, (l', (r', pending))).
        subst (λ n. LeftBy es (suc (suc (depth c))) n t') (sym e)
          (c, (omega arith, (l', (r', (suc h, pending))))))

  black-Left :
      (bent : Bool) (at : Option ℕ) (w : Tree)
      → Found t es c s s' l x r p u g w h
      → (s ≡ s' → bent ≡ false)
      → (s ≡ flip s' → bent ≡ true)
      → top_red (reds t) w ≡ false
      → Goal (body s' x p g at false bent t)
  black-Left bent at w f straight turn black = elim (same_or_flip s s') [
    | inl e ↦
        let f' = subst (λ s. Found t es c s s' l x r p u g w h) e f in
        rw (straight e) (
          mono
            (settle-Pending s' c l x r p u g w h es t f'.whole f.red f.tree f.beside f.uncle f.black
              black f.way)
            λ next t' (e, pending).
              subst (λ n. LeftBy es (suc (suc (depth c))) n t') (sym e)
                (under s' c p (join s' u g w), (omega arith, (l, (r, (h, pending))))))
    | inr e ↦
        let f' = subst (λ s. Found t es c s s' l x r p u g w h) e f in
        rw (turn e) (
          mono (bent-Pending s' f' black) λ next t' (e, (a, (l', (r', pending)))).
            subst (λ n. LeftBy es (suc (suc (depth c))) n t') (sym e)
              (under s' c x a, (omega arith, (l', (r', (h, pending))))))
  ]

  -- The body of the loop where the grandparent is there.
  body-Left :
      (bent : Bool) (at up : Option ℕ) (w : Tree)
      → Found t es c s s' l x r p u g w h
      → Stands t.nodes at up w
      → (s ≡ s' → bent ≡ false)
      → (s ≡ flip s' → bent ≡ true)
      → Goal (body s' x p g at (is_red t at) bent t)
  body-Left bent at up w f sw straight turn = elim (Bool-cases (top_red (reds t) w)) [
    | inl red ↦ rw (is_red-top t at up w sw ∙ red) (red-Left bent at up w f sw red)
    | inr black ↦ rw (is_red-top t at up w sw ∙ black) (black-Left bent at w f straight turn black)
  ]

points_to-here : (o : Option ℕ) (x : ℕ) → o ≡ some x → points_to o x ≡ true
points_to-here o x e = rw e (eq→== x x refl)

not-true : (b : Bool) → not b ≡ true → b ≡ false
not-true true e = sym e
not-true false e = refl

finished :
    (t : RbTree) (es : List ℕ) (c : Way) (l : Tree) (x : ℕ) (r : Tree) (h : ℕ)
    → Pending t es c l x r h
    → under_red_node (reds t) c ≡ false
    → RedBlack t es
finished t es c l x r h v e =
    let (h', balanced) = Balanced-plug (reds t) c (node l x r) h v.tree v.way (λ _. e) in
    record { tree = plug c (node l x r); whole = v.whole; height = h'; balanced = balanced }

-- A round at a node with a red parent.
under-Left :
    (t : RbTree) (es : List ℕ) (s : Side) (c : Way) (p : ℕ) (u l : Tree) (x : ℕ) (r : Tree) (h : ℕ)
    → Pending t es (under s c p u) l x r h
    → reds t p ≡ true
    → Returns (LeftBy es (suc (depth c))) (under_red x p (t.nodes p).rb_parent t)
under-Left t es s at_top p u l x r h v red =
    let (b, (rests, way)) = v.way in
    let rests' : Rests true (top_red (reds t) u) false = rw red at rests in
    absurd (true-ne-false (rests'.1) refl)
under-Left t es s (under s' c g w) p u l x r h v red =
    let low = node l x r in
    let (b, (rests, (bw, (_, way)))) = v.way in
    let (black, not_red) : Rests true (top_red (reds t) u) (not (reds t g)) = rw red at rests in
    let blackg = not-true (reds t g) not_red in
    let bw' : Balanced (reds t) w h = rw red at bw in
    let way' : Wants (reds t) c (suc h) = rw (red, blackg) at way in
    let (at, (above, (hole, stands))) =
      unplug t.nodes t.root (under s (under s' c g w) p u) low v.whole.stands in
    let (_, (k, (su, (parent, (k', (sw, _)))))) = hole in
    let (proper, _) = plug-Proper c (join s' (join s low p u) g w) v.whole.proper in
    let up = Proper-Upper s s' low p u g w proper in
    let apart = (plug-Proper (under s (under s' c g w) p u) low v.whole.proper).1.1.0 in
    let straight = points_to-other (kid (flip s) (t.nodes p)) x (
      top-Outside t.nodes (kid (flip s) (t.nodes p)) (some p) x u su
        (top-Apart on_left l x r u apart)) in
    let turn : kid s (t.nodes p) ≡ some x = k ∙ stands.0 in
    let found : Found t es c s s' l x r p u g w h = record {
      whole = v.whole;
      red = v.red;
      red' = red;
      tree = v.tree;
      beside = b;
      uncle = bw';
      black = black;
      way = way';
    } in
    rw (parent, under_red-runs s' x p g t w k' sw up.pw, insert_on-runs s' x p g t)
      (body-Left es c l x r p u g h t s s' (points_to (kid (flip s') (t.nodes p)) x)
        (kid (flip s') (t.nodes g)) (some g) w found sw
        (λ e. subst (λ q. points_to (kid (flip q) (t.nodes p)) x ≡ false) e straight)
        (λ e.
          points_to-here (kid (flip s') (t.nodes p)) x
            (subst (λ q. kid q (t.nodes p) ≡ some x) e turn)))

pub round-Left :
    (t : RbTree) (es : List ℕ) (c : Way) (l : Tree) (x : ℕ) (r : Tree) (h : ℕ)
    → Pending t es c l x r h
    → Returns (LeftBy es (depth c)) (insert_round x (t.nodes x).rb_parent t)
unfolding insert_round
round-Left t es at_top l x r h v =
    rw (v.whole.stands.1.0) (returns (finished t es at_top l x r h v refl))
round-Left t es (under s c p u) l x r h v =
    let (at, (above, (hole, stands))) =
      unplug t.nodes t.root (under s c p u) (node l x r) v.whole.stands in
    let parent : (t.nodes x).rb_parent ≡ some p = stands.1.0 ∙ hole.0 in
    elim (Bool-cases (reds t p)) [
      | inl red ↦ rw (parent, red) (under-Left t es s c p u l x r h v red)
      | inr black ↦ rw (parent, black) (returns (finished t es (under s c p u) l x r h v black))
    ]
