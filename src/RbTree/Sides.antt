-- ===== src/RbTree/Sides.antt =====
-- The two sides of a node in process/rbtree.c, and the rotation to either side.
use apna_os.Prelude.{
  ℕ, ◌≡◌, refl, ◌≢◌, Option, none, some, ap, sym, subst, true, false, ne→==, eq→==, none-some,
}
use apna_os.Prelude.Run.{Cmd}
use apna_os.Process.{RbNode}
use apna_os.RbTree.{RbTree, points_to, rb_rotate_left, rb_rotate_right}
use apna_os.RbTree.Shape.{Tree, node, Stands, Outside}
use apna_os.RbTree.Turn.{Hangs}
use apna_os.RbTree.Rotate.{TurnedLeft}

pub data Side : Type 0 where
  on_left on_right : Side

abbrev pub flip : Side → Side
flip on_left = on_right
flip on_right = on_left

abbrev pub kid : Side → RbNode → Option ℕ
kid on_left n = n.rb_left
kid on_right n = n.rb_right

-- The tree with `l` on the given side of `x`.
abbrev pub join : Side → Tree → ℕ → Tree → Tree
join on_left l x r = node l x r
join on_right l x r = node r x l

unfoldable pub rotate : Side → ℕ → Cmd RbTree (Unit {0})
rotate on_left = rb_rotate_left
rotate on_right = rb_rotate_right

-- What a rotation does to the link above it.
pub record Rehangs (up : Option ℕ) (x y : ℕ) (t t' : RbTree) : Type 0 where
  pub at_root : up ≡ none → t'.root ≡ some y
  pub below :
      (s : Side) (p : ℕ)
      → up ≡ some p
      → kid s (t.nodes p) ≡ some x
      → kid (flip s) (t.nodes p) ≢ some x
      → (kid s (t'.nodes p) ≡ some y)
        × ((kid (flip s) (t'.nodes p) ≡ kid (flip s) (t.nodes p))
            × ((t'.nodes p).rb_parent ≡ (t.nodes p).rb_parent))
  pub root : (p : ℕ) → up ≡ some p → t'.root ≡ t.root

-- What the rotation of `x` to a side makes of the tree with `l` on that side of `x`.
pub record Turned (s : Side) (x y : ℕ) (l m r : Tree) (t t' : RbTree) : Type 0 where
  pub stands : Stands t'.nodes (some y) (t.nodes x).rb_parent (join s (join s l x m) y r)
  pub hangs : Rehangs (t.nodes x).rb_parent x y t t'
  pub reds : (a : ℕ) → (t'.nodes a).rb_red ≡ (t.nodes a).rb_red
  pub others :
      (a : ℕ)
      → Outside a (join s l x (join s m y r))
      → (t.nodes x).rb_parent ≢ some a
      → t'.nodes a ≡ t.nodes a

pub points_to-other : (o : Option ℕ) (x : ℕ) → o ≢ some x → points_to o x ≡ false
points_to-other none x ne = refl
points_to-other (some p) x ne = ne→== p x (λ e. ne (ap some e))

abbrev Below : ℕ → ℕ → RbTree → RbTree → Side → ℕ → Type 0
Below x y t t' s p =
    kid s (t.nodes p) ≡ some x
    → kid (flip s) (t.nodes p) ≢ some x
    → (kid s (t'.nodes p) ≡ some y)
      × ((kid (flip s) (t'.nodes p) ≡ kid (flip s) (t.nodes p))
          × ((t'.nodes p).rb_parent ≡ (t.nodes p).rb_parent))

Hangs-Rehangs :
    (up : Option ℕ) (x y : ℕ) (t t' : RbTree)
    → Hangs up x y t t'
    → ((p : ℕ) → up ≡ some p → t'.root ≡ t.root)
    → Rehangs up x y t t'
Hangs-Rehangs none x y t t' h root = record {
  at_root = λ e. h;
  below = λ s p e. absurd (none-some p e);
  root = root;
}
Hangs-Rehangs (some q) x y t t' h root = record {
  at_root = λ e. absurd (none-some q (sym e));
  below = λ s p e. subst (λ p. Below x y t t' s p) (same-some e) (below s);
  root = root;
}
  where
    same-some : {p : ℕ} → ◌≡◌ {A = Option ℕ} (some q) (some p) → q ≡ p
    same-some e = cc

    below : (s : Side) → Below x y t t' s q
    below on_left e ne =
        let hit : points_to (t.nodes q).rb_left x ≡ true = rw (e, eq→== x x refl) refl in
        let now : t'.nodes q ≡ record (t.nodes q) { rb_left = some y } = rw hit at h in
        rw now (refl, (refl, refl))
    below on_right e ne =
        let miss = points_to-other (t.nodes q).rb_left x ne in
        let now : t'.nodes q ≡ record (t.nodes q) { rb_right = some y } = rw miss at h in
        rw now (refl, (refl, refl))

pub TurnedLeft-Turned :
    (x y : ℕ) (l m r : Tree) (t t' : RbTree)
    → TurnedLeft x y l m r t t'
    → Turned on_left x y l m r t t'
TurnedLeft-Turned x y l m r t t' v = record {
  stands = v.stands;
  hangs = Hangs-Rehangs (t.nodes x).rb_parent x y t t' v.hangs v.root;
  reds = v.reds;
  others = v.others;
}
