-- ===== src/RbTree/Way.antt =====
-- A place in the tree of process/rbtree.c: the way up to the root, and what hangs beside it.
use apna_os.Prelude.{ℕ, ◌≡◌, refl, Option, none, some, Array, List, [], ◌∷◌, ◌++◌, sym, subst}
use apna_os.Process.{RbNode}
use apna_os.RbTree.Shape.{Tree, leaf, node, Stands, Outside, Apart}
use apna_os.RbTree.Sides.{Side, on_left, on_right, flip, kid, join}

-- The hole is on the given side of a node, the tree on its other side.
pub data Way : Type 0 where
  at_top : Way
  under : Side → Way → ℕ → Tree → Way

abbrev pub plug : Way → Tree → Tree
plug at_top t = t
plug (under s c p u) t = plug c (join s t p u)

-- The nodes of a tree from left to right.
abbrev pub elems : Tree → List ℕ
elems leaf = []
elems (node l x r) = elems l ++ x ∷ elems r

-- At the pointer `at`, below the node `above`, is the hole.
abbrev pub Hole : Array RbNode → Option ℕ → Way → Option ℕ → Option ℕ → Type 0
Hole b root at_top at above = (root ≡ at) × (above ≡ none)
Hole b root (under s c p u) at above =
    (above ≡ some p)
    × ((kid s (b p) ≡ at)
        × (Stands b (kid (flip s) (b p)) (some p) u × Hole b root c (some p) (b p).rb_parent))

-- The nodes on the way are not in a tree.
abbrev pub Clear : Way → Tree → Type 0
Clear at_top t = Unit
Clear (under s c p u) t = Outside p t × (Apart u t × Clear c t)

abbrev Splits : Array RbNode → Option ℕ → Option ℕ → Side → Tree → ℕ → Tree → Type 0
Splits b at above s l x r =
    (at ≡ some x)
    × (((b x).rb_parent ≡ above)
        × (Stands b (kid s (b x)) (some x) l × Stands b (kid (flip s) (b x)) (some x) r))

pub Stands-split :
    (b : Array RbNode) (at above : Option ℕ) (s : Side) (l : Tree) (x : ℕ) (r : Tree)
    → Stands b at above (join s l x r)
    → Splits b at above s l x r
Stands-split b at above on_left l x r s = s
Stands-split b at above on_right l x r (e, (p, (sr, sl))) = (e, (p, (sl, sr)))

pub Stands-join :
    (b : Array RbNode) (at above : Option ℕ) (s : Side) (l : Tree) (x : ℕ) (r : Tree)
    → Splits b at above s l x r
    → Stands b at above (join s l x r)
Stands-join b at above on_left l x r s = s
Stands-join b at above on_right l x r (e, (p, (sl, sr))) = (e, (p, (sr, sl)))

pub unplug :
    (b : Array RbNode) (root : Option ℕ) (c : Way) (t : Tree)
    → Stands b root none (plug c t)
    → (at : Option ℕ) × ((above : Option ℕ) × (Hole b root c at above × Stands b at above t))
unplug b root at_top t s = (root, (none, ((refl, refl), s)))
unplug b root (under s c p u) t h =
    let (at, (above, (hole, stands))) = unplug b root c (join s t p u) h in
    let (e, (e', (st, su))) = Stands-split b at above s t p u stands in
    (
      kid s (b p),
      (
        some p,
        (
          (
            refl,
            (
              refl,
              (
                su,
                subst (λ a. Hole b root c a (b p).rb_parent) e
                    (subst (λ a. Hole b root c at a) (sym e') hole),
              ),
            ),
          ),
          st,
        ),
      ),
    )

pub replug :
    (b : Array RbNode) (root : Option ℕ) (c : Way) (at above : Option ℕ) (t : Tree)
    → Hole b root c at above
    → Stands b at above t
    → Stands b root none (plug c t)
replug b root at_top at above t (e, e') s =
    subst (λ a. Stands b a none t) (sym e) (subst (λ a. Stands b at a t) e' s)
replug b root (under s c p u) at above t (e, (k, (su, hole))) st =
    replug b root c (some p) (b p).rb_parent (join s t p u) hole (
      Stands-join b (some p) (b p).rb_parent s t p u (
        refl,
        (
          refl,
          (subst (λ a. Stands b a (some p) t) (sym k) (subst (λ a. Stands b at a t) e st), su),
        ),
      ))
