-- ===== src/RbTree/Shape.antt =====
-- The binary trees that the nodes of process/rbtree.c stand for.
use apna_os.Prelude.{ℕ, ◌≡◌, ◌≢◌, Option, none, some, Array, ◌∙◌, sym, subst, none-some}
use apna_os.Process.{RbNode}

-- A binary tree of nodes.
pub data Tree : Type 0 where
  leaf : Tree
  node : Tree → ℕ → Tree → Tree

-- At the pointer `at`, below the node `above`, stands the tree.
abbrev pub Stands : Array RbNode → Option ℕ → Option ℕ → Tree → Type 0
Stands b at above leaf = at ≡ none
Stands b at above (node l x r) =
    (at ≡ some x)
    × (((b x).rb_parent ≡ above)
        × (Stands b (b x).rb_left (some x) l × Stands b (b x).rb_right (some x) r))

-- A node is none of the tree's.
abbrev pub Outside : ℕ → Tree → Type 0
Outside a leaf = Unit
Outside a (node l x r) = Outside a l × ((a ≢ x) × Outside a r)

abbrev pub Apart : Tree → Tree → Type 0
Apart leaf t = Unit
Apart (node l x r) t = Apart l t × (Outside x t × Apart r t)

-- No node stands twice in the tree.
abbrev pub Proper : Tree → Type 0
Proper leaf = Unit
Proper (node l x r) = (Outside x l × Outside x r) × (Apart l r × (Proper l × Proper r))

-- What lies apart from a tree does not have its top.
pub Apart-top :
    (l : Tree) (x : ℕ) (r t : Tree) → Apart t (node l x r) → Outside x t × (Apart t l × Apart t r)
Apart-top l x r leaf h = (tt, (tt, tt))
Apart-top l x r (node t1 y t2) (h1, ((o1, (ne, o2)), h2)) =
    let (p, (q, s)) = Apart-top l x r t1 h1 in
    let (p', (q', s')) = Apart-top l x r t2 h2 in
    ((p, ((λ e. ne (sym e)), p')), ((q, (o1, q')), (s, (o2, s'))))

abbrev pub Away : Option ℕ → Tree → Type 0
Away none t = Unit
Away (some a) t = Outside a t

pub Away-top : (z : Option ℕ) (l r : Tree) (a : ℕ) → Away z (node l a r) → z ≢ some a
Away-top none l r a h = none-some a
Away-top (some z) l r a (o, (ne, o')) = λ e. ne (injective e)
  where
    injective : ◌≡◌ {A = Option ℕ} (some z) (some a) → z ≡ a
    injective e = cc

pub Away-left : (z : Option ℕ) (l r : Tree) (a : ℕ) → Away z (node l a r) → Away z l
Away-left none l r a h = tt
Away-left (some z) l r a (o, (ne, o')) = o

pub Away-right : (z : Option ℕ) (l r : Tree) (a : ℕ) → Away z (node l a r) → Away z r
Away-right none l r a h = tt
Away-right (some z) l r a (o, (ne, o')) = o'

pub top-Outside :
    (b : Array RbNode) (at up : Option ℕ) (x : ℕ) (t : Tree)
    → Stands b at up t
    → Outside x t
    → at ≢ some x
top-Outside b at up x leaf s o = λ e. none-some x (sym s ∙ e)
top-Outside b at up x (node l w r) (e, s) (o, (ne, o')) = λ e'. ne (injective (sym e' ∙ e))
  where
    injective : ◌≡◌ {A = Option ℕ} (some x) (some w) → x ≡ w
    injective e = cc

pub top-Away :
    (b : Array RbNode) (at up : Option ℕ) (t u : Tree) → Stands b at up t → Apart t u → Away at u
top-Away b at up leaf u s h = subst (λ at. Away at u) (sym s) tt
top-Away b at up (node l w r) u (e, s) (h, (o, h')) = subst (λ at. Away at u) (sym e) o

pub top-Away' :
    (b : Array RbNode) (at up : Option ℕ) (t u : Tree) → Stands b at up t → Apart u t → Away at u
top-Away' b at up leaf u s h = subst (λ at. Away at u) (sym s) tt
top-Away' b at up (node l w r) u (e, s) h =
    subst (λ at. Away at u) (sym e) ((Apart-top l w r u h).0)
