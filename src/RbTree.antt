-- ===== src/RbTree.antt =====
-- process/rbtree.c and process/rbtree.h: the red-black tree of the processes, and `cfs_enqueue` of
-- process/process.c. A node is the `vr_node` of a process, so its pointer stands for both
-- (`rb_entry`). A read or a write through the null pointer ends in `fault`.
pub mod Shape
pub mod Turn
pub mod Rotate
pub mod Sides
pub mod Mirror
pub mod Way
pub mod Rehang
pub mod Place
pub mod Colour
pub mod Paint
pub mod Settle
pub mod Round
pub mod Fixup
pub mod Loop
pub mod Graft
pub mod Linked
pub mod Enqueue
pub mod Erase
pub mod First
pub mod Short
pub mod Close
pub mod Sibling
mod Tests
use apna_os.Prelude.{
  ℕ, zero, suc, Bool, true, false, Option, none, some, Array, update, ltb, ◌==◌, if◌then◌else◌,
}
use apna_os.Prelude.Run.{Run, Cmd, done, fault, out_of_fuel, pure, get, put, ◌>>=◌, ◌>>◌}
use apna_os.Process.{RbNode}

-- The nodes and `struct rb_root`.
pub record RbTree : Type 0 where
  pub nodes : Array RbNode
  pub root : Option ℕ

abbrev pub set_left : ℕ → Option ℕ → RbTree → RbTree
set_left n child t = record t { nodes = update t.nodes n (record (t.nodes n) { rb_left = child }) }

abbrev pub set_right : ℕ → Option ℕ → RbTree → RbTree
set_right n child t = record t {
  nodes = update t.nodes n (record (t.nodes n) { rb_right = child });
}

abbrev pub set_parent : ℕ → Option ℕ → RbTree → RbTree
set_parent n parent t = record t {
  nodes = update t.nodes n (record (t.nodes n) { rb_parent = parent });
}

abbrev pub set_red : ℕ → Bool → RbTree → RbTree
set_red n red t = record t { nodes = update t.nodes n (record (t.nodes n) { rb_red = red }) }

abbrev pub set_root : Option ℕ → RbTree → RbTree
set_root root t = record t { root = root }

-- A pointer that may be null against a node.
abbrev pub points_to : Option ℕ → ℕ → Bool
points_to none n = false
points_to (some p) n = p == n

-- if (child) child->rb_parent = parent;
abbrev pub adopt : Option ℕ → ℕ → RbTree → RbTree
adopt none parent t = t
adopt (some child) parent t = set_parent child (some parent) t

-- The end of a rotation: `top` takes the place of `node` under `parent`.
unfoldable pub hang_left : Option ℕ → ℕ → ℕ → RbTree → RbTree
hang_left none node top t = set_root (some top) t
hang_left (some parent) node top t =
    if points_to (t.nodes parent).rb_left node
    then set_left parent (some top) t
    else set_right parent (some top) t

unfoldable pub hang_right : Option ℕ → ℕ → ℕ → RbTree → RbTree
hang_right none node top t = set_root (some top) t
hang_right (some parent) node top t =
    if points_to (t.nodes parent).rb_right node
    then set_right parent (some top) t
    else set_left parent (some top) t

unfoldable pub rotate_left_with : ℕ → ℕ → RbTree → RbTree
rotate_left_with node right t =
    let parent : Option ℕ = (t.nodes node).rb_parent in
    let inner : Option ℕ = (t.nodes right).rb_left in
    let t1 : RbTree = adopt inner node (set_right node inner t) in
    let t2 : RbTree = set_parent node (some right) (set_left right (some node) t1) in
    hang_left parent node right (set_parent right parent t2)

unfoldable pub rb_rotate_left : ℕ → Cmd RbTree (Unit {0})
rb_rotate_left node t = elim ((t.nodes node).rb_right) [
  | none ↦ fault
  | some right ↦ done tt (rotate_left_with node right t)
]

unfoldable pub rotate_right_with : ℕ → ℕ → RbTree → RbTree
rotate_right_with node left t =
    let parent : Option ℕ = (t.nodes node).rb_parent in
    let inner : Option ℕ = (t.nodes left).rb_right in
    let t1 : RbTree = adopt inner node (set_left node inner t) in
    let t2 : RbTree = set_parent node (some left) (set_right left (some node) t1) in
    hang_right parent node left (set_parent left parent t2)

unfoldable pub rb_rotate_right : ℕ → Cmd RbTree (Unit {0})
rb_rotate_right node t = elim ((t.nodes node).rb_left) [
  | none ↦ fault
  | some left ↦ done tt (rotate_right_with node left t)
]

abbrev pub is_red : RbTree → Option ℕ → Bool
is_red t none = false
is_red t (some n) = (t.nodes n).rb_red

-- The uncle is red: it and the parent become black, and the grandparent is next.
unfoldable pub recolour : ℕ → ℕ → Option ℕ → Cmd RbTree (Option ℕ)
recolour parent gparent none t = fault
recolour parent gparent (some uncle) t =
    done (some gparent) (set_red gparent true (set_red parent false (set_red uncle false t)))

unfoldable pub settle_left : ℕ → ℕ → ℕ → Cmd RbTree (Option ℕ)
settle_left node parent gparent = do
  t ← get
  put (set_red gparent true (set_red parent false t))
  rb_rotate_right gparent
  pure (some node)

unfoldable pub settle_right : ℕ → ℕ → ℕ → Cmd RbTree (Option ℕ)
settle_right node parent gparent = do
  t ← get
  put (set_red gparent true (set_red parent false t))
  rb_rotate_left gparent
  pure (some node)

-- The two halves of the loop's body.
unfoldable pub insert_left : ℕ → ℕ → ℕ → Cmd RbTree (Option ℕ)
insert_left node parent gparent = do
  t ← get
  let uncle : Option ℕ = (t.nodes gparent).rb_right
  if is_red t uncle
      then recolour parent gparent uncle
      else (if points_to (t.nodes parent).rb_right node
          then rb_rotate_left parent >> settle_left parent node gparent
          else settle_left node parent gparent)

unfoldable pub insert_right : ℕ → ℕ → ℕ → Cmd RbTree (Option ℕ)
insert_right node parent gparent = do
  t ← get
  let uncle : Option ℕ = (t.nodes gparent).rb_left
  if is_red t uncle
      then recolour parent gparent uncle
      else (if points_to (t.nodes parent).rb_left node
          then rb_rotate_right parent >> settle_right parent node gparent
          else settle_right node parent gparent)

-- A red parent: what the grandparent decides.
unfoldable pub under_red : ℕ → ℕ → Option ℕ → Cmd RbTree (Option ℕ)
under_red node parent none t = fault
under_red node parent (some gparent) t =
    if points_to (t.nodes gparent).rb_left parent
    then insert_left node parent gparent t
    else insert_right node parent gparent t

-- One round of `rb_insert_color`: the next node, or none at the end of the loop.
unfoldable pub insert_round : ℕ → Option ℕ → Cmd RbTree (Option ℕ)
insert_round node none t = done none t
insert_round node (some parent) t =
    if (t.nodes parent).rb_red
    then under_red node parent (t.nodes parent).rb_parent t
    else done none t

-- root->rb_node->rb_red = false;
unfoldable pub blacken_root : Cmd RbTree (Unit {0})
blacken_root t = elim (t.root) [ none ↦ fault | some top ↦ done tt (set_red top false t) ]

unfoldable pub insert_loop : ℕ → Option ℕ → Cmd RbTree (Unit {0})
insert_loop fuel none = pure tt
insert_loop zero (some node) = λ t. out_of_fuel
insert_loop (suc fuel) (some node) = do
  t ← get
  next ← insert_round node (t.nodes node).rb_parent
  insert_loop fuel next

unfoldable pub rb_insert_color : ℕ → ℕ → Cmd RbTree (Unit {0})
rb_insert_color fuel node = insert_loop fuel (some node) >> blacken_root

-- while (n && n->rb_left) n = n->rb_left;
unfoldable pub leftmost : ℕ → Option ℕ → Cmd RbTree (Option ℕ)
leftmost fuel none = pure none
leftmost zero (some n) = λ t. out_of_fuel
leftmost (suc fuel) (some n) = do
  t ← get
  let rest = leftmost fuel (t.nodes n).rb_left
  elim ((t.nodes n).rb_left) [ none ↦ pure (some n) | some l ↦ rest ]

unfoldable pub rb_first : ℕ → Cmd RbTree (Option ℕ)
rb_first fuel t = leftmost fuel t.root t

-- A place for a link: the root, or a side of a node.
pub data Link : Type 0 where
  at_root : Link
  left_of : ℕ → Link
  right_of : ℕ → Link

-- *link = node;
abbrev pub write_link : Link → ℕ → RbTree → RbTree
write_link at_root node t = set_root (some node) t
write_link (left_of p) node t = set_left p (some node) t
write_link (right_of p) node t = set_right p (some node) t

unfoldable pub rb_link_node : ℕ → Option ℕ → Link → RbTree → RbTree
rb_link_node node parent link t = write_link link node (record t {
  nodes =
      update t.nodes node
        (record { rb_left = none; rb_right = none; rb_parent = parent; rb_red = true });
})

-- The walk of `cfs_enqueue` to the place for `p`.
unfoldable pub find_link :
    (ℕ → ℕ) → ℕ → ℕ → Option ℕ → Link → Option ℕ → RbTree → Run RbTree (Option ℕ × Link)
find_link vruntime fuel p parent link none t = done (parent, link) t
find_link vruntime zero p parent link (some q) t = out_of_fuel
find_link vruntime (suc fuel) p parent link (some q) t =
    let on_left = find_link vruntime fuel p (some q) (left_of q) (t.nodes q).rb_left t in
    let on_right = find_link vruntime fuel p (some q) (right_of q) (t.nodes q).rb_right t in
    if ltb (vruntime p) (vruntime q) then on_left else on_right

unfoldable pub cfs_enqueue : (ℕ → ℕ) → ℕ → ℕ → Cmd RbTree (Unit {0})
cfs_enqueue vruntime fuel p = do
  t ← get
  (parent, link) ← find_link vruntime fuel p none at_root t.root
  t' ← get
  put (rb_link_node p parent link t')
  rb_insert_color fuel p
