-- ===== src/RbTree/Erase.antt =====
-- `rb_erase` of process/rbtree.c, and `cfs_dequeue_min` of process/process.c. As in the insertion, a
-- read or a write through the null pointer ends in `fault`.
use apna_os.Prelude.{ℕ, zero, suc, Bool, true, false, not, ◌&&◌, Option, none, some, if◌then◌else◌}
use apna_os.Prelude.Run.{Run, Cmd, done, fault, out_of_fuel, and_then, pure, get, put, ◌>>=◌, ◌>>◌}
use apna_os.RbTree.{
  RbTree, set_left, set_right, set_parent, set_root, set_red, is_red, points_to, rb_rotate_left,
  rb_rotate_right, leftmost, rb_first,
}

-- Two pointers that may be null.
abbrev same_pointer : Option ℕ → Option ℕ → Bool
same_pointer none none = true
same_pointer none (some b) = false
same_pointer (some a) b = points_to b a

-- A pointer that is followed.
abbrev deref : Option ℕ → Cmd RbTree ℕ
deref none t = fault
deref (some p) t = done p t

-- if (p) p->rb_red = false;
abbrev pub blacken : Option ℕ → RbTree → RbTree
blacken none t = t
blacken (some p) t = set_red p false t

-- if (child) child->rb_parent = parent;
abbrev give_parent : Option ℕ → Option ℕ → RbTree → RbTree
give_parent none parent t = t
give_parent (some child) parent t = set_parent child parent t

-- The link that leads to `node`, below `parent` or the root, leads to `child`.
unfoldable pub replace_child : Option ℕ → ℕ → Option ℕ → RbTree → RbTree
replace_child none node child t = set_root child t
replace_child (some parent) node child t =
    if points_to (t.nodes parent).rb_left node
    then set_left parent child t
    else set_right parent child t

-- What goes on to `color_fixup`: the child, the parent, and whether a black node is gone.
pub record Removed : Type 0 where
  pub child : Option ℕ
  pub parent : Option ℕ
  pub color : Bool

-- A node with at most one child.
unfoldable pub splice : ℕ → Option ℕ → RbTree → Run RbTree Removed
splice node child t =
    let parent : Option ℕ = (t.nodes node).rb_parent in
    done (record { child = child; parent = parent; color = (t.nodes node).rb_red })
      (replace_child parent node child (give_parent child parent t))

-- The successor leaves its place, where it is not the right child of `old`, and takes `old`'s right
-- tree.
unfoldable pub lift_out : ℕ → ℕ → Option ℕ → Option ℕ → Cmd RbTree (Option ℕ)
lift_out old node child parent = do
  t ← get
  put (give_parent child parent t)
  above ← deref parent
  t1 ← get
  put (set_left above child t1)
  t2 ← get
  put (set_right node (t2.nodes old).rb_right t2)
  right ← deref (t2.nodes old).rb_right
  t3 ← get
  put (set_parent right (some node) t3)
  pure parent

-- A node with two children: its successor `node` takes its place and its colour.
unfoldable pub take_place : ℕ → ℕ → Cmd RbTree Removed
take_place old node = do
  t ← get
  put (replace_child (t.nodes old).rb_parent old (some node) t)
  t1 ← get
  let child : Option ℕ = (t1.nodes node).rb_right
  let parent : Option ℕ = (t1.nodes node).rb_parent
  parent' ← (if points_to parent old then pure (some node) else lift_out old node child parent)
  t2 ← get
  put (set_red node (t2.nodes old).rb_red (set_parent node (t2.nodes old).rb_parent t2))
  t3 ← get
  put (set_left node (t3.nodes old).rb_left t3)
  left ← deref (t3.nodes old).rb_left
  t4 ← get
  put (set_parent left (some node) t4)
  pure (record { child = child; parent = parent'; color = (t1.nodes node).rb_red })

unfoldable pub unlink_node : ℕ → ℕ → Cmd RbTree Removed
unlink_node fuel node t =
    let successor =
      leftmost fuel (t.nodes node).rb_right >>= λ n. deref n >>= λ n. take_place node n in
    elim ((t.nodes node).rb_left) [
      | none ↦ splice node (t.nodes node).rb_right t
      | some left ↦ elim ((t.nodes node).rb_right) [
        | none ↦ splice node (some left) t
        | some right ↦ successor t
      ]
    ]

-- A red sibling is turned away: the black sibling of `child` after that.
unfoldable pub sibling_right : ℕ → Cmd RbTree ℕ
sibling_right parent = do
  t ← get
  sibling ← deref (t.nodes parent).rb_right
  if (t.nodes sibling).rb_red
      then (put (set_red parent true (set_red sibling false t))
          >> rb_rotate_left parent
          >> get
          >>= λ t'. deref (t'.nodes parent).rb_right)
      else pure sibling

unfoldable pub sibling_left : ℕ → Cmd RbTree ℕ
sibling_left parent = do
  t ← get
  sibling ← deref (t.nodes parent).rb_left
  if (t.nodes sibling).rb_red
      then (put (set_red parent true (set_red sibling false t))
          >> rb_rotate_right parent
          >> get
          >>= λ t'. deref (t'.nodes parent).rb_left)
      else pure sibling

-- The sibling's outer child becomes the red one.
unfoldable pub outer_right : ℕ → ℕ → Cmd RbTree ℕ
outer_right parent sibling = do
  t ← get
  if not (is_red t (t.nodes sibling).rb_right)
      then (put (set_red sibling true (blacken (t.nodes sibling).rb_left t))
          >> rb_rotate_right sibling
          >> get
          >>= λ t'. deref (t'.nodes parent).rb_right)
      else pure sibling

unfoldable pub outer_left : ℕ → ℕ → Cmd RbTree ℕ
outer_left parent sibling = do
  t ← get
  if not (is_red t (t.nodes sibling).rb_left)
      then (put (set_red sibling true (blacken (t.nodes sibling).rb_right t))
          >> rb_rotate_left sibling
          >> get
          >>= λ t'. deref (t'.nodes parent).rb_left)
      else pure sibling

-- The sibling takes the parent's colour.
abbrev pub exchange : ℕ → ℕ → RbTree → RbTree
exchange parent sibling t = set_red parent false (set_red sibling (t.nodes parent).rb_red t)

unfoldable pub close_right : ℕ → ℕ → Cmd RbTree (Option ℕ × Option ℕ)
close_right parent sibling = do
  sibling' ← outer_right parent sibling
  t ← get
  put (blacken (t.nodes sibling').rb_right (exchange parent sibling' t))
  rb_rotate_left parent
  t' ← get
  pure (t'.root, some parent)

unfoldable pub close_left : ℕ → ℕ → Cmd RbTree (Option ℕ × Option ℕ)
close_left parent sibling = do
  sibling' ← outer_left parent sibling
  t ← get
  put (blacken (t.nodes sibling').rb_left (exchange parent sibling' t))
  rb_rotate_right parent
  t' ← get
  pure (t'.root, some parent)

-- Both of the sibling's children are black: the parent is next.
abbrev both_black : RbTree → ℕ → Bool
both_black t sibling =
    not (is_red t (t.nodes sibling).rb_left) && not (is_red t (t.nodes sibling).rb_right)

unfoldable pub climb : ℕ → ℕ → Cmd RbTree (Option ℕ × Option ℕ)
climb parent sibling = do
  t ← get
  put (set_red sibling true t)
  pure (some parent, (t.nodes parent).rb_parent)

-- The two halves of the loop's body: the next child and parent.
unfoldable pub erase_left : ℕ → Cmd RbTree (Option ℕ × Option ℕ)
erase_left parent = do
  sibling ← sibling_right parent
  t ← get
  if both_black t sibling then climb parent sibling else close_right parent sibling

unfoldable pub erase_right : ℕ → Cmd RbTree (Option ℕ × Option ℕ)
erase_right parent = do
  sibling ← sibling_left parent
  t ← get
  if both_black t sibling then climb parent sibling else close_left parent sibling

unfoldable pub erase_round : Option ℕ → Option ℕ → Cmd RbTree (Option ℕ × Option ℕ)
erase_round child none t = fault
erase_round child (some parent) t =
    if same_pointer (t.nodes parent).rb_left child
    then erase_left parent t
    else erase_right parent t

-- The loop's test.
abbrev lacks_black : RbTree → Option ℕ → Bool
lacks_black t child = not (same_pointer child t.root) && not (is_red t child)

-- The loop, with the child at its end.
unfoldable pub erase_loop : ℕ → Option ℕ → Option ℕ → Cmd RbTree (Option ℕ)
erase_loop zero child parent t = if lacks_black t child then out_of_fuel else done child t
erase_loop (suc fuel) child parent t =
    let again =
      and_then (erase_round child parent t) λ (child', parent'). erase_loop fuel child' parent' in
    if lacks_black t child then again else done child t

unfoldable pub rb_erase : ℕ → ℕ → Cmd RbTree (Unit {0})
rb_erase fuel node = do
  removed ← unlink_node fuel node
  if removed.color
      then pure tt
      else (erase_loop fuel removed.child removed.parent >>= λ child.
          get >>= λ t. put (blacken child t))

unfoldable pub cfs_dequeue_min : ℕ → Cmd RbTree (Option ℕ)
cfs_dequeue_min fuel = do
  first ← rb_first fuel
  elim first [ none ↦ pure none | some n ↦ rb_erase fuel n >> pure (some n) ]
