-- ===== src/RbTree/Tests.antt =====
-- The tree of processes on concrete nodes.
use apna_os.Prelude.{
  List, [], ◌∷◌, arith, ◌==◌, if◌then◌else◌, ℕ, ◌≡◌, refl, some, none, false, Option,
}
use apna_os.Prelude.Run.{Returns, Run, Cmd, done, pure, ◌>>=◌, ◌>>◌}
use apna_os.RbTree.Shape.{leaf, node}
use apna_os.Prelude.Int.{pos}
use apna_os.Process.Chain.{insert}
use apna_os.RbTree.Erase.{
  cfs_dequeue_min, rb_erase, unlink_node, splice, replace_child, take_place, lift_out, erase_loop,
  erase_round, erase_left, erase_right, sibling_right, sibling_left, climb, close_right, close_left,
  outer_right, outer_left,
}
use apna_os.RbTree.Enqueue.{IsRunTree, cfs_enqueue-insert}
use apna_os.RbTree.{
  RbTree, cfs_enqueue, find_link, rb_link_node, rb_insert_color, insert_loop, insert_round,
  under_red, insert_left, insert_right, settle_left, settle_right, recolour, rb_rotate_left,
  rb_rotate_right, rotate_left_with, rotate_right_with, hang_left, hang_right, blacken_root,
  rb_first, leftmost,
}

abbrev empty_tree : RbTree
empty_tree = record {
  nodes = λ p. record { rb_left = none; rb_right = none; rb_parent = none; rb_red = false };
  root = none;
}

-- The processes 1, 2 and 3, each with its number as its virtual run time.
abbrev three : Cmd RbTree (Unit {0})
three = cfs_enqueue (λ p. p) 9 1 >> cfs_enqueue (λ p. p) 9 2 >> cfs_enqueue (λ p. p) 9 3

abbrev root_after : Run RbTree (Unit {0}) → Option ℕ
root_after r = elim r [ done _ t ↦ t.root | _ ↦ none ]

-- The tree is turned: 2 is on top, and the loop ends.
three-root : root_after (three empty_tree) ≡ some 2
unfolding cfs_enqueue find_link rb_link_node rb_insert_color insert_loop insert_round under_red
    insert_left insert_right settle_left settle_right recolour rb_rotate_left rb_rotate_right
    rotate_left_with rotate_right_with hang_left hang_right blacken_root
three-root = refl

-- The black 1 is the root, the red 2 its right child.
abbrev two : RbTree
two = record {
  nodes = λ p. record {
    rb_left = none;
    rb_right = if p == 1 then some 2 else none;
    rb_parent = if p == 2 then some 1 else none;
    rb_red = p == 2;
  };
  root = some 1;
}

-- 3 comes below 2, and 1 is turned.
cfs_enqueue-insert_example :
    Returns
      (λ _ t'. IsRunTree (λ p. p) t' (insert (λ a. pos a) 3 (1 ∷ 2 ∷ [])))
      (cfs_enqueue (λ p. p) 9 3 two)
cfs_enqueue-insert_example =
    cfs_enqueue-insert (λ p. p) 9 3 two (1 ∷ 2 ∷ [])
      (record {
        red_black = record {
          tree = node leaf 1 (node leaf 2 leaf);
          whole = record {
            stands = (refl, (refl, (refl, (refl, (refl, (refl, refl))))));
            proper =
                ((tt, (tt, ((λ e. omega (arith, e)), tt))), (tt, (tt, ((tt, tt), (tt, (tt, tt))))));
            order = refl;
          };
          height = 1;
          balanced = (0, (refl, ((0, (refl, (refl, (refl, (refl, refl))))), (refl, tt))));
        };
        black_root = refl;
        sorted = ((omega arith, tt), (tt, tt));
      })
      ((λ e. omega (arith, e)), ((λ e. omega (arith, e)), tt)) (omega arith)

-- Five processes come in some order, and the first one that leaves is the one with the smallest
-- virtual run time, also where the tree has to be turned.
abbrev mixed : Cmd RbTree (Unit {0})
mixed =
    cfs_enqueue (λ p. p) 9 4
    >> cfs_enqueue (λ p. p) 9 2
    >> cfs_enqueue (λ p. p) 9 5
    >> cfs_enqueue (λ p. p) 9 1
    >> cfs_enqueue (λ p. p) 9 3

abbrev all_out : Cmd RbTree (List (Option ℕ))
all_out = do
  a ← cfs_dequeue_min 9
  b ← cfs_dequeue_min 9
  c ← cfs_dequeue_min 9
  d ← cfs_dequeue_min 9
  e ← cfs_dequeue_min 9
  f ← cfs_dequeue_min 9
  pure (a ∷ b ∷ c ∷ d ∷ e ∷ f ∷ [])

abbrev value : Run RbTree (List (Option ℕ)) → List (Option ℕ)
value r = elim r [ done v _ ↦ v | _ ↦ [] ]

mixed-in_order :
    value ((mixed >> all_out) empty_tree) ≡ some 1 ∷ some 2 ∷ some 3 ∷ some 4 ∷ some 5 ∷ none ∷ []
unfolding cfs_enqueue find_link rb_link_node rb_insert_color insert_loop insert_round under_red
    insert_left insert_right settle_left settle_right recolour rb_rotate_left rb_rotate_right
    rotate_left_with rotate_right_with hang_left hang_right blacken_root cfs_dequeue_min rb_first
    leftmost rb_erase unlink_node splice replace_child take_place lift_out erase_loop erase_round
    erase_left erase_right sibling_right sibling_left climb close_right close_left outer_right
    outer_left
mixed-in_order = refl
