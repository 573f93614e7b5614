-- ===== src/RbTree/Rotate.antt =====
-- The rotation of process/rbtree.c on the tree that the nodes stand for.
use apna_os.Prelude.{ℕ, ◌≡◌, refl, ◌≢◌, Option, some, Array, ◌∙◌, ap, sym, subst}
use apna_os.Prelude.Run.{Returns, returns}
use apna_os.Process.{RbNode}
use apna_os.RbTree.{RbTree, rotate_left_with, rb_rotate_left}
use apna_os.RbTree.Shape.{
  Tree, leaf, node, Stands, Outside, Proper, Apart-top, Away, Away-top, Away-left, Away-right,
  top-Outside, top-Away, top-Away',
}
use apna_os.RbTree.Turn.{
  Turns, z, rotate_left_with-Turns, Hangs, rotate_left_with-Hangs, rotate_left_with-reds,
  rotate_left_with-root,
}

Stands-frame :
    {x y : ℕ} {z above : Option ℕ} {b b' : Array RbNode}
    → Turns x y z above b b'
    → (at up : Option ℕ) (t : Tree) → Outside x t
    → Outside y t
    → Away z t
    → Away above t
    → Stands b at up t
    → Stands b' at up t
Stands-frame r at up leaf ox oy az aa s = s
Stands-frame {z = z} {above = above} {b = b} r at up (node l a g) (oxl, (nx, oxr)) (oyl, (ny, oyr))
      az aa (e, (p, (sl, sr))) =
    let same = r.others a nx ny (Away-top z l g a az) (Away-top above l g a aa) in
    (
      e,
      rw same (
        p,
        (
          Stands-frame r (b a).rb_left (some a) l oxl oyl (Away-left z l g a az)
              (Away-left above l g a aa) sl,
          Stands-frame r (b a).rb_right (some a) g oxr oyr (Away-right z l g a az)
              (Away-right above l g a aa) sr,
        ),
      ),
    )

-- The inner tree changes its parent.
inner-Stands :
    {x y : ℕ} {z above : Option ℕ} {b b' : Array RbNode}
    → Turns x y z above b b'
    → (t : Tree) → Outside x t
    → Outside y t
    → Proper t
    → Away above t
    → Stands b z (some y) t
    → Stands b' z (some x) t
inner-Stands r leaf ox oy pt aa s = s
inner-Stands {z = z} {above = above} {b = b} r (node l w g) (oxl, (nx, oxr)) (oyl, (ny, oyr))
      ((ol, og), (ap', (pl, pg))) aa (e, (p, (sl, sr))) =
    let now = r.inner w e in
    let away = λ (u : Tree) (o : Outside w u). subst (λ at. Away at u) (sym e) o in
    (
      e,
      rw now (
        refl,
        (
          Stands-frame r (b w).rb_left (some w) l oxl oyl (away l ol) (Away-left above l g w aa) sl,
          Stands-frame r (b w).rb_right (some w) g oxr oyr (away g og) (Away-right above l g w aa)
              sr,
        ),
      ),
    )

-- What `rb_rotate_left` makes of the tree `l x (m y r)`.
pub record TurnedLeft (x y : ℕ) (l m r : Tree) (t t' : RbTree) : Type 0 where
  pub stands : Stands t'.nodes (some y) (t.nodes x).rb_parent (node (node l x m) y r)
  pub hangs : Hangs (t.nodes x).rb_parent x y t t'
  pub reds : (a : ℕ) → (t'.nodes a).rb_red ≡ (t.nodes a).rb_red
  pub root : (p : ℕ) → (t.nodes x).rb_parent ≡ some p → t'.root ≡ t.root
  pub others :
      (a : ℕ)
      → Outside a (node l x (node m y r))
      → (t.nodes x).rb_parent ≢ some a
      → t'.nodes a ≡ t.nodes a

Away-some : {above : Option ℕ} {p : ℕ} (t : Tree) → above ≡ some p → Away above t → Outside p t
Away-some t e h = subst (λ a. Away a t) e h

module _ (x y : ℕ) (l m r : Tree) (t : RbTree)
    (s : Stands t.nodes (some x) (t.nodes x).rb_parent (node l x (node m y r)))
    (proper : Proper (node l x (node m y r)))
    (away : Away (t.nodes x).rb_parent (node l x (node m y r))) where
  pub turned : TurnedLeft x y l m r t (rotate_left_with x y t)
  turned =
      let (e, (p, (sl, (right, (up, (sm, sr)))))) = s in
      let ((xl, (xm, (xy, xr))), (apl, (pl, ((ym, yr), (mr, (pm, pr)))))) = proper in
      let (yl, (lm, lr)) = Apart-top m y r l apl in
      let parent = (t.nodes x).rb_parent in
      let zl = top-Away' t.nodes (t.nodes y).rb_left (some y) m l sm lm in
      let zr = top-Away t.nodes (t.nodes y).rb_left (some y) m r sm mr in
      let zx = top-Outside t.nodes (t.nodes y).rb_left (some y) x m sm xm in
      let zy = top-Outside t.nodes (t.nodes y).rb_left (some y) y m sm ym in
      let b' = (rotate_left_with x y t).nodes in
      let aright = Away-right parent l (node m y r) x away in
      let am = Away-left parent m r y aright in
      let ux = Away-top parent l (node m y r) x away in
      let uy = Away-top parent m r y aright in
      let far : (w : ℕ) → z x y t ≡ some w → parent ≢ some w = λ w e' e''.
        top-Outside t.nodes (t.nodes y).rb_left (some y) w m sm (Away-some m e'' am) e' in
      let turns = rotate_left_with-Turns x y t xy zx zy ux uy far in
      record {
        stands = (
          refl,
          rw turns.high (
            refl,
            (
              (
                refl,
                rw turns.low (
                  refl,
                  (
                    Stands-frame turns (t.nodes x).rb_left (some x) l xl yl zl
                        (Away-left parent l (node m y r) x away) sl,
                    inner-Stands turns m xm ym pm am sm,
                  ),
                ),
              ),
              Stands-frame turns (t.nodes y).rb_right (some y) r xr yr zr
                  (Away-right parent m r y aright) sr,
            ),
          ),
        );
        hangs = rotate_left_with-Hangs x y t λ q e'. (
          (λ same. ux (e' ∙ ap some (sym same))),
          ((λ same. uy (e' ∙ ap some (sym same))), (λ e''. far q e'' e')),
        );
        reds = rotate_left_with-reds x y t;
        root = λ p e. rotate_left_with-root x y p t e;
        others = λ a (ol, (ax, (om, (ay, or)))) na.
            turns.others a (λ e. ax (sym e)) (λ e. ay (sym e))
              (top-Outside t.nodes (t.nodes y).rb_left (some y) a m sm om) na;
      }

  -- Where `x` has the right child `y`, both below `x`'s parent, the trees below them are `l`, `m` and
  -- `r` in this order, no node stands twice and the parent is none of them, `rb_rotate_left` of `x`
  -- ends without a read through the null pointer. Then `y` stands below that parent with `x` on its
  -- left, the same three trees are below them in the same order, the parent's link that led to `x`,
  -- or the root, leads to `y`, and of the nodes outside these trees none but the parent changes.
  rb_rotate_left-TurnedLeft : Returns (λ _ t'. TurnedLeft x y l m r t t') (rb_rotate_left x t)
  unfolding rb_rotate_left
  rb_rotate_left-TurnedLeft = rw (s.1.1.1.0, rb_rotate_left) (returns turned)
