-- ===== src/RbTree/Round.antt =====
-- The cases of a round of `rb_insert_color` below a red parent.
use apna_os.Prelude.{ℕ, suc, ◌≡◌, refl, Bool, true, false, some, List, ◌∙◌, ap, sym, subst, fun_ext}
use apna_os.Prelude.Run.{and_then, Returns, returns, bind, mono}
use apna_os.RbTree.{RbTree, set_red, recolour}
use apna_os.RbTree.Shape.{Tree, node, Outside}
use apna_os.RbTree.Sides.{Side, on_left, on_right, flip, join, rotate}
use apna_os.RbTree.Way.{Way, under, plug}
use apna_os.RbTree.Rehang.{plug-Proper, Proper-Parts}
use apna_os.RbTree.Place.{Whole, rotate-Whole}
use apna_os.RbTree.Colour.{
  top_red, Calm, Balanced, Wants, Balanced-join, Balanced-split, top-join, Same, Same-trans,
  SameWay-trans, Balanced-Same, Wants-Same, reds, set_red-here, set_red-there, set_red-Same,
}
use apna_os.RbTree.Paint.{Has-top, Has-near, Has-far, set_red-SameWay, Whole-set_red}
use apna_os.RbTree.Settle.{Pending, settle, settle-Pending, Proper-Upper, Outside-parts}

as_node :
    (s : Side) (l : Tree) (x : ℕ) (r : Tree)
    → (l' : Tree) × ((r' : Tree) × (join s l x r ≡ node l' x r'))
as_node on_left l x r = (l, (r, refl))
as_node on_right l x r = (r, (l, refl))

-- What a round finds: a red `x` below a red `p` below a black `g`, with `u` beside `x`, `w` beside `p`.
pub record Found (t : RbTree) (es : List ℕ) (c : Way) (s s' : Side) (l : Tree) (x : ℕ) (r : Tree)
    (p : ℕ) (u : Tree) (g : ℕ) (w : Tree) (h : ℕ) : Type 0 where
  pub whole : Whole t es (plug c (join s' (join s (node l x r) p u) g w))
  pub red : reds t x ≡ true
  pub red' : reds t p ≡ true
  pub tree : Balanced (reds t) (node l x r) h
  pub beside : Balanced (reds t) u h
  pub uncle : Balanced (reds t) w h
  pub black : top_red (reds t) u ≡ false
  pub way : Wants (reds t) c (suc h)

-- The uncle is red: the grandparent is next.
pub recolour-Pending :
    {t : RbTree} {es : List ℕ} {c : Way} {s s' : Side} {l : Tree} {x : ℕ} {r : Tree} {p : ℕ}
    {u : Tree} {g : ℕ} {wl : Tree} {v : ℕ} {wr : Tree} {h : ℕ}
    → Found t es c s s' l x r p u g (node wl v wr) h
    → reds t v ≡ true
    → Returns
        (λ next t'.
          (next ≡ some g) × ((l' : Tree) × ((r' : Tree) × Pending t' es c l' g r' (suc h))))
        (recolour p g (some v) t)
unfolding recolour
recolour-Pending {t = t} {es = es} {c = c} {s = s} {s' = s'} {l = l} {x = x} {r = r} {p = p} {u = u}
      {g = g} {wl = wl} {v = v} {wr = wr} {h = h} f redv =
    let low = node l x r in
    let w = node wl v wr in
    let old = join s' (join s low p u) g w in
    let (proper, clear) = plug-Proper c old f.whole.proper in
    let up = Proper-Upper s s' low p u g w proper in
    let parts = Proper-Parts s' (join s low p u) g w proper in
    let (vl, (vp, vu)) = Outside-parts s v low p u parts.apart.1.0 in
    let (pwl, (pv, pwr)) = up.pw in
    let (gwl, (gv, gwr)) = up.gw in
    let ((vwl, vwr), _) = parts.other in
    let t1 = set_red v false t in
    let t2 = set_red p false t1 in
    let t3 = set_red g true t2 in
    let same : (k : Tree) → Outside v k → Outside p k → Outside g k → Same (reds t) (reds t3) k =
      λ k ov op og.
        Same-trans (reds t) (reds t2) (reds t3) k
          (Same-trans (reds t) (reds t1) (reds t2) k (set_red-Same v false t k ov)
            (set_red-Same p false t1 k op))
          (set_red-Same g true t2 k og) in
    let hasv = Has-far s' v (join s low p u) g w (Has-top on_left wl v wr) in
    let hasp = Has-near s' p (join s low p u) g w (Has-top s low p u) in
    let hasg = Has-top s' (join s low p u) g w in
    let same_way =
      SameWay-trans (reds t) (reds t2) (reds t3) c
        (SameWay-trans (reds t) (reds t1) (reds t2) c (set_red-SameWay v false t c old hasv clear)
          (set_red-SameWay p false t1 c old hasp clear))
        (set_red-SameWay g true t2 c old hasg clear) in
    let painted = Whole-set_red g true t2 es (plug c old) (
      Whole-set_red p false t1 es (plug c old) (Whole-set_red v false t es (plug c old) f.whole)) in
    let blackv : reds t3 v ≡ false =
      set_red-there g v true t2 gv ∙ (set_red-there p v false t1 pv ∙ set_red-here v false t) in
    let blackp : reds t3 p ≡ false =
      set_red-there g p true t2 (λ e. up.pg (sym e)) ∙ set_red-here p false t1 in
    let redg = set_red-here g true t2 in
    let (m, (bl, (br, (e, _)))) = f.uncle in
    let e' : h ≡ m = rw redv at e in
    let high : Balanced (reds t3) w (suc h) = (
      m,
      (
        Balanced-Same (reds t) (reds t3) wl m (same wl vwl pwl gwl) bl,
        (Balanced-Same (reds t) (reds t3) wr m (same wr vwr pwr gwr) br, rw blackv (ap suc e', tt)),
      ),
    ) in
    let near : Balanced (reds t3) (join s low p u) (suc h) =
      Balanced-join (reds t3) s low p u (suc h) (
        h,
        (
          Balanced-Same (reds t) (reds t3) low h (same low vl up.pt up.gt) f.tree,
          (
            Balanced-Same (reds t) (reds t3) u h (same u vu up.pu up.gu) f.beside,
            rw blackp (refl, tt),
          ),
        ),
      ) in
    let tree : Balanced (reds t3) old (suc h) =
      Balanced-join (reds t3) s' (join s low p u) g w (suc h)
        (suc h, (near, (high, rw redg (refl, (top-join (reds t3) s low p u ∙ blackp, blackv))))) in
    let (l', (r', e'')) = as_node s' (join s low p u) g w in
    returns (
      refl,
      (
        l',
        (
          r',
          record {
            whole = subst (λ k. Whole t3 es (plug c k)) e'' painted;
            red = redg;
            tree = subst (λ k. Balanced (reds t3) k (suc h)) e'' tree;
            way = Wants-Same (reds t) (reds t3) c (suc h) same_way f.way;
          },
        ),
      ),
    )

bend :
    (s : Side) (l : Tree) (x : ℕ) (r : Tree) (p : ℕ) (u : Tree)
    → (m : Tree) × ((n : Tree) × ((join s m x n ≡ node l x r)
          × (join s u p (join s m x n) ≡ join (flip s) (node l x r) p u)))
bend on_left l x r p u = (l, (r, (refl, refl)))
bend on_right l x r p u = (r, (l, (refl, refl)))

-- A black uncle, and `x` on the other side of its parent than this of its own.
pub bent-Pending :
    {t : RbTree} {es : List ℕ} {c : Way} (s : Side) {l : Tree} {x : ℕ} {r : Tree} {p : ℕ} {u : Tree}
    {g : ℕ} {w : Tree} {h : ℕ}
    → Found t es c (flip s) s l x r p u g w h
    → top_red (reds t) w ≡ false
    → Returns
        (λ next t'.
          (next ≡ some p)
          × ((a : Tree) × ((l' : Tree) × ((r' : Tree) × Pending t' es (under s c x a) l' p r' h))))
        (and_then (rotate s p t) (λ _. settle s p x g))
bent-Pending {t = t} {es = es} {c = c} s {l = l} {x = x} {r = r} {p = p} {u = u} {g = g} {w = w}
      {h = h} f blackw =
    let (m, (n, (e, e'))) = bend s l x r p u in
    let whole = subst (λ k. Whole t es (plug c (join s k g w))) (sym e') f.whole in
    let split =
      Balanced-split (reds t) s m x n h (subst (λ k. Balanced (reds t) k h) (sym e) f.tree) in
    let (k, (bm, (bn, (h', calm)))) = split in
    let h'' : h ≡ k = rw f.red at h' in
    let calm' : Calm true (top_red (reds t) m) (top_red (reds t) n) = rw f.red at calm in
    let bm' = subst (λ k. Balanced (reds t) m k) (sym h'') bm in
    let bn' = subst (λ k. Balanced (reds t) n k) (sym h'') bn in
    let tree =
      Balanced-join (reds t) s u p m h
        (h, (f.beside, (bm', rw f.red' (refl, (f.black, calm'.0))))) in
    let (l', (r', e'')) = as_node s u p m in
    bind (rotate-Whole s (under s c g w) p x u m n es t whole) λ _ t' (v, q).
      let colours : reds t ≡ reds t' = fun_ext λ a. sym (q a) in
      let at : (P : (ℕ → Bool) → Type 0) → P (reds t) → P (reds t') = λ P. subst P colours in
      mono
        (settle-Pending s c l' p r' x n g w h es t'
          (subst (λ k. Whole t' es (plug c (join s (join s k x n) g w))) e'' v)
          (at (λ red. red p ≡ true) f.red')
          (at (λ red. Balanced red (node l' p r') h) (subst (λ k. Balanced (reds t) k h) e'' tree))
          (at (λ red. Balanced red n h) bn') (at (λ red. Balanced red w h) f.uncle)
          (at (λ red. top_red red n ≡ false) calm'.1) (at (λ red. top_red red w ≡ false) blackw)
          (at (λ red. Wants red c (suc h)) f.way))
        λ next t'' (e, pending). (e, (join s n g w, (l', (r', pending))))
