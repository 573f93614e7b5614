-- ===== src/RbTree/Sibling.antt =====
-- The two rotations of `rb_erase` in process/rbtree.c that lead to a black sibling with a red outer
-- child.
use apna_os.Prelude.{ℕ, suc, ◌≡◌, refl, Bool, true, false, List, ◌∙◌, sym, subst, fun_ext, arith}
use apna_os.Prelude.Run.{Returns, mono}
use apna_os.RbTree.{RbTree, set_red}
use apna_os.RbTree.Shape.{Tree, leaf, node, Outside}
use apna_os.RbTree.Sides.{Side, flip, join, rotate}
use apna_os.RbTree.Way.{Way, under, plug}
use apna_os.RbTree.Rehang.{plug-Proper, Proper-Parts, Apart-sym}
use apna_os.RbTree.Place.{Whole, rotate-Whole}
use apna_os.RbTree.Colour.{
  level, top_red, Calm, Balanced, Rests, Wants, Balanced-join, Balanced-split, top-join, reds,
  set_red-here, set_red-there, below_black, below_black-Same, SameWay-trans, Wants-Same,
}
use apna_os.RbTree.Paint.{Has-top, Has-near, Has-far, set_red-SameWay, Whole-set_red}
use apna_os.RbTree.Settle.{Outside-parts, fold, fold'}
use apna_os.RbTree.Short.{
  Short, Light, Light-Balanced, Balanced-set_red, top-set_red, sibling-Upper, other-side,
}
use apna_os.RbTree.Close.{Apart-Has}

Balanced-Light : (red : ℕ → Bool) (w : Tree) (h : ℕ) → Balanced red w h → Light red w h
Balanced-Light red leaf h b = b
Balanced-Light red (node l x r) h (m, (bl, (br, (e, _)))) = (m, (bl, (br, e)))

-- The inner child is red and the outer one black: the inner one becomes the sibling.
pub outer-Short :
    (t : RbTree) (es : List ℕ) (s : Side) (c : Way) (w : Tree) (p : ℕ) (a1 : Tree) (i : ℕ)
    (a2 : Tree) (v : ℕ) (b : Tree) (h : ℕ)
    → Short t es (under s c p (join s (join s a1 i a2) v b)) w h
    → top_red (reds t) w ≡ false
    → reds t v ≡ false
    → reds t i ≡ true
    → top_red (reds t) b ≡ false
    → Returns
        (λ _ t'.
          Short t' es (under s c p (join s a1 i (join s a2 v b))) w h
          × ((reds t' i ≡ false) × ((reds t' v ≡ true) × (top_red (reds t') w ≡ false))))
        (rotate (flip s) v (set_red v true (set_red i false t)))
outer-Short t es s c w p a1 i a2 v b h st blackw blackv redi blackb =
    let a = join s a1 i a2 in
    let sib = join s a v b in
    let whole = join s w p sib in
    let t1 = set_red i false t in
    let t2 = set_red v true t1 in
    let (proper, clear) = plug-Proper c whole st.whole.proper in
    let up = sibling-Upper s w p a v b proper in
    let high = Proper-Parts s w p sib proper in
    let parts = Proper-Parts s a v b high.other in
    let inner = Proper-Parts s a1 i a2 parts.this in
    let hasi = Has-near s i a v b (Has-top s a1 i a2) in
    let iw = Apart-Has i sib w high.apart hasi in
    let ib = Apart-Has i a b (Apart-sym b a parts.apart) (Has-top s a1 i a2) in
    let (va1, (vi, va2)) = Outside-parts s v a1 i a2 up.pt in
    let (_, (pi, _)) = Outside-parts s p a1 i a2 up.gt in
    let keep : (k : Tree) (n : ℕ)
        → Outside i k
        → Outside v k
        → Balanced (reds t) k n
        → Balanced (reds t2) k n =
      λ k n oi ov b. Balanced-set_red v true t1 k n ov (Balanced-set_red i false t k n oi b) in
    let top : (k : Tree)
        → Outside i k
        → Outside v k
        → top_red (reds t) k ≡ false
        → top_red (reds t2) k ≡ false =
      λ k oi ov e. top-set_red v true t1 k ov ∙ (top-set_red i false t k oi ∙ e) in
    let colouri : reds t2 i ≡ false = set_red-there v i true t1 vi ∙ set_red-here i false t in
    let colourv : reds t2 v ≡ true = set_red-here v true t1 in
    let colourp : reds t2 p ≡ reds t p =
      set_red-there v p true t1 up.pg ∙ set_red-there i p false t (λ e. pi (sym e)) in
    let painted =
      Whole-set_red v true t1 es (plug c whole)
        (Whole-set_red i false t es (plug c whole) st.whole) in
    let (m, (ba, (bb, (e, _)))) = Balanced-split (reds t) s a v b (suc h) st.way.0 in
    let e0 : suc h ≡ suc m = rw blackv at e in
    let e' : m ≡ h = omega (arith, e0) in
    let (n, (b1, (b2, (en, calm)))) =
      Balanced-split (reds t) s a1 i a2 h (subst (Balanced (reds t) a) e' ba) in
    let en0 : h ≡ n = rw redi at en in
    let en' = sym en0 in
    let calm' : Calm true (top_red (reds t) a1) (top_red (reds t) a2) = rw redi at calm in
    let b1' = keep a1 h inner.out va1 (subst (Balanced (reds t) a1) en' b1) in
    let b2' = keep a2 h inner.out' va2 (subst (Balanced (reds t) a2) en' b2) in
    let bb' = keep b h ib up.pu (subst (Balanced (reds t) b) e' bb) in
    let low = Balanced-join (reds t2) s a2 v b h (
      h,
      (b2', (bb', rw colourv (refl, (top a2 inner.out' va2 calm'.1, top b ib up.pu blackb)))),
    ) in
    let sib' =
      Balanced-join (reds t2) s a1 i (join s a2 v b) (suc h)
        (h, (b1', (low, rw colouri (refl, tt)))) in
    let bw = keep w h iw up.pw (Light-Balanced (reds t) w h st.light blackw) in
    let same_way =
      SameWay-trans (reds t) (reds t1) (reds t2) c
        (set_red-SameWay i false t c whole (Has-far s i w p sib hasi) clear)
        (set_red-SameWay v true t1 c whole (Has-far s v w p sib (Has-top s a v b)) clear) in
    let rests : Rests (reds t p) false (below_black (reds t) c) =
      rw (top-join (reds t) s a v b ∙ blackv) at st.way.1.0 in
    let way : Wants (reds t2) (under s c p (join s a1 i (join s a2 v b))) (suc h) = (
      sib',
      (
        rw
            (
              colourp,
              top-join (reds t2) s a1 i (join s a2 v b) ∙ colouri,
              below_black-Same (reds t) (reds t2) c same_way,
            )
            rests,
        rw colourp (Wants-Same (reds t) (reds t2) c (level (reds t p) (suc h)) same_way st.way.1.1),
      ),
    ) in
    let place : Whole t2 es
        (plug (under (flip s) c p w) (join (flip s) b v (join (flip s) a2 i a1))) =
      subst (λ k. Whole t2 es (plug c k))
        (sym (other-side s w p (join (flip s) b v (join (flip s) a2 i a1))))
        (subst (λ k. Whole t2 es (plug c (join s w p k))) (sym (fold s b v a2 i a1)) painted) in
    mono (rotate-Whole (flip s) (under (flip s) c p w) v i b a2 a1 es t2 place) λ _ t' (v', q).
      let colours : reds t2 ≡ reds t' = fun_ext λ a. sym (q a) in
      (
        record {
          whole =
              subst (λ k. Whole t' es (plug c (join s w p k))) (fold' s b v a2 i a1)
                (subst (λ k. Whole t' es (plug c k))
                  (other-side s w p (join (flip s) (join (flip s) b v a2) i a1)) v');
          light = subst (λ red. Light red w h) colours (Balanced-Light (reds t2) w h bw);
          way =
              subst (λ red. Wants red (under s c p (join s a1 i (join s a2 v b))) (suc h)) colours
                way;
        },
        (
          subst (λ red. red i ≡ false) colours colouri,
          (
            subst (λ red. red v ≡ true) colours colourv,
            subst (λ red. top_red red w ≡ false) colours (top w iw up.pw blackw),
          ),
        ),
      )

-- The sibling is red: a child of it becomes the sibling.
pub sibling-Short :
    (t : RbTree) (es : List ℕ) (s : Side) (c : Way) (w : Tree) (p : ℕ) (a : Tree) (u : ℕ) (b : Tree)
    (h : ℕ)
    → Short t es (under s c p (join s a u b)) w h
    → top_red (reds t) w ≡ false
    → reds t u ≡ true
    → Returns
        (λ _ t'.
          Short t' es (under s (under s c u b) p a) w h
          × ((top_red (reds t') a ≡ false) × ((top_red (reds t') w ≡ false) × (reds t' p ≡ true))))
        (rotate s p (set_red p true (set_red u false t)))
sibling-Short t es s c w p a u b h st blackw redu =
    let sib = join s a u b in
    let whole = join s w p sib in
    let t1 = set_red u false t in
    let t2 = set_red p true t1 in
    let (proper, clear) = plug-Proper c whole st.whole.proper in
    let up = sibling-Upper s w p a u b proper in
    let keep : (k : Tree) (n : ℕ)
        → Outside u k
        → Outside p k
        → Balanced (reds t) k n
        → Balanced (reds t2) k n =
      λ k n ou op b. Balanced-set_red p true t1 k n op (Balanced-set_red u false t k n ou b) in
    let top : (k : Tree)
        → Outside u k
        → Outside p k
        → top_red (reds t) k ≡ false
        → top_red (reds t2) k ≡ false =
      λ k ou op e. top-set_red p true t1 k op ∙ (top-set_red u false t k ou ∙ e) in
    let colouru : reds t2 u ≡ false =
      set_red-there p u true t1 (λ e. up.pg (sym e)) ∙ set_red-here u false t in
    let colourp : reds t2 p ≡ true = set_red-here p true t1 in
    let painted =
      Whole-set_red p true t1 es (plug c whole)
        (Whole-set_red u false t es (plug c whole) st.whole) in
    let same_way =
      SameWay-trans (reds t) (reds t1) (reds t2) c
        (set_red-SameWay u false t c whole (Has-far s u w p sib (Has-top s a u b)) clear)
        (set_red-SameWay p true t1 c whole (Has-top s w p sib) clear) in
    let rests : Rests (reds t p) true (below_black (reds t) c) =
      rw (top-join (reds t) s a u b ∙ redu) at st.way.1.0 in
    let blackp = black_above (reds t p) (below_black (reds t) c) rests in
    let wants : Wants (reds t) c (suc (suc h)) = rw blackp at st.way.1.1 in
    let (m, (ba, (bb, (e, calm)))) = Balanced-split (reds t) s a u b (suc h) st.way.0 in
    let e0 : suc h ≡ m = rw redu at e in
    let e' = sym e0 in
    let calm' : Calm true (top_red (reds t) a) (top_red (reds t) b) = rw redu at calm in
    let ba' = keep a (suc h) up.pt up.gt (subst (Balanced (reds t) a) e' ba) in
    let bb' = keep b (suc h) up.pu up.gu (subst (Balanced (reds t) b) e' bb) in
    let bw = keep w h up.pw up.gw (Light-Balanced (reds t) w h st.light blackw) in
    let blacka = top a up.pt up.gt calm'.0 in
    let wants' = Wants-Same (reds t) (reds t2) c (suc (suc h)) same_way wants in
    let way : Wants (reds t2) (under s (under s c u b) p a) (suc h) =
      (ba', (rw (colourp, colouru) (blacka, refl), rw (colourp, colouru) (bb', (tt, wants')))) in
    mono (rotate-Whole s c p u w a b es t2 painted) λ _ t' (v', q).
      let colours : reds t2 ≡ reds t' = fun_ext λ a. sym (q a) in
      (
        record {
          whole = v';
          light = subst (λ red. Light red w h) colours (Balanced-Light (reds t2) w h bw);
          way = subst (λ red. Wants red (under s (under s c u b) p a) (suc h)) colours way;
        },
        (
          subst (λ red. top_red red a ≡ false) colours blacka,
          (
            subst (λ red. top_red red w ≡ false) colours (top w up.pw up.gw blackw),
            subst (λ red. red p ≡ true) colours colourp,
          ),
        ),
      )
  where
    black_above : (b q : Bool) → Rests b true q → b ≡ false
    black_above true q (e, e') = e
    black_above false q r = refl
