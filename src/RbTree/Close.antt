-- ===== src/RbTree/Close.antt =====
-- The last round of the loop of `rb_erase` in process/rbtree.c: a red node beside the missing one.
use apna_os.Prelude.{
  ℕ, suc, ◌≡◌, refl, inl, inr, Bool, true, false, List, ◌∙◌, ap, sym, subst, fun_ext, true-ne-false,
  arith,
}
use apna_os.Prelude.Run.{Returns, mono}
use apna_os.RbTree.{RbTree, set_red}
use apna_os.RbTree.Shape.{Tree, leaf, node, Outside, Apart}
use apna_os.RbTree.Sides.{Side, on_left, join, rotate}
use apna_os.RbTree.Way.{Way, under, plug}
use apna_os.RbTree.Rehang.{plug-Proper, Proper-Parts}
use apna_os.RbTree.Place.{rotate-Whole}
use apna_os.RbTree.Colour.{
  level, top_red, Calm, Balanced, Rests, Balanced-join, Balanced-split, top-join, reds,
  set_red-here, set_red-there, below_black, below_black-Same, SameWay-trans, Wants-Same,
}
use apna_os.RbTree.Paint.{
  Has, Has-top, Has-far, set_red-SameWay, Whole-set_red, Balanced-plug, under_red_node,
  black-not_red,
}
use apna_os.RbTree.Fixup.{RedBlack}
use apna_os.RbTree.Short.{Short, Light-Balanced, Balanced-set_red, sibling-Upper}
use apna_os.RbTree.Erase.{exchange}

pub Apart-Has : (n : ℕ) (t w : Tree) → Apart t w → Has n t → Outside n w
Apart-Has n leaf w h has = absurd has
Apart-Has n (node l x r) w (hl, (o, hr)) (inl has) = Apart-Has n l w hl has
Apart-Has n (node l x r) w (hl, (o, hr)) (inr (inl e)) = subst (λ n. Outside n w) e o
Apart-Has n (node l x r) w (hl, (o, hr)) (inr (inr has)) = Apart-Has n r w hr has

-- The sibling `v` takes the colour of `p`, `p` and the outer node `o` become black, and `p` is turned.
abbrev recoloured : ℕ → ℕ → ℕ → RbTree → RbTree
recoloured p v o t = set_red o false (exchange p v t)

pub close-RedBlack :
    (t : RbTree) (es : List ℕ) (s : Side) (c : Way) (w : Tree) (p : ℕ) (a : Tree) (v : ℕ)
    (bl : Tree) (o : ℕ) (br : Tree) (h : ℕ)
    → Short t es (under s c p (join s a v (node bl o br))) w h
    → top_red (reds t) w ≡ false
    → reds t v ≡ false
    → reds t o ≡ true
    → Returns (λ _ t'. RedBlack t' es) (rotate s p (recoloured p v o t))
close-RedBlack t es s c w p a v bl o br h st blackw blackv redo =
    let b = node bl o br in
    let sib = join s a v b in
    let whole = join s w p sib in
    let t1 = set_red v (reds t p) t in
    let t2 = set_red p false t1 in
    let t3 = set_red o false t2 in
    let (proper, clear) = plug-Proper c whole st.whole.proper in
    let up = sibling-Upper s w p a v b proper in
    let high = Proper-Parts s w p sib proper in
    let parts = Proper-Parts s a v b high.other in
    let ((obl, obr), _) = parts.other in
    let oa = parts.apart.1.0 in
    let ow = Apart-Has o sib w high.apart (Has-far s o a v b (Has-top on_left bl o br)) in
    let (vbl, (vo, vbr)) = up.pu in
    let (pbl, (po, pbr)) = up.gu in
    let keep : (k : Tree) (n : ℕ)
        → Outside v k
        → Outside p k
        → Outside o k
        → Balanced (reds t) k n
        → Balanced (reds t3) k n =
      λ k n ov op oo b.
        Balanced-set_red o false t2 k n oo
          (Balanced-set_red p false t1 k n op (Balanced-set_red v (reds t p) t k n ov b)) in
    let hasv = Has-far s v w p sib (Has-top s a v b) in
    let hasp = Has-top s w p sib in
    let haso = Has-far s o w p sib (Has-far s o a v b (Has-top on_left bl o br)) in
    let same_way =
      SameWay-trans (reds t) (reds t2) (reds t3) c
        (SameWay-trans (reds t) (reds t1) (reds t2) c
          (set_red-SameWay v (reds t p) t c whole hasv clear)
          (set_red-SameWay p false t1 c whole hasp clear))
        (set_red-SameWay o false t2 c whole haso clear) in
    let painted = Whole-set_red o false t2 es (plug c whole) (
      Whole-set_red p false t1 es (plug c whole)
        (Whole-set_red v (reds t p) t es (plug c whole) st.whole)) in
    let colourv : reds t3 v ≡ reds t p =
      set_red-there o v false t2 (λ e. vo (sym e))
      ∙ (set_red-there p v false t1 (λ e. up.pg (sym e)) ∙ set_red-here v (reds t p) t) in
    let colourp : reds t3 p ≡ false =
      set_red-there o p false t2 (λ e. po (sym e)) ∙ set_red-here p false t1 in
    let colouro : reds t3 o ≡ false = set_red-here o false t2 in
    let (m, (ba, (bb, (e, _)))) = Balanced-split (reds t) s a v b (suc h) st.way.0 in
    let e0 : suc h ≡ suc m = rw blackv at e in
    let e' : m ≡ h = omega (arith, e0) in
    let (m', (bbl, (bbr, (eb, _)))) = bb in
    let eb' : m ≡ m' = rw redo at eb in
    let bw = keep w h up.pw up.gw ow (Light-Balanced (reds t) w h st.light blackw) in
    let ba' = keep a h up.pt up.gt oa (subst (Balanced (reds t) a) e' ba) in
    let near = Balanced-join (reds t3) s w p a (suc h) (h, (bw, (ba', rw colourp (refl, tt)))) in
    let far : Balanced (reds t3) b (suc h) = (
      m',
      (
        keep bl m' vbl pbl obl bbl,
        (keep br m' vbr pbr obr bbr, rw colouro (ap suc (sym e' ∙ eb'), tt)),
      ),
    ) in
    let tree = Balanced-join (reds t3) s (join s w p a) v b (level (reds t p) (suc h)) (
      suc h,
      (
        near,
        (
          far,
          rw colourv (
            refl,
            calm (reds t p) (top_red (reds t3) (join s w p a)) (reds t3 o)
                (top-join (reds t3) s w p a ∙ colourp) colouro,
          ),
        ),
      ),
    ) in
    let way = Wants-Same (reds t) (reds t3) c (level (reds t p) (suc h)) same_way st.way.1.1 in
    let meets : top_red (reds t3) (join s (join s w p a) v b) ≡ true
        → under_red_node (reds t3) c ≡ false =
      λ e. black-not_red (reds t3) c (
        below_black-Same (reds t) (reds t3) c same_way
        ∙ above (reds t p) (top_red (reds t) sib) (below_black (reds t) c) st.way.1.0
            (sym colourv ∙ (sym (top-join (reds t3) s (join s w p a) v b) ∙ e))) in
    mono (rotate-Whole s c p v w a b es t3 painted) λ _ t' (v', q).
      let colours : reds t3 ≡ reds t' = fun_ext λ a. sym (q a) in
      let (height, balanced) =
        Balanced-plug (reds t3) c (join s (join s w p a) v b) (level (reds t p) (suc h)) tree way
          meets in
      record {
        tree = plug c (join s (join s w p a) v b);
        whole = v';
        height = height;
        balanced =
            subst (λ red. Balanced red (plug c (join s (join s w p a) v b)) height) colours
              balanced;
      }
  where
    calm : (b x y : Bool) → x ≡ false → y ≡ false → Calm b x y
    calm true x y e e' = (e, e')
    calm false x y e e' = tt

    above : (b x q : Bool) → Rests b x q → b ≡ true → q ≡ true
    above true x q (e, e') h = e'
    above false x q r h = absurd (true-ne-false h refl)
