-- ===== src/RbTree/Settle.antt =====
-- The end of a round of `rb_insert_color` below a red parent whose brother is black.
use apna_os.Prelude.{
  ℕ, suc, ◌≡◌, refl, ◌≢◌, Bool, true, false, Option, some, List, ◌∙◌, sym, subst, fun_ext,
}
use apna_os.Prelude.Run.{Cmd, done, and_then, Returns, returns, bind}
use apna_os.RbTree.{RbTree, set_red, settle_left, settle_right}
use apna_os.RbTree.Shape.{Tree, leaf, node, Outside, Apart, Proper}
use apna_os.RbTree.Sides.{Side, on_left, on_right, flip, join, rotate}
use apna_os.RbTree.Way.{Way, under, plug}
use apna_os.RbTree.Rehang.{plug-Proper, Proper-Parts}
use apna_os.RbTree.Place.{Whole, rotate-Whole}
use apna_os.RbTree.Colour.{
  top_red, Balanced, Wants, Balanced-join, Same, Same-trans, SameWay-trans, Balanced-Same,
  Wants-Same, top-Same, reds, set_red-here, set_red-there, set_red-Same,
}
use apna_os.RbTree.Paint.{Has-top, Has-near, set_red-SameWay, Whole-set_red}

-- A node `x` to look at: only its link to its parent may join two red nodes.
pub record Pending (t : RbTree) (es : List ℕ) (c : Way) (l : Tree) (x : ℕ) (r : Tree) (h : ℕ)
    : Type 0 where
  pub whole : Whole t es (plug c (node l x r))
  pub red : reds t x ≡ true
  pub tree : Balanced (reds t) (node l x r) h
  pub way : Wants (reds t) c h

abbrev pub settle : Side → ℕ → ℕ → ℕ → Cmd RbTree (Option ℕ)
settle on_left = settle_left
settle on_right = settle_right

abbrev paint : ℕ → ℕ → RbTree → RbTree
paint parent gparent t = set_red gparent true (set_red parent false t)

settle-runs :
    (s : Side) (x p g : ℕ) (t : RbTree)
    → settle s x p g t ≡ and_then (rotate (flip s) g (paint p g t)) (λ _. done (some x))
unfolding settle_left settle_right rotate
settle-runs on_left x p g t = refl
settle-runs on_right x p g t = refl

-- The parts of `(t p u) g w`, its two upper nodes on the way to `t`.
pub record Upper (t : Tree) (p : ℕ) (u : Tree) (g : ℕ) (w : Tree) : Type 0 where
  pub pt : Outside p t
  pub pu : Outside p u
  pub pw : Outside p w
  pub gt : Outside g t
  pub gu : Outside g u
  pub gw : Outside g w
  pub pg : p ≢ g

pub Outside-parts :
    (s : Side) (a : ℕ) (t : Tree) (p : ℕ) (u : Tree)
    → Outside a (join s t p u)
    → Outside a t × ((a ≢ p) × Outside a u)
Outside-parts on_left a t p u o = o
Outside-parts on_right a t p u (ou, (ne, ot)) = (ot, (ne, ou))

Apart-parts : (s : Side) (w t : Tree) (p : ℕ) (u : Tree) → Apart w (join s t p u) → Outside p w
Apart-parts s leaf t p u h = tt
Apart-parts s (node l x r) t p u (hl, (o, hr)) =
    let (ot, (ne, ou)) = Outside-parts s x t p u o in
    (Apart-parts s l t p u hl, ((λ e. ne (sym e)), Apart-parts s r t p u hr))

pub Proper-Upper :
    (s s' : Side) (t : Tree) (p : ℕ) (u : Tree) (g : ℕ) (w : Tree)
    → Proper (join s' (join s t p u) g w)
    → Upper t p u g w
Proper-Upper s s' t p u g w h =
    let high = Proper-Parts s' (join s t p u) g w h in
    let low = Proper-Parts s t p u high.this in
    let (gt, (gp, gu)) = Outside-parts s g t p u high.out in
    record {
      pt = low.out;
      pu = low.out';
      pw = Apart-parts s w t p u high.apart;
      gt = gt;
      gu = gu;
      gw = high.out';
      pg = λ e. gp (sym e);
    }

pub fold :
    (s : Side) (w : Tree) (g : ℕ) (u : Tree) (p : ℕ) (t : Tree)
    → join (flip s) w g (join (flip s) u p t) ≡ join s (join s t p u) g w
fold on_left w g u p t = refl
fold on_right w g u p t = refl

pub fold' :
    (s : Side) (w : Tree) (g : ℕ) (u : Tree) (p : ℕ) (t : Tree)
    → join (flip s) (join (flip s) w g u) p t ≡ join s t p (join s u g w)
fold' on_left w g u p t = refl
fold' on_right w g u p t = refl

-- A red node on two black ones.
Balanced-below :
    (s : Side) (u : Tree) (g : ℕ) (w : Tree) (h : ℕ) (red red' : ℕ → Bool)
    → Balanced red u h
    → Balanced red w h
    → top_red red u ≡ false
    → top_red red w ≡ false
    → Same red red' u
    → Same red red' w
    → red' g ≡ true
    → Balanced red' (join s u g w) h
Balanced-below s u g w h red red' bu bw tu tw su sw e = Balanced-join red' s u g w h (
  h,
  (
    Balanced-Same red red' u h su bu,
    (
      Balanced-Same red red' w h sw bw,
      rw e (refl, (top-Same red red' u su ∙ tu, top-Same red red' w sw ∙ tw)),
    ),
  ),
)

-- A red `x` with a red parent `p` on the same side of a black `g`, the other trees black on top.
pub settle-Pending :
    (s : Side) (c : Way) (l : Tree) (x : ℕ) (r : Tree) (p : ℕ) (u : Tree) (g : ℕ) (w : Tree) (h : ℕ)
    (es : List ℕ) (t : RbTree)
    → Whole t es (plug c (join s (join s (node l x r) p u) g w))
    → reds t x ≡ true
    → Balanced (reds t) (node l x r) h
    → Balanced (reds t) u h
    → Balanced (reds t) w h
    → top_red (reds t) u ≡ false
    → top_red (reds t) w ≡ false
    → Wants (reds t) c (suc h)
    → Returns
        (λ next t'. (next ≡ some x) × Pending t' es (under s c p (join s u g w)) l x r h)
        (settle s x p g t)
settle-Pending s c l x r p u g w h es t v red bt bu bw tu tw way =
    let low = node l x r in
    let old = join s (join s low p u) g w in
    let (proper, clear) = plug-Proper c old v.proper in
    let up = Proper-Upper s s low p u g w proper in
    let t1 = set_red p false t in
    let t2 = set_red g true t1 in
    let same = λ (k : Tree) (op : Outside p k) (og : Outside g k).
      Same-trans (reds t) (reds t1) (reds t2) k (set_red-Same p false t k op)
        (set_red-Same g true t1 k og) in
    let hasp = Has-near s p (join s low p u) g w (Has-top s low p u) in
    let hasg = Has-top s (join s low p u) g w in
    let same_way =
      SameWay-trans (reds t) (reds t1) (reds t2) c (set_red-SameWay p false t c old hasp clear)
        (set_red-SameWay g true t1 c old hasg clear) in
    let painted =
      Whole-set_red g true t1 es (plug c old) (Whole-set_red p false t es (plug c old) v) in
    let x' = (same low up.pt up.gt).1.0 ∙ red in
    let black = set_red-there g p true t1 (λ e. up.pg (sym e)) ∙ set_red-here p false t in
    let below =
      Balanced-below s u g w h (reds t) (reds t2) bu bw tu tw (same u up.pu up.gu)
        (Same-trans (reds t) (reds t1) (reds t2) w (set_red-Same p false t w up.pw)
          (set_red-Same g true t1 w up.gw))
        (set_red-here g true t1) in
    let way' = Wants-Same (reds t) (reds t2) c (suc h) same_way way in
    let low' = Balanced-Same (reds t) (reds t2) low h (same low up.pt up.gt) bt in
    rw (settle-runs s x p g t) (
      bind
        (rotate-Whole (flip s) c g p w u low es t2
          (subst (λ k. Whole t2 es (plug c k)) (sym (fold s w g u p low)) painted))
        λ _ t' (v', q).
          let colours : reds t2 ≡ reds t' = fun_ext λ a. sym (q a) in
          returns (
            refl,
            record {
              whole = subst (λ k. Whole t' es (plug c k)) (fold' s w g u p low) v';
              red = subst (λ red. red x ≡ true) colours x';
              tree = subst (λ red. Balanced red low h) colours low';
              way =
                  subst (λ red. Wants red (under s c p (join s u g w)) h) colours
                    (below, rw black (tt, way'));
            },
          ))
