-- ===== src/RbTree/Short.antt =====
-- A place of the tree in process/rbtree.c where a black node is missing, in the loop of `rb_erase`.
use apna_os.Prelude.{ℕ, suc, ◌≡◌, refl, Bool, true, false, some, List, ◌∙◌, sym, subst, arith}
use apna_os.Prelude.Run.{Returns, returns}
use apna_os.RbTree.{RbTree, set_red}
use apna_os.RbTree.Shape.{Tree, leaf, node, Outside, Proper}
use apna_os.RbTree.Sides.{Side, on_left, on_right, flip, join}
use apna_os.RbTree.Way.{Way, under, plug, Clear}
use apna_os.RbTree.Rehang.{plug-Proper}
use apna_os.RbTree.Place.{Whole}
use apna_os.RbTree.Colour.{
  level, top_red, Balanced, Wants, Balanced-join, Balanced-split, Balanced-Same, Wants-Same,
  top-Same, reds, set_red-here, set_red-there, set_red-Same,
}
use apna_os.RbTree.Paint.{Has, Has-top, Has-far, set_red-SameWay, Whole-set_red}
use apna_os.RbTree.Settle.{Upper, Proper-Upper}
use apna_os.RbTree.Erase.{climb}

-- A tree whose top may be red above red nodes.
abbrev pub Light : (ℕ → Bool) → Tree → ℕ → Type 0
Light red leaf h = h ≡ 0
Light red (node l x r) h = (m : ℕ) × (Balanced red l m × (Balanced red r m × (h ≡ level (red x) m)))

-- The tree `w` has one black node less on its ways down than its place wants.
pub record Short (t : RbTree) (es : List ℕ) (c : Way) (w : Tree) (h : ℕ) : Type 0 where
  pub whole : Whole t es (plug c w)
  pub light : Light (reds t) w h
  pub way : Wants (reds t) c (suc h)

pub Light-Balanced :
    (red : ℕ → Bool) (w : Tree) (h : ℕ) → Light red w h → top_red red w ≡ false → Balanced red w h
Light-Balanced red leaf h v e = v
Light-Balanced red (node l x r) h (m, (bl, (br, e'))) e = (m, (bl, (br, (e', rw e tt))))

Light-join :
    (red : ℕ → Bool) (s : Side) (l : Tree) (x : ℕ) (r : Tree) (h m : ℕ)
    → Balanced red l m
    → Balanced red r m
    → h ≡ level (red x) m
    → Light red (join s l x r) h
Light-join red on_left l x r h m bl br e = (m, (bl, (br, e)))
Light-join red on_right l x r h m bl br e = (m, (br, (bl, e)))

level-suc : (b : Bool) (h : ℕ) → level b (suc h) ≡ suc (level b h)
level-suc true h = refl
level-suc false h = refl

pub Balanced-set_red :
    (n : ℕ) (b : Bool) (t : RbTree) (k : Tree) (h : ℕ)
    → Outside n k
    → Balanced (reds t) k h
    → Balanced (reds (set_red n b t)) k h
Balanced-set_red n b t k h o =
    Balanced-Same (reds t) (reds (set_red n b t)) k h (set_red-Same n b t k o)

pub top-set_red :
    (n : ℕ) (b : Bool) (t : RbTree) (k : Tree)
    → Outside n k
    → top_red (reds (set_red n b t)) k ≡ top_red (reds t) k
top-set_red n b t k o = top-Same (reds t) (reds (set_red n b t)) k (set_red-Same n b t k o)

pub Wants-set_red :
    (n : ℕ) (b : Bool) (t : RbTree) (c : Way) (w : Tree) (h : ℕ)
    → Has n w
    → Clear c w
    → Wants (reds t) c h
    → Wants (reds (set_red n b t)) c h
Wants-set_red n b t c w h has clear =
    Wants-Same (reds t) (reds (set_red n b t)) c h (set_red-SameWay n b t c w has clear)

pub other-side : (s : Side) (w : Tree) (p : ℕ) (u : Tree) → join (flip s) u p w ≡ join s w p u
other-side on_left w p u = refl
other-side on_right w p u = refl

-- The nodes of `w p (a v b)` are different ones.
pub sibling-Upper :
    (s : Side) (w : Tree) (p : ℕ) (a : Tree) (v : ℕ) (b : Tree)
    → Proper (join s w p (join s a v b))
    → Upper a v b p w
sibling-Upper s w p a v b h =
    Proper-Upper s (flip s) a v b p w (subst Proper (sym (other-side s w p (join s a v b))) h)

-- Below `p` the black sibling `v` of `w` has two black children: `v` becomes red, and `p`'s place is
-- the one to look at.
pub climb-Short :
    (t : RbTree) (es : List ℕ) (s : Side) (c : Way) (w : Tree) (p : ℕ) (a : Tree) (v : ℕ) (b : Tree)
    (h : ℕ)
    → Short t es (under s c p (join s a v b)) w h
    → top_red (reds t) w ≡ false
    → reds t v ≡ false
    → top_red (reds t) a ≡ false
    → top_red (reds t) b ≡ false
    → Returns
        (λ next t'.
          (next ≡ (some p, (t.nodes p).rb_parent))
          × (Short t' es c (join s w p (join s a v b)) (level (reds t p) h)
              × (reds t' p ≡ reds t p)))
        (climb p v t)
unfolding climb
climb-Short t es s c w p a v b h st blackw blackv blacka blackb =
    let sib = join s a v b in
    let whole = join s w p sib in
    let t' = set_red v true t in
    let (proper, clear) = plug-Proper c whole st.whole.proper in
    let up = sibling-Upper s w p a v b proper in
    let hasv = Has-far s v w p sib (Has-top s a v b) in
    let (m, (ba, (bb, (e, _)))) = Balanced-split (reds t) s a v b (suc h) st.way.0 in
    let e0 : suc h ≡ suc m = rw blackv at e in
    let e' : h ≡ m = omega (arith, e0) in
    let redv = set_red-here v true t in
    let ba' = Balanced-set_red v true t a h up.pt (subst (Balanced (reds t) a) (sym e') ba) in
    let bb' = Balanced-set_red v true t b h up.pu (subst (Balanced (reds t) b) (sym e') bb) in
    let low = Balanced-join (reds t') s a v b h (
      h,
      (
        ba',
        (
          bb',
          rw redv (
            refl,
            (top-set_red v true t a up.pt ∙ blacka, top-set_red v true t b up.pu ∙ blackb),
          ),
        ),
      ),
    ) in
    let bw = Balanced-set_red v true t w h up.pw (Light-Balanced (reds t) w h st.light blackw) in
    let samep = set_red-there v p true t up.pg in
    returns (
      refl,
      (
        record {
          whole = Whole-set_red v true t es (plug c whole) st.whole;
          light = Light-join (reds t') s w p sib (level (reds t p) h) h bw low (rw samep refl);
          way =
              Wants-set_red v true t c whole (suc (level (reds t p) h)) hasv clear
                (subst (Wants (reds t) c) (level-suc (reds t p) h) st.way.1.1);
        },
        samep,
      ),
    )
