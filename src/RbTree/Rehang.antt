-- ===== src/RbTree/Rehang.antt =====
-- A place in the tree of process/rbtree.c while the nodes below it change.
use apna_os.Prelude.{ℕ, ◌≡◌, ◌≢◌, Option, some, Array, ◌∙◌, sym, subst}
use apna_os.Process.{RbNode}
use apna_os.RbTree.{RbTree}
use apna_os.RbTree.Shape.{Tree, leaf, node, Stands, Outside, Apart, Proper, Away, top-Outside}
use apna_os.RbTree.Sides.{Side, on_left, on_right, flip, kid, join, Rehangs}
use apna_os.RbTree.Mirror.{Apart-right, Apart-leaf}
use apna_os.RbTree.Way.{Way, at_top, under, plug, Hole, Clear}

-- A tree whose nodes do not change.
pub Stands-same :
    (b b' : Array RbNode) (at above : Option ℕ) (u t : Tree)
    → ((a : ℕ) → Outside a t → b' a ≡ b a)
    → Apart u t
    → Stands b at above u
    → Stands b' at above u
Stands-same b b' at above leaf t same h s = s
Stands-same b b' at above (node l x r) t same (hl, (o, hr)) (e, (p, (sl, sr))) = (
  e,
  rw (same x o) (
    p,
    (
      Stands-same b b' (b x).rb_left (some x) l t same hl sl,
      Stands-same b b' (b x).rb_right (some x) r t same hr sr,
    ),
  ),
)

pub Hole-same :
    (b b' : Array RbNode) (root root' : Option ℕ) (c : Way) (at above : Option ℕ) (t : Tree)
    → ((a : ℕ) → Outside a t → b' a ≡ b a)
    → root' ≡ root
    → Clear c t
    → Hole b root c at above
    → Hole b' root' c at above
Hole-same b b' root root' at_top at above t same e clear (h, h') = (e ∙ h, h')
Hole-same b b' root root' (under s c p u) at above t same e (o, (h, clear)) (e', (k, (su, hole))) =
    (
      e',
      rw (same p o) (
        k,
        (
          Stands-same b b' (kid (flip s) (b p)) (some p) u t same h su,
          Hole-same b b' root root' c (some p) (b p).rb_parent t same e clear hole,
        ),
      ),
    )

pub Apart-sym : (t u : Tree) → Apart t u → Apart u t
Apart-sym leaf u h = Apart-leaf u
Apart-sym (node l x r) u (hl, (o, hr)) = Apart-right u l x r (Apart-sym l u hl) o (Apart-sym r u hr)

-- The parts of a proper tree.
pub record Parts (t : Tree) (p : ℕ) (u : Tree) : Type 0 where
  pub this : Proper t
  pub other : Proper u
  pub out : Outside p t
  pub out' : Outside p u
  pub apart : Apart u t

pub Proper-Parts : (s : Side) (t : Tree) (p : ℕ) (u : Tree) → Proper (join s t p u) → Parts t p u
Proper-Parts on_left t p u ((ot, ou), (h, (pt, pu))) = record {
  this = pt;
  other = pu;
  out = ot;
  out' = ou;
  apart = Apart-sym t u h;
}
Proper-Parts on_right t p u ((ou, ot), (h, (pu, pt))) = record {
  this = pt;
  other = pu;
  out = ot;
  out' = ou;
  apart = h;
}

Outside-join :
    (s : Side) (a : ℕ) (t : Tree) (p : ℕ) (u : Tree)
    → Outside a (join s t p u)
    → Outside a t × (a ≢ p)
Outside-join on_left a t p u (ot, (ne, ou)) = (ot, ne)
Outside-join on_right a t p u (ou, (ne, ot)) = (ot, ne)

Apart-join : (s : Side) (w t : Tree) (p : ℕ) (u : Tree) → Apart w (join s t p u) → Apart w t
Apart-join s leaf t p u h = tt
Apart-join s (node l x r) t p u (hl, (o, hr)) =
    (Apart-join s l t p u hl, ((Outside-join s x t p u o).0, Apart-join s r t p u hr))

Clear-join : (s : Side) (c : Way) (t : Tree) (p : ℕ) (u : Tree) → Clear c (join s t p u) → Clear c t
Clear-join s at_top t p u h = tt
Clear-join s (under s' c q w) t p u (o, (h, clear)) =
    ((Outside-join s q t p u o).0, (Apart-join s w t p u h, Clear-join s c t p u clear))

pub plug-Proper : (c : Way) (t : Tree) → Proper (plug c t) → Proper t × Clear c t
plug-Proper at_top t h = (h, tt)
plug-Proper (under s c p u) t h =
    let (proper, clear) = plug-Proper c (join s t p u) h in
    let parts = Proper-Parts s t p u proper in
    (parts.this, (parts.out, (parts.apart, Clear-join s c t p u clear)))

pub Hole-Away :
    (b : Array RbNode) (root : Option ℕ) (c : Way) (at above : Option ℕ) (t : Tree)
    → Hole b root c at above
    → Clear c t
    → Away above t
Hole-Away b root at_top at above t (e, e') h = subst (λ a. Away a t) (sym e') tt
Hole-Away b root (under s c p u) at above t (e, h) (o, h') = subst (λ a. Away a t) (sym e) o

-- The hole after a rotation below it, in the tree `w` with `x` at its top.
pub Hole-rehang :
    (t t' : RbTree) (c : Way) (x y : ℕ) (above : Option ℕ) (w : Tree)
    → Rehangs above x y t t'
    → ((a : ℕ) → Outside a w → above ≢ some a → t'.nodes a ≡ t.nodes a)
    → ((u : Tree) → Apart u w → Outside x u)
    → Proper (plug c w)
    → Hole t.nodes t.root c (some x) above
    → Hole t'.nodes t'.root c (some y) above
Hole-rehang t t' at_top x y above w h others tops proper (e, e') = (h.at_root e', e')
Hole-rehang t t' (under s c p u) x y above w h others tops proper (e, (k, (su, hole))) =
    let (pj, clear) = plug-Proper c (join s w p u) proper in
    let parts = Proper-Parts s w p u pj in
    let other =
      top-Outside t.nodes (kid (flip s) (t.nodes p)) (some p) x u su (tops u parts.apart) in
    let (now, (rest, parent)) = h.below s p e k other in
    let same : (a : ℕ) → Outside a (join s w p u) → t'.nodes a ≡ t.nodes a = λ a o.
      let (o', ne) = Outside-join s a w p u o in others a o' (λ e'. ne (same-some (sym e' ∙ e))) in
    (
      e,
      (
        now,
        (
          subst (λ k. Stands t'.nodes k (some p) u) (sym rest)
              (Stands-frame' (kid (flip s) (t.nodes p)) (some p) u parts.out' parts.apart su),
          subst (λ up. Hole t'.nodes t'.root c (some p) up) (sym parent)
              (Hole-same t.nodes t'.nodes t.root t'.root c (some p) (t.nodes p).rb_parent
                (join s w p u) same (h.root p e) clear hole),
        ),
      ),
    )
  where
    same-some : {a b : ℕ} → ◌≡◌ {A = Option ℕ} (some a) (some b) → a ≡ b
    same-some e = cc

    Stands-frame' :
        (at up : Option ℕ) (v : Tree)
        → Outside p v
        → Apart v w
        → Stands t.nodes at up v
        → Stands t'.nodes at up v
    Stands-frame' at up leaf o hv sv = sv
    Stands-frame' at up (node l a r) (ol, (ne, or)) (hl, (oa, hr)) (e', (q, (sl, sr))) = (
      e',
      rw (others a oa (λ e''. ne (same-some (sym e ∙ e'')))) (
        q,
        (
          Stands-frame' (t.nodes a).rb_left (some a) l ol hl sl,
          Stands-frame' (t.nodes a).rb_right (some a) r or hr sr,
        ),
      ),
    )
