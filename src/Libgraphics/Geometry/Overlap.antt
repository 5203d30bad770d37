-- ===== src/Libgraphics/Geometry/Overlap.antt =====
-- Which points the rectangles of libraries/libgraphics/Geometry.h cover.
use duck_os.Prelude.{◌≡◌, ◌↔◌, Bool, true, ◌&&◌, arith, Bool-cases, inl, inr}
use duck_os.Prelude.Int.{
  ℤ, pos, ◌+ℤ◌, ◌-ℤ◌, ◌≤ℤ◌, ◌<ℤ◌, ltb_ℤ, leb_ℤ, max_ℤ, min_ℤ, +ℤ_parts, -ℤ_parts, int_ext,
}
use duck_os.Libgraphics.Geometry.{Point, Rect, collides, inside, cut, overlapping_area, combine}

-- A point in one of the cells that a rectangle covers.
abbrev pub Covers : Rect → Point → Type 0
Covers r p = (r.x ≤ℤ p.x) × (p.x <ℤ r.x +ℤ r.width) × (r.y ≤ℤ p.y) × (p.y <ℤ r.y +ℤ r.height)

-- Where a cut span ends.
cut-before :
    (at stop size p : ℤ) → (p <ℤ at +ℤ cut at stop size) ↔ ((p <ℤ stop) × (p <ℤ at +ℤ size))
cut-before at stop size p = elim (Bool-cases (ltb_ℤ stop (at +ℤ size))) [
  | inl longer ↦
      rw longer (ground (arith, +ℤ_parts at (stop -ℤ at), -ℤ_parts stop at, +ℤ_parts at size))
  | inr shorter ↦ rw shorter (ground (arith, +ℤ_parts at size))
]

-- One axis: the common part of two spans.
cut_span :
    (x w x' w' p : ℤ)
    → let at = max_ℤ x x' in
      ((at ≤ℤ p) × (p <ℤ at +ℤ cut at (x' +ℤ w') (cut at (x +ℤ w) w)))
      ↔ ((x ≤ℤ p) × (p <ℤ x +ℤ w) × (x' ≤ℤ p) × (p <ℤ x' +ℤ w'))
cut_span x w x' w' p =
    let at : ℤ = max_ℤ x x' in
    let outer = cut-before at (x' +ℤ w') (cut at (x +ℤ w) w) p in
    let inner = cut-before at (x +ℤ w) w p in
    ground (arith, outer, inner, +ℤ_parts x w, +ℤ_parts at w)

-- Rectangles with a common point collide.
common-collides :
    (r other : Rect) (p : Point) → Covers r p → Covers other p → collides r other ≡ true
unfolding collides
common-collides r other p h k = ground arith

empty-Covers :
    (x y : ℤ) (p : Point) → ¬ Covers (record { x = x; y = y; width = pos 0; height = pos 0 }) p
empty-Covers x y p h = omega (arith, +ℤ_parts x (pos 0))

-- A cell lies in the overlapping area of two rectangles exactly when it lies in both of them,
-- whether or not they collide and whatever their sizes are.
pub overlapping_area-Covers :
    (r other : Rect) (p : Point)
    → Covers (overlapping_area r other) p ↔ (Covers r p × Covers other p)
unfolding overlapping_area
overlapping_area-Covers r other p = elim (Bool-cases (collides r other)) [
  | inl yes_they_do ↦
      let across = cut_span r.x r.width other.x other.width p.x in
      let down = cut_span r.y r.height other.y other.height p.y in
      rw yes_they_do (
        λ h.
            let a = across.0 (h.0, h.1) in
            let d = down.0 (h.2, h.3) in ((a.0, a.1, d.0, d.1), (a.2, a.3, d.2, d.3)),
        λ h.
            let a = across.1 (h.0.0, h.0.1, h.1.0, h.1.1) in
            let d = down.1 (h.0.2, h.0.3, h.1.2, h.1.3) in (a.0, a.1, d.0, d.1),
      )
  | inr apart ↦ rw apart (
    λ h. absurd (empty-Covers r.x r.y p h),
    λ h. let e = common-collides r other p h.0 h.1 in absurd (cc),
  )
]

-- The end of a span from the smaller start to the larger end.
span_end : (start stop : ℤ) → start +ℤ (stop -ℤ start) ≡ stop
span_end start stop = omega (arith, +ℤ_parts start (stop -ℤ start), -ℤ_parts stop start, int_ext)

leb-min : (a b c : ℤ) → leb_ℤ c (min_ℤ a b) ≡ (leb_ℤ c a && leb_ℤ c b)
leb-min a b c = ground arith

leb-max : (a b c : ℤ) → leb_ℤ (max_ℤ a b) c ≡ (leb_ℤ a c && leb_ℤ b c)
leb-max a b c = ground arith

sides :
    (a b c d a' b' c' d' : Bool)
    → ((a && a') && (b && b') && (c && c') && (d && d'))
      ≡ ((a && b && c && d) && (a' && b' && c' && d'))
sides a b c d a' b' c' d' = ground arith

-- A rectangle has the combination of two rectangles inside exactly when it has each of the two
-- inside, so the combination is the smallest rectangle around both.
pub inside-combine :
    (r other parent : Rect)
    → inside (combine r other) parent ≡ (inside r parent && inside other parent)
unfolding combine inside
inside-combine r other parent =
    rw
      (
        span_end (min_ℤ r.x other.x) (max_ℤ (r.x +ℤ r.width) (other.x +ℤ other.width)),
        span_end (min_ℤ r.y other.y) (max_ℤ (r.y +ℤ r.height) (other.y +ℤ other.height)),
        leb-min r.x other.x parent.x,
        leb-min r.y other.y parent.y,
        leb-max (r.x +ℤ r.width) (other.x +ℤ other.width) (parent.x +ℤ parent.width),
        leb-max (r.y +ℤ r.height) (other.y +ℤ other.height) (parent.y +ℤ parent.height),
      )
      (sides (leb_ℤ parent.x r.x) (leb_ℤ parent.y r.y)
        (leb_ℤ (r.x +ℤ r.width) (parent.x +ℤ parent.width))
        (leb_ℤ (r.y +ℤ r.height) (parent.y +ℤ parent.height)) (leb_ℤ parent.x other.x)
        (leb_ℤ parent.y other.y) (leb_ℤ (other.x +ℤ other.width) (parent.x +ℤ parent.width))
        (leb_ℤ (other.y +ℤ other.height) (parent.y +ℤ parent.height)))
