-- ===== src/Libgraphics/Geometry/Constrain.antt =====
-- Rectangles that are made to fit (libraries/libgraphics/Geometry.h).
use duck_os.Prelude.{◌≡◌, ◌↔◌, refl, ap, sym, ◌∙◌, true, arith, Bool-cases, inl, inr}
use duck_os.Prelude.Int.{ℤ, pos, ◌+ℤ◌, ◌-ℤ◌, ◌≤ℤ◌, leb_ℤ, +ℤ_parts, -ℤ_parts, int_ext}
use duck_os.Libgraphics.Geometry.{
  Rect, right_of, bottom_of, inside, at_least, fit_size, fit_start, constrain, constrain_relative,
}

leb-true : (a b : ℤ) → a ≤ℤ b → leb_ℤ a b ≡ true
leb-true a b h = ground arith

fit_size-le : (room size : ℤ) → fit_size room size ≤ℤ room
fit_size-le room size = ground arith

at_least-ge : (lo v : ℤ) → lo ≤ℤ at_least lo v
at_least-ge lo v = ground arith

-- One axis: what fits starts and ends in the room, ...
fit_start-bounds :
    (start room size at : ℤ)
    → size ≤ℤ room
    → (start ≤ℤ fit_start start room size at)
      × (fit_start start room size at +ℤ size ≤ℤ start +ℤ room)
fit_start-bounds start room size at h =
    let at' : ℤ = at_least start at in
    let low : start ≤ℤ at' = at_least-ge start at in
    elim (Bool-cases (leb_ℤ (start +ℤ room) (at' +ℤ size))) [
      | inl far ↦ rw far (
          omega (
            arith,
            +ℤ_parts start room,
            -ℤ_parts (start +ℤ room) size,
            +ℤ_parts (start +ℤ room -ℤ size) size,
          ))
      | inr near ↦ rw near (low, ground arith)
    ]

-- ... and what is there already stays.
fit_start-stays :
    (start room size at : ℤ)
    → start ≤ℤ at
    → at +ℤ size ≤ℤ start +ℤ room
    → fit_start start room size at ≡ at
fit_start-stays start room size at h k =
    let stays : at_least start at ≡ at = ground arith in
    rw stays (elim (Bool-cases (leb_ℤ (start +ℤ room) (at +ℤ size))) [
      | inl flush ↦ rw flush (
          ground (
            arith,
            +ℤ_parts at size,
            -ℤ_parts (start +ℤ room) size,
            int_ext (start +ℤ room -ℤ size) at,
          ))
      | inr free ↦ rw free refl
    ])

fit_size-stays : (room size : ℤ) → size ≤ℤ room → fit_size room size ≡ size
fit_size-stays room size h = ground arith

constrain-inside : (r other : Rect) → inside (constrain r other) other ≡ true
unfolding constrain inside
constrain-inside r other =
    let across =
      fit_start-bounds other.x other.width (fit_size other.width r.width) r.x
        (fit_size-le other.width r.width) in
    let down =
      fit_start-bounds other.y other.height (fit_size other.height r.height) r.y
        (fit_size-le other.height r.height) in
    rw
      (
        leb-true other.x (constrain r other).x across.0,
        leb-true other.y (constrain r other).y down.0,
        leb-true (right_of (constrain r other)) (right_of other) across.1,
        leb-true (bottom_of (constrain r other)) (bottom_of other) down.1,
      )
      refl

-- One axis of a rectangle that is inside.
axis-stays :
    (start room at size : ℤ)
    → start ≤ℤ at
    → at +ℤ size ≤ℤ start +ℤ room
    → (fit_size room size ≡ size) × (fit_start start room (fit_size room size) at ≡ at)
axis-stays start room at size h k =
    let narrow : size ≤ℤ room = omega (arith, +ℤ_parts at size, +ℤ_parts start room) in
    let same = fit_size-stays room size narrow in
    (same, ap (λ s. fit_start start room s at) same ∙ fit_start-stays start room size at h k)

inside-orders :
    (r other : Rect)
    → inside r other ≡ true
    → (other.x ≤ℤ r.x)
      × (other.y ≤ℤ r.y)
      × (right_of r ≤ℤ right_of other)
      × (bottom_of r ≤ℤ bottom_of other)
unfolding inside
inside-orders r other h = ground arith

constrain-stays : (r other : Rect) → inside r other ≡ true → constrain r other ≡ r
unfolding constrain
constrain-stays r other h =
    let o = inside-orders r other h in
    let across = axis-stays other.x other.width r.x r.width o.0 o.2 in
    let down = axis-stays other.y other.height r.y r.height o.1 o.3 in
    λ i. record { x = across.1 i; y = down.1 i; width = across.0 i; height = down.0 i }

zero_start : (a : ℤ) → pos 0 +ℤ a ≡ a
zero_start a = omega (arith, +ℤ_parts (pos 0) a, int_ext (pos 0 +ℤ a) a)

constrain_relative-eq :
    (r other : Rect)
    → constrain_relative r other ≡ constrain r (record other { x = pos 0; y = pos 0 })
unfolding constrain_relative constrain
constrain_relative-eq r other = rw (zero_start other.width, zero_start other.height) refl

-- A constrained rectangle is inside of its parent; constraining changes a rectangle exactly when
-- it is not inside already; and the relative form is the absolute one against a parent of the same
-- size at the origin.
pub constrain-fits :
    (r other : Rect)
    → (inside (constrain r other) other ≡ true)
      × ((inside r other ≡ true) ↔ (constrain r other ≡ r))
      × (constrain_relative r other ≡ constrain r (record other { x = pos 0; y = pos 0 }))
constrain-fits r other = (
  constrain-inside r other,
  (constrain-stays r other, λ e. ap (λ s. inside s other) (sym e) ∙ constrain-inside r other),
  constrain_relative-eq r other,
)
