-- ===== src/Libgraphics/Geometry.antt =====
-- libraries/libgraphics/Geometry.h with `int` for the type parameter, `IntPoint`, `IntDimensions` and
-- `IntRect`. The compound assignments assign the result of the operator that they are named for.
pub mod Overlap
pub mod Constrain
mod Examples
use duck_os.Prelude.{ℕ, Bool, true, false, not, ◌&&◌, ◌||◌, if◌then◌else◌}
use duck_os.Prelude.Int.{ℤ, pos, negsuc, ◌+ℤ◌, ◌-ℤ◌, ◌*ℤ◌, ◌/ℤ◌, ltb_ℤ, leb_ℤ, eqb_ℤ, max_ℤ, min_ℤ}

pub record Point : Type 0 where
  pub x : ℤ
  pub y : ℤ

pub record Dimensions : Type 0 where
  pub width : ℤ
  pub height : ℤ

pub record Rect : Type 0 where
  pub x : ℤ
  pub y : ℤ
  pub width : ℤ
  pub height : ℤ

-- The edges behind the last column and the last row.
abbrev pub right_of : Rect → ℤ
right_of r = r.x +ℤ r.width

abbrev pub bottom_of : Rect → ℤ
bottom_of r = r.y +ℤ r.height

unfoldable pub is_in : Point → Rect → Bool
is_in p r = leb_ℤ r.x p.x && leb_ℤ p.x (right_of r) && leb_ℤ r.y p.y && leb_ℤ p.y (bottom_of r)

unfoldable pub near_border : Point → Rect → ℤ → Bool
unfolding is_in
near_border p r size =
    is_in p (record {
      x = r.x -ℤ size;
      y = r.y -ℤ size;
      width = r.width +ℤ size *ℤ pos 2;
      height = r.height +ℤ size *ℤ pos 2;
    })
    && not (
        is_in p (record {
          x = r.x +ℤ size;
          y = r.y +ℤ size;
          width = r.width -ℤ size *ℤ pos 2;
          height = r.height -ℤ size *ℤ pos 2;
        }))

-- One coordinate of `Point::constrain`, but for the last test of the two.
abbrev pub at_least : ℤ → ℤ → ℤ
at_least lo v = if ltb_ℤ v lo then lo else v

abbrev pub last_of : ℤ → ℤ → ℤ
last_of start size = start +ℤ size -ℤ (if eqb_ℤ size (pos 0) then pos 0 else pos 1)

-- The height is tested for zero, the width is not.
unfoldable pub constrain_point : Point → Rect → Point
constrain_point p r =
    let x : ℤ = at_least r.x p.x in
    let y : ℤ = at_least r.y p.y in
    record {
      x = if leb_ℤ (right_of r) x then last_of r.x r.width else x;
      y = if leb_ℤ (bottom_of r) y && not (eqb_ℤ r.height (pos 0)) then last_of r.y r.height else y;
    }

unfoldable pub add_points : Point → Point → Point
add_points p q = record { x = p.x +ℤ q.x; y = p.y +ℤ q.y }

unfoldable pub sub_points : Point → Point → Point
sub_points p q = record { x = p.x -ℤ q.x; y = p.y -ℤ q.y }

unfoldable pub scale_point : Point → ℤ → Point
scale_point p k = record { x = p.x *ℤ k; y = p.y *ℤ k }

unfoldable pub divide_point : Point → ℤ → Point
divide_point p k = record { x = p.x /ℤ k; y = p.y /ℤ k }

unfoldable pub same_point : Point → Point → Bool
same_point p q = eqb_ℤ q.x p.x && eqb_ℤ q.y p.y

unfoldable pub other_point : Point → Point → Bool
other_point p q = not (eqb_ℤ q.x p.x) || not (eqb_ℤ q.y p.y)

unfoldable pub add_dimensions : Dimensions → Dimensions → Dimensions
add_dimensions d e = record { width = d.width +ℤ e.width; height = d.height +ℤ e.height }

unfoldable pub sub_dimensions : Dimensions → Dimensions → Dimensions
sub_dimensions d e = record { width = d.width -ℤ e.width; height = d.height -ℤ e.height }

unfoldable pub scale_dimensions : Dimensions → ℤ → Dimensions
scale_dimensions d k = record { width = d.width *ℤ k; height = d.height *ℤ k }

unfoldable pub divide_dimensions : Dimensions → ℤ → Dimensions
divide_dimensions d k = record { width = d.width /ℤ k; height = d.height /ℤ k }

unfoldable pub same_dimensions : Dimensions → Dimensions → Bool
same_dimensions d e = eqb_ℤ d.height e.height && eqb_ℤ d.width e.width

unfoldable pub position : Rect → Point
position r = record { x = r.x; y = r.y }

unfoldable pub set_position : Point → Rect → Rect
set_position p r = record r { x = p.x; y = p.y }

unfoldable pub dimensions : Rect → Dimensions
dimensions r = record { width = r.width; height = r.height }

unfoldable pub set_rect_dimensions : Dimensions → Rect → Rect
set_rect_dimensions d r = record r { width = d.width; height = d.height }

unfoldable pub collides : Rect → Rect → Bool
collides r other =
    ltb_ℤ r.x (right_of other)
    && ltb_ℤ other.x (right_of r)
    && ltb_ℤ r.y (bottom_of other)
    && ltb_ℤ other.y (bottom_of r)

unfoldable pub inside : Rect → Rect → Bool
inside r other =
    leb_ℤ other.x r.x
    && leb_ℤ other.y r.y
    && leb_ℤ (right_of r) (right_of other)
    && leb_ℤ (bottom_of r) (bottom_of other)

unfoldable pub contains : Rect → Rect → Bool
unfolding inside
contains r other = inside other r

unfoldable pub area : Rect → ℤ
area r = r.width *ℤ r.height

unfoldable pub transform : Point → Rect → Rect
transform p r = record r { x = r.x +ℤ p.x; y = r.y +ℤ p.y }

-- One axis of `constrain`: first the size, then where it starts, in the space from `start`.
abbrev pub fit_size : ℤ → ℤ → ℤ
fit_size room size = if ltb_ℤ room size then room else size

abbrev pub fit_start : ℤ → ℤ → ℤ → ℤ → ℤ
fit_start start room size at =
    let at' : ℤ = at_least start at in
    if leb_ℤ (start +ℤ room) (at' +ℤ size) then start +ℤ room -ℤ size else at'

unfoldable pub constrain : Rect → Rect → Rect
constrain r other =
    let width : ℤ = fit_size other.width r.width in
    let height : ℤ = fit_size other.height r.height in
    record {
      x = fit_start other.x other.width width r.x;
      y = fit_start other.y other.height height r.y;
      width = width;
      height = height;
    }

-- The same against the size of the parent only, from zero on.
abbrev pub fit_start_relative : ℤ → ℤ → ℤ → ℤ
fit_start_relative room size at =
    let at' : ℤ = at_least (pos 0) at in if leb_ℤ room (at' +ℤ size) then room -ℤ size else at'

unfoldable pub constrain_relative : Rect → Rect → Rect
constrain_relative r other =
    let width : ℤ = fit_size other.width r.width in
    let height : ℤ = fit_size other.height r.height in
    record {
      x = fit_start_relative other.width width r.x;
      y = fit_start_relative other.height height r.y;
      width = width;
      height = height;
    }

-- One axis of `overlapping_area`: the size from `at` on, cut at two ends, one after the other.
abbrev pub cut : ℤ → ℤ → ℤ → ℤ
cut at stop size = if ltb_ℤ stop (at +ℤ size) then stop -ℤ at else size

unfoldable pub overlapping_area : Rect → Rect → Rect
unfolding collides
overlapping_area r other =
    let x : ℤ = max_ℤ r.x other.x in
    let y : ℤ = max_ℤ r.y other.y in
    if collides r other
    then record {
      x = x;
      y = y;
      width = cut x (right_of other) (cut x (right_of r) r.width);
      height = cut y (bottom_of other) (cut y (bottom_of r) r.height);
    }
    else record { x = r.x; y = r.y; width = pos 0; height = pos 0 }

unfoldable pub combine : Rect → Rect → Rect
combine r other =
    let x : ℤ = min_ℤ r.x other.x in
    let y : ℤ = min_ℤ r.y other.y in
    record {
      x = x;
      y = y;
      width = max_ℤ (right_of r) (right_of other) -ℤ x;
      height = max_ℤ (bottom_of r) (bottom_of other) -ℤ y;
    }

unfoldable pub inset : ℤ → ℤ → ℤ → ℤ → Rect → Rect
inset top right bottom left r =
    if ltb_ℤ r.height (top +ℤ bottom) || ltb_ℤ r.width (right +ℤ left)
    then record { x = pos 0; y = pos 0; width = pos 0; height = pos 0 }
    else record {
      x = r.x +ℤ left;
      y = r.y +ℤ top;
      width = r.width -ℤ left -ℤ right;
      height = r.height -ℤ top -ℤ bottom;
    }

unfoldable pub inset_all : ℤ → Rect → Rect
unfolding inset
inset_all amount r = inset amount amount amount amount r

unfoldable pub empty : Rect → Bool
empty r = eqb_ℤ r.width (pos 0) && eqb_ℤ r.height (pos 0)

unfoldable pub center : Rect → Point
center r = record { x = r.x +ℤ r.width /ℤ pos 2; y = r.y +ℤ r.height /ℤ pos 2 }

unfoldable pub centered_on : Point → Rect → Rect
centered_on p r = record r { x = p.x -ℤ r.width /ℤ pos 2; y = p.y -ℤ r.height /ℤ pos 2 }
