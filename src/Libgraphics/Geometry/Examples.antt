-- ===== src/Libgraphics/Geometry/Examples.antt =====
-- Two rectangles that overlap (libraries/libgraphics/Geometry.h), and the theorems at them.
use duck_os.Prelude.{◌≡◌, ◌↔◌, refl, true}
use duck_os.Prelude.Int.{pos, negsuc, ◌+ℤ◌, ◌-ℤ◌}
use duck_os.Libgraphics.Geometry.{
  Point, Rect, inside, overlapping_area, constrain, constrain_relative,
}
use duck_os.Libgraphics.Geometry.Overlap.{Covers, overlapping_area-Covers}
use duck_os.Libgraphics.Geometry.Constrain.{constrain-fits}

abbrev window : Rect
window = record { x = negsuc 1; y = pos 3; width = pos 10; height = pos 4 }

abbrev display : Rect
display = record { x = pos 0; y = pos 0; width = pos 6; height = pos 5 }

abbrev pointer : Point
pointer = record { x = pos 2; y = pos 4 }

visible :
    overlapping_area window display ≡ record { x = pos 0; y = pos 3; width = pos 6; height = pos 2 }
unfolding overlapping_area ◌+ℤ◌ ◌-ℤ◌
visible = refl

overlapping_area-Covers_example :
    Covers (overlapping_area window display) pointer
    ↔ (Covers window pointer × Covers display pointer)
overlapping_area-Covers_example = overlapping_area-Covers window display pointer

constrain-fits_example :
    (inside (constrain window display) display ≡ true)
    × ((inside window display ≡ true) ↔ (constrain window display ≡ window))
    × (constrain_relative window display
        ≡ constrain window (record display { x = pos 0; y = pos 0 }))
constrain-fits_example = constrain-fits window display
