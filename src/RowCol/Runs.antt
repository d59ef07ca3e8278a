-- ===== src/RowCol/Runs.antt =====
-- A row-column code at concrete numbers.
use dastard.Base.{◌≡◌, refl}
use dastard.RowCol.{rc_code}

code_of_pixel : rc_code 3 2 40 8 ≡ 0x0008_0028_0002_0003
unfolding rc_code
code_of_pixel = refl
