-- ===== src/RowCol.antt =====
-- RowColCode of data_source.go. Bits that do not overlap are joined by a sum: `code<<16 | x` with x
-- below 2^16 is code * 2^16 + x. The arguments are numbers that are not negative.
pub mod Fields
mod Runs
use dastard.Base.{ℕ, ◌+◌, ◌*◌, ◌/◌, ◌%◌}

unfoldable pub rc_code : ℕ → ℕ → ℕ → ℕ → ℕ
rc_code row col rows cols =
    ((cols % 65536 * 65536 + rows % 65536) * 65536 + col % 65536) * 65536 + row % 65536

unfoldable pub row_of : ℕ → ℕ
row_of c = c % 65536

unfoldable pub col_of : ℕ → ℕ
col_of c = c / 65536 % 65536

unfoldable pub rows_of : ℕ → ℕ
rows_of c = c / 0x1_0000_0000 % 65536

unfoldable pub cols_of : ℕ → ℕ
cols_of c = c / 0x1_0000_0000_0000 % 65536
