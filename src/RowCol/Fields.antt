-- ===== src/RowCol/Fields.antt =====
-- A row-column code gives back its four numbers.
use dastard.Base.{ℕ, ◌<◌, ◌≡◌, arith}
use dastard.RowCol.{rc_code, row_of, col_of, rows_of, cols_of}

-- The code of four numbers below 2^16 fits in 64 bits, and each number can be read from it.
rc_code_fields :
    (row col rows cols : ℕ)
    → row < 65536
    → col < 65536
    → rows < 65536
    → cols < 65536
    → (rc_code row col rows cols < 0x1_0000_0000_0000_0000)
      × (row_of (rc_code row col rows cols) ≡ row)
      × (col_of (rc_code row col rows cols) ≡ col)
      × (rows_of (rc_code row col rows cols) ≡ rows)
      × (cols_of (rc_code row col rows cols) ≡ cols)
unfolding rc_code row_of col_of rows_of cols_of
rc_code_fields row col rows cols h₁ h₂ h₃ h₄ =
    (omega arith, omega arith, omega arith, omega arith, omega arith)
