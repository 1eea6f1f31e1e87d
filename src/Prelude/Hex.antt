-- ===== src/Prelude/Hex.antt =====
-- Bytes in hexadecimal, with the digits given.
use Prim.Native.Nat.{ℕ, zero, suc, ◌/◌, ◌%◌}
use Prim.Native.String.{String, ◌++◌}
use mathlib.Core.List.{List, [], ◌∷◌}
use kopia_operator.Prelude.Text.{char_at}

-- b[:n] of bytes, of which there are as many
abbrev pub first : ℕ → List ℕ → List ℕ
first zero bytes = []
first (suc n) [] = []
first (suc n) (b ∷ bytes) = b ∷ first n bytes

unfoldable pub hex : String → List ℕ → String
hex digits [] = ""
hex digits (b ∷ bytes) = char_at digits (b / 16) ++ (char_at digits (b % 16) ++ hex digits bytes)
