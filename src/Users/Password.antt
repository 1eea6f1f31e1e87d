-- ===== src/Users/Password.antt =====
-- generateSecurePassword: base64.URLEncoding of random bytes, cut to 32 characters.
use Prim.Native.Nat.{ℕ, ◌+◌, ◌*◌, ◌/◌, ◌%◌}
use Prim.Native.String.{String}
use mathlib.Core.List.{List, [], ◌∷◌}
use kopia_operator.Prelude.{◌<>◌}
use kopia_operator.Prelude.Text
use kopia_operator.Prelude.Text.{char_at}
use kopia_operator.Exec.{Exec, ◌>>=◌, pure, wrapping}

unfoldable pub alphabet : String
alphabet = "ABCDEFGHIJKLMNOPQRSTUVWXYZabcdefghijklmnopqrstuvwxyz0123456789-_"

-- The character that stands for six bits.
unfoldable pub sextet : ℕ → String
unfolding alphabet
sextet i = char_at alphabet i

-- base64.URLEncoding.EncodeToString, a group of three bytes at a time, with padding at the end.
unfoldable pub encode_to_string : List ℕ → String
unfolding sextet
encode_to_string [] = ""
encode_to_string (a ∷ []) = sextet (a / 4) <> (sextet (a % 4 * 16) <> "==")
encode_to_string (a ∷ b ∷ []) =
    sextet (a / 4) <> (sextet (a % 4 * 16 + b / 16) <> (sextet (b % 16 * 4) <> "="))
encode_to_string (a ∷ b ∷ c ∷ rest) =
    sextet (a / 4)
    <> (sextet (a % 4 * 16 + b / 16)
        <> (sextet (b % 16 * 4 + c / 64) <> (sextet (c % 64) <> encode_to_string rest)))

abbrev pub secure_password_length : ℕ
secure_password_length = 32

-- The number of bytes that are drawn.
abbrev pub num_bytes : ℕ
num_bytes = (secure_password_length * 3 + 3) / 4

unfoldable pub password_of : List ℕ → String
unfolding encode_to_string
password_of bytes = Text.take secure_password_length (encode_to_string bytes)

-- `rand` is crypto/rand's Read, which fills a slice of the given length.
unfoldable pub generate_secure_password : {W : Type 0} → (ℕ → Exec W (List ℕ)) → Exec W String
unfolding password_of
generate_secure_password rand = do
  bytes ← wrapping "failed to generate random bytes" (rand num_bytes)
  pure (password_of bytes)
