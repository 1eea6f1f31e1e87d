-- ===== src/Users/Alphabet.antt =====
-- Which passwords the manager generates.
use Prim.Native.Nat.{ℕ, zero, suc, ◌+◌, ◌*◌, ◌/◌, ◌%◌, ◌<◌}
use Prim.Native.Char.{Char, code}
use Prim.Native.String.{String}
use mathlib.Core.List.{List, [], ◌∷◌}
use text.Mathlib.TextLemmas.{nil-append, cons-append}
use kopia_operator.Prelude.{◌<>◌, ◌≡◌, refl, Bool, true, false, ◌&&◌, ◌||◌, arith, nat_eq}
use kopia_operator.Prelude.Lists.{length}
use kopia_operator.Prelude.Text
use kopia_operator.Prelude.Text.{char_at, length-append, length-take}
use kopia_operator.Users.Password.{alphabet, sextet, encode_to_string, num_bytes, password_of}

occurs : Char → String → Bool
occurs c String.[] = false
occurs c (String.◌∷◌ d s) = nat_eq (code c) (code d) || occurs c s

-- Every character of the first text stands in the second.
pub all_occur : String → String → Bool
all_occur String.[] t = true
all_occur (String.◌∷◌ c s) t = occurs c t && all_occur s t

abbrev pub AreBytes : List ℕ → Type 0
AreBytes [] = Unit
AreBytes (b ∷ bs) = (b < 256) × AreBytes bs

-- n groups of three bytes.
abbrev groups : ℕ → ℕ
groups zero = 0
groups (suc n) = suc (suc (suc (groups n)))

length-char_at : (s : String) (i : ℕ) → i < Text.length s → Text.length (char_at s i) ≡ 1
length-char_at String.[] i h = elim h [ ]
length-char_at (String.◌∷◌ c s) zero h = refl
length-char_at (String.◌∷◌ c s) (suc i) h = length-char_at s i (omega arith)

module _ (t : String) where
  all_occur-char_at : (s : String) (i : ℕ) → all_occur s t ≡ true → all_occur (char_at s i) t ≡ true
  unfolding all_occur
  all_occur-char_at String.[] i h = refl
  all_occur-char_at (String.◌∷◌ c s) zero h = ground arith
  all_occur-char_at (String.◌∷◌ c s) (suc i) h = all_occur-char_at s i (ground arith)

  all_occur-append :
      (s u : String) → all_occur s t ≡ true → all_occur u t ≡ true → all_occur (s <> u) t ≡ true
  unfolding all_occur
  all_occur-append String.[] u hs hu = rw nil-append hu
  all_occur-append (String.◌∷◌ c s) u hs hu =
      rw (cons-append, all_occur) (ground (arith, all_occur-append s u))

  all_occur-take : (n : ℕ) (s : String) → all_occur s t ≡ true → all_occur (Text.take n s) t ≡ true
  unfolding all_occur
  all_occur-take zero s h = refl
  all_occur-take (suc n) String.[] h = refl
  all_occur-take (suc n) (String.◌∷◌ c s) h = ground (arith, all_occur-take n s)

alphabet_closed : all_occur alphabet alphabet ≡ true
unfolding all_occur occurs alphabet
alphabet_closed = refl

-- One character of the alphabet.
abbrev IsSextet : String → Type 0
IsSextet s = (Text.length s ≡ 1) × (all_occur s alphabet ≡ true)

sextet-IsSextet : (i : ℕ) → i < 64 → IsSextet (sextet i)
sextet-IsSextet i h = (
  unfold sextet in length-char_at alphabet i h,
  unfold sextet in all_occur-char_at alphabet alphabet i alphabet_closed,
)

-- A text of n characters of the alphabet.
abbrev IsWord : ℕ → String → Type 0
IsWord n s = (Text.length s ≡ n) × (all_occur s alphabet ≡ true)

IsWord-append : (s t : String) (n m : ℕ) → IsWord n s → IsWord m t → IsWord (n + m) (s <> t)
IsWord-append s t n m (ls, hs) (lt, ht) =
    (rw length-append (omega arith), all_occur-append alphabet s t hs ht)

-- Whole groups need no padding: four characters of the alphabet for each.
encode_groups :
    (n : ℕ) (bytes : List ℕ)
    → length bytes ≡ groups n
    → AreBytes bytes
    → IsWord (4 * n) (encode_to_string bytes)
unfolding encode_to_string all_occur
encode_groups zero [] e h = (omega arith, refl)
encode_groups zero (a ∷ bytes) e h = absurd (omega arith)
encode_groups (suc n) [] e h = absurd (omega arith)
encode_groups (suc n) (a ∷ []) e h = absurd (omega arith)
encode_groups (suc n) (a ∷ b ∷ []) e h = absurd (omega arith)
encode_groups (suc n) (a ∷ b ∷ c ∷ rest) e (ha, (hb, (hc, h))) =
    let w₀ = encode_groups n rest (omega arith) h in
    let w₁ = IsWord-append (sextet (c % 64)) _ 1 _ (sextet-IsSextet (c % 64) (omega arith)) w₀ in
    let w₂ =
      IsWord-append (sextet (b % 16 * 4 + c / 64)) _ 1 _
        (sextet-IsSextet (b % 16 * 4 + c / 64) (omega arith)) w₁ in
    let w₃ =
      IsWord-append (sextet (a % 4 * 16 + b / 16)) _ 1 _
        (sextet-IsSextet (a % 4 * 16 + b / 16) (omega arith)) w₂ in
    let w₄ = IsWord-append (sextet (a / 4)) _ 1 _ (sextet-IsSextet (a / 4) (omega arith)) w₃ in
    (omega (arith, w₄.0), w₄.1)

-- From as many random bytes as the manager draws, the password has 32 characters, each of them of
-- the alphabet of URL-safe base64.
pub password_of-IsWord :
    (bytes : List ℕ)
    → length bytes ≡ num_bytes
    → AreBytes bytes
    → (Text.length (password_of bytes) ≡ 32) × (all_occur (password_of bytes) alphabet ≡ true)
unfolding password_of
password_of-IsWord bytes e h =
    let (n, w) = encode_groups 8 bytes e h in
    (length-take 32 (encode_to_string bytes) (omega (arith, n)), all_occur-take alphabet 32 _ w)
