-- ===== src/Prelude/Text.antt =====
-- Operations of Go's strings over the native texts, a character at a time. The texts that the
-- program measures or cuts are names of Kubernetes objects, which are ASCII: a character is a byte.
use Prim.Native.Nat.{ℕ, zero, suc, ◌+◌, ◌≤◌, ◌<◌}
use Prim.Native.Char.{Char}
use Prim.Native.String.{String, [], ◌∷◌, ◌++◌}
use mathlib.Core.Path.{◌≡◌, refl, sym, ◌∙◌}
use mathlib.Core.List.{List}
use mathlib.Core.Logic.{◌≢◌}
use native.Mathlib.Omega.{arith}
use text.Mathlib.Text.{◌==◌}
use text.Mathlib.TextEquality.{eq_iff}
use mathlib.Core.Bool.{Bool, true, false, ◌&&◌}
use text.Mathlib.TextLemmas.{nil-append, cons-append}

abbrev pub length : String → ℕ
length [] = 0
length (c ∷ s) = suc (length s)

-- s[:n]
abbrev pub take : ℕ → String → String
take zero s = []
take (suc n) [] = []
take (suc n) (c ∷ s) = c ∷ take n s

-- string(s[len(s)-1]), and "" for the empty text
abbrev pub last : String → String
last [] = []
last (c ∷ []) = c ∷ []
last (c ∷ d ∷ s) = last (d ∷ s)

-- The character at a position, as a text.
abbrev pub char_at : String → ℕ → String
char_at [] i = []
char_at (c ∷ s) zero = c ∷ []
char_at (c ∷ s) (suc i) = char_at s i

abbrev pub every : (Char → Bool) → String → Bool
every p [] = true
every p (c ∷ s) = p c && every p s

pub every-append :
    (p : Char → Bool) (s t : String) → every p s ≡ true → every p t ≡ true → every p (s ++ t) ≡ true
every-append p [] t h k = rw nil-append k
every-append p (c ∷ s) t h k = rw cons-append (ground (arith, every-append p s t))

pub every-cons :
    (p : Char → Bool) (c : Char) (s : String)
    → every p (c ∷ s) ≡ true
    → (p c ≡ true) × (every p s ≡ true)
every-cons p c s h = ground arith

pub every_mono :
    (p q : Char → Bool)
    → ((c : Char) → p c ≡ true → q c ≡ true)
    → (s : String) → every p s ≡ true
    → every q s ≡ true
every_mono p q f [] h = refl
every_mono p q f (c ∷ s) h =
    let (first, rest) = every-cons p c s h in
    let later = every_mono p q f s rest in ground (arith, f c first)

-- strings.Join
unfoldable pub join : String → List String → String
join sep List.[] = []
join sep (List.◌∷◌ s List.[]) = s
join sep (List.◌∷◌ s (List.◌∷◌ t rest)) = s ++ (sep ++ join sep (List.◌∷◌ t rest))

pub length-append : (s t : String) → length (s ++ t) ≡ length s + length t
length-append [] t = rw nil-append (omega arith)
length-append (c ∷ s) t = rw cons-append (omega (arith, length-append s t))

-- A cut of n characters has n characters, where there are as many.
pub length-take : (n : ℕ) (s : String) → n ≤ length s → length (take n s) ≡ n
length-take zero s h = omega arith
length-take (suc n) [] h = absurd (omega arith)
length-take (suc n) (c ∷ s) h = omega (arith, length-take n s (omega arith))

pub length-last : (s : String) → 0 < length s → length (last s) ≡ 1
length-last [] h = absurd (omega arith)
length-last (c ∷ []) h = omega arith
length-last (c ∷ d ∷ s) h = length-last (d ∷ s) (omega arith)

pub length-pos : (s : String) → s ≢ "" → 0 < length s
length-pos [] h = absurd (h refl)
length-pos (c ∷ s) h = omega arith

pub ne→eq_false : (s t : String) → s ≢ t → (s == t) ≡ false
ne→eq_false s t h = ground (arith, eq_iff s t)

-- Two texts that begin with parts of one length begin with the same part.
pub append-take_inj : (s t u v : String) → length s ≡ length t → s ++ u ≡ t ++ v → s ≡ t
append-take_inj [] [] u v h e = refl
append-take_inj [] (d ∷ t) u v h e = absurd (omega arith)
append-take_inj (c ∷ s) [] u v h e = absurd (omega arith)
append-take_inj (c ∷ s) (d ∷ t) u v h e =
    let both : c ∷ (s ++ u) ≡ d ∷ (t ++ v) = sym (cons-append c s u) ∙ e ∙ cons-append d t v in
    let rest : s ++ u ≡ t ++ v = cc in
    let same : c ≡ d = cc in
    let tails = append-take_inj s t u v (omega arith) rest in rw (same, tails) refl
