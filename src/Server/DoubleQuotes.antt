-- ===== src/Server/DoubleQuotes.antt =====
-- What double quotes make of the texts that manager.go writes inside them, quoted values among them.
use Prim.Native.Char.{code}
use Prim.Native.String.{◌++◌ as ◌<>◌}
use Prim.Native.String as T
use kopia_operator.Prelude.{
  String, Char, Bool, true, false, ◌||◌, ◌&&◌, not, ◌≡◌, refl, ap, ◌∙◌, some, List, [], ◌∷◌, nat_eq,
  arith, inl, inr, if-both, Bool-cases,
}
use kopia_operator.Prelude.Text.{every, every_mono, every-cons, every-append}
use kopia_operator.Prelude.Text
use text.Mathlib.TextEquality.{codes_equal}
use text.Mathlib.TextLemmas.{nil-append, cons-append, append-nil, append_assoc}
use kopia_operator.Server.Shell.{replace_all, shell_quote}
use kopia_operator.Server.Script.{concat}
use kopia_operator.Server.Reader.{
  starts_expansion, expansion, feed, feed-append, feed_all, feed-concat, push, reads, next_quoted,
  quoted_text, in_double_quotes, is_active, is_backslash,
}
use kopia_operator.Server.ShellLine.{push-append}

-- A character with no meaning of its own in double quotes.
abbrev pub is_inert : Char → Bool
is_inert c = not (is_active c || is_backslash c)

-- Double quotes leave the text as it is.
abbrev pub IsClear : String → Type 0
IsClear s = (t : String) → feed next_quoted (some (reads t)) s ≡ some (reads (t <> s))

next_quoted-inert :
    (t : String) (c : Char) → is_inert c ≡ true → next_quoted (reads t) c ≡ some (reads (push t c))
unfolding next_quoted
next_quoted-inert t c h = ground arith

cons-IsClear : (c : Char) (s : String) → is_inert c ≡ true → IsClear s → IsClear (T.◌∷◌ c s)
unfolding feed
cons-IsClear c s h hs t =
    ap (λ o. feed next_quoted o s) (next_quoted-inert t c h)
    ∙ (hs (push t c) ∙ ap (λ u. some (reads u)) (push-append t c s))

pub inert-IsClear : (s : String) → every is_inert s ≡ true → IsClear s
unfolding feed
inert-IsClear T.[] h = λ t. rw append-nil refl
inert-IsClear (T.◌∷◌ c s) h =
    let (first, rest) = every-cons is_inert c s h in cons-IsClear c s first (inert-IsClear s rest)

append-IsClear : (s u : String) → IsClear s → IsClear u → IsClear (s <> u)
append-IsClear s u hs hu t =
    feed-append next_quoted (some (reads t)) s u
    ∙ (ap (λ o. feed next_quoted o u) (hs t)
        ∙ (hu (t <> s) ∙ ap (λ v. some (reads v)) (append_assoc t s u)))

escaped_quote-IsClear : IsClear "'\\''"
unfolding feed next_quoted
escaped_quote-IsClear t = rw (append_assoc, append_assoc, append_assoc) refl

replace_all-IsClear : (s : String) → every is_inert s ≡ true → IsClear (replace_all s)
unfolding replace_all
replace_all-IsClear T.[] h = inert-IsClear "" refl
replace_all-IsClear (T.◌∷◌ c s) h =
    let (first, rest) = every-cons is_inert c s h in
    if-both IsClear (nat_eq (code c) 39)
      (append-IsClear "'\\''" (replace_all s) escaped_quote-IsClear (replace_all-IsClear s rest))
      (cons-IsClear c (replace_all s) first (replace_all-IsClear s rest))

pub shell_quote-IsClear : (s : String) → every is_inert s ≡ true → IsClear (shell_quote s)
unfolding shell_quote
shell_quote-IsClear s h =
    append-IsClear "'" (replace_all s <> "'") (inert-IsClear "'" refl)
      (append-IsClear (replace_all s) "'" (replace_all-IsClear s h) (inert-IsClear "'" refl))

unfoldable pub AllClear : List String → Type 0
AllClear [] = Unit
AllClear (s ∷ ss) = IsClear s × AllClear ss

feed_all-clear :
    (t : String) (ss : List String)
    → AllClear ss
    → feed_all next_quoted (some (reads t)) ss ≡ some (reads (t <> concat ss))
unfolding AllClear Text.join
feed_all-clear t [] h = rw append-nil refl
feed_all-clear t (s ∷ []) (h, hs) = h t
feed_all-clear t (s ∷ r ∷ ss) (h, hs) =
    ap (λ o. feed_all next_quoted o (r ∷ ss)) (h t)
    ∙ (feed_all-clear (t <> s) (r ∷ ss) hs
        ∙ ap (λ u. some (reads u)) (rw (nil-append, append_assoc) refl))

pub in_double_quotes-clear :
    (ss : List String) → AllClear ss → in_double_quotes (concat ss) ≡ some (concat ss)
in_double_quotes-clear ss h =
    ap quoted_text (feed-concat next_quoted (some (reads "")) ss ∙ feed_all-clear "" ss h)
    ∙ ap some (nil-append (concat ss))

replace_all-append : (s t : String) → replace_all (s <> t) ≡ replace_all s <> replace_all t
unfolding replace_all
replace_all-append T.[] t = rw (nil-append, nil-append) refl
replace_all-append (T.◌∷◌ c s) t = elim (Bool-cases (nat_eq (code c) 39)) [
  | inl e ↦ rw (e, cons-append, replace_all, e, replace_all-append s t, append_assoc)
  | inr e ↦ rw (e, cons-append, replace_all, e, replace_all-append s t, cons-append)
]

feed-expansion : (t s : String) → feed next_quoted (some (expansion t)) s ≡ some (expansion t)
unfolding feed next_quoted
feed-expansion t T.[] = refl
feed-expansion t (T.◌∷◌ c s) = feed-expansion t s

-- A backquote, or a dollar sign before what makes it an expansion.
abbrev pub begins_expansion : String → Bool
begins_expansion T.[] = false
begins_expansion (T.◌∷◌ c T.[]) = nat_eq (code c) 96
begins_expansion (T.◌∷◌ c (T.◌∷◌ d s)) =
    nat_eq (code c) 96 || (nat_eq (code c) 36 && starts_expansion d)

feed-backquote :
    (t s : String) (c : Char)
    → nat_eq (code c) 96 ≡ true
    → feed next_quoted (some (reads t)) (replace_all (T.◌∷◌ c s)) ≡ some (expansion t)
unfolding feed next_quoted replace_all
feed-backquote t s c h =
    let same : c ≡ "`" = codes_equal c "`" (ground arith) in
    rw same (feed-expansion t (replace_all s))

feed-dollar :
    (t s : String) (c d : Char)
    → nat_eq (code c) 36 ≡ true
    → starts_expansion d ≡ true
    → feed next_quoted (some (reads t)) (replace_all (T.◌∷◌ c (T.◌∷◌ d s))) ≡ some (expansion t)
unfolding feed next_quoted replace_all
feed-dollar t s c d h k =
    let same : c ≡ "$" = codes_equal c "$" (ground arith) in
    let other : nat_eq (code d) 39 ≡ false = ground arith in
    rw (same, other) (rw (feed, k) (feed-expansion t (replace_all s)))

feed-begins :
    (t r : String)
    → begins_expansion r ≡ true
    → feed next_quoted (some (reads t)) (replace_all r) ≡ some (expansion t)
feed-begins t T.[] h = cc
feed-begins t (T.◌∷◌ c T.[]) h = feed-backquote t "" c h
feed-begins t (T.◌∷◌ c (T.◌∷◌ d s)) h = elim (Bool-cases (nat_eq (code c) 96)) [
  | inl e ↦ feed-backquote t (T.◌∷◌ d s) c e
  | inr e ↦ feed-dollar t s c d (ground (arith, e)) (ground (arith, e))
]

-- The single quotes around a value do not hold an expansion back.
pub shell_quote-expands :
    (t a r : String)
    → every is_inert a ≡ true
    → begins_expansion r ≡ true
    → feed next_quoted (some (reads t)) (shell_quote (a <> r))
      ≡ some (expansion ((t <> "'") <> replace_all a))
unfolding shell_quote
shell_quote-expands t a r h k =
    rw
      (
        feed-append next_quoted (some (reads t)) "'" (replace_all (a <> r) <> "'"),
        inert-IsClear "'" refl t,
        feed-append next_quoted _ (replace_all (a <> r)) "'",
        replace_all-append a r,
        feed-append next_quoted _ (replace_all a) (replace_all r),
        replace_all-IsClear a h,
        feed-begins _ r k,
      )
      (feed-expansion _ "'")

pub feed_all-expansion :
    (t : String) (ss : List String)
    → feed_all next_quoted (some (expansion t)) ss ≡ some (expansion t)
feed_all-expansion t [] = refl
feed_all-expansion t (s ∷ ss) =
    ap (λ o. feed_all next_quoted o ss) (feed-expansion t s) ∙ feed_all-expansion t ss
