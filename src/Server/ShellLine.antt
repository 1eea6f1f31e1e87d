-- ===== src/Server/ShellLine.antt =====
-- What the shell makes of the quoted values in the scripts of manager.go.
use Prim.Native.Char.{code}
use Prim.Native.String.{◌++◌ as ◌<>◌}
use Prim.Native.String as T
use kopia_operator.Prelude.{
  String, Char, true, ◌≡◌, refl, ap, ◌∙◌, some, List, [], ◌∷◌, ◌++◌, nat_eq, arith, inl, inr,
  Bool-cases,
}
use kopia_operator.Prelude.Text.{every, every-cons}
use mathlib.Core.List.{append_assoc as list_append_assoc}
use text.Mathlib.TextEquality.{codes_equal}
use text.Mathlib.TextLemmas.{nil-append, cons-append, append-nil, append_assoc}
use kopia_operator.Server.Shell.{replace_all, shell_quote}
use kopia_operator.Server.Reader.{feed, feed-append, push, bare, single, is_plain, next_word}
use kopia_operator.Api.Repository.{Repository}

pub push-append : (w : String) (c : Char) (s : String) → push w c <> s ≡ w <> T.◌∷◌ c s
push-append w c s = rw (append_assoc, cons-append, nil-append) refl

-- A quoted value is read as it is, whatever characters it has.
feed-replace_all :
    (w : String) (ws : List String) (s : String)
    → feed next_word (some (single w ws)) (replace_all s) ≡ some (single (w <> s) ws)
unfolding feed next_word replace_all
feed-replace_all w ws T.[] = rw append-nil refl
feed-replace_all w ws (T.◌∷◌ c s) = elim (Bool-cases (nat_eq (code c) 39)) [
  | inl e ↦
      let same : c ≡ "'" = codes_equal c "'" (ground arith) in
      rw (e, same, feed-append next_word (some (single w ws)) "'\\''" (replace_all s))
        (feed-replace_all (push w "'") ws s ∙ ap (λ t. some (single t ws)) (push-append w "'" s))
  | inr e ↦ rw e (
      rw (feed, e)
        (feed-replace_all (push w c) ws s ∙ ap (λ t. some (single t ws)) (push-append w c s)))
]

-- In a word, a quoted value extends it.
pub feed-shell_quote :
    (w : String) (ws : List String) (s : String)
    → feed next_word (some (bare w ws)) (shell_quote s) ≡ some (bare (w <> s) ws)
unfolding feed next_word shell_quote
feed-shell_quote w ws s =
    rw
      (
        feed-append next_word (some (bare w ws)) "'" (replace_all s <> "'"),
        feed-append next_word (some (single w ws)) (replace_all s) "'",
        feed-replace_all w ws s,
      )
      refl

next_word-plain :
    (w : String) (ws : List String) (c : Char)
    → is_plain c ≡ true
    → next_word (bare w ws) c ≡ some (bare (push w c) ws)
unfolding next_word
next_word-plain w ws c h = ground arith

pub feed-plain :
    (w : String) (ws : List String) (s : String)
    → every is_plain s ≡ true
    → feed next_word (some (bare w ws)) s ≡ some (bare (w <> s) ws)
unfolding feed next_word
feed-plain w ws T.[] h = rw append-nil refl
feed-plain w ws (T.◌∷◌ c s) h =
    let (first, rest) = every-cons is_plain c s h in
    ap (λ o. feed next_word o s) (next_word-plain w ws c first)
    ∙ (feed-plain (push w c) ws s rest ∙ ap (λ t. some (bare t ws)) (push-append w c s))
