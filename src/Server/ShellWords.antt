-- ===== src/Server/ShellWords.antt =====
-- How a POSIX shell reads a word, beside the quoting of manager.go.
use Prim.Native.Char.{Char, code}
use Prim.Native.String.{String, [], ◌∷◌, ◌++◌}
use kopia_operator.Prelude.{
  ◌≡◌, refl, Option, none, some, arith, true, nat_eq, if◌then◌else◌, inl, inr, Bool-cases,
}
use text.Mathlib.TextLemmas.{nil-append, cons-append, append_assoc}
use text.Mathlib.TextEquality.{codes_equal}
use kopia_operator.Server.Shell.{replace_all, shell_quote}

-- Whether the reader is between words' quotes, after a backslash, or inside single quotes.
pub data Mode : Type 0 where
  unquoted escaped quoted : Mode

abbrev prepend : Char → Option String → Option String
prepend c none = none
prepend c (some s) = some (c ∷ s)

-- The value of one word: inside single quotes every character stands for itself, and outside them a
-- backslash takes the next one as it is. Here a word with any other special character outside the
-- quotes, and one that ends inside them, is refused.
unfoldable pub read_word : Mode → String → Option String
read_word unquoted [] = some ""
read_word escaped [] = none
read_word quoted [] = none
read_word unquoted (c ∷ s) =
    let in_quotes = read_word quoted s in
    let after_backslash = read_word escaped s in
    if nat_eq (code c) 39 then in_quotes else if nat_eq (code c) 92 then after_backslash else none
read_word escaped (c ∷ s) = prepend c (read_word unquoted s)
read_word quoted (c ∷ s) =
    let outside = read_word unquoted s in
    let rest = read_word quoted s in if nat_eq (code c) 39 then outside else prepend c rest

abbrev pub shell_value : String → Option String
shell_value = read_word unquoted

read-quote : (t : String) → read_word unquoted ("'" ++ t) ≡ read_word quoted t
unfolding read_word
read-quote t = rw (cons-append, nil-append)

-- An escaped quote inside quotes stands for the quote.
read-escaped_quote :
    (c : Char) (t : String)
    → nat_eq (code c) 39 ≡ true
    → read_word quoted ("'\\''" ++ t) ≡ prepend c (read_word quoted t)
unfolding read_word
read-escaped_quote c t e =
    let same : c ≡ "'" = codes_equal c "'" (ground arith) in
    rw (same, cons-append) (rw cons-append (rw cons-append (rw (cons-append, nil-append))))

read-replace_all : (s : String) → read_word quoted (replace_all s ++ "'") ≡ some s
unfolding read_word replace_all
read-replace_all [] = refl
read-replace_all (c ∷ s) = elim (Bool-cases (nat_eq (code c) 39)) [
  | inl e ↦ rw (e, append_assoc, read-escaped_quote c (replace_all s ++ "'") e, read-replace_all s)
  | inr e ↦ rw (e, cons-append, replace_all) (rw (e, read-replace_all s))
]

-- A shell reads a quoted value back as the value, whatever characters it has.
pub read-shell_quote : (s : String) → shell_value (shell_quote s) ≡ some s
unfolding shell_quote
read-shell_quote s = rw (read-quote, read-replace_all)
