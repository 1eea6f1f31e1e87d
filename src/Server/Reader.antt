-- ===== src/Server/Reader.antt =====
-- How a POSIX shell reads a command and a text in double quotes: the readers that the scripts of
-- manager.go are checked against.
use Prim.Native.Char.{code}
use Prim.Native.String.{◌++◌ as ◌<>◌}
use Prim.Native.String as T
use kopia_operator.Prelude.{
  String, Char, Bool, ◌||◌, ◌&&◌, ◌≡◌, refl, Option, none, some, List, [], ◌∷◌, ◌++◌, nat_eq, ltb,
  if◌then◌else◌,
}
use text.Mathlib.TextLemmas.{nil-append, cons-append}
use kopia_operator.Prelude.Text
use kopia_operator.Server.Script.{concat}

-- A reader takes a character at a time; none stands for a refusal.
module _ {S : Type 0} (next : S → Char → Option S) where
  abbrev advance : Option S → Char → Option S
  advance none c = none
  advance (some s) c = next s c

  unfoldable pub feed : Option S → String → Option S
  feed o T.[] = o
  feed o (T.◌∷◌ c t) = feed (advance o c) t

  pub feed-append : (o : Option S) (s t : String) → feed o (s <> t) ≡ feed (feed o s) t
  unfolding feed
  feed-append o T.[] t = rw nil-append refl
  feed-append o (T.◌∷◌ c s) t = rw cons-append (feed-append (advance o c) s t)

  pub feed-none : (t : String) → feed none t ≡ none
  unfolding feed
  feed-none T.[] = refl
  feed-none (T.◌∷◌ c t) = feed-none t

  abbrev pub feed_all : Option S → List String → Option S
  feed_all o [] = o
  feed_all o (s ∷ ss) = feed_all (feed o s) ss

  -- The writes of a builder are read one after the other.
  pub feed-concat : (o : Option S) (ss : List String) → feed o (concat ss) ≡ feed_all o ss
  unfolding Text.join feed
  feed-concat o [] = refl
  feed-concat o (s ∷ []) = refl
  feed-concat o (s ∷ t ∷ ss) =
      rw (nil-append, feed-append o s (concat (t ∷ ss))) (feed-concat (feed o s) (t ∷ ss))

abbrev pub push : String → Char → String
push s c = s <> T.◌∷◌ c T.[]

-- $ ` "
abbrev pub is_active : Char → Bool
is_active c = nat_eq (code c) 36 || nat_eq (code c) 96 || nat_eq (code c) 34

abbrev pub is_backslash : Char → Bool
is_backslash c = nat_eq (code c) 92

-- What makes a dollar sign before it an expansion: the start of a name, a digit, ( or {, or one of the
-- special parameters @ * # ? - $ !
abbrev pub starts_expansion : Char → Bool
starts_expansion c =
    (ltb 47 (code c) && ltb (code c) 58)
    || (ltb 62 (code c) && ltb (code c) 91)
    || (ltb 96 (code c) && ltb (code c) 124)
    || (ltb 34 (code c) && ltb (code c) 37)
    || nat_eq (code c) 33
    || nat_eq (code c) 40
    || nat_eq (code c) 42
    || nat_eq (code c) 45
    || nat_eq (code c) 95

-- The text that double quotes stand for so far; the same with a backslash or a dollar sign read after
-- it; and the text before the first expansion, and before a double quote that ends the quotes.
pub data Quoted : Type 0 where
  reads after_backslash after_dollar expansion closed : String → Quoted

abbrev read_on : String → Char → Quoted
read_on t c =
    if nat_eq (code c) 36
    then after_dollar t
    else if nat_eq (code c) 96
    then expansion t
    else if nat_eq (code c) 34
    then closed t
    else if is_backslash c
    then after_backslash t
    else reads (push t c)

-- Inside double quotes a backquote begins an expansion, and so does a dollar sign before what can
-- follow it; any other dollar sign stands for itself. A double quote ends them. A backslash takes these
-- and itself as they are, goes with a newline, and stays before any other character.
unfoldable pub next_quoted : Quoted → Char → Option Quoted
next_quoted (reads t) c = some (read_on t c)
next_quoted (after_backslash t) c =
    if is_active c || is_backslash c
    then some (reads (push t c))
    else if nat_eq (code c) 10
    then some (reads t)
    else some (reads (push (push t "\\") c))
next_quoted (after_dollar t) c =
    if starts_expansion c then some (expansion t) else some (read_on (push t "$") c)
next_quoted (expansion t) c = some (expansion t)
next_quoted (closed t) c = some (closed t)

abbrev pub quoted_text : Option Quoted → Option String
quoted_text (some (reads t)) = some t
quoted_text (some (after_dollar t)) = some (push t "$")
quoted_text _ = none

-- How far a text is read between double quotes.
abbrev pub read_quoted : String → Option Quoted
read_quoted s = feed next_quoted (some (reads "")) s

-- The value of a text between double quotes, where nothing in it is expanded.
abbrev pub in_double_quotes : String → Option String
in_double_quotes s = quoted_text (read_quoted s)

-- A command that is read, with its complete words last: between words, there after a backslash, in
-- a word, there after a backslash, in single quotes, in double quotes, and after the newline that
-- ends the command.
pub data Line : Type 0 where
  between continued ended : List String → Line
  bare escaped single double : String → List String → Line

-- What stands for itself outside quotes: letters, digits and some punctuation.
abbrev pub is_plain : Char → Bool
is_plain c =
    (ltb 44 (code c) && ltb (code c) 59)
    || (ltb 63 (code c) && ltb (code c) 91)
    || (ltb 96 (code c) && ltb (code c) 123)
    || nat_eq (code c) 61
    || nat_eq (code c) 95

-- A character at the start of a word or inside it; one that is neither plain nor a quote is
-- refused.
abbrev next_in_word : String → List String → Char → Option Line
next_in_word w ws c =
    if is_plain c
    then some (bare (push w c) ws)
    else if nat_eq (code c) 39
    then some (single w ws)
    else if nat_eq (code c) 34
    then some (double w ws)
    else none

-- One simple command with the newline that ends it. An expansion inside double quotes splits no
-- word, and is kept as it is written; a backquote or a backslash there is refused.
unfoldable pub next_word : Line → Char → Option Line
next_word (between ws) c =
    if nat_eq (code c) 32
    then some (between ws)
    else if nat_eq (code c) 10
    then some (ended ws)
    else if is_backslash c
    then some (continued ws)
    else next_in_word "" ws c
next_word (continued ws) c =
    if nat_eq (code c) 10 then some (between ws) else some (bare (push "" c) ws)
next_word (ended ws) c = none
next_word (bare w ws) c =
    if nat_eq (code c) 32
    then some (between (ws ++ w ∷ []))
    else if nat_eq (code c) 10
    then some (ended (ws ++ w ∷ []))
    else if is_backslash c
    then some (escaped w ws)
    else next_in_word w ws c
next_word (escaped w ws) c =
    if nat_eq (code c) 10 then some (bare w ws) else some (bare (push w c) ws)
next_word (single w ws) c =
    if nat_eq (code c) 39 then some (bare w ws) else some (single (push w c) ws)
next_word (double w ws) c =
    if nat_eq (code c) 34
    then some (bare w ws)
    else if nat_eq (code c) 96 || is_backslash c
    then none
    else some (double (push w c) ws)

abbrev pub words_of : Option Line → Option (List String)
words_of (some (between ws)) = some ws
words_of (some (ended ws)) = some ws
words_of (some (bare w ws)) = some (ws ++ w ∷ [])
words_of _ = none

-- The words of a command.
abbrev pub command_words : String → Option (List String)
command_words s = words_of (feed next_word (some (between [])) s)
