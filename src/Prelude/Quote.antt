-- ===== src/Prelude/Quote.antt =====
-- strconv.Quote, which fmt's %q prints: the marks, backslashes and line breaks are escaped. The other
-- characters of the texts that the program quotes are printable.
use Prim.Native.Char.{Char, code}
use Prim.Native.String.{String, [], ◌∷◌, ◌++◌}
use kopia_operator.Prelude.Tests.{nat_eq, if◌then◌else◌}

escape_char : Char → String
escape_char c =
    if nat_eq (code c) 34
    then "\\\""
    else if nat_eq (code c) 92
    then "\\\\"
    else if nat_eq (code c) 10
    then "\\n"
    else if nat_eq (code c) 13
    then "\\r"
    else if nat_eq (code c) 9
    then "\\t"
    else c ∷ []

escape : String → String
escape [] = []
escape (c ∷ s) = escape_char c ++ escape s

unfoldable pub quote : String → String
unfolding escape escape_char
quote s = "\"" ++ (escape s ++ "\"")
