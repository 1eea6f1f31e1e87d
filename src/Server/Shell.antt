-- ===== src/Server/Shell.antt =====
-- shellQuote of internal/kopia/server/manager.go.
use Prim.Native.Char.{code}
use Prim.Native.String.{String, [], ◌∷◌, ◌++◌}
use kopia_operator.Prelude.{nat_eq, if◌then◌else◌}

-- strings.ReplaceAll of a single quote by '\''
unfoldable pub replace_all : String → String
replace_all [] = []
replace_all (c ∷ s) =
    let rest = replace_all s in if nat_eq (code c) 39 then "'\\''" ++ rest else c ∷ rest

unfoldable pub shell_quote : String → String
unfolding replace_all
shell_quote s = "'" ++ (replace_all s ++ "'")
