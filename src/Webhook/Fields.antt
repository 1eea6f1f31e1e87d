-- ===== src/Webhook/Fields.antt =====
-- strings.Fields: the words of a text between runs of white space.
use Prim.Native.String.{String, ◌++◌ as ◌<>◌}
use mathlib.Core.List.{List, [], ◌∷◌}
use kopia_operator.Prelude.Space.{is_space}
use kopia_operator.Prelude.{◌==◌, if◌then◌else◌}

-- A word that ends here; runs of white space leave empty ones, which are skipped.
unfoldable pub flush : String → List String → List String
flush word rest = if word == "" then rest else word ∷ rest

-- The words of the rest of the text, `word` being the part of the current one that is read.
unfoldable pub fields_from : String → String → List String
unfolding flush
fields_from String.[] word = flush word []
fields_from (String.◌∷◌ c s) word =
    let next = fields_from s "" in
    let more = fields_from s (word <> String.◌∷◌ c String.[]) in
    if is_space c then flush word next else more

unfoldable pub fields : String → List String
unfolding fields_from
fields s = fields_from s ""
