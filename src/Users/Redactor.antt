-- ===== src/Users/Redactor.antt =====
-- newRedactor: secrets are cut out of what is logged of an exec.
use Prim.Native.Nat.{ℕ, zero, suc, ◌-◌}
use Prim.Native.String.{String, [], ◌∷◌, ◌++◌}
use kopia_operator.Prelude.{List, ◌==◌, starts_with, if◌then◌else◌}
use kopia_operator.Prelude.Text.{length}

-- strings.ReplaceAll of a text that is not empty: `skip` characters belong to the last match.
unfoldable pub replace_from : String → String → ℕ → String → String
replace_from old new skip [] = []
replace_from old new (suc skip) (c ∷ s) = replace_from old new skip s
replace_from old new zero (c ∷ s) =
    let rest = replace_from old new zero s in
    let after = replace_from old new (length old - 1) s in
    if starts_with (c ∷ s) old then new ++ after else c ∷ rest

-- The loop over the secrets.
unfoldable pub new_redactor : List String → String → String
unfolding replace_from
new_redactor List.[] s = s
new_redactor (List.◌∷◌ secret secrets) s =
    new_redactor secrets (if secret == "" then s else replace_from secret "[REDACTED]" 0 s)
