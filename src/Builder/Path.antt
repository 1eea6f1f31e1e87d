-- ===== src/Builder/Path.antt =====
-- filepath.Join and filepath.Clean on a system whose separator is the slash.
use Prim.Native.Char.{Char, code}
use Prim.Native.String.{String, ◌++◌ as ◌<>◌}
use mathlib.Core.Bool.{Bool, true, false, ◌||◌}
use mathlib.Core.List.{List, [], ◌∷◌, reverse}
use kopia_operator.Prelude.{nat_eq, ◌==◌, if◌then◌else◌}
use kopia_operator.Prelude.Text.{join}

is_slash : Char → Bool
is_slash c = nat_eq (code c) 47

-- The parts between slashes; `part` is the one that is being read.
unfoldable pub components : String → String → List String
unfolding is_slash
components String.[] part = part ∷ []
components (String.◌∷◌ c s) part =
    let next = components s "" in
    let more = components s (part <> String.◌∷◌ c String.[]) in
    if is_slash c then part ∷ next else more

-- One part against the parts that are kept so far, the last one first.
step : Bool → String → List String → List String
step rooted part [] =
    if part == "" || part == "."
    then []
    else if part == ".."
    then (if rooted then [] else ".." ∷ [])
    else part ∷ []
step rooted part (top ∷ kept) =
    if part == "" || part == "."
    then top ∷ kept
    else if part == ".."
    then (if top == ".." then ".." ∷ top ∷ kept else kept)
    else part ∷ top ∷ kept

steps : Bool → List String → List String → List String
unfolding step
steps rooted [] kept = reverse kept
steps rooted (part ∷ parts) kept = steps rooted parts (step rooted part kept)

is_rooted : String → Bool
unfolding is_slash
is_rooted String.[] = false
is_rooted (String.◌∷◌ c s) = is_slash c

or_dot : String → String
or_dot s = if s == "" then "." else s

unfoldable pub clean : String → String
unfolding components steps is_rooted or_dot join
clean path =
    if is_rooted path
    then "/" <> join "/" (steps true (components path "") [])
    else or_dot (join "/" (steps false (components path "") []))

-- filepath.Join skips the empty elements in front.
unfoldable pub join_path : List String → String
unfolding clean join
join_path [] = ""
join_path (element ∷ rest) =
    if element == "" then join_path rest else clean (join "/" (element ∷ rest))
