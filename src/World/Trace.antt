-- ===== src/World/Trace.antt =====
-- Counting what the trace of a world shows.
use kopia_operator.Prelude.{
  ℕ, suc, ◌+◌, Bool, true, false, ◌≡◌, List, [], ◌∷◌, ◌++◌, arith, if◌then◌else◌,
}
use kopia_operator.World.{Effect, api_write, update_status, delete}

-- How many effects pass a test.
unfoldable pub count : (Effect → Bool) → List Effect → ℕ
count p [] = 0
count p (e ∷ es) = let rest = count p es in if p e then suc rest else rest

pub count-append_one :
    (p : Effect → Bool) (es : List Effect) (e : Effect)
    → count p (es ++ e ∷ []) ≡ count p es + (if p e then 1 else 0)
unfolding count
count-append_one p [] e = ground arith
count-append_one p (x ∷ es) e = ground (arith, count-append_one p es e)

abbrev is_delete : Effect → Bool
is_delete (api_write delete _ _ _) = true
is_delete _ = false

-- A write that is not a deletion.
abbrev is_store : Effect → Bool
is_store (api_write delete _ _ _) = false
is_store (api_write _ _ _ _) = true
is_store _ = false

abbrev pub is_status_update : Effect → Bool
is_status_update (api_write update_status _ _ _) = true
is_status_update _ = false

-- The deletions that were sent.
abbrev pub deletions : List Effect → ℕ
deletions = count is_delete

-- The creations, updates and patches that were sent.
abbrev pub stores : List Effect → ℕ
stores = count is_store

abbrev pub status_updates : List Effect → ℕ
status_updates = count is_status_update
