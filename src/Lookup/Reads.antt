-- ===== src/Lookup/Reads.antt =====
-- What the search of lookup.go sends to the cluster.
use kopia_operator.Prelude.{String, ◌≡◌, refl, List, [], ◌∷◌, ◌==◌}
use kopia_operator.Prelude.Lists.{filter}
use kopia_operator.Exec.{Result, ok, err, continue, wrap_result}
use kopia_operator.Api.Repository.{Repository}
use kopia_operator.Platform.{Platform, everything}
use kopia_operator.World.{World}
use kopia_operator.Lookup.{choose, or_search, get_kopia_repository}

module _ (P : Platform) where
  open P use {State, repositories}

  trace-choose :
      (name namespace : String) (xs : List Repository) (w : World State)
      → (choose P name namespace xs w).1.trace ≡ w.trace
  unfolding choose
  trace-choose name namespace [] w = refl
  trace-choose name namespace (x ∷ []) w = refl
  trace-choose name namespace (x ∷ y ∷ xs) w = refl

  trace-chosen :
      (name namespace : String) (f : List Repository → List Repository)
      → (all : Result (List Repository)) (w : World State)
      → (continue
          (wrap_result "listing KopiaRepositories" all)
          (λ items. choose P name namespace (f items))
          w).1.trace
        ≡ w.trace
  trace-chosen name namespace f (ok xs) w = trace-choose name namespace (f xs) w
  trace-chosen name namespace f (err e) w = refl

  trace-or_search :
      (name namespace : String) (local : Result Repository) (w : World State)
      → (or_search P name namespace local w).1.trace ≡ w.trace
  unfolding or_search
  trace-or_search name namespace (ok x) w = refl
  trace-or_search name namespace (err e) w =
      let (all, s) = repositories.list everything w.api in
      trace-chosen name namespace (filter (λ r. r.metadata.name == name)) all (record w { api = s })

  pub trace-get_kopia_repository :
      (name namespace : String) (w : World State)
      → (get_kopia_repository P name namespace w).1.trace ≡ w.trace
  unfolding get_kopia_repository
  trace-get_kopia_repository name namespace w = trace-or_search name namespace _ _
