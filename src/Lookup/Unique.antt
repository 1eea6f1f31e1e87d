-- ===== src/Lookup/Unique.antt =====
-- Which repository the search of lookup.go returns.
use kopia_operator.Prelude.{String, ◌≡◌, ◌≢◌, ◌↔◌, ◌⊎◌, refl, List, [], ◌∷◌, arith, ◌==◌, eq_iff}
use kopia_operator.Prelude.Lists.{filter}
use kopia_operator.Error.{Error}
use kopia_operator.Exec.{Result, ok, err, continue, wrap_result}
use kopia_operator.Kube.Meta.{Key}
use kopia_operator.Api.Repository.{Repository}
use kopia_operator.Platform.{Platform, everything}
use kopia_operator.World.{World}
use kopia_operator.Lookup.{choose, or_search, get_kopia_repository}

abbrev pub NoMatch : String → List Repository → Type 0
NoMatch name [] = Unit
NoMatch name (r ∷ rs) = (r.metadata.name ≢ name) × NoMatch name rs

-- `r` stands in the list, has the name, and nothing else in the list has it.
abbrev pub OnlyMatch : String → Repository → List Repository → Type 0
OnlyMatch name r [] = ⊥
OnlyMatch name r (x ∷ xs) =
    ((x ≡ r) × (x.metadata.name ≡ name) × NoMatch name xs)
    ⊎ ((x.metadata.name ≢ name) × OnlyMatch name r xs)

abbrev named : String → List Repository → List Repository
named name = filter (λ r. r.metadata.name == name)

filter-eq-nil : (name : String) (xs : List Repository) → (named name xs ≡ []) ↔ NoMatch name xs
filter-eq-nil name [] = (λ _. tt, λ _. refl)
filter-eq-nil name (x ∷ xs) = ground (arith, eq_iff x.metadata.name name, filter-eq-nil name xs)

filter-eq-one :
    (name : String) (r : Repository) (xs : List Repository)
    → (named name xs ≡ r ∷ []) ↔ OnlyMatch name r xs
filter-eq-one name r [] = (λ e. cc, λ e. absurd e)
filter-eq-one name r (x ∷ xs) =
    ground (arith, eq_iff x.metadata.name name, filter-eq-nil name xs, filter-eq-one name r xs)

-- What the answers to the two requests say of the repository.
abbrev pub Finds : String → Repository → Result Repository → Result (List Repository) → Type 0
Finds name r (ok local) all = local ≡ r
Finds name r (err _) (ok all) = OnlyMatch name r all
Finds name r (err _) (err _) = ⊥

module _ (P : Platform) where
  open P use {State, repositories}

  choose_iff :
      (name namespace : String) (r : Repository) (xs : List Repository) (w : World State)
      → ((choose P name namespace xs w).0 ≡ ok r) ↔ (xs ≡ r ∷ [])
  unfolding choose
  choose_iff name namespace r [] w = (λ e. cc, λ e. cc)
  choose_iff name namespace r (x ∷ []) w = (λ e. cc, λ e. cc)
  choose_iff name namespace r (x ∷ y ∷ xs) w = (λ e. cc, λ e. cc)

  chosen_iff :
      (name namespace : String) (r : Repository) (e : Error) (all : Result (List Repository))
      → (w : World State)
      → ((continue
            (wrap_result "listing KopiaRepositories" all)
            (λ items. choose P name namespace (named name items))
            w).0
          ≡ ok r)
        ↔ Finds name r (err e) all
  chosen_iff name namespace r e (ok xs) w =
      ground (arith, choose_iff name namespace r (named name xs) w, filter-eq-one name r xs)
  chosen_iff name namespace r e (err _) w = (λ x. cc, λ x. absurd x)

  or_search_iff :
      (name namespace : String) (r : Repository) (local : Result Repository) (w : World State)
      → ((or_search P name namespace local w).0 ≡ ok r)
        ↔ Finds name r local (repositories.list everything w.api).0
  unfolding or_search
  or_search_iff name namespace r (ok x) w = (λ x. cc, λ x. cc)
  or_search_iff name namespace r (err e) w =
      chosen_iff name namespace r e (repositories.list everything w.api).0 _

  -- The search returns a repository exactly when the local request answers with it, or the local
  -- request fails, the list of all repositories arrives, and it is the only one there of that name.
  -- So two repositories of one name in other namespaces are never chosen between.
  pub get_kopia_repository_iff :
      (name namespace : String) (r : Repository) (w : World State)
      → let key : Key = record { name = name; namespace = namespace } in
        let (local, s) = repositories.get key w.api in
        let (all, _) = repositories.list everything s in
        ((get_kopia_repository P name namespace w).0 ≡ ok r) ↔ Finds name r local all
  unfolding get_kopia_repository
  get_kopia_repository_iff name namespace r w = or_search_iff name namespace r _ _
