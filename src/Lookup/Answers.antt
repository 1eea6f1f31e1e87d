-- ===== src/Lookup/Answers.antt =====
-- What the answer of the search depends on.
use kopia_operator.Prelude.{String, ◌≡◌, refl, List, [], ◌∷◌, ◌==◌}
use kopia_operator.Prelude.Lists.{filter}
use kopia_operator.Exec.{Result, ok, err, continue, wrap_result}
use kopia_operator.Kube.Meta.{Key}
use kopia_operator.Api.Repository.{Repository}
use kopia_operator.Platform.{Platform, everything}
use kopia_operator.World.{World}
use kopia_operator.Lookup.{choose, or_search, get_kopia_repository}

module _ (P : Platform) where
  open P use {State, repositories}

  choose_world :
      (name namespace : String) (xs : List Repository) (v w : World State)
      → (choose P name namespace xs v).0 ≡ (choose P name namespace xs w).0
  unfolding choose
  choose_world name namespace [] v w = refl
  choose_world name namespace (x ∷ []) v w = refl
  choose_world name namespace (x ∷ y ∷ xs) v w = refl

  chosen_world :
      (name namespace : String) (f : List Repository → List Repository)
      (all : Result (List Repository)) (v w : World State)
      → (continue
          (wrap_result "listing KopiaRepositories" all)
          (λ items. choose P name namespace (f items))
          v).0
        ≡ (continue
            (wrap_result "listing KopiaRepositories" all)
            (λ items. choose P name namespace (f items))
            w).0
  chosen_world name namespace f (ok xs) v w = choose_world name namespace (f xs) v w
  chosen_world name namespace f (err e) v w = refl

  or_search_world :
      (name namespace : String) (local : Result Repository) (v w : World State)
      → (repositories.list everything v.api).0 ≡ (repositories.list everything w.api).0
      → (or_search P name namespace local v).0 ≡ (or_search P name namespace local w).0
  unfolding or_search
  or_search_world name namespace (ok x) v w h = refl
  or_search_world name namespace (err e) v w h = rw h (
      let (all, s) = repositories.list everything w.api in
      chosen_world name namespace (filter (λ r. r.metadata.name == name)) all
        (record v { api = (repositories.list everything v.api).1 }) (record w { api = s }))

  module _ (get_read : (k : Key) (s : State) → (repositories.get k s).1 ≡ s) where
    -- In two worlds that answer the two requests alike, the search has one answer.
    pub get_kopia_repository_world :
        (name namespace : String) (v w : World State)
        → (repositories.get (record { name = name; namespace = namespace }) v.api).0
          ≡ (repositories.get (record { name = name; namespace = namespace }) w.api).0
        → (repositories.list everything v.api).0 ≡ (repositories.list everything w.api).0
        → (get_kopia_repository P name namespace v).0 ≡ (get_kopia_repository P name namespace w).0
    unfolding get_kopia_repository
    get_kopia_repository_world name namespace v w g l = rw g (
        or_search_world name namespace
          (repositories.get (record { name = name; namespace = namespace }) w.api).0
          (record v { api = _ }) (record w { api = _ }) (rw (get_read, get_read) l))

  module _ (get_read : (k : Key) (s : State) → (repositories.get k s).1 ≡ s)
      (list_read : (s : State) → (repositories.list everything s).1 ≡ s) where
    api-choose :
        (name namespace : String) (xs : List Repository) (w : World State)
        → (choose P name namespace xs w).1 ≡ w
    unfolding choose
    api-choose name namespace [] w = refl
    api-choose name namespace (x ∷ []) w = refl
    api-choose name namespace (x ∷ y ∷ xs) w = refl

    api-chosen :
        (name namespace : String) (f : List Repository → List Repository)
        (all : Result (List Repository)) (w : World State)
        → (continue
            (wrap_result "listing KopiaRepositories" all)
            (λ items. choose P name namespace (f items))
            w).1
          ≡ w
    api-chosen name namespace f (ok xs) w = api-choose name namespace (f xs) w
    api-chosen name namespace f (err e) w = refl

    api-or_search :
        (name namespace : String) (local : Result Repository) (w : World State)
        → (or_search P name namespace local w).1.api ≡ w.api
    unfolding or_search
    api-or_search name namespace (ok x) w = refl
    api-or_search name namespace (err e) w =
        let (all, s) = repositories.list everything w.api in
        rw
          (api-chosen name namespace (filter (λ r. r.metadata.name == name)) all
            (record w { api = s }))
          (list_read w.api)

    -- Where reading changes nothing, the search does not either.
    pub api-get_kopia_repository :
        (name namespace : String) (w : World State)
        → (get_kopia_repository P name namespace w).1.api ≡ w.api
    unfolding get_kopia_repository
    api-get_kopia_repository name namespace w =
        rw (api-or_search name namespace _ _) (get_read _ w.api)
