-- ===== src/Lookup.antt =====
-- getKopiaRepository, which both controllers have in the same words.
pub mod Unique
pub mod Reads
pub mod Answers
use kopia_operator.Prelude.{ℕ, String, ◌<>◌, List, [], ◌∷◌, ◌==◌}
use kopia_operator.Prelude.Lists.{filter, length}
use kopia_operator.Prelude.Decimal.{decimal}
use kopia_operator.Prelude.Quote.{quote}
use kopia_operator.Error.{Error, plain, wrap}
use kopia_operator.Exec.{Result, ok, err, Exec, ◌>>=◌, pure, raise, wrapping, attempt}
use kopia_operator.Kube.Meta.{Key}
use kopia_operator.Api.Repository.{Repository}
use kopia_operator.Platform.{Platform, everything}
use kopia_operator.World.{World, call}

module _ (P : Platform) where
  open P use {State, repositories}

  -- The switch on the number of matches.
  unfoldable pub choose : String → String → List Repository → Exec (World State) Repository
  choose name namespace [] = raise (
      plain (
        "KopiaRepository "
        <> (quote name <> (" not found in namespace " <> (quote namespace <> " or cluster-wide")))))
  choose name namespace (m ∷ []) = pure m
  choose name namespace (m ∷ n ∷ rest) = raise (
      plain (
        "ambiguous: found "
        <> (decimal (length (m ∷ n ∷ rest))
            <> (" KopiaRepositories named " <> (quote name <> " across namespaces")))))

  or_search : String → String → Result Repository → Exec (World State) Repository
  unfolding choose
  or_search name namespace (ok repo) = pure repo
  or_search name namespace (err _) = do
    items ← wrapping "listing KopiaRepositories" (call (repositories.list everything))
    choose name namespace (filter (λ r. r.metadata.name == name) items)

  unfoldable pub get_kopia_repository : String → String → Exec (World State) Repository
  unfolding or_search
  get_kopia_repository name namespace = do
    found ← attempt (call (repositories.get (record { name = name; namespace = namespace })))
    or_search name namespace found
