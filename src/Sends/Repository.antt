-- ===== src/Sends/Repository.antt =====
-- What the repository controller sends.
use kopia_operator.Prelude.{ℕ, ◌+◌, String, Bool, true, false, ◌≡◌, refl, arith, Option, none, some}
use kopia_operator.Error.{Error}
use kopia_operator.Exec.{Result, ok, err}
use kopia_operator.Kube.Meta.{Key}
use kopia_operator.Api.Repository.{Repository}
use kopia_operator.Platform.{Platform}
use kopia_operator.World.{World}
use kopia_operator.World.Trace.{count-append_one}
use kopia_operator.Interfaces.{ServerManager}
use kopia_operator.RepositoryController.{
  all_checks_passed, after_readiness, after_service, after_deployment, after_tls, server_mode, body,
  after_get, reconcile_repository, count_error, reconcile,
}
use kopia_operator.Sends.{tally, one_status}
use kopia_operator.Sends.Servers.{IsQuietServers}

module _ (k : Bool) (P : Platform) where
  open P use {State, repositories}

  tally-all_checks_passed :
      (repo : Repository) (w : World State)
      → tally k (all_checks_passed P repo w).1.trace ≡ tally k w.trace
  unfolding all_checks_passed
  tally-all_checks_passed repo w = refl

  tally-count_error :
      (e : Option Error) (w : World State) → tally k (count_error P e w).trace ≡ tally k w.trace
  tally-count_error none w = refl
  tally-count_error (some e) w = grind (arith, count-append_one)

  module _ (m : ServerManager (World State)) (quiet : IsQuietServers k m) where
    open quiet use {
      ensure_server_deployment, ensure_server_service, ensure_tls_secret, is_server_ready,
    }

    tally-after_readiness :
        (repo : Repository) (ready : Bool) (w : World State)
        → tally k (after_readiness P m repo ready w).1.trace ≡ tally k w.trace
    unfolding after_readiness
    tally-after_readiness repo true w = grind (arith, count-append_one, tally-all_checks_passed)
    tally-after_readiness repo false w = grind (arith, count-append_one)

    tally-after_service :
        (repo : Repository) (answer : Result (Unit {0})) (w : World State)
        → tally k (after_service P m repo answer w).1.trace ≡ tally k w.trace
    unfolding after_service
    tally-after_service repo (err e) w = grind (arith, count-append_one)
    tally-after_service repo (ok _) w = grind (arith, tally-after_readiness, is_server_ready)

    tally-after_deployment :
        (repo : Repository) (answer : Result (Unit {0})) (w : World State)
        → tally k (after_deployment P m repo answer w).1.trace ≡ tally k w.trace
    unfolding after_deployment
    tally-after_deployment repo (err e) w = grind (arith, count-append_one)
    tally-after_deployment repo (ok _) w = grind (arith, tally-after_service, ensure_server_service)

    tally-after_tls :
        (repo : Repository) (answer : Result String) (w : World State)
        → tally k (after_tls P m repo answer w).1.trace ≡ tally k w.trace
    unfolding after_tls
    tally-after_tls repo (err e) w = grind (arith, count-append_one)
    tally-after_tls repo (ok fingerprint) w =
        grind (arith, tally-after_deployment, ensure_server_deployment)

    tally-server_mode :
        (repo : Repository) (w : World State)
        → tally k (server_mode P (some m) repo w).1.trace ≡ tally k w.trace
    unfolding server_mode
    tally-server_mode repo w = grind (arith, tally-after_tls, ensure_tls_secret)

    tally-body :
        (repo : Repository) (w : World State)
        → tally k (body P (some m) repo w).1.trace ≡ tally k w.trace
    unfolding body
    tally-body repo w = grind (arith, tally-server_mode, tally-all_checks_passed)

    -- The status of a repository that is read is updated.
    abbrev pub sent_for : Result Repository → ℕ
    sent_for (err e) = 0
    sent_for (ok repo) = one_status k

    tally-after_get :
        (found : Result Repository) (w : World State)
        → tally k (after_get P (some m) found w).1.trace ≡ tally k w.trace + sent_for found
    unfolding after_get
    tally-after_get (err e) w = omega arith
    tally-after_get (ok repo) w = grind (arith, count-append_one, tally-body)

    tally-reconcile_repository :
        (request : Key) (w : World State)
        → tally k (reconcile_repository P (some m) request w).1.trace
          ≡ tally k w.trace + sent_for (repositories.get request w.api).0
    unfolding reconcile_repository
    tally-reconcile_repository request w = grind (arith, tally-after_get)

    pub tally-reconcile :
        (request : Key) (w : World State)
        → tally k (reconcile P (some m) request w).1.trace
          ≡ tally k w.trace + sent_for (repositories.get request w.api).0
    unfolding reconcile
    tally-reconcile request w = grind (arith, tally-count_error, tally-reconcile_repository)
