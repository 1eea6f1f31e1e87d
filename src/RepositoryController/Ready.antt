-- ===== src/RepositoryController/Ready.antt =====
-- When a repository is ready.
use kopia_operator.Prelude.{
  inl, inr, Bool-cases, String, ◌≡◌, Bool, true, false, not, ◌&&◌, ◌||◌, Option, none, some, arith,
  ◌==◌, if◌then◌else◌,
}
use kopia_operator.Exec.{Result, ok, err}
use kopia_operator.Kube.Meta.{ConditionStatus, condition_true, condition_false}
use kopia_operator.Api.Repository.{Repository, condition_type_repository_ready}
use kopia_operator.Platform.{Platform}
use kopia_operator.Platform.Laws.{status_of, IsConditionSetter}
use kopia_operator.World.{World}
use kopia_operator.Controller.{Outcome}
use kopia_operator.Interfaces.{ServerManager}
use kopia_operator.RepositoryController.{
  or_false, fingerprinted, all_checks_passed, after_readiness, after_service, after_deployment,
  after_tls, server_mode, body, set_condition,
}

abbrev pub status_when : Bool → ConditionStatus
status_when true = condition_true
status_when false = condition_false

abbrev pub ready_status : Repository → Option ConditionStatus
ready_status repo = status_of condition_type_repository_ready repo.status.conditions

-- The answer of IsServerReady after the four calls of the server mode, in their order and each in
-- the world that the one before left; a failed answer counts as not ready.
abbrev fingerprint_of : Result String → String
fingerprint_of (ok fingerprint) = fingerprint
fingerprint_of (err _) = ""

abbrev pub server_answer : {S : Type 0} → ServerManager (World S) → Repository → World S → Bool
server_answer m repo w =
    let (tls, w1) = m.ensure_tls_secret repo w in
    let repo' = fingerprinted repo (fingerprint_of tls) in
    let (_, w2) = m.ensure_server_deployment repo' w1 in
    let (_, w3) = m.ensure_server_service repo' w2 in
    let (answer, _) = m.is_server_ready repo' w3 in or_false answer

abbrev pub server_is_ready :
    {S : Type 0} → Option (ServerManager (World S)) → Repository → World S → Bool
server_is_ready none repo w = false
server_is_ready (some m) repo w = server_answer m repo w

module _ (P : Platform) (L : IsConditionSetter P) where
  open P use {State}

  status-set_condition :
      (repo : Repository) (type t : String) (s : ConditionStatus) (reason message : String)
      → status_of t (set_condition P repo type s reason message).status.conditions
        ≡ (if type == t then some s else status_of t repo.status.conditions)
  status-set_condition repo type t s reason message = rw L.find-set (ground arith)

  -- Every stage of the server mode: with no error, Ready is as the server answered.
  abbrev Follows : Bool → Outcome Repository → Type 0
  Follows b o = o.error ≡ none → ready_status o.object ≡ some (status_when b)

  Follows-after_readiness :
      (m : ServerManager (World State)) (repo : Repository) (ready : Bool) (w : World State)
      → Follows ready (after_readiness P m repo ready w).0
  unfolding after_readiness all_checks_passed
  Follows-after_readiness m repo true w h = rw L.find-set
  Follows-after_readiness m repo false w h = rw L.find-set

  Follows-after_service :
      (m : ServerManager (World State)) (repo : Repository) (r : Result (Unit {0}))
      (w : World State)
      → Follows (or_false (m.is_server_ready repo w).0) (after_service P m repo r w).0
  unfolding after_service
  Follows-after_service m repo (err e) w h = cc
  Follows-after_service m repo (ok _) w h =
      let (ready, w') = m.is_server_ready repo w in
      Follows-after_readiness m repo (or_false ready) w' h

  Follows-after_deployment :
      (m : ServerManager (World State)) (repo : Repository) (r : Result (Unit {0}))
      (w : World State)
      → let (service, w') = m.ensure_server_service repo w in
        Follows (or_false (m.is_server_ready repo w').0) (after_deployment P m repo r w).0
  unfolding after_deployment
  Follows-after_deployment m repo (err e) w h = cc
  Follows-after_deployment m repo (ok _) w h =
      let (service, w') = m.ensure_server_service repo w in
      Follows-after_service m repo service w' h

  Follows-after_tls :
      (m : ServerManager (World State)) (repo : Repository) (r : Result String) (w : World State)
      → let repo' = fingerprinted repo (fingerprint_of r) in
        let (deployment, w') = m.ensure_server_deployment repo' w in
        let (service, w'') = m.ensure_server_service repo' w' in
        Follows (or_false (m.is_server_ready repo' w'').0) (after_tls P m repo r w).0
  unfolding after_tls
  Follows-after_tls m repo (err e) w h = cc
  Follows-after_tls m repo (ok fingerprint) w h =
      let repo' = fingerprinted repo fingerprint in
      let (deployment, w') = m.ensure_server_deployment repo' w in
      Follows-after_deployment m repo' deployment w' h

  Follows-server_mode :
      (manager : Option (ServerManager (World State))) (repo : Repository) (w : World State)
      → Follows (server_is_ready manager repo w) (server_mode P manager repo w).0
  unfolding server_mode
  Follows-server_mode none repo w h = cc
  Follows-server_mode (some m) repo w h =
      let (tls, w') = m.ensure_tls_secret repo w in Follows-after_tls m repo tls w' h

  -- When a reconcile ends with no error, the Ready condition of the repository is set, and it is true
  -- exactly when a password secret is named and the server mode is off or IsServerReady answered true,
  -- asked after the certificate, the Deployment and the Service were ensured; a failure of
  -- IsServerReady counts as false.
  pub body-ready :
      (manager : Option (ServerManager (World State))) (repo : Repository) (w : World State)
      → (body P manager repo w).0.error ≡ none
      → ready_status (body P manager repo w).0.object
        ≡ some (
            status_when (
              not (repo.spec.password_secret_name == "")
              && (not repo.spec.server.enabled || server_is_ready manager repo w)))
  unfolding body
  body-ready manager repo w h = elim (Bool-cases (repo.spec.password_secret_name == "")) [
    | inl e ↦ rw (e, body) (rw L.find-set)
    | inr e ↦ elim (Bool-cases repo.spec.server.enabled) [
      | inl on ↦ simp (e, on, body) (Follows-server_mode manager repo w (simp (e, on, body) at h))
      | inr off ↦ simp (e, off, body) (rw L.find-set)
    ]
  ]
