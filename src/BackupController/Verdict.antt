-- ===== src/BackupController/Verdict.antt =====
-- What a whole reconcile (from the validation of the references to the final status) says of a backup.
use kopia_operator.Prelude.{
  String, ◌≡◌, ◌⊎◌, refl, true, false, not, ◌&&◌, inl, inr, Bool-cases, if-both, if-cases, Option,
  none, some, ◌==◌,
}
use kopia_operator.Error.{Error, is_server_not_ready}
use kopia_operator.Exec.{Result, ok, err}
use kopia_operator.Kube.Meta.{condition_true, condition_false}
use kopia_operator.Kube.Objects.{Pvc}
use kopia_operator.Api.Backup.{Backup}
use kopia_operator.Api.Repository.{Repository, storage_type_filesystem}
use kopia_operator.Platform.{Platform}
use kopia_operator.Platform.Laws.{IsConditionSetter}
use kopia_operator.World.{World}
use kopia_operator.Controller.{Outcome}
use kopia_operator.Interfaces.{ServerManager, UserManager}
use kopia_operator.Lookup.{get_kopia_repository}
use kopia_operator.BackupController.Setup.{Reconciler}
use kopia_operator.BackupController.Dependencies.{
  get_related_pvc, with_repository, with_pvc, validate_dependencies,
}
use kopia_operator.BackupController.Credentials.{
  Phase, go_on, stop, requeue_delay, after_persist, after_ensure_user, server_credentials,
  reconcile_server_credentials,
}
use kopia_operator.BackupController.Resources.{reconcile_config_map, reconcile_backup_resources}
use kopia_operator.BackupController.Reconcile.{
  after_config_map, phase_4, after_credentials, phase_3, after_validation, body,
}
use kopia_operator.BackupController.Ready.{
  ready_status, IsSettled, reconcile_backup_resources-IsSettled,
}

-- Ready is false, or it is true and the backup has a node and is not suspended.
abbrev pub IsJudged : Outcome Backup → Type 0
IsJudged o =
    (ready_status o.object ≡ some condition_false)
    ⊎ ((ready_status o.object ≡ some condition_true)
        × ((o.object.status.node_name == "") ≡ false)
        × (o.object.spec.suspend ≡ false))

-- EnsureUser answered that the server is not ready.
abbrev pub NotReady : {W : Type 0} → UserManager W → Backup → Repository → W → Type 0
NotReady users b repo w =
    (e : Error) × ((users.ensure_user b repo w).0 ≡ err e) × (is_server_not_ready e ≡ true)

-- The same with a user manager that may be missing, for a repository in server mode.
abbrev pub IsUnready : {W : Type 0} → Option (UserManager W) → Backup → Repository → W → Type 0
IsUnready none b repo w = ⊥
IsUnready (some users) b repo w = (repo.spec.server.enabled ≡ true) × NotReady users b repo w

abbrev pub MayWait : {W : Type 0} → Option (UserManager W) → Backup → Option Repository → W → Type 0
MayWait users b none w = ⊥
MayWait users b (some repo) w = IsUnready users b repo w

-- The reconcile waits, for the reason W, or Ready is decided.
abbrev pub IsSound : Type 0 → Outcome Backup → Type 0
IsSound W o = (W × (o.result ≡ requeue_delay)) ⊎ IsJudged o

abbrev IsSoundUnlessError {ℓ} : {A : Type ℓ} → Type 0 → Outcome Backup × A → Type 0
IsSoundUnlessError W (o, _) = o.error ≡ none → IsSound W o

settled-IsJudged : (node : String) (o : Outcome Backup) → IsSettled node o → IsJudged o
settled-IsJudged node o (ready, same, _) = elim (Bool-cases (node == "")) [
  | inl e ↦ inl (rw e at ready)
  | inr e ↦ elim (Bool-cases o.object.spec.suspend) [
    | inl s ↦ inl (rw (e, s) at ready)
    | inr s ↦ inr (rw (e, s) at ready, rw same e, s)
  ]
]

some_is_not_none : {e : Error} → some e ≡ none → ⊥
some_is_not_none h = cc

-- A phase that stops with no error waits for the reason W.
abbrev IsWaiting : Type 0 → Phase → Type 0
IsWaiting W (go_on _) = Unit
IsWaiting W (stop o) = o.error ≡ none → W × (o.result ≡ requeue_delay)

-- A backup without its repository is not ready.
abbrev IsRejected : Backup → Option Repository → Type 0
IsRejected b none = ready_status b ≡ some condition_false
IsRejected b (some _) = Unit

module _ (P : Platform) (L : IsConditionSetter P) where
  open P use {State}

  resources :
      (W : Type 0) (r : Reconciler P) (b : Backup) (repo : Repository) (w : World State)
      → IsSoundUnlessError W (reconcile_backup_resources P r b repo w)
  resources W r b repo w h = inr (
      settled-IsJudged _ (reconcile_backup_resources P r b repo w).0
        (reconcile_backup_resources-IsSettled P L r b repo w h))

  config_map :
      (W : Type 0) (r : Reconciler P) (b : Backup) (repo : Repository) (answer : Result (Unit {0}))
      (w : World State)
      → IsSoundUnlessError W (after_config_map P r b repo answer w)
  unfolding after_config_map
  config_map W r b repo (err e) w h = absurd (some_is_not_none h)
  config_map W r b repo (ok _) w h = resources W r b repo w h

  from_phase_4 :
      (W : Type 0) (r : Reconciler P) (b : Backup) (repo : Repository) (w : World State)
      → IsSoundUnlessError W (phase_4 P r b repo w)
  unfolding phase_4
  from_phase_4 W r b repo w =
      let (answer, w') = reconcile_config_map P r b repo w in
      if-both (IsSoundUnlessError W)
        (not repo.spec.server.enabled && repo.spec.storage_type == storage_type_filesystem)
        (config_map W r b repo answer w') (resources W r b repo w)

  waits_persist :
      (W : Type 0) (m : ServerManager (World State)) (b : Backup) (repo : Repository)
      (answer : Result Backup) (w : World State)
      → IsWaiting W (after_persist P m b repo answer w).0
  unfolding after_persist
  waits_persist W m b repo (ok stored) w = tt
  waits_persist W m b repo (err e) w = λ h. absurd (some_is_not_none h)

  waits_ensure :
      (W : Type 0) (m : ServerManager (World State)) (b : Backup) (repo : Repository)
      (answer : Result String) (w : World State)
      → ((e : Error) → answer ≡ err e → is_server_not_ready e ≡ true → W)
      → IsWaiting W (after_ensure_user P m b repo answer w).0
  unfolding after_ensure_user
  waits_ensure W m b repo (err e) w reason = elim (Bool-cases (is_server_not_ready e)) [
    | inl h ↦ rw (h, after_ensure_user) (λ _. (reason e refl h, refl))
    | inr h ↦ rw (h, after_ensure_user) (λ k. absurd (some_is_not_none k))
  ]
  waits_ensure W m b repo (ok name) w reason =
      if-both (λ (phase, _). IsWaiting W phase) (b.spec.user_credentials_secret == name) tt
        (waits_persist W m _ repo _ _)

  waits :
      (m : ServerManager (World State)) (users : Option (UserManager (World State))) (b : Backup)
      (repo : Repository) (w : World State)
      → repo.spec.server.enabled ≡ true
      → IsWaiting (IsUnready users b repo w) (server_credentials P m users b repo w).0
  unfolding server_credentials
  waits m none b repo w on = λ h. absurd (some_is_not_none h)
  waits m (some users) b repo w on =
      let (name, w') = users.ensure_user b repo w in
      waits_ensure (IsUnready (some users) b repo w) m b repo name w'
        (λ e failed unready. (on, (e, failed, unready)))

  credentials :
      (W : Type 0) (r : Reconciler P) (repo : Repository) (phase : Phase) (w : World State)
      → IsWaiting W phase
      → IsSoundUnlessError W (after_credentials P r repo phase w)
  unfolding after_credentials
  credentials W r repo (go_on b) w h = from_phase_4 W r b repo w
  credentials W r repo (stop o) w h = λ e. inl (h e)

  from_phase_3 :
      (r : Reconciler P) (b : Backup) (repo : Repository) (w : World State)
      → IsSoundUnlessError (IsUnready r.user_manager b repo w) (phase_3 P r b repo w)
  unfolding phase_3 reconcile_server_credentials
  from_phase_3 r b repo w =
      let W = IsUnready r.user_manager b repo w in
      let (phase, w') = server_credentials P r.server_manager r.user_manager b repo w in
      if-cases (IsSoundUnlessError W) repo.spec.server.enabled
        (λ on. credentials W r repo phase w' (waits r.server_manager r.user_manager b repo w on))
        (λ _. from_phase_4 W r b repo w)

  rejects_repository :
      (b : Backup) (found : Result Repository) (w : World State)
      → let (b', repo) = (with_repository P b found w).0 in IsRejected b' repo
  unfolding with_repository
  rejects_repository b (ok repo) w = tt
  rejects_repository b (err e) w = rw L.find-set

  rejects_pvc :
      (b : Backup) (pvc : Result Pvc) (w : World State)
      → let (b', repo) = (with_pvc P b pvc w).0 in IsRejected b' repo
  unfolding with_pvc
  rejects_pvc b (err e) w = rw L.find-set
  rejects_pvc b (ok pvc) w =
      let (repo, w') = get_kopia_repository P b.spec.repository b.metadata.namespace w in
      rejects_repository b repo w'

  rejects :
      (b : Backup) (w : World State)
      → let (b', repo) = (validate_dependencies P b w).0 in IsRejected b' repo
  unfolding validate_dependencies
  rejects b w = let (pvc, w') = get_related_pvc P b w in rejects_pvc b pvc w'

  validation :
      (r : Reconciler P) (b : Backup) (repo : Option Repository) (w : World State)
      → IsRejected b repo
      → IsSoundUnlessError (MayWait r.user_manager b repo w) (after_validation P r b repo w)
  unfolding after_validation
  validation r b none w h = λ _. inr (inl h)
  validation r b (some repo) w h = from_phase_3 r b repo w

  -- A reconcile that ends with no error either asks for another one, and then the repository was found
  -- and is in server mode, and EnsureUser answered for it that the server is not ready; or it sets the
  -- Ready condition, which is true only of a backup with a node that is not suspended.
  pub body-IsSound :
      (r : Reconciler P) (b : Backup) (w : World State)
      → (body P r b w).0.error ≡ none
      → let ((b', found), w') = validate_dependencies P b w in
        IsSound (MayWait r.user_manager b' found w') (body P r b w).0
  unfolding body
  body-IsSound r b w =
      let (checked, w') = validate_dependencies P b w in
      validation r checked.0 checked.1 w' (rejects b w)
