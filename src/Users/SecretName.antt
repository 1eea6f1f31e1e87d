-- ===== src/Users/SecretName.antt =====
-- The secret that EnsureUser answers and the one that the backup's container reads: manager.go of
-- the user manager and builder.go name it independently.
use kopia_operator.Prelude.{String, ◌≡◌, refl, ap, sym, true, [], ◌∷◌, map, if-both, subst, ◌==◌}
use kopia_operator.Prelude.Lists.{lookup}
use kopia_operator.Error.{is_not_found}
use kopia_operator.Exec.{Result, ok, err, Exec, continue, ◌>>=◌, wrapping, wrap_result, attempt}
use kopia_operator.Kube.Objects.{Secret}
use kopia_operator.Kube.Pods.{EnvFromSource}
use kopia_operator.Api.Backup.{Backup}
use kopia_operator.Api.Repository.{Repository}
use kopia_operator.Platform.{Platform}
use kopia_operator.World.{World, create, core_secret, write, call}
use kopia_operator.Controller.{get_or_empty}
use kopia_operator.Naming.{user_secret_name, username}
use kopia_operator.Builder.Modes.{build_server_mode_config}
use kopia_operator.Builder.Job.{container_config, base_config}
use kopia_operator.Users.Server.{Host, create_user_on_server}
use kopia_operator.Users.Password.{generate_secure_password}
use kopia_operator.Users.Manager.{
  user_synced_annotation, credentials_fingerprint, new_secret, after_first_sync, create_user_secret,
  after_sync, sync_if_changed, require_key, sync_user_secret, with_secret, secret_key, ensure_user,
}

abbrev Answers : String → Result String → Type 0
Answers name (ok answer) = answer ≡ name
Answers name (err e) = Unit

-- A success answers the name.
record Names {W : Type 0} (name : String) (x : Exec W String) : Type 0 where
  by_name : (w : W) → Answers name (x w).0

after_continue :
    {W A : Type 0} (name : String) (r : Result A) (f : A → Exec W String) (w : W)
    → ((a : A) → Names name (f a))
    → Answers name (continue r f w).0
after_continue name (ok a) f w h = (h a).by_name w
after_continue name (err e) f w h = tt

after_bind :
    {W A : Type 0} (name : String) (x : Exec W A) (f : A → Exec W String)
    → ((a : A) → Names name (f a))
    → Names name (x >>= f)
after_bind name x f h = record { by_name = λ w. after_continue name (x w).0 f (x w).1 h }

module _ (P : Platform) (H : Host P) where
  open P use {State, secrets}

  first_sync :
      (secret : Secret) (name user password : String) (r : Result (Unit {0}))
      → Names name (after_first_sync P H secret name user password r)
  unfolding after_first_sync
  first_sync secret name user password (ok _) = record { by_name = λ w. refl }
  first_sync secret name user password (err e) = record { by_name = λ w. tt }

  creates :
      (b : Backup) (repo : Repository) (name user : String)
      → Names name (create_user_secret P H b repo name user)
  unfolding create_user_secret
  creates b repo name user =
      after_bind name (wrapping "failed to generate password" (generate_secure_password H.rand)) _
        (λ password.
          let secret = new_secret P H b name user password in
          after_bind name
            (λ w. (
              wrap_result "failed to set controller reference on user secret"
                  (P.set_controller_reference "KopiaBackup" b.metadata secret.metadata),
              w,
            ))
            _
            (λ metadata.
              after_bind name
                (wrapping "failed to create user credentials secret" (
                  write create core_secret metadata
                    (secrets.create (record secret { metadata = metadata }))))
                _
                (λ stored.
                  after_bind name (attempt (create_user_on_server P H repo user password)) _
                    (λ answer. first_sync stored name user password answer))))

  syncs_again :
      (secret : Secret) (name user password : String) (r : Result (Unit {0}))
      → Names name (after_sync P H secret name user password r)
  unfolding after_sync
  syncs_again secret name user password (ok _) = record { by_name = λ w. refl }
  syncs_again secret name user password (err e) = record { by_name = λ w. tt }

  syncs :
      (repo : Repository) (name : String) (secret : Secret) (user password : String)
      → Names name (sync_if_changed P H repo name secret user password)
  unfolding sync_if_changed
  syncs repo name secret user password =
      if-both (Names name)
        (get_or_empty user_synced_annotation secret.metadata.annotations
          == credentials_fingerprint P H user password)
        (record { by_name = λ w. refl })
        (after_bind name (attempt (create_user_on_server P H repo user password)) _
          (λ answer. syncs_again secret name user password answer))

  syncs_secret :
      (repo : Repository) (name : String) (secret : Secret)
      → Names name (sync_user_secret P H repo name secret)
  unfolding sync_user_secret
  syncs_secret repo name secret =
      after_bind name
        (require_key P H name "KOPIA_SERVER_USERNAME"
          (lookup "KOPIA_SERVER_USERNAME" secret.contents))
        _
        (λ user.
          after_bind name
            (require_key P H name "KOPIA_SERVER_PASSWORD"
              (lookup "KOPIA_SERVER_PASSWORD" secret.contents))
            _ (λ password. syncs repo name secret user password))

  with_either :
      (b : Backup) (repo : Repository) (name user : String) (found : Result Secret)
      → Names name (with_secret P H b repo name user found)
  unfolding with_secret
  with_either b repo name user (ok secret) = syncs_secret repo name secret
  with_either b repo name user (err e) =
      if-both (Names name) (is_not_found e) (creates b repo name user)
        (record { by_name = λ w. tt })

  answers :
      (b : Backup) (repo : Repository)
      → Names (user_secret_name b.metadata.namespace b.spec.pvc_name) (ensure_user P H b repo)
  unfolding ensure_user
  answers b repo =
      let user = username b.metadata.namespace b.spec.pvc_name repo.spec.hostname in
      after_bind (secret_key P H b).name (attempt (call (secrets.get (secret_key P H b)))) _
        (λ found. with_either b repo (secret_key P H b).name user found)

  -- Whenever EnsureUser succeeds, the secret that it answers is the one, and the only one, that the
  -- container of the backup takes its environment from in server mode.
  pub ensure_user-container_config :
      (b : Backup) (repo : Repository) (path name : String) (w w' : World State)
      → ensure_user P H b repo w ≡ (ok name, w')
      → repo.spec.server.enabled ≡ true
      → map (λ (s : EnvFromSource). s.secret_ref) (container_config b repo path).env_from
        ≡ name ∷ []
  unfolding container_config build_server_mode_config base_config
  ensure_user-container_config b repo path name w w' succeeds enabled =
      let named : Answers (user_secret_name b.metadata.namespace b.spec.pvc_name) (ok name) =
        subst (λ x. Answers (user_secret_name b.metadata.namespace b.spec.pvc_name) x.0) succeeds
          ((answers b repo).by_name w) in
      rw enabled (ap (λ n. n ∷ []) (sym named))
