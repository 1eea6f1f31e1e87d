-- ===== src/Sends/Users.antt =====
-- What the user manager sends.
use kopia_operator.Prelude.{Bool, ℕ, String, ◌≡◌, refl, List, arith, Option, none, some}
use kopia_operator.Prelude.Lists.{lookup}
use kopia_operator.Exec.{Result, ok, err, Exec, ◌>>=◌}
use kopia_operator.Kube.Objects.{Secret}
use kopia_operator.Api.Backup.{Backup}
use kopia_operator.Api.Repository.{Repository}
use kopia_operator.Platform.{Platform}
use kopia_operator.World.{World}
use kopia_operator.World.Trace.{count-append_one}
use kopia_operator.Interfaces.{UserManager}
use kopia_operator.Users.Password.{generate_secure_password}
use kopia_operator.Users.ExecInPod.{Remote, exec_in_pod, new_host}
use kopia_operator.Users.Server.{
  Host, get_server_pod_name, after_create, create_user_on_server, delete_user_from_server,
}
use kopia_operator.Users.Manager.{
  mark_user_synced, after_first_sync, create_user_secret, after_sync, sync_if_changed,
  sync_user_secret, with_secret, ensure_user, delete_secret, delete_user, user_manager, require_key,
}
use kopia_operator.Sends.{tally}

-- A user manager adds nothing that is counted.
pub record IsQuietUsers (k : Bool) {S : Type 0} (users : UserManager (World S)) : Type 0 where
  pub ensure_user :
      (b : Backup) (repo : Repository) (w : World S)
      → tally k (users.ensure_user b repo w).1.trace ≡ tally k w.trace
  pub delete_user :
      (b : Backup) (repo : Repository) (w : World S)
      → tally k (users.delete_user b repo w).1.trace ≡ tally k w.trace

-- An exec into a pod, and the source of random bytes, are no writes of objects.
pub record IsQuietHost (P : Platform) (H : Host P) : Type 0 where
  pub trace-pod_executor :
      (namespace pod container : String) (command : List String) (w : World P.State)
      → (H.pod_executor namespace pod container command w).1.trace ≡ w.trace
  pub trace-rand : (n : ℕ) (w : World P.State) → (H.rand n w).1.trace ≡ w.trace

-- The host of a new manager is quiet when the stream and the random source are.
module _ (P : Platform) (remote : Remote P) (rand : ℕ → Exec (World P.State) (List ℕ))
    (sha256 : String → List ℕ)
    (trace-stream : (exec : remote.Executor) (timeout : ℕ) (w : World P.State)
      → (remote.stream_with_context exec timeout w).1.trace ≡ w.trace)
    (trace-random : (n : ℕ) (w : World P.State) → (rand n w).1.trace ≡ w.trace) where
  trace-exec_in_pod :
      (clientset : remote.Clientset) (namespace pod container : String) (command : List String)
      (w : World P.State)
      → (exec_in_pod P remote clientset namespace pod container command w).1.trace ≡ w.trace
  unfolding exec_in_pod
  trace-exec_in_pod clientset namespace pod container command w = grind (arith, trace-stream)

  pub new_host-IsQuietHost :
      (clientset : remote.Clientset) → IsQuietHost P (new_host P remote rand sha256 clientset)
  unfolding exec_in_pod
  new_host-IsQuietHost clientset = record {
    trace-pod_executor = trace-exec_in_pod clientset;
    trace-rand = trace-random;
  }

module _ (k : Bool) (P : Platform) (H : Host P) (quiet : IsQuietHost P H) where
  open P use {State, secrets}
  open quiet use {trace-pod_executor, trace-rand}

  trace-get_server_pod_name :
      (repo : Repository) (w : World State) → (get_server_pod_name P H repo w).1.trace ≡ w.trace
  unfolding get_server_pod_name
  trace-get_server_pod_name repo w = ground arith

  trace-create_user_on_server :
      (repo : Repository) (user password : String) (w : World State)
      → (create_user_on_server P H repo user password w).1.trace ≡ w.trace
  unfolding create_user_on_server after_create
  trace-create_user_on_server repo user password w =
      grind (arith, trace-get_server_pod_name, trace-pod_executor)

  trace-delete_user_from_server :
      (repo : Repository) (user : String) (w : World State)
      → (delete_user_from_server P H repo user w).1.trace ≡ w.trace
  unfolding delete_user_from_server
  trace-delete_user_from_server repo user w =
      grind (arith, trace-get_server_pod_name, trace-pod_executor)

  tally-mark_user_synced :
      (secret : Secret) (user password : String) (w : World State)
      → tally k (mark_user_synced P H secret user password w).trace ≡ tally k w.trace
  unfolding mark_user_synced
  tally-mark_user_synced secret user password w = grind (arith, count-append_one)

  tally-after_first_sync :
      (secret : Secret) (name user password : String) (answer : Result (Unit {0})) (w : World State)
      → tally k (after_first_sync P H secret name user password answer w).1.trace ≡ tally k w.trace
  unfolding after_first_sync
  tally-after_first_sync secret name user password (ok _) w =
      tally-mark_user_synced secret user password w
  tally-after_first_sync secret name user password (err e) w = grind (arith, count-append_one)

  trace-generate_secure_password :
      (w : World State) → (generate_secure_password H.rand w).1.trace ≡ w.trace
  unfolding generate_secure_password
  trace-generate_secure_password w = grind (arith, trace-rand)

  tally-create_user_secret :
      (b : Backup) (repo : Repository) (name user : String) (w : World State)
      → tally k (create_user_secret P H b repo name user w).1.trace ≡ tally k w.trace
  unfolding create_user_secret
  tally-create_user_secret b repo name user w = grind (
    arith, count-append_one, tally-after_first_sync, trace-generate_secure_password,
    trace-create_user_on_server,
  )

  tally-after_sync :
      (secret : Secret) (name user password : String) (answer : Result (Unit {0})) (w : World State)
      → tally k (after_sync P H secret name user password answer w).1.trace ≡ tally k w.trace
  unfolding after_sync
  tally-after_sync secret name user password (ok _) w =
      tally-mark_user_synced secret user password w
  tally-after_sync secret name user password (err e) w = refl

  tally-sync_if_changed :
      (repo : Repository) (name : String) (secret : Secret) (user password : String)
      (w : World State)
      → tally k (sync_if_changed P H repo name secret user password w).1.trace ≡ tally k w.trace
  unfolding sync_if_changed
  tally-sync_if_changed repo name secret user password w =
      grind (arith, tally-after_sync, trace-create_user_on_server)

  tally-require_key :
      (name key : String) (found : Option String) (f : String → Exec (World State) String)
      (w : World State)
      → ((v : String) → tally k (f v w).1.trace ≡ tally k w.trace)
      → tally k ((require_key P H name key found >>= f) w).1.trace ≡ tally k w.trace
  tally-require_key name key none f w h = refl
  tally-require_key name key (some v) f w h = h v

  tally-sync_user_secret :
      (repo : Repository) (name : String) (secret : Secret) (w : World State)
      → tally k (sync_user_secret P H repo name secret w).1.trace ≡ tally k w.trace
  unfolding sync_user_secret
  tally-sync_user_secret repo name secret w =
      tally-require_key name "KOPIA_SERVER_USERNAME"
        (lookup "KOPIA_SERVER_USERNAME" secret.contents)
        (λ user.
          (require_key P H name "KOPIA_SERVER_PASSWORD"
              (lookup "KOPIA_SERVER_PASSWORD" secret.contents)
            >>= λ password. sync_if_changed P H repo name secret user password))
        w
        λ user.
          tally-require_key name "KOPIA_SERVER_PASSWORD"
            (lookup "KOPIA_SERVER_PASSWORD" secret.contents)
            (λ password. sync_if_changed P H repo name secret user password) w
            λ password. tally-sync_if_changed repo name secret user password w

  tally-with_secret :
      (b : Backup) (repo : Repository) (name user : String) (found : Result Secret)
      (w : World State)
      → tally k (with_secret P H b repo name user found w).1.trace ≡ tally k w.trace
  unfolding with_secret
  tally-with_secret b repo name user (ok secret) w = tally-sync_user_secret repo name secret w
  tally-with_secret b repo name user (err e) w = grind (arith, tally-create_user_secret)

  tally-ensure_user :
      (b : Backup) (repo : Repository) (w : World State)
      → tally k (ensure_user P H b repo w).1.trace ≡ tally k w.trace
  unfolding ensure_user
  tally-ensure_user b repo w = grind (arith, tally-with_secret)

  tally-delete_secret :
      (found : Result Secret) (w : World State)
      → tally k (delete_secret P H found w).1.trace ≡ tally k w.trace
  unfolding delete_secret
  tally-delete_secret (ok secret) w = grind (arith, count-append_one)
  tally-delete_secret (err e) w = ground arith

  tally-delete_user :
      (b : Backup) (repo : Repository) (w : World State)
      → tally k (delete_user P H b repo w).1.trace ≡ tally k w.trace
  unfolding delete_user
  tally-delete_user b repo w = grind (arith, tally-delete_secret, trace-delete_user_from_server)

  pub user_manager-IsQuietUsers : IsQuietUsers k (user_manager P H)
  user_manager-IsQuietUsers = record {
    ensure_user = tally-ensure_user;
    delete_user = tally-delete_user;
  }
