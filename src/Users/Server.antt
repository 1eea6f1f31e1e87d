-- ===== src/Users/Server.antt =====
-- The part of KopiaUserManager that runs commands in the server's pod. The pod executor, the
-- random source and SHA-256 are parameters.
use Prim.Native.Nat.{ℕ}
use mathlib.Core.List.{List, [], ◌∷◌}
use text.Mathlib.Text.{find?}
use kopia_operator.Prelude.{
  String, ◌<>◌, Bool, true, false, none, some, ◌||◌, ◌&&◌, ◌==◌, if◌then◌else◌,
}
use kopia_operator.Prelude.Lists.{any}
use kopia_operator.Error.{wrap, server_not_ready, error_text}
use kopia_operator.Exec.{Result, ok, err, Exec, ◌>>=◌, ◌>>◌, pure, raise, wrapping, attempt}
use kopia_operator.Kube.Pods.{Pod, ContainerStatus, pod_running}
use kopia_operator.Api.Repository.{Repository}
use kopia_operator.Platform.{Platform, ListOptions}
use kopia_operator.World.{World, call}
use kopia_operator.Naming.{server_labels}
use kopia_operator.Users.Commands.{build_create_user_command, build_delete_user_command}

-- strings.Contains
abbrev contains : String → String → Bool
contains s t = elim (find? s t) [ none ↦ false | some _ ↦ true ]

-- A pod that runs and whose container kopia-server is ready.
unfoldable pub is_serving : Pod → Bool
is_serving pod =
    pod.phase == pod_running
    && any (λ (cs : ContainerStatus). cs.name == "kopia-server" && cs.ready) pod.container_statuses

-- What the user manager needs of its surroundings.
pub record Host (P : Platform) : Type 0 where
  -- podExecutor: namespace, pod, container and command; the two outputs
  pub pod_executor : String → String → String → List String → Exec (World P.State) (String × String)
  -- rand.Read
  pub rand : ℕ → Exec (World P.State) (List ℕ)
  -- sha256.Sum256 of a text's bytes
  pub sha256 : String → List ℕ

module _ (P : Platform) (H : Host P) where
  open P use {State, secrets, pods, set_controller_reference}
  open H use {pod_executor, rand, sha256}

  -- The loop over the listed pods.
  unfoldable pub first_serving : Repository → List Pod → Result String
  first_serving repo [] = err (
      server_not_ready (
        "kopia-server container not ready yet for repository "
        <> (repo.metadata.name <> (" in namespace " <> repo.metadata.namespace))))
  first_serving repo (pod ∷ rest) =
      if is_serving pod then ok pod.metadata.name else first_serving repo rest

  unfoldable pub choose_pod : Repository → List Pod → Result String
  unfolding first_serving
  choose_pod repo [] = err (
      server_not_ready (
        "no server pod found for repository "
        <> (repo.metadata.name <> (" in namespace " <> repo.metadata.namespace))))
  choose_pod repo (pod ∷ rest) = first_serving repo (pod ∷ rest)

  abbrev pub server_pods : Repository → ListOptions
  server_pods repo = record {
    namespace = some repo.metadata.namespace;
    labels = server_labels repo.metadata.name;
    fields = [];
  }

  unfoldable pub get_server_pod_name : Repository → Exec (World State) String
  unfolding choose_pod
  get_server_pod_name repo = do
    found ← wrapping "failed to list server pods" (call (pods.list (server_pods repo)))
    λ w. (choose_pod repo found, w)

  -- The two texts of an exec that found no container to run in.
  unfoldable pub is_container_missing : String → Bool
  is_container_missing m =
      contains m "container not found" || contains m "unable to upgrade connection"

  unfoldable pub after_create : Result (String × String) → Exec (World State) (Unit {0})
  unfolding is_container_missing
  after_create (ok _) = pure tt
  after_create (err e) =
      if is_container_missing (error_text e)
      then raise (server_not_ready ("kopia-server container not ready yet: " <> error_text e))
      else raise (wrap "failed to execute user creation command" e)

  unfoldable pub create_user_on_server :
      Repository → String → String → Exec (World State) (Unit {0})
  unfolding after_create get_server_pod_name build_create_user_command
  create_user_on_server repo user password = do
    pod ← wrapping "failed to find server pod" (get_server_pod_name repo)
    answer ← attempt (
        pod_executor repo.metadata.namespace pod "kopia-server"
          (build_create_user_command user password repo.status.tls_cert_fingerprint))
    after_create answer

  unfoldable pub delete_user_from_server : Repository → String → Exec (World State) (Unit {0})
  unfolding get_server_pod_name build_delete_user_command
  delete_user_from_server repo user = do
    pod ← wrapping "failed to find server pod" (get_server_pod_name repo)
    wrapping "failed to execute user deletion command"
        (pod_executor repo.metadata.namespace pod "kopia-server" (build_delete_user_command user))
    pure tt
