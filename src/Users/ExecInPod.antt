-- ===== src/Users/ExecInPod.antt =====
-- NewKopiaUserManager and execInPod of internal/kopia/user/manager.go. The remote executor of
-- client-go and the typed clientset are parameters.
use kopia_operator.Prelude.{ℕ, String, Bool, true, false, List, ◌==◌, ◌&&◌, if◌then◌else◌}
use Prim.Native.String as T
use kopia_operator.Prelude.Space.{is_space}
use kopia_operator.Error.{wrap}
use kopia_operator.Exec.{Result, ok, err, Exec, ◌>>=◌, pure, wrapping}
use kopia_operator.Platform.{Platform}
use kopia_operator.World.{World}
use kopia_operator.Users.Server.{Host}

abbrev pub exec_timeout : ℕ
exec_timeout = 30

-- corev1.PodExecOptions
pub record PodExecOptions : Type 0 where
  pub container : String
  pub command : List String
  pub stdin : Bool
  pub stdout : Bool
  pub stderr : Bool
  pub tty : Bool

-- The request of a REST client: the verb, what it names, and its parameters.
pub record ExecRequest : Type 0 where
  pub verb : String
  pub resource : String
  pub name : String
  pub namespace : String
  pub sub_resource : String
  pub options : PodExecOptions

-- What the user manager calls of client-go, with the manager's REST configuration.
pub record Remote (P : Platform) : Type 1 where
  pub Executor : Type 0
  pub Clientset : Type 0
  -- kubernetes.NewForConfig
  pub new_for_config : Result Clientset
  -- remotecommand.NewSPDYExecutor, for a method and the URL of a request
  pub new_spdy_executor : Clientset → String → ExecRequest → Result Executor
  -- StreamWithContext under a deadline in seconds, and what it has written to the two buffers
  pub stream_with_context : Executor → ℕ → Exec (World P.State) (String × String)

abbrev drop_space : String → String
drop_space T.[] = T.[]
drop_space (T.◌∷◌ c s) = let rest = drop_space s in if is_space c then rest else T.◌∷◌ c s

abbrev drop_space_at_end : String → String
drop_space_at_end T.[] = T.[]
drop_space_at_end (T.◌∷◌ c s) =
    let rest = drop_space_at_end s in if is_space c && rest == "" then T.[] else T.◌∷◌ c rest

-- strings.TrimSpace
abbrev pub trim_space : String → String
trim_space s = drop_space_at_end (drop_space s)

abbrev pub exec_request : String → String → String → List String → ExecRequest
exec_request namespace pod_name container_name cmd = record {
  verb = "POST";
  resource = "pods";
  name = pod_name;
  namespace = namespace;
  sub_resource = "exec";
  options = record {
    container = container_name;
    command = cmd;
    stdin = false;
    stdout = true;
    stderr = true;
    tty = false;
  };
}

module _ (P : Platform) (remote : Remote P) where
  open P use {State}
  open remote use {Clientset, new_for_config, new_spdy_executor, stream_with_context}

  -- The outputs that come with an error are only logged, and left out.
  unfoldable pub exec_in_pod :
      Clientset → String → String → String → List String → Exec (World State) (String × String)
  exec_in_pod clientset namespace pod_name container_name cmd = do
    exec ← wrapping "failed to create executor" (λ w. (
      new_spdy_executor clientset "POST" (exec_request namespace pod_name container_name cmd),
      w,
    ))
    (stdout, stderr) ← stream_with_context exec exec_timeout
    pure (trim_space stdout, trim_space stderr)

  module _ (rand : ℕ → Exec (World State) (List ℕ)) (sha256 : String → List ℕ) where
    -- The new manager's executor is execInPod; the random source and SHA-256 are package functions.
    abbrev pub new_host : Clientset → Host P
    unfolding exec_in_pod
    new_host clientset = record {
      pod_executor = exec_in_pod clientset;
      rand = rand;
      sha256 = sha256;
    }

    abbrev pub with_clientset : Result Clientset → Result (Host P)
    with_clientset (err e) = err (wrap "failed to create clientset" e)
    with_clientset (ok clientset) = ok (new_host clientset)

    unfoldable pub new_kopia_user_manager : Result (Host P)
    new_kopia_user_manager = with_clientset new_for_config
