-- ===== src/Examples/Operating.antt =====
-- The theorems on the operator as a whole, at a cluster in memory.
use kopia_operator.Prelude.{String, some, true, ◌≡◌, refl, [], ◌∷◌, ◌<>◌, ◌==◌, if◌then◌else◌}
use kopia_operator.Prelude.Space.{is_space}
use kopia_operator.Prelude.Lists.{all}
use kopia_operator.Error.{plain, wrap}
use kopia_operator.Exec.{Result, ok, err}
use kopia_operator.Kube.Meta.{Key}
use kopia_operator.Platform.Memory.{Cluster, nothing, memory}
use kopia_operator.World.{World}
use kopia_operator.World.Trace.{count, status_updates}
use kopia_operator.RepositoryController
use kopia_operator.Server.Manager.{server_manager}
use kopia_operator.BackupController.Finalizer.{handle_finalizer, ensure_finalizer}
use kopia_operator.Operator.Statuses.{reconcile-one_status}
use kopia_operator.PvcWatcher
use kopia_operator.BackupController.Reconcile
use kopia_operator.Sends.{is_expected, is_granted}
use kopia_operator.Sends.Servers.{IsQuietCrypto}
use kopia_operator.Sends.Users.{IsQuietHost, new_host-IsQuietHost}
use kopia_operator.Users.ExecInPod.{Remote, exec_in_pod, new_host}
use kopia_operator.Operator.{default_flags, backup_reconciler, main, Setup, pvc_watcher}
use kopia_operator.Operator.Steps.{here, next, pvc, backup}
use kopia_operator.Operator.Sends.{operator_sends}
use kopia_operator.Operator.Start.{is_ok, recording, until_error, setups, main-until_error}
use kopia_operator.Examples.Data
use kopia_operator.Examples.Data.{with_server, world, crypto, host, reconciler}

abbrev request : Key
request = record { name = "data"; namespace = "web" }

abbrev at_first : World Cluster
at_first = world (record nothing { pvcs = Data.pvc ∷ []; repositories = with_server ∷ [] })

crypto-IsQuietCrypto : IsQuietCrypto memory crypto
crypto-IsQuietCrypto = record {
  trace-generate_key = λ n w. refl;
  trace-random_int = λ n w. refl;
  trace-create_certificate = λ template key w. refl;
  trace-now = λ w. refl;
  trace-until = λ t w. refl;
}

host-IsQuietHost : IsQuietHost memory host
host-IsQuietHost = record {
  trace-pod_executor = λ namespace pod container command w. refl;
  trace-rand = λ n w. refl;
}

-- The watcher creates the backup, and the controller reconciles it.
abbrev watched : World Cluster
watched = (PvcWatcher.reconcile memory request at_first).1

abbrev reconciled : World Cluster
reconciled =
    (Reconcile.reconcile memory
      (backup_reconciler memory crypto host reconciler.marshal default_flags) request watched).1

operator_sends_example :
    (all is_expected reconciled.trace ≡ true) × (all is_granted reconciled.trace ≡ true)
operator_sends_example =
    operator_sends memory crypto host reconciler.marshal crypto-IsQuietCrypto host-IsQuietHost
      default_flags at_first reconciled refl (next (next here (pvc request)) (backup request))

-- The third controller cannot be registered.
abbrev no_watcher : Setup memory → Result (Unit {0})
no_watcher pvc_watcher = err (plain "no such kind")
no_watcher _ = ok tt

main-until_error_example :
    let (answer, log) =
      main memory crypto host reconciler.marshal (recording no_watcher) default_flags "" [] in
    (log ≡ until_error no_watcher (setups memory crypto host reconciler.marshal default_flags ""))
    × (is_ok answer
        ≡ all
            (λ s. is_ok (no_watcher s))
            (setups memory crypto host reconciler.marshal default_flags ""))
main-until_error_example =
    main-until_error memory crypto host reconciler.marshal no_watcher default_flags ""

-- A container that answers with blanks around its output.
abbrev remote : Remote memory
remote = record {
  Executor = String;
  Clientset = Unit;
  new_for_config = ok tt;
  new_spdy_executor = λ clientset method request.
      if request.options.container == "kopia-server"
      then ok request.name
      else err (plain "no such container");
  stream_with_context = λ exec timeout w. (ok (" \t" <> (exec <> "\n"), "\n"), w);
}

output_is_trimmed :
    exec_in_pod memory remote tt "backup" "kopia-server-0" "kopia-server" [] at_first
    ≡ (ok ("kopia-server-0", ""), at_first)
unfolding exec_in_pod is_space
output_is_trimmed = refl

another_container :
    exec_in_pod memory remote tt "backup" "kopia-server-0" "sidecar" [] at_first
    ≡ (err (wrap "failed to create executor" (plain "no such container")), at_first)
unfolding exec_in_pod
another_container = refl

remote-IsQuietHost : IsQuietHost memory (new_host memory remote host.rand host.sha256 tt)
remote-IsQuietHost =
    new_host-IsQuietHost memory remote host.rand host.sha256 (λ exec timeout w. refl) (λ n w. refl)
      tt

-- A repository and a backup of one name.
abbrev namesakes : World Cluster
namesakes = world (record nothing {
  repositories = with_server ∷ [];
  backups = record Data.backup { metadata = with_server.metadata } ∷ [];
})

abbrev nas : Key
nas = record { name = "nas"; namespace = "backup" }

reconcile-one_status_example :
    (status_updates
        (RepositoryController.reconcile memory
          (some (server_manager memory crypto))
          nas
          namesakes).1.trace
      ≡ 1)
    × (status_updates
          (Reconcile.reconcile memory
            (backup_reconciler memory crypto host reconciler.marshal default_flags)
            nas
            namesakes).1.trace
        ≡ 1)
unfolding backup_reconciler handle_finalizer count ensure_finalizer
reconcile-one_status_example =
    reconcile-one_status memory crypto host reconciler.marshal crypto-IsQuietCrypto host-IsQuietHost
      default_flags nas namesakes
