-- ===== src/Operator/Sends.antt =====
-- What the operator has sent, after any number of steps.
use kopia_operator.Prelude.{false, String, ◌≡◌, refl, ◌∙◌, true, List, [], ◌∷◌, arith}
use kopia_operator.Prelude.Lists.{all}
use kopia_operator.Exec.{Result}
use kopia_operator.Platform.{Platform}
use kopia_operator.World.{World, Effect}
use kopia_operator.World.Trace.{count}
use kopia_operator.Builder.Config.{KopiaConfigData}
use kopia_operator.Server.Tls.{Crypto}
use kopia_operator.Server.Manager.{server_manager}
use kopia_operator.Users.Server.{Host}
use kopia_operator.Sends.{is_expected, is_granted, unexpected, granted_of_expected}
use kopia_operator.Sends.Servers.{IsQuietCrypto, server_manager-IsQuietServers}
use kopia_operator.Sends.Users.{IsQuietHost, user_manager-IsQuietUsers}
use kopia_operator.Sends.Watcher
use kopia_operator.Sends.Repository
use kopia_operator.Sends.Backup
use kopia_operator.Operator.{Flags, backup_reconciler}
use kopia_operator.Operator.Steps.{Step, pvc, repository, backup, others, Reach, here, next}

all-granted :
    (es : List Effect)
    → unexpected es ≡ 0
    → (all is_expected es ≡ true) × (all is_granted es ≡ true)
unfolding count
all-granted [] h = (refl, refl)
all-granted (e ∷ es) h = grind (arith, granted_of_expected, all-granted es)

module _ (P : Platform) (C : Crypto P) (H : Host P) (marshal : KopiaConfigData → Result String)
    (crypto : IsQuietCrypto P C) (host : IsQuietHost P H) where
  open P use {State}

  unexpected-Step :
      {flags : Flags} {w w' : World State}
      → Step P C H marshal flags w w'
      → unexpected w'.trace ≡ unexpected w.trace
  unfolding backup_reconciler
  unexpected-Step {w} (pvc request) = Watcher.unexpected-reconcile P request w
  unexpected-Step {w} (repository request) = ground (
    arith,
    Repository.tally-reconcile false P (server_manager P C)
        (server_manager-IsQuietServers false P C crypto) request w,
  )
  unexpected-Step {flags} {w} (backup request) = ground (
    arith,
    Backup.tally-reconcile false P (backup_reconciler P C H marshal flags)
        (user_manager-IsQuietUsers false P H host) request w,
  )
  unexpected-Step (others s) = refl

  unexpected-Reach :
      {flags : Flags} {w w' : World State}
      → Reach P C H marshal flags w w'
      → unexpected w'.trace ≡ unexpected w.trace
  unexpected-Reach here = refl
  unexpected-Reach (next r step) = unexpected-Step step ∙ unexpected-Reach r

  -- From an empty trace, after any reconciles of the three controllers in any order, whatever other
  -- clients do in between and whatever the API server answers: every write is one of the table
  -- `needs`, in which a CronJob, a ConfigMap, a Service or a Deployment is never deleted; each write is
  -- granted by the RBAC markers above the three Reconcile functions, an update of a status on the
  -- subresource, and an event on events; the gauge of a server was only set to 0 or 1, and no metric of
  -- a repository was removed.
  pub operator_sends :
      (flags : Flags) (w w' : World State)
      → w.trace ≡ []
      → Reach P C H marshal flags w w'
      → (all is_expected w'.trace ≡ true) × (all is_granted w'.trace ≡ true)
  unfolding count
  operator_sends flags w w' fresh r = all-granted w'.trace (unexpected-Reach r ∙ rw fresh)
