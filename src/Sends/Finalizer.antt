-- ===== src/Sends/Finalizer.antt =====
-- What the finalizer of the backup controller sends.
use kopia_operator.Prelude.{Bool, ◌≡◌, refl, arith, Option, none, some}
use kopia_operator.Exec.{Result, ok, err}
use kopia_operator.Api.Backup.{Backup}
use kopia_operator.Api.Repository.{Repository}
use kopia_operator.Platform.{Platform}
use kopia_operator.World.{World}
use kopia_operator.World.Trace.{count-append_one}
use kopia_operator.Interfaces.{UserManager}
use kopia_operator.Lookup.Reads.{trace-get_kopia_repository}
use kopia_operator.BackupController.Setup.{Reconciler}
use kopia_operator.BackupController.Finalizer.{
  after_delete_user, delete_from, cleanup_user, remove_with_cleanup, ensure_finalizer,
  handle_finalizer,
}
use kopia_operator.Sends.{tally}
use kopia_operator.Sends.Users.{IsQuietUsers}

-- A user manager that may be missing.
abbrev pub IsQuietIfThere : Bool → {S : Type 0} → Option (UserManager (World S)) → Type 0
IsQuietIfThere k none = Unit
IsQuietIfThere k (some users) = IsQuietUsers k users

module _ (k : Bool) (P : Platform) where
  open P use {State}

  tally-delete_from :
      (users : UserManager (World State)) (b : Backup) (found : Result Repository) (w : World State)
      → IsQuietUsers k users
      → tally k (delete_from P users b found w).1.trace ≡ tally k w.trace
  unfolding delete_from after_delete_user
  tally-delete_from users b (err e) w quiet = refl
  tally-delete_from users b (ok repo) w quiet = grind (arith, count-append_one, quiet.delete_user)

  tally-cleanup_user :
      (users : Option (UserManager (World State))) (b : Backup) (w : World State)
      → IsQuietIfThere k users
      → tally k (cleanup_user P users b w).1.trace ≡ tally k w.trace
  unfolding cleanup_user
  tally-cleanup_user none b w quiet = refl
  tally-cleanup_user (some users) b w quiet =
      grind (arith, tally-delete_from, trace-get_kopia_repository)

  tally-remove_with_cleanup :
      (users : Option (UserManager (World State))) (b : Backup) (w : World State)
      → IsQuietIfThere k users
      → tally k (remove_with_cleanup P users b w).1.trace ≡ tally k w.trace
  unfolding remove_with_cleanup
  tally-remove_with_cleanup users b w quiet =
      grind (arith, count-append_one, tally-cleanup_user users b w quiet)

  tally-ensure_finalizer :
      (b : Backup) (w : World State) → tally k (ensure_finalizer P b w).1.trace ≡ tally k w.trace
  unfolding ensure_finalizer
  tally-ensure_finalizer b w = grind (arith, count-append_one)

  pub tally-handle_finalizer :
      (r : Reconciler P) (b : Backup) (w : World State)
      → IsQuietIfThere k r.user_manager
      → tally k (handle_finalizer P r b w).1.trace ≡ tally k w.trace
  unfolding handle_finalizer
  tally-handle_finalizer r b w quiet =
      grind (arith, tally-ensure_finalizer, tally-remove_with_cleanup r.user_manager b w quiet)
