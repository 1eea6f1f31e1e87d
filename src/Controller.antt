-- ===== src/Controller.antt =====
-- What a controller's `Reconcile` returns to controller-runtime.
use kopia_operator.Prelude.{ℕ, String, Option, none, some, if◌then◌else◌}
use kopia_operator.Error.{Error, is_not_found}
use kopia_operator.Exec.{Result, ok, err}
use kopia_operator.Prelude.Lists.{Dict, lookup}

-- ctrl.Result; `requeue_after` is in seconds, and 0 asks for nothing.
pub record CtrlResult : Type 0 where
  pub requeue_after : ℕ

abbrev pub done : CtrlResult
done = record { requeue_after = 0 }

abbrev pub or_empty : Option String → String
or_empty none = ""
or_empty (some v) = v

-- m[key] of a map[string]string
abbrev pub get_or_empty : String → Dict String → String
get_or_empty key m = or_empty (lookup key m)

-- `(ctrl.Result, error)`
pub record Reconciled : Type 0 where
  pub result : CtrlResult
  pub error : Option Error

-- What the body of a reconcile leaves for the deferred status update: its two results, and the
-- object with the status that it has set in memory.
pub record Outcome (Obj : Type 0) : Type 0 where
  pub result : CtrlResult
  pub error : Option Error
  pub object : Obj

abbrev pub finish {ℓ} : {Obj : Type 0} {W : Type ℓ} → Obj → CtrlResult → W → Outcome Obj × W
finish o r w = (record { result = r; error = none; object = o }, w)

abbrev pub fail {ℓ} : {Obj : Type 0} {W : Type ℓ} → Obj → Error → W → Outcome Obj × W
fail o e w = (record { result = done; error = some e; object = o }, w)

-- client.IgnoreNotFound(err)
unfoldable pub ignore_not_found : Error → Option Error
ignore_not_found e = if is_not_found e then none else some e

-- The deferred function: an error of the status update is returned if there is no other.
unfoldable pub first_error {ℓ} : {A : Type ℓ} → Option Error → Result A → Option Error
first_error (some e) r = some e
first_error none (ok _) = none
first_error none (err e) = some e
