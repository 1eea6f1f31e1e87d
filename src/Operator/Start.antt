-- ===== src/Operator/Start.antt =====
-- The order in which main sets the operator up.
use kopia_operator.Prelude.{
  String, ◌≡◌, Bool, true, false, some, List, [], ◌∷◌, ◌++◌, arith, ◌==◌, if◌then◌else◌,
}
use kopia_operator.Prelude.Lists.{all}
use kopia_operator.Exec.{Result, ok, err, Exec}
use kopia_operator.Platform.{Platform}
use kopia_operator.Builder.Config.{KopiaConfigData}
use kopia_operator.Server.Tls.{Crypto}
use kopia_operator.Server.Manager.{server_manager}
use kopia_operator.Users.Server.{Host}
use kopia_operator.Operator.{
  Flags, Setup, new_manager, new_user_manager, backup_controller, repository_controller,
  pvc_watcher, backup_webhook, repository_webhook, healthz, readyz, start, manager_options,
  backup_reconciler, set_up_webhooks, main,
}

abbrev pub is_ok : Result (Unit {0}) → Bool
is_ok (ok _) = true
is_ok (err _) = false

module _ {A : Type 0} (answer : A → Result (Unit {0})) where
  -- Every request is written to a log, and answered by a table.
  abbrev pub recording : A → Exec (List A) (Unit {0})
  recording a log = (answer a, log ++ (a ∷ []))

  -- The requests up to the first that fails.
  pub until_error : List A → List A
  until_error [] = []
  until_error (a ∷ others) =
      let rest = until_error others in a ∷ (if is_ok (answer a) then rest else [])

module _ (P : Platform) (C : Crypto P) (H : Host P)
    (marshal : KopiaConfigData → Result String) where
  -- The requests of main, in their order.
  abbrev pub setups : Flags → String → List (Setup P)
  setups flags enable_webhooks =
      new_manager (manager_options flags)
      ∷ new_user_manager
      ∷ backup_controller (backup_reconciler P C H marshal flags)
      ∷ repository_controller (some (server_manager P C))
      ∷ pvc_watcher
      ∷ ((if enable_webhooks == "false" then [] else backup_webhook ∷ repository_webhook ∷ [])
          ++ (healthz ∷ readyz ∷ start ∷ []))

  -- main asks for the manager, the user manager, the three controllers, the two webhooks unless
  -- ENABLE_WEBHOOKS is false, the two checks and the start, in this order, stops at the first that
  -- fails, and ends with no error exactly when all succeed. So the manager only starts when all else is
  -- set up.
  pub main-until_error :
      (answer : Setup P → Result (Unit {0})) (flags : Flags) (enable_webhooks : String)
      → ((main P C H marshal (recording answer) flags enable_webhooks []).1
          ≡ until_error answer (setups flags enable_webhooks))
        × (is_ok (main P C H marshal (recording answer) flags enable_webhooks []).0
            ≡ all (λ s. is_ok (answer s)) (setups flags enable_webhooks))
  unfolding main until_error set_up_webhooks
  main-until_error answer flags enable_webhooks = (ground arith, ground arith)
