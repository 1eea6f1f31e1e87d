-- ===== src/Error.antt =====
-- internal/kopia/errors.go, and the errors that the other files build with fmt.Errorf.
use kopia_operator.Prelude.{String, ◌<>◌, Bool, true, false, Option, none, some}

-- The reason that an error of the API server carries.
pub data Reason : Type 0 where
  not_found already_exists other : Reason

pub data Error : Type 0 where
  -- an error of a call into a library, with its text
  api : Reason → String → Error
  -- fmt.Errorf with no %w
  plain : String → Error
  -- fmt.Errorf("<text>: %w", err)
  wrap : String → Error → Error
  -- ServerNotReadyError with Err nil
  server_not_ready : String → Error
  -- ServerNotReadyError with Err set
  server_not_ready_from : String → Error → Error

-- err.Error()
unfoldable pub error_text : Error → String
error_text (api r m) = m
error_text (plain m) = m
error_text (wrap m e) = m <> (": " <> error_text e)
error_text (server_not_ready m) = m
error_text (server_not_ready_from m e) = m <> (": " <> error_text e)

-- errors.Unwrap(err)
unfoldable pub unwrap : Error → Option Error
unwrap (wrap m e) = some e
unwrap (server_not_ready_from m e) = some e
unwrap e = none

-- errors.As(err, &serverNotReady)
unfoldable pub is_server_not_ready : Error → Bool
is_server_not_ready (wrap m e) = is_server_not_ready e
is_server_not_ready (server_not_ready m) = true
is_server_not_ready (server_not_ready_from m e) = true
is_server_not_ready (api r m) = false
is_server_not_ready (plain m) = false

reason_for_error : Error → Reason
reason_for_error (api r m) = r
reason_for_error (wrap m e) = reason_for_error e
reason_for_error (server_not_ready_from m e) = reason_for_error e
reason_for_error (plain m) = other
reason_for_error (server_not_ready m) = other

abbrev is_not_found_reason : Reason → Bool
is_not_found_reason not_found = true
is_not_found_reason _ = false

abbrev is_already_exists_reason : Reason → Bool
is_already_exists_reason already_exists = true
is_already_exists_reason _ = false

-- apierrors.IsNotFound(err)
unfoldable pub is_not_found : Error → Bool
unfolding reason_for_error
is_not_found e = is_not_found_reason (reason_for_error e)

-- apierrors.IsAlreadyExists(err)
unfoldable pub is_already_exists : Error → Bool
unfolding reason_for_error
is_already_exists e = is_already_exists_reason (reason_for_error e)
