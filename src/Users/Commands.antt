-- ===== src/Users/Commands.antt =====
-- The commands that run in the server's pod, and what the manager does with their output.
use kopia_operator.Prelude.{String, ◌<>◌, List, [], ◌∷◌}

-- The script of buildCreateUserCommand, line by line. The credentials are its positional arguments.
abbrev pub create_user_script : String
create_user_script =
    ("set -e\n"
      <> ("USERNAME=\"$1\"\n"
          <> ("PASSWORD=\"$2\"\n"
              <> ("CERT_FP=\"$3\"\n"
                  <> ("echo \"Checking if user $USERNAME exists...\"\n"
                      <> ("USER_LIST=$(kopia server user list 2>&1) || true\n"
                          <> ("if echo \"$USER_LIST\" | grep -qF \"$USERNAME\"; then\n"
                              <> ("  echo \"User $USERNAME already exists, updating password...\"\n"
                                  <> ("  kopia server user set \"$USERNAME\" --user-password=\"$PASSWORD\" 2>&1\n"
                                      <> ("else\n"
                                          <> ("  echo \"Creating user: $USERNAME\"\n"
                                              <> ("  kopia server user add \"$USERNAME\" --user-password=\"$PASSWORD\" 2>&1\n"
                                                  <> ("fi\n"
                                                      <> ("echo \"Refreshing server...\"\n"
                                                          <> "kopia server refresh --server-control-username=admin --server-control-password=\"${KOPIA_SERVER_PASSWORD}\" --address=https://127.0.0.1:51515 --server-cert-fingerprint=\"$CERT_FP\" 2>&1 || echo \"Server refresh failed\""))))))))))))))

unfoldable pub build_create_user_command : String → String → String → List String
build_create_user_command username password cert_fingerprint =
    "/bin/sh" ∷ "-c" ∷ create_user_script ∷ "_" ∷ username ∷ password ∷ cert_fingerprint ∷ []

unfoldable pub build_delete_user_command : String → List String
build_delete_user_command username =
    "/bin/sh" ∷ "-c" ∷ "kopia server user delete \"$1\" 2>&1 || echo \"User may not exist\"" ∷ "_"
    ∷ username ∷ []
