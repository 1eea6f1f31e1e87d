-- ===== src/Server/Command.antt =====
-- constructServerCommand: the whole script of the server's container.
use kopia_operator.Prelude.{String, ◌<>◌, [], ◌∷◌, map, ◌==◌, if◌then◌else◌}
use kopia_operator.Api.Repository.{Repository, storage_type_filesystem, storage_type_sftp}
use kopia_operator.Server.Shell.{shell_quote}
use kopia_operator.Server.Script.{concat, filesystem_server_script, sftp_server_script}

unfoldable pub admin_user_setup : Repository → String
admin_user_setup repo = concat (
    "ADMIN_USER="
    ∷ shell_quote (repo.spec.username <> ("@" <> repo.spec.hostname))
    ∷ "\n"
    ∷ "echo \"Checking admin user: $ADMIN_USER\"\n"
    ∷ "set +e\n"
    ∷ "kopia server user list 2>/dev/null | grep -q \"$ADMIN_USER\"\n"
    ∷ "USER_EXISTS=$?\n"
    ∷ "set -e\n"
    ∷ "if [ $USER_EXISTS -ne 0 ]; then\n"
    ∷ "  echo \"Creating admin user: $ADMIN_USER\"\n"
    ∷ "  kopia server user add \"$ADMIN_USER\" --user-password=\"${KOPIA_PASSWORD}\"\n"
    ∷ "else\n"
    ∷ "  echo \"Updating admin user password: $ADMIN_USER\"\n"
    ∷ "  kopia server user set \"$ADMIN_USER\" --user-password=\"${KOPIA_PASSWORD}\"\n"
    ∷ "fi\n"
    ∷ [])

abbrev pub argument : String → String
argument arg = " \\\n  " <> shell_quote arg

unfoldable pub server_start_command : Repository → String
server_start_command repo = concat (
    "kopia server start \\\n"
    ∷ "  --tls-cert-file=/tls/tls.crt \\\n"
    ∷ "  --tls-key-file=/tls/tls.key \\\n"
    ∷ "  --address=0.0.0.0:51515 \\\n"
    ∷ "  --server-control-username=admin \\\n"
    ∷ "  --server-control-password=\"${KOPIA_SERVER_PASSWORD}\""
    ∷ concat (map argument repo.spec.server.extra_args)
    ∷ "\n"
    ∷ [])

-- The switch on the storage type.
unfoldable pub connect_script : Repository → String
unfolding filesystem_server_script sftp_server_script
connect_script repo =
    if repo.spec.storage_type == storage_type_filesystem
    then filesystem_server_script repo
    else if repo.spec.storage_type == storage_type_sftp
    then sftp_server_script repo
    else concat (
        "set -e\necho \"Connecting to repository...\"\n" ∷ "echo 'Unsupported storage type: "
        ∷ repo.spec.storage_type ∷ "' && exit 1\n" ∷ [])

unfoldable pub construct_server_command : Repository → String
unfolding connect_script admin_user_setup server_start_command
construct_server_command repo = concat (
    connect_script repo
    ∷ "\necho \"Setting up admin user...\"\n"
    ∷ admin_user_setup repo
    ∷ "\necho \"Starting Kopia Server...\"\n"
    ∷ server_start_command repo
    ∷ [])
