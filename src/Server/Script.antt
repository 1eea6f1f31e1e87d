-- ===== src/Server/Script.antt =====
-- BuildCacheFlags and the parts of constructServerCommand: the script that the server's container runs.
use kopia_operator.Prelude.{
  ℕ, String, ◌<>◌, not, List, [], ◌∷◌, ◌/◌, zero, suc, ◌==◌, if◌then◌else◌,
}
use kopia_operator.Prelude.Decimal.{decimal_int}
use kopia_operator.Prelude.Int.{ℤ, pos, negsuc, is_pos, is_zero}
use kopia_operator.Prelude.Text
use kopia_operator.Api.Repository.{Repository, CachingSpec}
use kopia_operator.Server.Shell.{shell_quote}

-- The writes to a strings.Builder, in their order.
abbrev pub concat : List String → String
concat = Text.join ""

abbrev negated : ℕ → ℤ
negated zero = pos 0
negated (suc n) = negsuc n

-- An int64 division, which goes towards zero.
unfoldable pub quantity_to_mb : ℤ → ℤ
quantity_to_mb (pos n) = pos (n / 1048576)
quantity_to_mb (negsuc n) = negated (suc n / 1048576)

abbrev flag_text : String → String → String
flag_text flag text = if text == "" then "" else " --" <> (flag <> ("=" <> text))

abbrev flag_mb : String → ℤ → String
flag_mb flag q =
    if is_zero q then "" else " --" <> (flag <> ("-mb=" <> decimal_int (quantity_to_mb q)))

abbrev flag_seconds : String → ℤ → String
flag_seconds flag n = if is_pos n then " --" <> (flag <> ("=" <> (decimal_int n <> "s"))) else ""

unfoldable pub build_cache_flags : CachingSpec → String
unfolding quantity_to_mb
build_cache_flags caching = concat (
    flag_text "cache-directory" caching.cache_directory
    ∷ flag_mb "content-cache-size" caching.content_cache_size
    ∷ flag_mb "content-cache-size-limit" caching.content_cache_size_limit
    ∷ flag_mb "metadata-cache-size" caching.metadata_cache_size
    ∷ flag_mb "metadata-cache-size-limit" caching.metadata_cache_size_limit
    ∷ flag_seconds "max-list-cache-duration" caching.max_list_cache_duration
    ∷ flag_seconds "min-metadata-sweep-age" caching.min_metadata_sweep_age
    ∷ flag_seconds "min-content-sweep-age" caching.min_content_sweep_age
    ∷ flag_seconds "min-index-sweep-age" caching.min_index_sweep_age
    ∷ [])

-- --override-hostname and --override-username, and the flags of the cache
unfoldable pub override_flags : Repository → String
unfolding build_cache_flags
override_flags repo = concat (
    "--override-hostname="
    ∷ shell_quote repo.spec.hostname
    ∷ " --override-username="
    ∷ shell_quote repo.spec.username
    ∷ build_cache_flags repo.spec.caching
    ∷ [])

unfoldable pub filesystem_server_script : Repository → String
unfolding override_flags
filesystem_server_script repo = concat (
    "set -e\necho \"Connecting to repository...\"\n"
    ∷ "kopia repository connect filesystem --path=/repository "
    ∷ override_flags repo
    ∷ " || {\n"
    ∷ "  echo \"Repository connection failed, attempting to create...\"\n"
    ∷ "  kopia repository create filesystem --path=/repository "
    ∷ override_flags repo
    ∷ "\n"
    ∷ "}\n"
    ∷ [])

unfoldable pub sftp_credential_setup : String
sftp_credential_setup = concat (
    "SFTP_USER=$(cat /sftp-creds/username 2>/dev/null || echo \"\")\n"
    ∷ "SFTP_PASSWORD=$(cat /sftp-creds/password 2>/dev/null || echo \"\")\n"
    ∷ "SFTP_KEY=$(cat /sftp-creds/keyData 2>/dev/null || echo \"\")\n"
    ∷ "SFTP_KNOWN_HOSTS=$(cat /sftp-creds/knownHostsData 2>/dev/null || echo \"\")\n"
    ∷ "if [ -z \"$SFTP_USER\" ]; then echo \"ERROR: SFTP username not found in secret\"; exit 1; fi\n"
    ∷ [])

-- `name="$name text"`
abbrev extend : String → String → String
extend cmd_var text = concat (cmd_var ∷ "=\"$" ∷ cmd_var ∷ " " ∷ text ∷ "\"\n" ∷ [])

unfoldable pub known_hosts_flags : Repository → String → String
known_hosts_flags repo cmd_var =
    if not (repo.spec.sftp_options.known_hosts_data == "")
    then concat (
        "cat > /tmp/known_hosts <<'KNOWN_HOSTS_EOF'\n"
        ∷ repo.spec.sftp_options.known_hosts_data
        ∷ "\nKNOWN_HOSTS_EOF\n"
        ∷ "CLEANUP_FILES=\"$CLEANUP_FILES /tmp/known_hosts\"\n"
        ∷ extend cmd_var "--known-hosts=/tmp/known_hosts"
        ∷ [])
    else concat (
        "if [ -n \"$SFTP_KNOWN_HOSTS\" ]; then\n"
        ∷ "  printf '%b' \"$SFTP_KNOWN_HOSTS\" > /tmp/known_hosts\n"
        ∷ "  CLEANUP_FILES=\"$CLEANUP_FILES /tmp/known_hosts\"\n"
        ∷ "  "
        ∷ extend cmd_var "--known-hosts=/tmp/known_hosts"
        ∷ "fi\n"
        ∷ [])

abbrev ssh_command_of : String → String
ssh_command_of command = if command == "" then "ssh" else command

unfoldable pub external_ssh_flags : Repository → String → String
external_ssh_flags repo cmd_var =
    if repo.spec.sftp_options.external_ssh
    then extend cmd_var (
        "--external-ssh --ssh-command="
        <> shell_quote (ssh_command_of repo.spec.sftp_options.ssh_command))
    else ""

unfoldable pub sftp_auth_flags : Repository → String → String
unfolding known_hosts_flags external_ssh_flags
sftp_auth_flags repo cmd_var = concat (
    "CLEANUP_FILES=\"\"\n"
    ∷ "trap 'rm -f $CLEANUP_FILES' EXIT\n"
    ∷ "if [ -n \"$SFTP_KEY\" ]; then\n"
    ∷ "  SSH_KEY_FILE=$(mktemp /tmp/ssh_key.XXXXXX) && echo \"$SFTP_KEY\" > \"$SSH_KEY_FILE\" && chmod 600 \"$SSH_KEY_FILE\"\n"
    ∷ "  CLEANUP_FILES=\"$CLEANUP_FILES $SSH_KEY_FILE\"\n"
    ∷ "  "
    ∷ extend cmd_var "--keyfile=$SSH_KEY_FILE"
    ∷ "elif [ -n \"$SFTP_PASSWORD\" ]; then\n"
    ∷ "  "
    ∷ extend cmd_var "--sftp-password=$SFTP_PASSWORD"
    ∷ "else\n"
    ∷ "  echo \"ERROR: Neither keyData nor password found in secret\"; exit 1\n"
    ∷ "fi\n"
    ∷ known_hosts_flags repo cmd_var
    ∷ external_ssh_flags repo cmd_var
    ∷ [])

abbrev pub sftp_port : ℤ → ℤ
sftp_port port = if is_pos port then port else pos 22

-- `kopia repository <verb> sftp` with the host, the port and the path
unfoldable pub sftp_command : String → Repository → String
sftp_command verb repo = concat (
    "kopia repository "
    ∷ verb
    ∷ " sftp --host="
    ∷ shell_quote repo.spec.sftp_options.host
    ∷ " --port="
    ∷ decimal_int (sftp_port repo.spec.sftp_options.port)
    ∷ " --path="
    ∷ shell_quote repo.spec.sftp_options.path
    ∷ [])

unfoldable pub sftp_server_script : Repository → String
unfolding sftp_credential_setup sftp_auth_flags override_flags sftp_command
sftp_server_script repo = concat (
    "echo \"Connecting to repository...\"\n"
    ∷ sftp_credential_setup
    ∷ "SFTP_CMD=\""
    ∷ sftp_command "connect" repo
    ∷ " --username=$SFTP_USER\"\n"
    ∷ sftp_auth_flags repo "SFTP_CMD"
    ∷ extend "SFTP_CMD" (override_flags repo)
    ∷ "eval \"$SFTP_CMD\"\n"
    ∷ "if [ $? -ne 0 ]; then\n"
    ∷ "  echo \"Repository connection failed, attempting to create...\"\n"
    ∷ "  SFTP_CREATE_CMD=\""
    ∷ sftp_command "create" repo
    ∷ " --username=$SFTP_USER\"\n"
    ∷ sftp_auth_flags repo "SFTP_CREATE_CMD"
    ∷ "  "
    ∷ extend "SFTP_CREATE_CMD" (override_flags repo)
    ∷ "  eval \"$SFTP_CREATE_CMD\"\n"
    ∷ "  if [ $? -eq 0 ]; then\n"
    ∷ "    echo \"Repository created successfully, reconnecting...\"\n"
    ∷ "    eval \"$SFTP_CMD\"\n"
    ∷ "  else\n"
    ∷ "    echo \"Failed to create repository\"; exit 1\n"
    ∷ "  fi\n"
    ∷ "fi\n"
    ∷ "set -e\n"
    ∷ [])
