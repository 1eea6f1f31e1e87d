-- ===== src/Builder/Command.antt =====
-- buildBackupCommand of internal/controller/kopiabackup/builder.go: the scripts of the backup container.
use kopia_operator.Prelude.{ℕ, String, ◌<>◌, if◌then◌else◌}
use kopia_operator.Prelude.Decimal.{decimal, decimal_int}
use kopia_operator.Prelude.Int.{ℤ, pos, is_zero}
use kopia_operator.Api.Repository.{Repository}

abbrev pub connect_retry_attempts : ℕ
connect_retry_attempts = 12

abbrev pub connect_retry_delay_seconds : ℕ
connect_retry_delay_seconds = 30

-- The port and the URL that the server-mode script connects to.
unfoldable pub server_port : Repository → ℤ
server_port repo =
    let port = repo.spec.server.exposure.service_port in if is_zero port then pos 51515 else port

unfoldable pub server_url : Repository → String
unfolding server_port
server_url repo =
    "https://kopia-server-"
    <> (repo.metadata.name
        <> ("."
            <> (repo.metadata.namespace
                <> (".svc.cluster.local:" <> decimal_int (server_port repo)))))

server_script : Repository → String → String
unfolding server_url
server_script repo mount_path =
    ("set -e\n"
      <> ("echo \"[1/4] Connecting to Kopia Server...\"\n"
          <> ("# The server runs a single replica: while it is unready (restart, or a\n"
              <> ("# readiness blip under load) its Service has no endpoint and the connect fails\n"
                  <> ("# the TLS handshake with \"authentication handshake failed: EOF\". Retry here\n"
                      <> ("# rather than burning the Job's backoffLimit on a server that is coming back.\n"
                          <> ("connect_attempts="
                              <> (decimal connect_retry_attempts
                                  <> ("\n"
                                      <> ("attempt=1\n"
                                          <> ("until kopia repository connect server \\\n"
                                              <> ("  --url="
                                                  <> (server_url repo
                                                      <> (" \\\n"
                                                          <> ("  --server-cert-fingerprint=\"${KOPIA_TLS_FINGERPRINT}\" \\\n"
                                                            <> ("  --override-username=\"${KOPIA_SERVER_USERNAME%%@*}\" \\\n"
                                                            <> ("  --override-hostname=\"${KOPIA_SERVER_USERNAME#*@}\"; do\n"
                                                            <> ("  if [ \"${attempt}\" -ge \"${connect_attempts}\" ]; then\n"
                                                            <> ("    echo \"[ERROR] Could not connect to the Kopia Server after ${connect_attempts} attempts\"\n"
                                                            <> ("    exit 1\n"
                                                            <> ("  fi\n"
                                                            <> ("  echo \"[WARN] Connect attempt ${attempt}/${connect_attempts} failed; retrying in "
                                                            <> (decimal connect_retry_delay_seconds
                                                            <> ("s...\"\n"
                                                            <> ("  attempt=$((attempt + 1))\n"
                                                            <> ("  sleep "
                                                            <> (decimal connect_retry_delay_seconds
                                                            <> ("\n"
                                                            <> ("done\n"
                                                            <> ("\n"
                                                            <> ("echo \"[2/4] Creating snapshot...\"\n"
                                                            <> ("kopia snapshot create "
                                                            <> (mount_path
                                                            <> (" || { echo \"[WARN] Snapshot completed with errors (see above), continuing...\"; }\n"
                                                            <> ("\n"
                                                            <> ("echo \"[3/4] Listing snapshots...\"\n"
                                                            <> ("kopia snapshot list "
                                                            <> (mount_path
                                                            <> ("\n"
                                                            <> ("\n"
                                                            <> ("echo \"[4/4] Disconnecting repository...\"\n"
                                                            <> ("mkdir -p \"${KOPIA_LOG_DIR}/cli-logs\"\n"
                                                            <> "kopia repository disconnect 2>/dev/null || true\n")
                                                            ))))))))))))))))))))))))))))))))))))))))
                                                            )

direct_script : String → String
direct_script mount_path =
    ("set -e\n"
      <> ("echo \"[1/4] Creating snapshot...\"\n"
          <> ("kopia snapshot create "
              <> (mount_path
                  <> (" || { echo \"[WARN] Snapshot completed with errors (see above), continuing...\"; }\n"
                      <> ("\n"
                          <> ("echo \"[2/4] Listing snapshots...\"\n"
                              <> ("kopia snapshot list "
                                  <> (mount_path
                                      <> ("\n"
                                          <> ("\n"
                                              <> ("echo \"[3/4] Showing content stats...\"\n"
                                                  <> ("kopia content stats\n"
                                                      <> ("\n"
                                                          <> ("echo \"[4/4] Showing maintenance info...\"\n"
                                                            <> "kopia maintenance info\n")))))))))))))))

unfoldable pub build_backup_command : Repository → String → String
unfolding server_script direct_script
build_backup_command repo mount_path =
    if repo.spec.server.enabled then server_script repo mount_path else direct_script mount_path
