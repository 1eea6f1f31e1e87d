-- ===== src/Examples/Certificates.antt =====
-- The theorems on generated certificates, at a cluster in memory.
use kopia_operator.Prelude.{true, ◌≡◌, refl, some, [], ◌∷◌, arith}
use kopia_operator.Prelude.Lists.{lookup}
use kopia_operator.Prelude.Hex.{hex}
use kopia_operator.Prelude.Int.{pos}
use kopia_operator.Error.{api, not_found, is_not_found}
use kopia_operator.Exec.{ok}
use kopia_operator.Kube.Meta.{ObjectMeta, new_meta}
use kopia_operator.Kube.Objects.{Secret}
use kopia_operator.Platform.Memory.{Cluster, nothing, memory}
use kopia_operator.World.{World}
use kopia_operator.Naming.{tls_secret_name}
use kopia_operator.Server.Deployment.{get_tls_secret_name}
use kopia_operator.Server.Tls.{Crypto, Certificate, generate_self_signed_cert}
use kopia_operator.Server.Manager.{
  server_common_name, server_dns_names, ensure_tls_secret, new_tls_secret,
}
use kopia_operator.Server.Certificate.{
  generated, after_create, after_delete, ensure_tls_secret-again, ensure_tls_secret-rotates,
}
use kopia_operator.RepositoryController.{body}
use kopia_operator.Server.Manager.{server_manager}
use kopia_operator.Server.Stuck.{is_some, Refuses, KeepsKey, body-stuck}
use kopia_operator.Examples.Data.{with_server, world, crypto}

abbrev certificate : Certificate
certificate = record { raw = 1 ∷ []; not_after = 3456000000000000 }

abbrev owned : ObjectMeta
owned =
    record (new_tls_secret with_server "kopia-server-tls-nas" "CERTIFICATE" "RSA PRIVATE KEY"
      "ABCD").metadata {
        owner_references =
            record {
              kind = "KopiaRepository";
              name = "nas";
              uid = with_server.metadata.uid;
              controller = some "true";
            }
            ∷ [];
      }

abbrev sent : Secret
sent = generated memory crypto with_server "CERTIFICATE" "RSA PRIVATE KEY" certificate owned

abbrev later : World Cluster
later = after_create memory crypto owned (world nothing) (record nothing { secrets = sent ∷ [] })

ensure_tls_secret-again_example :
    (ensure_tls_secret memory crypto with_server (world nothing) ≡ (ok "ABCD", later))
    × (ensure_tls_secret memory crypto with_server later ≡ (ok "ABCD", later))
unfolding get_tls_secret_name tls_secret_name lookup hex is_not_found generate_self_signed_cert
    server_common_name server_dns_names
ensure_tls_secret-again_example =
    ensure_tls_secret-again memory crypto with_server (world nothing) (world nothing) later nothing
      later.api later.api (api not_found "kopia-server-tls-nas not found") "CERTIFICATE"
      "RSA PRIVATE KEY" (1 ∷ []) certificate owned sent sent 3456000000000000 refl refl refl refl
      refl refl refl refl refl refl refl (omega arith)

-- A clock at which a day is left.
abbrev a_day_left : Crypto memory
a_day_left = record crypto { until = λ t w. (pos 86400000000000, w) }

abbrev old_secret : Secret
old_secret = record {
  metadata = new_meta "kopia-server-tls-nas" "backup" [];
  type = "kubernetes.io/tls";
  contents = ("tls.crt", "PEM") ∷ ("fingerprint", "OLD") ∷ [];
  string_data = [];
}

abbrev expiring : World Cluster
expiring = world (record nothing { secrets = old_secret ∷ [] })

abbrev deleted : World Cluster
deleted = after_delete memory a_day_left old_secret.metadata expiring nothing

ensure_tls_secret-rotates_example : ensure_tls_secret memory a_day_left with_server expiring ≡ (
  ok "ABCD",
  after_create memory a_day_left owned deleted (record nothing { secrets = sent ∷ [] }),
)
unfolding get_tls_secret_name tls_secret_name lookup hex is_not_found generate_self_signed_cert
    server_common_name server_dns_names
ensure_tls_secret-rotates_example =
    ensure_tls_secret-rotates memory a_day_left with_server expiring expiring deleted expiring.api
      (record nothing { secrets = sent ∷ [] }) nothing old_secret "PEM" (1 ∷ []) certificate
      (pos 86400000000000) "CERTIFICATE" "RSA PRIVATE KEY" (1 ∷ []) certificate owned sent refl refl
      refl refl refl refl (omega arith) refl refl refl refl refl refl

-- The secret is there, and somebody has removed its data.
abbrev emptied : Cluster
emptied = record nothing { secrets = record sent { contents = [] } ∷ [] }

emptied-Refuses : Refuses memory crypto with_server (get_tls_secret_name with_server) emptied
unfolding get_tls_secret_name tls_secret_name
emptied-Refuses o name namespace = simp (name, namespace)

memory-KeepsKey : KeepsKey memory crypto with_server
memory-KeepsKey m m' e = ground arith

body-stuck_example :
    is_some (body memory (some (server_manager memory crypto)) with_server (world emptied)).0.error
    ≡ true
unfolding get_tls_secret_name tls_secret_name lookup generate_self_signed_cert
body-stuck_example =
    body-stuck memory crypto with_server (world emptied) (record sent { contents = [] }) emptied
      refl refl refl refl refl refl memory-KeepsKey emptied-Refuses
