-- ===== src/Server/Certificate.antt =====
-- The life of a generated certificate: EnsureTLSSecret in a reconcile that finds no secret, in the next
-- one, and in one that finds a certificate about to expire.
use kopia_operator.Prelude.{
  ℕ, String, ◌≡◌, refl, ◌<◌, arith, ◌≤◌, List, true, some, ◌==◌, ◌∙◌, Bool, if◌then◌else◌,
}
use kopia_operator.Prelude.Lists.{lookup}
use kopia_operator.Prelude.Int.{ℤ, pos, negsuc}
use kopia_operator.Prelude.Hex.{hex}
use kopia_operator.Error.{Error, is_not_found}
use kopia_operator.Exec.{ok, err, Exec}
use kopia_operator.Kube.Meta.{ObjectMeta}
use kopia_operator.Kube.Objects.{Secret}
use kopia_operator.Api.Repository.{Repository}
use kopia_operator.Platform.{Platform}
use kopia_operator.World.{World, emit, api_write, create, delete, core_secret}
use kopia_operator.Server.Deployment.{get_tls_secret_name}
use kopia_operator.Server.Tls.{
  Crypto, Certificate, renew_before, expires_within, cert_needs_rotation,
  calculate_cert_fingerprint, generate_self_signed_cert,
}
use kopia_operator.Server.Manager.{
  in_namespace, new_tls_secret, server_common_name, server_dns_names, generate_tls_secret, rotated,
  auto_generated, with_tls_secret, ensure_tls_secret,
}
use kopia_operator.Server.Secrets.{ensure_tls_secret-kept}

pub if-then :
    {W A : Type 0} {b : Bool} (x y : Exec W A) (w : W) → b ≡ true → (if b then x else y) w ≡ x w
if-then x y w h = rw h

-- Expired, or less than 30 days left.
abbrev pub IsExpiring : ℤ → Type 0
IsExpiring (pos n) = n < renew_before
IsExpiring (negsuc n) = Unit

expires_within_lem :
    (remaining : ℤ) → IsExpiring remaining → expires_within renew_before remaining ≡ true
unfolding expires_within
expires_within_lem (pos n) h = ground arith
expires_within_lem (negsuc n) h = refl

module _ (P : Platform) (C : Crypto P) where
  open P use {State, secrets, set_controller_reference}
  open C use {decode_pem, parse_certificate, sha256, until}

  -- What CalculateCertFingerprint answers for the certificate.
  abbrev pub fingerprint : Certificate → String
  fingerprint certificate = hex "0123456789ABCDEF" (sha256 certificate.raw)

  -- The secret that is sent, owned by the repository.
  abbrev pub generated : Repository → String → String → Certificate → ObjectMeta → Secret
  generated repo cert_pem key_pem certificate owned =
      record (new_tls_secret repo (get_tls_secret_name repo) cert_pem key_pem
        (fingerprint certificate)) { metadata = owned }

  -- The world after the secret was created.
  abbrev pub after_create : ObjectMeta → World State → State → World State
  after_create owned w s =
      record (emit (api_write create core_secret owned.name owned.namespace) w) { api = s }

  -- The world after the secret was deleted.
  abbrev pub after_delete : ObjectMeta → World State → State → World State
  after_delete object w s =
      record (emit (api_write delete core_secret object.name object.namespace) w) { api = s }

  calculate_cert_fingerprint_lem :
      (cert_pem : String) (block : List ℕ) (certificate : Certificate)
      → decode_pem cert_pem ≡ some block
      → parse_certificate block ≡ ok certificate
      → calculate_cert_fingerprint P C cert_pem ≡ ok (fingerprint certificate)
  unfolding calculate_cert_fingerprint
  calculate_cert_fingerprint_lem cert_pem block certificate decodes parses = rw (decodes, parses)

  module _ (repo : Repository) (v w' : World State) (s' : State) (cert_pem key_pem : String)
      (block : List ℕ) (certificate : Certificate) (owned : ObjectMeta) (stored : Secret)
      (generates : generate_self_signed_cert P C (server_common_name repo) (server_dns_names repo) v
        ≡ (ok (cert_pem, key_pem), w'))
      (decodes : decode_pem cert_pem ≡ some block)
      (parses : parse_certificate block ≡ ok certificate)
      (owns : set_controller_reference "KopiaRepository" repo.metadata
          (new_tls_secret repo
            (get_tls_secret_name repo)
            cert_pem
            key_pem
            (fingerprint certificate)).metadata
        ≡ ok owned)
      (creates : secrets.create (generated repo cert_pem key_pem certificate owned) w'.api
        ≡ (ok stored, s')) where
    generate_tls_secret_lem :
        generate_tls_secret P C repo (get_tls_secret_name repo) v
        ≡ (ok (fingerprint certificate), after_create owned w' s')
    unfolding generate_tls_secret
    generate_tls_secret_lem = rw (
      generates,
      calculate_cert_fingerprint_lem cert_pem block certificate decodes parses,
      owns,
      creates,
    )

    ensure-generates :
        (w : World State) (s : State) (e : Error)
        → (repo.spec.server.tls.secret_name == "") ≡ true
        → secrets.get (in_namespace repo (get_tls_secret_name repo)) w.api ≡ (err e, s)
        → is_not_found e ≡ true
        → record w { api = s } ≡ v
        → ensure_tls_secret P C repo w ≡ (ok (fingerprint certificate), after_create owned w' s')
    unfolding ensure_tls_secret with_tls_secret
    ensure-generates w s e auto missing not_there same =
        rw (missing, not_there, same) (if-then _ _ _ auto ∙ generate_tls_secret_lem)

    ensure-rotates :
        (w v' : World State) (s s'' : State) (secret : Secret) (old_pem : String)
        (old_block : List ℕ) (old : Certificate) (remaining : ℤ)
        → (repo.spec.server.tls.secret_name == "") ≡ true
        → secrets.get (in_namespace repo (get_tls_secret_name repo)) w.api ≡ (ok secret, s)
        → lookup "tls.crt" secret.contents ≡ some old_pem
        → decode_pem old_pem ≡ some old_block
        → parse_certificate old_block ≡ ok old
        → until old.not_after (record w { api = s }) ≡ (remaining, v')
        → expires_within renew_before remaining ≡ true
        → secrets.delete secret v'.api ≡ (ok tt, s'')
        → after_delete secret.metadata v' s'' ≡ v
        → ensure_tls_secret P C repo w ≡ (ok (fingerprint certificate), after_create owned w' s')
    unfolding ensure_tls_secret with_tls_secret auto_generated rotated cert_needs_rotation
    ensure-rotates w v' s s'' secret old_pem old_block old remaining auto got crt old_decodes
          old_parses clock expiring deletes same =
        rw got (
          if-then _ _ _ auto
          ∙ rw (crt, old_decodes, old_parses, clock, expiring, deletes, same)
              generate_tls_secret_lem)

  -- When no secret is found, the generated certificate decodes and parses, and the create succeeds,
  -- EnsureTLSSecret answers the certificate's SHA-256 in hexadecimal, and does nothing but read the
  -- secret, generate the certificate and create the secret. When the next call finds the data that
  -- was sent, and the certificate has 30 days left, it answers the same fingerprint, and does nothing
  -- but read the secret and the clock.
  pub ensure_tls_secret-again :
      (repo : Repository) (w w' w'' : World State) (s s' s'' : State) (e : Error)
      (cert_pem key_pem : String) (block : List ℕ) (certificate : Certificate) (owned : ObjectMeta)
      (stored found : Secret) (remaining : ℕ)
      → (repo.spec.server.tls.secret_name == "") ≡ true
      → secrets.get (in_namespace repo (get_tls_secret_name repo)) w.api ≡ (err e, s)
      → is_not_found e ≡ true
      → generate_self_signed_cert P C
          (server_common_name repo)
          (server_dns_names repo)
          (record w { api = s })
        ≡ (ok (cert_pem, key_pem), w')
      → decode_pem cert_pem ≡ some block
      → parse_certificate block ≡ ok certificate
      → set_controller_reference "KopiaRepository" repo.metadata
          (new_tls_secret repo
            (get_tls_secret_name repo)
            cert_pem
            key_pem
            (fingerprint certificate)).metadata
        ≡ ok owned
      → secrets.create (generated repo cert_pem key_pem certificate owned) w'.api ≡ (ok stored, s')
      → secrets.get (in_namespace repo (get_tls_secret_name repo)) s' ≡ (ok found, s'')
      → found.contents ≡ (generated repo cert_pem key_pem certificate owned).contents
      → until certificate.not_after (record (after_create owned w' s') { api = s'' })
        ≡ (pos remaining, w'')
      → renew_before ≤ remaining
      → (ensure_tls_secret P C repo w ≡ (ok (fingerprint certificate), after_create owned w' s'))
        × (ensure_tls_secret P C repo (after_create owned w' s')
            ≡ (ok (fingerprint certificate), w''))
  unfolding lookup
  ensure_tls_secret-again repo w w' w'' s s' s'' e cert_pem key_pem block certificate owned stored
        found remaining auto missing not_there generates decodes parses owns creates got kept clock
        later =
      (
        ensure-generates repo (record w { api = s }) w' s' cert_pem key_pem block certificate owned
            stored generates decodes parses owns creates w s e auto missing not_there refl,
        ensure_tls_secret-kept P C repo (after_create owned w' s') found cert_pem
            (fingerprint certificate) block certificate remaining s'' w'' auto got (rw kept)
            (rw kept) decodes parses clock later,
      )

  -- An auto-generated certificate that parses, and that has expired or has less than 30 days left, is
  -- replaced: when the delete and the create succeed and the new certificate decodes and parses,
  -- EnsureTLSSecret answers the new certificate's SHA-256 in hexadecimal, and does nothing but read
  -- the secret and the clock, delete the secret, generate the certificate and create the secret.
  pub ensure_tls_secret-rotates :
      (repo : Repository) (w v w' : World State) (s s' s'' : State) (secret : Secret)
      (old_pem : String) (old_block : List ℕ) (old : Certificate) (remaining : ℤ)
      (cert_pem key_pem : String) (block : List ℕ) (certificate : Certificate) (owned : ObjectMeta)
      (stored : Secret)
      → (repo.spec.server.tls.secret_name == "") ≡ true
      → secrets.get (in_namespace repo (get_tls_secret_name repo)) w.api ≡ (ok secret, s)
      → lookup "tls.crt" secret.contents ≡ some old_pem
      → decode_pem old_pem ≡ some old_block
      → parse_certificate old_block ≡ ok old
      → until old.not_after (record w { api = s }) ≡ (remaining, v)
      → IsExpiring remaining
      → secrets.delete secret v.api ≡ (ok tt, s'')
      → generate_self_signed_cert P C
          (server_common_name repo)
          (server_dns_names repo)
          (after_delete secret.metadata v s'')
        ≡ (ok (cert_pem, key_pem), w')
      → decode_pem cert_pem ≡ some block
      → parse_certificate block ≡ ok certificate
      → set_controller_reference "KopiaRepository" repo.metadata
          (new_tls_secret repo
            (get_tls_secret_name repo)
            cert_pem
            key_pem
            (fingerprint certificate)).metadata
        ≡ ok owned
      → secrets.create (generated repo cert_pem key_pem certificate owned) w'.api ≡ (ok stored, s')
      → ensure_tls_secret P C repo w ≡ (ok (fingerprint certificate), after_create owned w' s')
  ensure_tls_secret-rotates repo w v w' s s' s'' secret old_pem old_block old remaining cert_pem
        key_pem block certificate owned stored auto got crt old_decodes old_parses clock expiring
        deletes generates decodes parses owns creates =
      ensure-rotates repo (after_delete secret.metadata v s'') w' s' cert_pem key_pem block
        certificate owned stored generates decodes parses owns creates w v s s'' secret old_pem
        old_block old remaining auto got crt old_decodes old_parses clock
        (expires_within_lem remaining expiring) deletes refl
