-- ===== src/Server/Secrets.antt =====
-- What EnsureTLSSecret does to the secret with the certificate.
use kopia_operator.Prelude.{
  ℕ, String, ◌≡◌, refl, ◌≤◌, List, true, false, Option, none, some, arith, ◌==◌, inl, inr,
  Bool-cases,
}
use kopia_operator.Prelude.Lists.{lookup}
use kopia_operator.Prelude.Int.{pos}
use kopia_operator.Error.{is_not_found}
use kopia_operator.Exec.{Result, ok, err}
use kopia_operator.Kube.Objects.{Secret}
use kopia_operator.Api.Repository.{Repository}
use kopia_operator.Platform.{Platform}
use kopia_operator.World.{World}
use kopia_operator.Server.Deployment.{get_tls_secret_name}
use kopia_operator.Server.Tls.{
  Crypto, Certificate, renew_before, expires_within, cert_needs_rotation,
}
use kopia_operator.Server.Manager.{
  in_namespace, kept, provided, rotated, auto_generated, with_tls_secret, ensure_tls_secret,
}

not_expiring : (n : ℕ) → renew_before ≤ n → expires_within renew_before (pos n) ≡ false
unfolding expires_within
not_expiring n h = ground arith

module _ (P : Platform) (C : Crypto P) where
  open P use {State, secrets}
  open C use {decode_pem, parse_certificate, until}

  same-provided :
      (name : String) (crt key : Option String) (w : World State)
      → (provided P C name crt key w).1 ≡ w
  unfolding provided
  same-provided name none key w = refl
  same-provided name (some crt) none w = refl
  same-provided name (some crt) (some key) w = refl

  same-with_tls_secret :
      (repo : Repository) (name : String) (found : Result Secret) (w : World State)
      → (repo.spec.server.tls.secret_name == "") ≡ false
      → (with_tls_secret P C repo name found w).1 ≡ w
  unfolding with_tls_secret
  same-with_tls_secret repo name (ok secret) w named =
      rw named
        (same-provided name (lookup "tls.crt" secret.contents) (lookup "tls.key" secret.contents) w)
  same-with_tls_secret repo name (err e) w named = elim (Bool-cases (is_not_found e)) [
    | inl h ↦ rw (h, named, with_tls_secret)
    | inr h ↦ rw (h, with_tls_secret)
  ]

  -- A TLS secret that the user names is only read: whatever it holds, and whether it is there or not,
  -- the operator sends no write, draws no key and reads no clock.
  pub ensure_tls_secret-provided :
      (repo : Repository) (w : World State)
      → (repo.spec.server.tls.secret_name == "") ≡ false
      → (ensure_tls_secret P C repo w).1
        ≡ record w { api = (secrets.get (in_namespace repo (get_tls_secret_name repo)) w.api).1 }
  unfolding ensure_tls_secret
  ensure_tls_secret-provided repo w named =
      let (found, s) = secrets.get (in_namespace repo (get_tls_secret_name repo)) w.api in
      same-with_tls_secret repo (get_tls_secret_name repo) found (record w { api = s }) named

  -- An auto-generated certificate that parses, and that is valid for at least 30 more days, stays: with
  -- its fingerprint in the secret, EnsureTLSSecret answers that fingerprint, and does nothing but read
  -- the secret and the clock.
  pub ensure_tls_secret-kept :
      (repo : Repository) (w : World State) (secret : Secret) (cert_pem fingerprint : String)
      (block : List ℕ) (certificate : Certificate) (remaining : ℕ) (s : State) (w' : World State)
      → (repo.spec.server.tls.secret_name == "") ≡ true
      → secrets.get (in_namespace repo (get_tls_secret_name repo)) w.api ≡ (ok secret, s)
      → lookup "tls.crt" secret.contents ≡ some cert_pem
      → lookup "fingerprint" secret.contents ≡ some fingerprint
      → decode_pem cert_pem ≡ some block
      → parse_certificate block ≡ ok certificate
      → until certificate.not_after (record w { api = s }) ≡ (pos remaining, w')
      → renew_before ≤ remaining
      → ensure_tls_secret P C repo w ≡ (ok fingerprint, w')
  unfolding ensure_tls_secret with_tls_secret auto_generated rotated kept cert_needs_rotation
  ensure_tls_secret-kept repo w secret cert_pem fingerprint block certificate remaining s w' auto
        got crt stored decoded parses clock later =
      let stays : expires_within renew_before (pos remaining) ≡ false =
        not_expiring remaining later in
      rw (got, auto, crt, decoded, parses, clock, stays, stored)
