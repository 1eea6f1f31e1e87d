-- ===== src/Sends/Servers.antt =====
-- What the server manager sends.
use kopia_operator.Prelude.{
  ℕ, String, Bool, true, false, ◌≡◌, refl, List, arith, Option, none, some,
}
use kopia_operator.Exec.{Result, ok, err}
use kopia_operator.Kube.Deployments.{Deployment}
use kopia_operator.Kube.Objects.{Secret, Service}
use kopia_operator.Api.Repository.{Repository}
use kopia_operator.Platform.{Platform}
use kopia_operator.World.{World}
use kopia_operator.World.Trace.{count-append_one}
use kopia_operator.Interfaces.{ServerManager}
use kopia_operator.Server.Tls.{Crypto, Template, generate_self_signed_cert, cert_needs_rotation}
use kopia_operator.Server.Manager.{
  with_deployment, ensure_server_deployment, with_service, ensure_server_service, is_server_ready,
  generate_tls_secret, provided, kept, rotated, auto_generated, with_tls_secret, ensure_tls_secret,
  server_manager,
}
use kopia_operator.Sends.{tally}

-- A server manager adds nothing that is counted.
pub record IsQuietServers (k : Bool) {S : Type 0} (servers : ServerManager (World S)) : Type 0 where
  pub ensure_server_deployment :
      (repo : Repository) (w : World S)
      → tally k (servers.ensure_server_deployment repo w).1.trace ≡ tally k w.trace
  pub ensure_server_service :
      (repo : Repository) (w : World S)
      → tally k (servers.ensure_server_service repo w).1.trace ≡ tally k w.trace
  pub ensure_tls_secret :
      (repo : Repository) (w : World S)
      → tally k (servers.ensure_tls_secret repo w).1.trace ≡ tally k w.trace
  pub is_server_ready :
      (repo : Repository) (w : World S)
      → tally k (servers.is_server_ready repo w).1.trace ≡ tally k w.trace

-- Go's crypto packages and the clock are no writes of objects.
pub record IsQuietCrypto (P : Platform) (C : Crypto P) : Type 0 where
  pub trace-generate_key : (n : ℕ) (w : World P.State) → (C.generate_key n w).1.trace ≡ w.trace
  pub trace-random_int : (n : ℕ) (w : World P.State) → (C.random_int n w).1.trace ≡ w.trace
  pub trace-create_certificate :
      (template : Template) (key : C.PrivateKey) (w : World P.State)
      → (C.create_certificate template key w).1.trace ≡ w.trace
  pub trace-now : (w : World P.State) → (C.now w).1.trace ≡ w.trace
  pub trace-until : (t : ℕ) (w : World P.State) → (C.until t w).1.trace ≡ w.trace

module _ (k : Bool) (P : Platform) (C : Crypto P) (quiet : IsQuietCrypto P C) where
  open P use {State, secrets}
  open quiet use {
    trace-generate_key, trace-random_int, trace-create_certificate, trace-now, trace-until,
  }

  tally-with_deployment :
      (desired : Deployment) (found : Result Deployment) (w : World State)
      → tally k (with_deployment P C desired found w).1.trace ≡ tally k w.trace
  unfolding with_deployment
  tally-with_deployment desired (err e) w = grind (arith, count-append_one)
  tally-with_deployment desired (ok existing) w = grind (arith, count-append_one)

  tally-ensure_server_deployment :
      (repo : Repository) (w : World State)
      → tally k (ensure_server_deployment P C repo w).1.trace ≡ tally k w.trace
  unfolding ensure_server_deployment
  tally-ensure_server_deployment repo w = grind (arith, tally-with_deployment)

  tally-with_service :
      (desired : Service) (found : Result Service) (w : World State)
      → tally k (with_service P C desired found w).1.trace ≡ tally k w.trace
  unfolding with_service
  tally-with_service desired (err e) w = grind (arith, count-append_one)
  tally-with_service desired (ok existing) w = grind (arith, count-append_one)

  tally-ensure_server_service :
      (repo : Repository) (w : World State)
      → tally k (ensure_server_service P C repo w).1.trace ≡ tally k w.trace
  unfolding ensure_server_service
  tally-ensure_server_service repo w = grind (arith, tally-with_service)

  tally-is_server_ready :
      (repo : Repository) (w : World State)
      → tally k (is_server_ready P C repo w).1.trace ≡ tally k w.trace
  unfolding is_server_ready
  tally-is_server_ready repo w = ground arith

  trace-generate_self_signed_cert :
      (name : String) (dns_names : List String) (w : World State)
      → (generate_self_signed_cert P C name dns_names w).1.trace ≡ w.trace
  unfolding generate_self_signed_cert
  trace-generate_self_signed_cert name dns_names w =
      grind (arith, trace-generate_key, trace-random_int, trace-now, trace-create_certificate)

  tally-generate_tls_secret :
      (repo : Repository) (name : String) (w : World State)
      → tally k (generate_tls_secret P C repo name w).1.trace ≡ tally k w.trace
  unfolding generate_tls_secret
  tally-generate_tls_secret repo name w =
      grind (arith, count-append_one, trace-generate_self_signed_cert)

  trace-cert_needs_rotation :
      (cert_pem : String) (threshold : ℕ) (w : World State)
      → (cert_needs_rotation P C cert_pem threshold w).1.trace ≡ w.trace
  unfolding cert_needs_rotation
  trace-cert_needs_rotation cert_pem threshold w = grind (arith, trace-until)

  tally-provided :
      (name : String) (crt key : Option String) (w : World State)
      → tally k (provided P C name crt key w).1.trace ≡ tally k w.trace
  unfolding provided
  tally-provided name none key w = refl
  tally-provided name (some crt) none w = refl
  tally-provided name (some crt) (some key) w = refl

  tally-kept :
      (cert_pem : String) (fingerprint : Option String) (w : World State)
      → tally k (kept P C cert_pem fingerprint w).1.trace ≡ tally k w.trace
  unfolding kept
  tally-kept cert_pem none w = refl
  tally-kept cert_pem (some fingerprint) w = refl

  tally-rotated :
      (repo : Repository) (name : String) (secret : Secret) (cert_pem : String) (b : Bool)
      (w : World State)
      → tally k (rotated P C repo name secret cert_pem b w).1.trace ≡ tally k w.trace
  unfolding rotated
  tally-rotated repo name secret cert_pem false w = tally-kept cert_pem _ w
  tally-rotated repo name secret cert_pem true w =
      grind (arith, count-append_one, tally-generate_tls_secret)

  tally-auto_generated :
      (repo : Repository) (name : String) (secret : Secret) (crt : Option String) (w : World State)
      → tally k (auto_generated P C repo name secret crt w).1.trace ≡ tally k w.trace
  unfolding auto_generated
  tally-auto_generated repo name secret none w = tally-generate_tls_secret repo name w
  tally-auto_generated repo name secret (some cert_pem) w =
      grind (arith, tally-rotated, trace-cert_needs_rotation)

  tally-with_tls_secret :
      (repo : Repository) (name : String) (found : Result Secret) (w : World State)
      → tally k (with_tls_secret P C repo name found w).1.trace ≡ tally k w.trace
  unfolding with_tls_secret
  tally-with_tls_secret repo name (ok secret) w =
      grind (arith, tally-auto_generated, tally-provided)
  tally-with_tls_secret repo name (err e) w = grind (arith, tally-generate_tls_secret)

  tally-ensure_tls_secret :
      (repo : Repository) (w : World State)
      → tally k (ensure_tls_secret P C repo w).1.trace ≡ tally k w.trace
  unfolding ensure_tls_secret
  tally-ensure_tls_secret repo w = grind (arith, tally-with_tls_secret)

  pub server_manager-IsQuietServers : IsQuietServers k (server_manager P C)
  server_manager-IsQuietServers = record {
    ensure_server_deployment = tally-ensure_server_deployment;
    ensure_server_service = tally-ensure_server_service;
    ensure_tls_secret = tally-ensure_tls_secret;
    is_server_ready = tally-is_server_ready;
  }
