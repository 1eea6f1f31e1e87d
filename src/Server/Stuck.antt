-- ===== src/Server/Stuck.antt =====
-- A generated TLS secret that is there without its certificate.
use kopia_operator.Prelude.{
  String, ◌<>◌, ◌≡◌, refl, Bool, true, false, none, some, Option, arith, ◌==◌, ap, ◌∙◌, subst, sym,
  inl, inr,
}
use kopia_operator.Prelude.Lists.{lookup}
use kopia_operator.Exec.{
  Exec, Result, Result-cases, pure, wrapping, ◌>>=◌, ◌>>◌, ok, err, wrap_result,
}
use kopia_operator.Kube.Meta.{ObjectMeta}
use kopia_operator.Kube.Objects.{Secret}
use kopia_operator.Api.Repository.{Repository}
use kopia_operator.Platform.{Platform}
use kopia_operator.World.{World, write, create, core_secret}
use kopia_operator.RepositoryController.{body, server_mode, after_tls}
use kopia_operator.Server.Certificate.{if-then}
use kopia_operator.Server.Deployment.{get_tls_secret_name}
use kopia_operator.Server.Tls.{Crypto, calculate_cert_fingerprint, generate_self_signed_cert}
use kopia_operator.Server.Manager.{
  in_namespace, new_tls_secret, server_common_name, server_dns_names, generate_tls_secret,
  auto_generated, with_tls_secret, ensure_tls_secret, server_manager,
}

abbrev pub is_err : {A : Type 0} → Result A → Bool
is_err (ok _) = false
is_err (err _) = true

abbrev pub is_some : {A : Type 0} → Option A → Bool
is_some none = false
is_some (some _) = true

module _ (P : Platform) (C : Crypto P) where
  open P use {State, secrets, set_controller_reference}

  -- In this state the API server refuses a Secret of this name in the repository's namespace.
  abbrev pub Refuses : Repository → String → State → Type 0
  Refuses repo name s =
      (o : Secret)
      → o.metadata.name ≡ name
      → o.metadata.namespace ≡ repo.metadata.namespace
      → is_err (secrets.create o s).0 ≡ true

  -- An owner reference leaves the name and the namespace alone.
  abbrev pub KeepsKey : Repository → Type 0
  KeepsKey repo =
      (m m' : ObjectMeta)
      → set_controller_reference "KopiaRepository" repo.metadata m ≡ ok m'
      → (m'.name ≡ m.name) × (m'.namespace ≡ m.namespace)

  -- The last part of generate_tls_secret.
  abbrev own_and_create : Repository → String → String → String → String → Exec (World State) String
  own_and_create repo name cert_pem key_pem fingerprint = do
    let secret = new_tls_secret repo name cert_pem key_pem fingerprint
    metadata ← (λ w. (
      wrap_result "failed to set controller reference on TLS secret"
          (set_controller_reference "KopiaRepository" repo.metadata secret.metadata),
      w,
    ))
    wrapping ("failed to create TLS secret " <> name)
        (write create core_secret metadata (secrets.create (record secret { metadata = metadata })))
    pure fingerprint

  err-create :
      (repo : Repository) (name cert_pem key_pem fingerprint : String) (w : World State)
      → KeepsKey repo
      → Refuses repo name w.api
      → is_err (own_and_create repo name cert_pem key_pem fingerprint w).0 ≡ true
  err-create repo name cert_pem key_pem fingerprint w keeps refuses =
      let secret = new_tls_secret repo name cert_pem key_pem fingerprint in
      elim (Result-cases
        (set_controller_reference "KopiaRepository" repo.metadata secret.metadata)) [
          | inr (e, a) ↦ rw a refl
          | inl (metadata, a) ↦
              let (same_name, same_namespace) = keeps secret.metadata metadata a in
              let sent : Secret = record secret { metadata = metadata } in
              let refused = refuses sent same_name same_namespace in
              elim (Result-cases (secrets.create sent w.api).0) [
                | inr (e, b) ↦ rw (a, b) refl
                | inl (stored, b) ↦ absurd (ground (arith, ap is_err b))
              ]
        ]

  err-generate_tls_secret :
      (repo : Repository) (name : String) (w : World State)
      → (generate_self_signed_cert P C (server_common_name repo) (server_dns_names repo) w).1.api
        ≡ w.api
      → KeepsKey repo
      → Refuses repo name w.api
      → is_err (generate_tls_secret P C repo name w).0 ≡ true
  unfolding generate_tls_secret
  err-generate_tls_secret repo name w quiet keeps refuses =
      let (made, w') =
        generate_self_signed_cert P C (server_common_name repo) (server_dns_names repo) w in
      elim (Result-cases made) [
        | inr (e, a) ↦ rw a refl
        | inl ((cert_pem, key_pem), a) ↦
            rw a (elim (Result-cases (calculate_cert_fingerprint P C cert_pem)) [
              | inr (e, b) ↦ rw b refl
              | inl (fingerprint, b) ↦ rw b (
                  err-create repo name cert_pem key_pem fingerprint w' keeps
                    (subst (Refuses repo name) (sym quiet) refuses))
            ])
      ]

  err-ensure_tls_secret :
      (repo : Repository) (w : World State) (secret : Secret) (s : State)
      → (repo.spec.server.tls.secret_name == "") ≡ true
      → secrets.get (in_namespace repo (get_tls_secret_name repo)) w.api ≡ (ok secret, s)
      → lookup "tls.crt" secret.contents ≡ none
      → (generate_self_signed_cert P C
          (server_common_name repo)
          (server_dns_names repo)
          (record w { api = s })).1.api
        ≡ s
      → KeepsKey repo
      → Refuses repo (get_tls_secret_name repo) s
      → is_err (ensure_tls_secret P C repo w).0 ≡ true
  unfolding ensure_tls_secret with_tls_secret auto_generated
  err-ensure_tls_secret repo w secret s auto got no_certificate quiet keeps refuses = rw got (
      ap (λ r. is_err r.0) (if-then _ _ _ auto)
      ∙ rw no_certificate (
          err-generate_tls_secret repo (get_tls_secret_name repo) (record w { api = s }) quiet keeps
            refuses))

  err-after_tls :
      (repo : Repository) (r : Result String) (w : World State)
      → is_err r ≡ true
      → is_some (after_tls P (server_manager P C) repo r w).0.error ≡ true
  unfolding after_tls
  err-after_tls repo (err e) w h = refl
  err-after_tls repo (ok f) w h = cc

  -- A repository in server mode whose generated TLS secret is there, but without `tls.crt`: the
  -- work on it ends with an error, whatever certificate is generated, since the API server refuses a
  -- second Secret of that name. Generating changes nothing
  -- in the API server, and an owner reference keeps the name and the namespace.
  pub body-stuck :
      (repo : Repository) (w : World State) (secret : Secret) (s : State)
      → (repo.spec.password_secret_name == "") ≡ false
      → repo.spec.server.enabled ≡ true
      → (repo.spec.server.tls.secret_name == "") ≡ true
      → secrets.get (in_namespace repo (get_tls_secret_name repo)) w.api ≡ (ok secret, s)
      → lookup "tls.crt" secret.contents ≡ none
      → (generate_self_signed_cert P C
          (server_common_name repo)
          (server_dns_names repo)
          (record w { api = s })).1.api
        ≡ s
      → KeepsKey repo
      → Refuses repo (get_tls_secret_name repo) s
      → is_some (body P (some (server_manager P C)) repo w).0.error ≡ true
  unfolding body server_mode
  body-stuck repo w secret s has_password in_server_mode auto got no_certificate quiet keeps
        refuses =
      simp (has_password, in_server_mode, body)
        (err-after_tls repo (ensure_tls_secret P C repo w).0 (ensure_tls_secret P C repo w).1
          (err-ensure_tls_secret repo w secret s auto got no_certificate quiet keeps refuses))
