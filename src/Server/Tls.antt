-- ===== src/Server/Tls.antt =====
-- The functions on certificates. Go's crypto and encoding packages, and the clock, are parameters.
use kopia_operator.Prelude.{
  ℕ, String, Bool, true, Option, none, some, List, [], ◌∷◌, ◌+◌, ltb, if◌then◌else◌,
}
use kopia_operator.Prelude.Hex.{hex}
use kopia_operator.Prelude.Int.{ℤ, pos, negsuc, is_pos}
use kopia_operator.Error.{plain}
use kopia_operator.Exec.{Result, ok, err, Exec, ◌>>=◌, pure, wrapping, wrap_result, lift}
use kopia_operator.Platform.{Platform}
use kopia_operator.World.{World}

-- The fields of x509.Certificate that are read. Times are nanoseconds.
pub record Certificate : Type 0 where
  pub raw : List ℕ
  pub not_after : ℕ

-- The fields of x509.Certificate that are set in the template.
pub record Template : Type 0 where
  pub serial_number : ℕ
  pub common_name : String
  pub organization : List String
  pub not_before : ℕ
  pub not_after : ℕ
  pub key_usage : List String
  pub ext_key_usage : List String
  pub basic_constraints_valid : Bool
  pub dns_names : List String
  pub ip_addresses : List String

pub record Crypto (P : Platform) : Type 1 where
  pub PrivateKey : Type 0
  -- rsa.GenerateKey(rand.Reader, bits)
  pub generate_key : ℕ → Exec (World P.State) PrivateKey
  -- rand.Int(rand.Reader, max)
  pub random_int : ℕ → Exec (World P.State) ℕ
  -- x509.CreateCertificate of a template that signs itself: the DER bytes
  pub create_certificate : Template → PrivateKey → Exec (World P.State) (List ℕ)
  pub parse_certificate : List ℕ → Result Certificate
  -- x509.MarshalPKCS1PrivateKey
  pub marshal_private_key : PrivateKey → List ℕ
  -- pem.Decode: the bytes of the first block
  pub decode_pem : String → Option (List ℕ)
  -- pem.EncodeToMemory: the type of the block and its bytes
  pub encode_pem : String → List ℕ → String
  -- sha256.Sum256
  pub sha256 : List ℕ → List ℕ
  pub now : World P.State → ℕ × World P.State
  -- time.Until
  pub until : ℕ → World P.State → ℤ × World P.State

-- 30*24*time.Hour and 365*24*time.Hour
abbrev pub renew_before : ℕ
renew_before = 2592000000000000

abbrev pub valid_for : ℕ
valid_for = 31536000000000000

-- remaining <= 0 || remaining < threshold
unfoldable pub expires_within : ℕ → ℤ → Bool
expires_within threshold (pos n) = if is_pos (pos n) then ltb n threshold else true
expires_within threshold (negsuc n) = true

module _ (P : Platform) (C : Crypto P) where
  open P use {State}
  open C use {
    generate_key, random_int, create_certificate, parse_certificate, marshal_private_key,
    decode_pem, encode_pem, sha256, now, until,
  }

  abbrev fingerprint_of : Certificate → String
  fingerprint_of certificate = hex "0123456789ABCDEF" (sha256 certificate.raw)

  abbrev parsed : Result Certificate → Result String
  parsed (ok certificate) = ok (fingerprint_of certificate)
  parsed (err e) = err e

  abbrev of_block : Option (List ℕ) → Result String
  of_block none = err (plain "failed to decode PEM block")
  of_block (some block) =
      parsed (wrap_result "failed to parse certificate" (parse_certificate block))

  unfoldable pub calculate_cert_fingerprint : String → Result String
  unfolding hex
  calculate_cert_fingerprint cert_pem = of_block (decode_pem cert_pem)

  abbrev parsed_needs_rotation : ℕ → Result Certificate → World State → Bool × World State
  parsed_needs_rotation threshold (err _) w = (true, w)
  parsed_needs_rotation threshold (ok certificate) w =
      let (remaining, w') = until certificate.not_after w in
      (expires_within threshold remaining, w')

  abbrev block_needs_rotation : ℕ → Option (List ℕ) → World State → Bool × World State
  block_needs_rotation threshold none w = (true, w)
  block_needs_rotation threshold (some block) w =
      parsed_needs_rotation threshold (parse_certificate block) w

  -- The reason, which is only logged, is left out.
  unfoldable pub cert_needs_rotation : String → ℕ → World State → Bool × World State
  unfolding expires_within
  cert_needs_rotation cert_pem threshold = block_needs_rotation threshold (decode_pem cert_pem)

  -- The certificate and the private key, in PEM. 2^128 bounds the serial number.
  unfoldable pub generate_self_signed_cert :
      String → List String → Exec (World State) (String × String)
  generate_self_signed_cert common_name dns_names = do
    key ← wrapping "failed to generate private key" (generate_key 2048)
    serial_number ←
        wrapping "failed to generate serial number"
          (random_int 340282366920938463463374607431768211456)
    not_before ← lift now
    let template : Template = record {
      serial_number = serial_number;
      common_name = common_name;
      organization = "kopia-operator" ∷ [];
      not_before = not_before;
      not_after = not_before + valid_for;
      key_usage = "KeyEncipherment" ∷ "DigitalSignature" ∷ [];
      ext_key_usage = "ServerAuth" ∷ [];
      basic_constraints_valid = true;
      dns_names = "localhost" ∷ dns_names;
      ip_addresses = "127.0.0.1" ∷ [];
    }
    der ← wrapping "failed to create certificate" (create_certificate template key)
    pure (encode_pem "CERTIFICATE" der, encode_pem "RSA PRIVATE KEY" (marshal_private_key key))
