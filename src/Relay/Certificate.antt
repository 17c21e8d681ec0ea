-- ===== src/Relay/Certificate.antt =====
-- internal/relay/cert.go: the self-signed certificate of the experimental relay. Keys, certificates
-- and their encodings are those of crypto/rsa, crypto/x509, encoding/pem and crypto/tls.
use turnfly.Prelude.{ℕ, ◌*◌, Bool, true, List, [], ◌∷◌}
use turnfly.Int.{ℤ, pos, ◌+ℤ◌}
use turnfly.Text.{Bytes, codes}
use turnfly.Result.{Result, ◌>>=◌}
use turnfly.Clock.{hour}

pub data KeyUsage : Type 0 where
  digital_signature key_encipherment : KeyUsage

pub data ExtKeyUsage : Type 0 where
  server_auth client_auth : ExtKeyUsage

-- The fields of `x509.Certificate` that the template sets; the times are wall times.
pub record Template : Type 0 where
  pub serial_number : ℕ
  pub organization : List Bytes
  pub not_before : ℤ
  pub not_after : ℤ
  pub key_usage : List KeyUsage
  pub ext_key_usage : List ExtKeyUsage
  pub basic_constraints_valid : Bool

-- The template, with the two readings of the clock that it takes.
pub template : ℤ → ℤ → Template
template now then_now = record {
  serial_number = 1;
  organization = codes "turnfly-relay" ∷ [];
  not_before = now;
  not_after = then_now +ℤ pos (365 * 24 * hour);
  key_usage = digital_signature ∷ key_encipherment ∷ [];
  ext_key_usage = server_auth ∷ client_auth ∷ [];
  basic_constraints_valid = true;
}

pub record Crypto (Key PublicKey Cert : Type 0) : Type 0 where
  pub generate_key : ℕ → Result Bytes Key
  pub public_key : Key → PublicKey
  pub create_certificate : Template → Template → PublicKey → Key → Result Bytes Bytes
  pub marshal_key : Key → Bytes
  pub pem_encode : Bytes → Bytes → Bytes
  pub key_pair : Bytes → Bytes → Result Bytes Cert

module _ {Key PublicKey Cert : Type 0} (c : Crypto Key PublicKey Cert) where
  -- `GenerateSelfSignedCert`
  pub generate_self_signed_cert : ℤ → ℤ → Result Bytes Cert
  unfolding template
  generate_self_signed_cert now then_now = do
    key ← c.generate_key 2048
    let t = template now then_now
    der ← c.create_certificate t t (c.public_key key) key
    c.key_pair (c.pem_encode (codes "CERTIFICATE") der)
        (c.pem_encode (codes "RSA PRIVATE KEY") (c.marshal_key key))
