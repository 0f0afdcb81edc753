-- ===== src/Certs/Tools.antt =====
-- What pkg/certs uses of crypto/x509, crypto/ecdsa, encoding/pem and the client: parameters, with
-- the contracts that the theorems rely on. Times and durations are seconds.
use tsecret.Common.{ℕ, Bool, Option, some, List, Text, Bytes, Result, ok, ◌≡◌, ◌≢◌}
use tsecret.Api.{NamespacedName, Secret}

pub record Certificate : Type 0 where
  pub raw : Bytes
  pub not_after : ℕ

-- The template of x509.CreateCertificate; the usages are named as in the package.
pub record Template : Type 0 where
  pub serial_number : ℕ
  pub common_name : Text
  pub organization : List Text
  pub dns_names : List Text
  pub not_before : ℕ
  pub not_after : ℕ
  pub key_usage : List Text
  pub ext_key_usage : List Text
  pub basic_constraints_valid : Bool
  pub is_ca : Bool
  pub max_path_len : ℕ

-- `generate_key` and `serial` take the place of the call among those that read random bytes. The
-- parent of `create` is `none` for a certificate that is its own. `parse_pkcs8` gives no key where
-- the key is not ECDSA.
pub record X509 (Key : Type 0) : Type 0 where
  pub generate_key : ℕ → Result Key
  pub serial : ℕ → ℕ
  pub create : Template → Option Certificate → Key → Key → Result Bytes
  pub parse_certificate : Bytes → Result Certificate
  pub parse_ec_key : Bytes → Result Key
  pub parse_pkcs8 : Bytes → Result (Option Key)
  pub marshal_ec_key : Key → Result Bytes
  pub pem_encode : Text → Bytes → Bytes
  pub pem_decode : Bytes → Option Bytes

pub record IsX509 {Key : Type 0} (x : X509 Key) : Type 0 where
  pub decoded : (kind : Text) (s : Bytes) → x.pem_decode (x.pem_encode kind s) ≡ some s
  pub parsed :
      (t : Template) (parent : Option Certificate) (key signer : Key) (der : Bytes)
      → x.create t parent key signer ≡ ok der
      → (cert : Certificate) × (x.parse_certificate der ≡ ok cert) × (cert.not_after ≡ t.not_after)
  pub marshalled :
      (key : Key) (der : Bytes) → x.marshal_ec_key key ≡ ok der → x.parse_ec_key der ≡ ok key

pub record Webhook : Type 0 where
  pub name : Text
  pub ca_bundle : Bytes

-- A MutatingWebhookConfiguration
pub record WebhookConfig : Type 0 where
  pub name : Text
  pub webhooks : List Webhook

-- The client's calls on the cluster `W`; a Secret is created with its type.
pub record CertClient (W : Type 0) : Type 0 where
  pub get_secret : W → NamespacedName → Result Secret
  pub create_secret : Text → Secret → W → Result (Unit {0}) × W
  pub update_secret : Secret → W → Result (Unit {0}) × W
  pub get_webhooks : W → Text → Result WebhookConfig
  pub update_webhooks : WebhookConfig → W → Result (Unit {0}) × W

-- The key of a Secret.
abbrev pub key_of : Secret → NamespacedName
key_of s = record { namespace = s.metadata.namespace; name = s.metadata.name }

-- Objects are found as they were written last, under their own names, and writing one leaves the
-- others.
pub record IsCertClient {W : Type 0} (c : CertClient W) : Type 0 where
  pub named : (w : W) (k : NamespacedName) (s : Secret) → c.get_secret w k ≡ ok s → key_of s ≡ k
  pub created :
      (kind : Text) (s : Secret) (w : W)
      → (c.create_secret kind s w).0 ≡ ok tt
      → (t : Secret) × (c.get_secret (c.create_secret kind s w).1 (key_of s) ≡ ok t)
        × (t.entries ≡ s.entries)
  pub updated :
      (s : Secret) (w : W)
      → (c.update_secret s w).0 ≡ ok tt
      → (t : Secret) × (c.get_secret (c.update_secret s w).1 (key_of s) ≡ ok t)
        × (t.entries ≡ s.entries)
  pub create_apart :
      (kind : Text) (s : Secret) (w : W) (k : NamespacedName)
      → key_of s ≢ k
      → c.get_secret (c.create_secret kind s w).1 k ≡ c.get_secret w k
  pub update_apart :
      (s : Secret) (w : W) (k : NamespacedName)
      → key_of s ≢ k
      → c.get_secret (c.update_secret s w).1 k ≡ c.get_secret w k
  pub webhooks_named :
      (w : W) (name : Text) (g : WebhookConfig) → c.get_webhooks w name ≡ ok g → g.name ≡ name
  pub webhooks_updated :
      (g : WebhookConfig) (w : W)
      → (c.update_webhooks g w).0 ≡ ok tt
      → (h : WebhookConfig) × (c.get_webhooks (c.update_webhooks g w).1 g.name ≡ ok h)
        × (h.webhooks ≡ g.webhooks)
  pub webhooks_apart :
      (g : WebhookConfig) (w : W) (k : NamespacedName)
      → c.get_secret (c.update_webhooks g w).1 k ≡ c.get_secret w k
