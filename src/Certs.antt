-- ===== src/Certs.antt =====
-- pkg/certs/certs.go: EnsureCerts is `ensure_certs`, NeedsRenewal `needs_renewal`, and the methods
-- keep their names. The clock stands still while one of them runs.
pub mod Tools
pub mod Ensure
pub mod Steps
pub mod Serving
pub mod Ready
pub mod Ensured
pub mod Replaced
pub mod Samples
use tsecret.Common.{
  ℕ, String, ◌+◌, ◌-◌, Bool, true, false, ◌||◌, not, Option, none, some, List, [], ◌∷◌, ◌++◌, Text,
  Bytes, codes, text_eq, Map, lookup, Result, ok, err, Message, errorf, wrap_shown, text, wrap,
  is_not_found, ◌>>=◌, ltb, if◌then◌else◌,
}
use tsecret.Api.{NamespacedName, Secret, ObjectMeta}
use tsecret.Certs.Tools.{Certificate, Template, X509, Webhook, WebhookConfig, CertClient}

abbrev pub ca_secret_name : Text
ca_secret_name = codes "tsecret-ca"

abbrev pub serving_cert_secret_name : Text
serving_cert_secret_name = codes "tsecret-webhook-certs"

abbrev pub webhook_config_name : Text
webhook_config_name = codes "tsecret-mutating-webhook"

-- 10 years, 1 year and 30 days
abbrev pub ca_validity_duration : ℕ
ca_validity_duration = 315360000

abbrev pub serving_cert_validity_duration : ℕ
serving_cert_validity_duration = 31536000

abbrev pub renewal_threshold : ℕ
renewal_threshold = 2592000

pub record CertManager (W : Type 0) : Type 0 where
  pub client : CertClient W
  pub namespace : Text
  pub service : Text

-- The keys of the two Secrets.
abbrev pub ca_key : {W : Type 0} → CertManager W → NamespacedName
ca_key cm = record { namespace = cm.namespace; name = ca_secret_name }

abbrev pub serving_key : {W : Type 0} → CertManager W → NamespacedName
serving_key cm = record { namespace = cm.namespace; name = serving_cert_secret_name }

-- `if err != nil { return err }` behind a call that changes the cluster.
unfoldable pub step {ℓ κ} :
    {W : Type 0} {A : Type ℓ} {B : Type κ} → Result A × W → (A → W → Result B × W) → Result B × W
step (ok a, w) next = next a w
step (err e, w) next = (err e, w)

abbrev pub wrap_step {ℓ} : {W : Type 0} {A : Type ℓ} → String → Result A × W → Result A × W
wrap_step format (r, w) = (wrap format [] r, w)

abbrev pub tls_crt : Text
tls_crt = codes "tls.crt"

abbrev pub tls_key : Text
tls_key = codes "tls.key"

abbrev pub tls_data : Bytes → Bytes → Map Bytes
tls_data cert_pem key_pem = (tls_crt, cert_pem) ∷ (tls_key, key_pem) ∷ []

abbrev managed : Text → Map Text
managed component =
    (codes "app.kubernetes.io/managed-by", codes "tsecret-operator")
    ∷ (codes "app.kubernetes.io/component", component)
    ∷ []

abbrev pub tls_type : Text
tls_type = codes "kubernetes.io/tls"

-- A Secret that the manager creates.
abbrev pub new_secret : Text → Text → Text → Map Bytes → Secret
new_secret name namespace component entries = record {
  metadata = record {
    name = name;
    namespace = namespace;
    labels = managed component;
    annotations = [];
    generation = 0;
  };
  entries = entries;
}

-- `m[k]` of a map of byte slices.
unfoldable pub bytes_at : Text → Map Bytes → Bytes
bytes_at k m = elim (lookup k m) [ none ↦ [] | some s ↦ s ]

module _ {Key : Type 0} (x : X509 Key) where
  unfoldable pub marshal_key : Key → Result Bytes
  marshal_key key = do
    der ← wrap "failed to marshal EC private key: %w" [] (x.marshal_ec_key key)
    ok (x.pem_encode (codes "EC PRIVATE KEY") der)

  abbrev pub cert_pem : Bytes → Bytes
  cert_pem der = x.pem_encode (codes "CERTIFICATE") der

  -- The EC form is tried first, then PKCS8.
  unfoldable pub parse_key : Bytes → Result Key
  parse_key der = elim (x.parse_ec_key der) [
    | ok key ↦ ok key
    | err e ↦ elim (x.parse_pkcs8 der) [
      | err e2 ↦ err (wrap_shown "failed to parse CA private key: %w (also tried PKCS8: %v)" e e2)
      | ok none ↦ err (errorf "CA key is not ECDSA" [])
      | ok (some key) ↦ ok key
    ]
  ]

  unfoldable pub parse_ca_from_secret : Secret → Result (Key × Certificate)
  unfolding bytes_at parse_key
  parse_ca_from_secret secret = elim (x.pem_decode (bytes_at tls_key secret.entries)) [
    | none ↦ err (errorf "failed to decode CA private key PEM" [])
    | some der ↦ do
      key ← parse_key der
      elim (x.pem_decode (bytes_at tls_crt secret.entries)) [
        | none ↦ err (errorf "failed to decode CA certificate PEM" [])
        | some cert_der ↦ do
          cert ← wrap "failed to parse CA certificate: %w" [] (x.parse_certificate cert_der)
          ok (key, cert)
      ]
  ]

  module _ {W : Type 0} (cm : CertManager W) (now : ℕ) where
    -- Whether a serving certificate that is there is due: `remaining` may be negative.
    unfoldable pub is_due : Secret → Bool
    is_due secret = elim (lookup tls_crt secret.entries) [
      | none ↦ true
      | some crt ↦ elim (x.pem_decode crt) [
        | none ↦ true
        | some der ↦ elim (x.parse_certificate der) [
          | err e ↦ true
          | ok cert ↦ ltb cert.not_after (now + renewal_threshold)
        ]
      ]
    ]

    unfoldable pub needs_renewal : W → Result Bool
    unfolding is_due
    needs_renewal w = elim (cm.client.get_secret w (serving_key cm)) [
      | ok secret ↦ ok (is_due secret)
      | err e ↦ if is_not_found e then ok true else err e
    ]

    abbrev pub ca_template : Template
    ca_template = record {
      serial_number = x.serial 0;
      common_name = codes "TSecret CA";
      organization = codes "TSecret" ∷ [];
      dns_names = [];
      not_before = now - 3600;
      not_after = now + ca_validity_duration;
      key_usage = codes "CertSign" ∷ codes "CRLSign" ∷ [];
      ext_key_usage = [];
      basic_constraints_valid = true;
      is_ca = true;
      max_path_len = 1;
    }

    -- A new CA, with its two PEM blocks.
    unfoldable pub new_ca : Result (Key × Certificate × Map Bytes)
    unfolding marshal_key
    new_ca = do
      key ← wrap "failed to generate CA key: %w" [] (x.generate_key 0)
      der ← wrap "failed to create CA certificate: %w" [] (x.create ca_template none key key)
      cert ← x.parse_certificate der
      key_pem ← marshal_key key
      ok (key, cert, tls_data (cert_pem der) key_pem)

    unfoldable pub create_ca : W → Result (Key × Certificate) × W
    unfolding step new_ca
    create_ca w =
        step (new_ca, w)
          (λ (key, cert, entries) w1.
            step
              (wrap_step "failed to create CA secret: %w" (
                cm.client.create_secret tls_type
                  (new_secret ca_secret_name cm.namespace (codes "ca") entries) w1))
              (λ _ w2. (ok (key, cert), w2)))

    unfoldable pub ensure_ca : W → Result (Key × Certificate) × W
    unfolding parse_ca_from_secret create_ca
    ensure_ca w = elim (cm.client.get_secret w (ca_key cm)) [
      | ok secret ↦ (parse_ca_from_secret secret, w)
      | err e ↦ if is_not_found e then create_ca w else (err e, w)
    ]
