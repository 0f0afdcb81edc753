-- ===== src/Certs/Samples.antt =====
-- The theorems about pkg/certs on a small cluster, with certificates that consist of their end.
use tsecret.Common.{
  ℕ, ◌+◌, ◌≤◌, false, ◌&&◌, none, some, List, [], ◌∷◌, Text, Bytes, codes, Map, Result, ok, err,
  not_found, external, lookup, text_eq, text_eq_iff, text_eq_refl, ◌≡◌, ◌≢◌, ◌↔◌, refl, sym, ap,
  ◌∙◌, arith, if◌then◌else◌, Bool-cases, inl, inr,
}
use tsecret.Api.{NamespacedName, Secret}
use tsecret.Certs.Tools.{Certificate, X509, IsX509, WebhookConfig, CertClient, IsCertClient, key_of}
use tsecret.Certs.{
  CertManager, new_secret, tls_data, serving_cert_secret_name, webhook_config_name, needs_renewal,
  serving_key, ca_key, is_due, new_ca, cert_pem, renewal_threshold,
}
use tsecret.Certs.Ensure.{ensure_certs}
use tsecret.Certs.Ready.{Bundled, Ready}
use tsecret.Certs.Ensured.{ensure_certs-Ready, ensure_certs_twice}
use tsecret.Certs.Replaced.{Holds, ca_replaced, needs_renewal-false}

one_number : Bytes → Result ℕ
one_number (n ∷ []) = ok n
one_number _ = err (external (codes "malformed"))

ends_at : Bytes → Result Certificate
ends_at (n ∷ []) = ok (record { raw = n ∷ []; not_after = n })
ends_at _ = err (external (codes "malformed"))

abbrev plain_x509 : X509 ℕ
plain_x509 = record {
  generate_key = λ i. ok i;
  serial = λ i. i;
  create = λ t parent key signer. ok (t.not_after ∷ []);
  parse_certificate = ends_at;
  parse_ec_key = one_number;
  parse_pkcs8 = λ der. ok none;
  marshal_ec_key = λ key. ok (key ∷ []);
  pem_encode = λ kind s. s;
  pem_decode = λ s. some s;
}

plain_x509-IsX509 : IsX509 plain_x509
unfolding ends_at one_number
plain_x509-IsX509 = record {
  decoded = λ kind s. refl;
  parsed = λ t parent key signer der h.
      let same : t.not_after ∷ [] ≡ der = cc h in (_, ap ends_at (sym same), refl);
  marshalled = λ key der h. let same : key ∷ [] ≡ der = cc h in ap one_number (sym same);
}

record Objects : Type 0 where
  secrets : List Secret
  configs : List WebhookConfig

-- The latest object of a name stands first.
find_secret : List Secret → NamespacedName → Result Secret
find_secret [] k = err not_found
find_secret (s ∷ ss) k =
    if text_eq s.metadata.namespace k.namespace && text_eq s.metadata.name k.name
    then ok s
    else find_secret ss k

find_config : List WebhookConfig → Text → Result WebhookConfig
find_config [] name = err not_found
find_config (g ∷ gs) name = if text_eq g.name name then ok g else find_config gs name

abbrev objects : CertClient Objects
objects = record {
  get_secret = λ w k. find_secret w.secrets k;
  create_secret = λ kind s w. (ok tt, record w { secrets = s ∷ w.secrets });
  update_secret = λ s w. (ok tt, record w { secrets = s ∷ w.secrets });
  get_webhooks = λ w name. find_config w.configs name;
  update_webhooks = λ g w. (ok tt, record w { configs = g ∷ w.configs });
}

find_secret-named :
    (ss : List Secret) (k : NamespacedName) (s : Secret) → find_secret ss k ≡ ok s → key_of s ≡ k
unfolding find_secret
find_secret-named [] k s h = cc h
find_secret-named (t ∷ ss) k s h = elim (Bool-cases (text_eq t.metadata.namespace k.namespace)) [
  | inr e ↦ find_secret-named ss k s (rw (e, find_secret) at h)
  | inl e ↦ elim (Bool-cases (text_eq t.metadata.name k.name)) [
    | inr e' ↦ find_secret-named ss k s (rw (e, e', find_secret) at h)
    | inl e' ↦
        let same : t ≡ s = cc (rw (e, e', find_secret) at h) in
        let spaces = (text_eq_iff t.metadata.namespace k.namespace).0 e in
        let names = (text_eq_iff t.metadata.name k.name).0 e' in
        ap key_of (sym same) ∙ (λ i. record { namespace = spaces i; name = names i })
  ]
]

find_secret-front : (s : Secret) (ss : List Secret) → find_secret (s ∷ ss) (key_of s) ≡ ok s
unfolding find_secret
find_secret-front s ss = rw (text_eq_refl s.metadata.namespace, text_eq_refl s.metadata.name) refl

find_secret-apart :
    (s : Secret) (ss : List Secret) (k : NamespacedName)
    → key_of s ≢ k
    → find_secret (s ∷ ss) k ≡ find_secret ss k
unfolding find_secret
find_secret-apart s ss k ne = elim (Bool-cases (text_eq s.metadata.namespace k.namespace)) [
  | inr e ↦ rw e refl
  | inl e ↦ elim (Bool-cases (text_eq s.metadata.name k.name)) [
    | inr e' ↦ rw (e, e') refl
    | inl e' ↦
        let spaces = (text_eq_iff s.metadata.namespace k.namespace).0 e in
        let names = (text_eq_iff s.metadata.name k.name).0 e' in
        absurd (ne (λ i. record { namespace = spaces i; name = names i }))
  ]
]

find_config-named :
    (gs : List WebhookConfig) (name : Text) (g : WebhookConfig)
    → find_config gs name ≡ ok g
    → g.name ≡ name
unfolding find_config
find_config-named [] name g h = cc h
find_config-named (f ∷ gs) name g h =
    ground (arith, find_config-named gs name g, text_eq_iff f.name name)

objects-IsCertClient : IsCertClient objects
unfolding find_config
objects-IsCertClient = record {
  named = λ w k s h. find_secret-named w.secrets k s h;
  created = λ kind s w h. (s, find_secret-front s w.secrets, refl);
  updated = λ s w h. (s, find_secret-front s w.secrets, refl);
  create_apart = λ kind s w k ne. find_secret-apart s w.secrets k ne;
  update_apart = λ s w k ne. find_secret-apart s w.secrets k ne;
  webhooks_named = λ w name g h. find_config-named w.configs name g h;
  webhooks_updated = λ g w h. (g, rw (text_eq_refl g.name) refl, refl);
  webhooks_apart = λ g w k. refl;
}

abbrev manager : CertManager Objects
manager = record {
  client = objects;
  namespace = codes "tsecret-system";
  service = codes "tsecret-webhook";
}

-- A new installation, and one that has lost its CA.
abbrev hooks : List WebhookConfig
hooks =
    record {
      name = webhook_config_name;
      webhooks = record { name = codes "pods"; ca_bundle = [] } ∷ [];
    }
    ∷ []

abbrev installed : Objects
installed = record { secrets = []; configs = hooks }

abbrev serving : Secret
serving =
    new_secret serving_cert_secret_name (codes "tsecret-system") (codes "webhook-tls")
      (tls_data (9000000 ∷ []) (1 ∷ []))

abbrev lost : Objects
lost = record { secrets = serving ∷ []; configs = hooks }

installed_ok : (ensure_certs plain_x509 manager 1000 installed).0 ≡ ok tt
unfolding ensure_certs find_secret ends_at text_eq find_config
installed_ok = refl

lost_ok : (ensure_certs plain_x509 manager 1000 lost).0 ≡ ok tt
unfolding ensure_certs find_secret text_eq ends_at lookup find_config
lost_ok = refl

lost_ca : objects.get_secret lost (ca_key manager) ≡ err not_found
unfolding find_secret text_eq
lost_ca = refl

serving_got_there : objects.get_secret lost (serving_key manager) ≡ ok serving
unfolding find_secret text_eq
serving_got_there = refl

lost_not_due : is_due plain_x509 manager 1000 serving ≡ false
unfolding is_due lookup text_eq ends_at
lost_not_due = refl

ensure_certs-Ready_example :
    Ready plain_x509 manager 1000 (ensure_certs plain_x509 manager 1000 installed).1
ensure_certs-Ready_example =
    ensure_certs-Ready plain_x509 manager 1000 installed plain_x509-IsX509 objects-IsCertClient
      installed_ok

ensure_certs_twice_example :
    ensure_certs plain_x509 manager 1000 (ensure_certs plain_x509 manager 1000 installed).1
    ≡ (ok tt, (ensure_certs plain_x509 manager 1000 installed).1)
ensure_certs_twice_example =
    ensure_certs_twice plain_x509 manager 1000 installed plain_x509-IsX509 objects-IsCertClient
      installed_ok

ca_replaced_example :
    (key : ℕ) × (cert : Certificate) × (entries : Map Bytes) × (new_ca plain_x509 manager 1000
      ≡ ok (key, cert, entries))
    × (objects.get_secret (ensure_certs plain_x509 manager 1000 lost).1 (serving_key manager)
        ≡ ok serving)
    × Bundled manager (cert_pem plain_x509 cert.raw) (ensure_certs plain_x509 manager 1000 lost).1
ca_replaced_example =
    ca_replaced plain_x509 manager 1000 lost not_found serving objects-IsCertClient lost_ca refl
      serving_got_there lost_not_due lost_ok

needs_renewal-false_example : (needs_renewal plain_x509 manager 1000 lost ≡ ok false) ↔ (
    (s : Secret) × (objects.get_secret lost (serving_key manager) ≡ ok s)
    × (cert : Certificate) × Holds plain_x509 manager 1000 s cert
    × (1000 + renewal_threshold ≤ cert.not_after))
needs_renewal-false_example = needs_renewal-false plain_x509 manager 1000 lost
