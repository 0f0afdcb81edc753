-- ===== src/Certs/Steps.antt =====
-- The steps of EnsureCerts, one at a time.
use tsecret.Common.{
  ℕ, false, none, some, List, [], ◌∷◌, Bytes, codes, text_eq, text_eq_iff, Map, lookup, Result, ok,
  err, wrap, wrap_ok, bind_ok, is_not_found, All, ◌≡◌, refl, sym, ap, ◌∙◌, subst, Result-cases,
  Bool-cases, inl, inr,
}
use tsecret.Api.{Secret}
use tsecret.Certs.Tools.{Certificate, X509, IsX509, Webhook, IsCertClient}
use tsecret.Certs.{
  CertManager, step, wrap_step, tls_data, bytes_at, marshal_key, cert_pem, parse_key,
  parse_ca_from_secret, ca_key, new_ca, ca_secret_name, tls_type, create_ca, ensure_ca, ca_template,
  new_secret,
}
use tsecret.Certs.Ensure.{patch_bundles}

pub step_ok {ℓ κ} :
    {W : Type 0} {A : Type ℓ} {B : Type κ} (r : Result A × W) (next : A → W → Result B × W) (b : B)
    → (step r next).0 ≡ ok b
    → (a : A) × (r.0 ≡ ok a) × (step r next ≡ next a r.1)
unfolding step
step_ok (ok a, w) next b h = (a, refl, refl)
step_ok (err e, w) next b h = cc h

-- The patch leaves the bundle everywhere, and reports whether it changed anything.
pub patch_bundles-All :
    (bundle : Bytes) (hs : List Webhook)
    → All (λ (h : Webhook). h.ca_bundle ≡ bundle) (patch_bundles bundle hs).1
unfolding patch_bundles
patch_bundles-All bundle [] = tt
patch_bundles-All bundle (h ∷ hs) =
    let rest = patch_bundles-All bundle hs in
    elim (Bool-cases (text_eq h.ca_bundle bundle)) [
      | inl e ↦ rw e ((text_eq_iff h.ca_bundle bundle).0 e, rest)
      | inr e ↦ rw e (refl, rest)
    ]

pub patch_bundles-same :
    (bundle : Bytes) (hs : List Webhook)
    → All (λ (h : Webhook). h.ca_bundle ≡ bundle) hs
    → (patch_bundles bundle hs).0 ≡ false
unfolding patch_bundles
patch_bundles-same bundle [] h = refl
patch_bundles-same bundle (h ∷ hs) (e, es) =
    rw ((text_eq_iff h.ca_bundle bundle).1 e) (patch_bundles-same bundle hs es)

pub patch_bundles-false :
    (bundle : Bytes) (hs : List Webhook)
    → (patch_bundles bundle hs).0 ≡ false
    → All (λ (h : Webhook). h.ca_bundle ≡ bundle) hs
unfolding patch_bundles
patch_bundles-false bundle [] h = tt
patch_bundles-false bundle (h ∷ hs) unchanged = elim (Bool-cases (text_eq h.ca_bundle bundle)) [
  | inl e ↦ (
    (text_eq_iff h.ca_bundle bundle).0 e,
    patch_bundles-false bundle hs (rw (e, patch_bundles) at unchanged),
  )
  | inr e ↦ cc (rw (e, patch_bundles) at unchanged)
]

module _ {Key W : Type 0} (x : X509 Key) (laws : IsX509 x) (cm : CertManager W)
    (client : IsCertClient cm.client) (now : ℕ) where
  marshal-parse :
      (key : Key) (pem : Bytes)
      → marshal_key x key ≡ ok pem
      → (der : Bytes) × (x.pem_decode pem ≡ some der) × (parse_key x der ≡ ok key)
  unfolding marshal_key parse_key
  marshal-parse key pem h =
      let (der, wrapped, encoded) =
        bind_ok (wrap "failed to marshal EC private key: %w" [] (x.marshal_ec_key key)) _ pem h in
      let marshalled = wrap_ok _ [] (x.marshal_ec_key key) der wrapped in
      let same : x.pem_encode (codes "EC PRIVATE KEY") der ≡ pem = cc encoded in
      (
        der,
        subst (λ p. x.pem_decode p ≡ some der) same (laws.decoded (codes "EC PRIVATE KEY") der),
        rw (laws.marshalled key der marshalled, parse_key) refl,
      )

  -- What is stored of a certificate that parses and its key is read back.
  stored-parse :
      (key : Key) (cert : Certificate) (der pem : Bytes) (s : Secret)
      → x.parse_certificate der ≡ ok cert
      → marshal_key x key ≡ ok pem
      → s.entries ≡ tls_data (cert_pem x der) pem
      → parse_ca_from_secret x s ≡ ok (key, cert)
  unfolding parse_ca_from_secret bytes_at lookup text_eq
  stored-parse key cert der pem s parsed marshalled same =
      let (key_der, decoded, read) = marshal-parse key pem marshalled in
      rw (same, parse_ca_from_secret)
        (rw decoded
          (rw read (rw same (rw (laws.decoded (codes "CERTIFICATE") der) (rw parsed refl)))))

  new_ca-parse :
      (key : Key) (cert : Certificate) (entries : Map Bytes) (s : Secret)
      → new_ca x cm now ≡ ok (key, cert, entries)
      → s.entries ≡ entries
      → parse_ca_from_secret x s ≡ ok (key, cert)
  unfolding new_ca
  new_ca-parse key cert entries s h same =
      let (key', _, h1) =
        bind_ok (wrap "failed to generate CA key: %w" [] (x.generate_key 0)) _ _ h in
      let (der, _, h2) =
        bind_ok
          (wrap "failed to create CA certificate: %w" []
            (x.create (ca_template x cm now) none key' key'))
          _ _ h1 in
      let (cert', parsed, h3) = bind_ok (x.parse_certificate der) _ _ h2 in
      let (pem, marshalled, h4) = bind_ok (marshal_key x key') _ _ h3 in
      let stored : tls_data (cert_pem x der) pem ≡ entries = cc h4 in
      let result = stored-parse key' cert' der pem s parsed marshalled (same ∙ sym stored) in
      let keys : key' ≡ key = cc h4 in let certs : cert' ≡ cert = cc h4 in cc (result, keys, certs)

  create_ca-stored :
      (w : W) (key : Key) (cert : Certificate)
      → (create_ca x cm now w).0 ≡ ok (key, cert)
      → (s : Secret) × (cm.client.get_secret (create_ca x cm now w).1 (ca_key cm) ≡ ok s)
        × (parse_ca_from_secret x s ≡ ok (key, cert))
  unfolding create_ca
  create_ca-stored w key cert h =
      let ((key', cert', entries), made, e) = step_ok (new_ca x cm now, w) _ (key, cert) h in
      let fresh = new_secret ca_secret_name cm.namespace (codes "ca") entries in
      let call = cm.client.create_secret tls_type fresh w in
      let (_, wrapped, e') =
        step_ok (wrap_step "failed to create CA secret: %w" call) (λ _ w2. (ok (key', cert'), w2))
          (key, cert) (ap (λ r. r.0) (sym e) ∙ h) in
      let (s, got, same) = client.created tls_type fresh w (wrap_ok _ [] call.0 tt wrapped) in
      let whole = e ∙ e' in
      let returned : ok (key', cert') ≡ ok (key, cert) = ap (λ r. r.0) (sym whole) ∙ h in
      (
        s,
        ap (λ r. cm.client.get_secret r.1 (ca_key cm)) whole ∙ got,
        new_ca-parse key' cert' entries s made same ∙ returned,
      )

  -- After ensureCA the Secret of the CA holds the key and the certificate that it returns.
  pub ensure_ca-stored :
      (w : W) (key : Key) (cert : Certificate)
      → (ensure_ca x cm now w).0 ≡ ok (key, cert)
      → (s : Secret) × (cm.client.get_secret (ensure_ca x cm now w).1 (ca_key cm) ≡ ok s)
        × (parse_ca_from_secret x s ≡ ok (key, cert))
  unfolding ensure_ca create_ca
  ensure_ca-stored w key cert h = elim (Result-cases (cm.client.get_secret w (ca_key cm))) [
    | inl (s, got) ↦ rw (got, ensure_ca) (s, got, rw (got, ensure_ca) at h)
    | inr (e, missing) ↦ elim (Bool-cases (is_not_found e)) [
      | inl absent ↦
          rw (missing, ensure_ca)
            (rw absent (create_ca-stored w key cert (rw absent at (rw (missing, ensure_ca) at h))))
      | inr other ↦ cc (rw (missing, other, ensure_ca) at h)
    ]
  ]
