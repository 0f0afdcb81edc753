-- ===== src/Certs/Replaced.antt =====
-- The test for renewal, and EnsureCerts where the Secret of the CA is gone.
use tsecret.Common.{
  ℕ, ◌+◌, ◌≤◌, true, false, some, Bytes, codes, Map, lookup, ok, err, is_not_found, ◌≡◌, ◌↔◌, refl,
  sym, ap, ◌∙◌, subst, arith, Result-cases, Bool-cases, Option-cases, inl, inr, Message,
}
use tsecret.Api.{Secret}
use tsecret.Certs.Tools.{Certificate, X509, IsCertClient}
use tsecret.Certs.{
  CertManager, wrap_step, cert_pem, is_due, needs_renewal, ca_key, serving_key, new_ca, create_ca,
  ensure_ca, renewal_threshold, tls_crt, ca_secret_name, new_secret, tls_type,
}
use tsecret.Certs.Steps.{step_ok}
use tsecret.Certs.Serving.{serving-apart}
use tsecret.Certs.Ready.{Bundled, patch-Bundled, serving-still}
use tsecret.Certs.Ensured.{ran}
use tsecret.Certs.Ensure.{ensure_serving_cert, ensure_certs}

module _ {Key W : Type 0} (x : X509 Key) (cm : CertManager W) (now : ℕ) where
  create_ca-apart :
      (w : W) (key : Key) (cert : Certificate)
      → IsCertClient cm.client
      → (create_ca x cm now w).0 ≡ ok (key, cert)
      → (entries : Map Bytes) × (new_ca x cm now ≡ ok (key, cert, entries))
        × (cm.client.get_secret (create_ca x cm now w).1 (serving_key cm)
            ≡ cm.client.get_secret w (serving_key cm))
  unfolding create_ca
  create_ca-apart w key cert client h =
      let ((key', cert', entries), made, e) = step_ok (new_ca x cm now, w) _ (key, cert) h in
      let fresh = new_secret ca_secret_name cm.namespace (codes "ca") entries in
      let call = cm.client.create_secret tls_type fresh w in
      let (_, wrapped, e') =
        step_ok (wrap_step "failed to create CA secret: %w" call) (λ _ w2. (ok (key', cert'), w2))
          (key, cert) (ap (λ r. r.0) (sym e) ∙ h) in
      let whole = e ∙ e' in
      let returned : ok (key', cert') ≡ ok (key, cert) = ap (λ r. r.0) (sym whole) ∙ h in
      let keys : key' ≡ key = cc returned in
      let certs : cert' ≡ cert = cc returned in
      (
        entries,
        cc (made, keys, certs),
        ap (λ r. cm.client.get_secret r.1 (serving_key cm)) whole
            ∙ client.create_apart tls_type fresh w (serving_key cm)
                (λ same. serving-apart cm (sym same)),
      )

  ensure_ca-absent :
      (w : W) (e : Message)
      → cm.client.get_secret w (ca_key cm) ≡ err e
      → is_not_found e ≡ true
      → ensure_ca x cm now w ≡ create_ca x cm now w
  unfolding ensure_ca
  ensure_ca-absent w e missing absent = rw (missing, ensure_ca) (rw absent refl)

  -- Under the client's contract, where the Secret of the CA is gone and the serving certificate is
  -- not due: a run of EnsureCerts that returns without error makes a new CA, leaves the Secret of
  -- the serving certificate as it was, and every bundle of the webhook's configuration, if there is
  -- one, is the PEM of the new CA's certificate.
  pub ca_replaced :
      (w : W) (e : Message) (s : Secret)
      → IsCertClient cm.client
      → cm.client.get_secret w (ca_key cm) ≡ err e
      → is_not_found e ≡ true
      → cm.client.get_secret w (serving_key cm) ≡ ok s
      → is_due x cm now s ≡ false
      → (ensure_certs x cm now w).0 ≡ ok tt
      → (key : Key) × (cert : Certificate) × (entries : Map Bytes) × (new_ca x cm now
          ≡ ok (key, cert, entries))
        × (cm.client.get_secret (ensure_certs x cm now w).1 (serving_key cm) ≡ ok s)
        × Bundled cm (cert_pem x cert.raw) (ensure_certs x cm now w).1
  unfolding needs_renewal
  ca_replaced w e s client missing absent got valid h =
      let r = ran x cm now w h in
      let made = ensure_ca-absent w e missing absent in
      let (entries, fresh, kept) =
        create_ca-apart w r.key r.cert client (ap (λ a. a.0) (sym made) ∙ r.ca_ran) in
      let w1 = (ensure_ca x cm now w).1 in
      let w2 = (ensure_serving_cert x cm now r.key r.cert w1).1 in
      let same : cm.client.get_secret w1 (serving_key cm) ≡ ok s =
        ap (λ a. cm.client.get_secret a.1 (serving_key cm)) made ∙ kept ∙ got in
      let asked : needs_renewal x cm now w1 ≡ ok false = rw (same, needs_renewal) (rw valid refl) in
      let still = serving-still x cm now r.key r.cert w1 asked in
      let (bundled, apart) = patch-Bundled x cm r.cert w2 client r.patch_ran in
      (
        r.key,
        r.cert,
        entries,
        fresh,
        ap (λ w'. cm.client.get_secret w' (serving_key cm)) r.left
            ∙ apart (serving_key cm)
            ∙ ap (λ a. cm.client.get_secret a.1 (serving_key cm)) still
            ∙ same,
        subst (Bundled cm (cert_pem x r.cert.raw)) (sym r.left) bundled,
      )

  -- The certificate of a Secret, where there is one that can be read.
  pub record Holds (s : Secret) (cert : Certificate) : Type 0 where
    pub crt : Bytes
    pub der : Bytes
    pub at_crt : lookup tls_crt s.entries ≡ some crt
    pub decodes : x.pem_decode crt ≡ some der
    pub parses : x.parse_certificate der ≡ ok cert

  is_due-Holds :
      (s : Secret)
      → is_due x cm now s ≡ false
      → (cert : Certificate) × Holds s cert × (now + renewal_threshold ≤ cert.not_after)
  unfolding is_due
  is_due-Holds s h = elim (Option-cases (lookup tls_crt s.entries)) [
    | inl e ↦ cc (rw (e, is_due) at h)
    | inr (crt, at_crt) ↦
        let h1 = rw (at_crt, is_due) at h in
        elim (Option-cases (x.pem_decode crt)) [
          | inl e ↦ cc (rw e at h1)
          | inr (der, decodes) ↦
              let h2 = rw decodes at h1 in
              elim (Result-cases (x.parse_certificate der)) [
                | inr (m, e) ↦ cc (rw e at h2)
                | inl (cert, parses) ↦
                    let h3 = rw parses at h2 in
                    (
                      cert,
                      record {
                        crt = crt;
                        der = der;
                        at_crt = at_crt;
                        decodes = decodes;
                        parses = parses;
                      },
                      ground arith,
                    )
              ]
        ]
  ]

  Holds-is_due :
      (s : Secret) (cert : Certificate)
      → Holds s cert
      → now + renewal_threshold ≤ cert.not_after
      → is_due x cm now s ≡ false
  unfolding is_due
  Holds-is_due s cert o late = rw (o.at_crt, is_due) (rw o.decodes (rw o.parses (ground arith)))

  -- NeedsRenewal answers no exactly where the Secret of the serving certificate is there, holds a
  -- PEM block in tls.crt that is a certificate, and this has at least the renewal threshold left.
  pub needs_renewal-false :
      (w : W)
      → (needs_renewal x cm now w ≡ ok false) ↔ (
          (s : Secret) × (cm.client.get_secret w (serving_key cm) ≡ ok s)
          × (cert : Certificate) × Holds s cert
          × (now + renewal_threshold ≤ cert.not_after))
  unfolding needs_renewal
  needs_renewal-false w = (
    λ h. elim (Result-cases (cm.client.get_secret w (serving_key cm))) [
      | inl (s, got) ↦
          let h1 = rw (got, needs_renewal) at h in
          let kept : is_due x cm now s ≡ false = cc h1 in
          let (cert, o, late) = is_due-Holds s kept in (s, got, cert, o, late)
      | inr (e, missing) ↦ elim (Bool-cases (is_not_found e)) [
        | inl absent ↦ cc (rw absent at (rw (missing, needs_renewal) at h))
        | inr other ↦ cc (rw other at (rw (missing, needs_renewal) at h))
      ]
    ],
    λ (s, got, cert, o, late). rw (got, needs_renewal) (ap ok (Holds-is_due s cert o late)),
  )
