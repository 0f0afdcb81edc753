-- ===== src/Certs/Serving.antt =====
-- What ensureServingCert leaves of the two Secrets.
use tsecret.Common.{
  ℕ, ◌+◌, true, false, some, [], Bytes, codes, text_eq, Map, lookup, text_eq_iff, ok, wrap, wrap_ok,
  bind_ok, is_not_found, ◌≡◌, ◌≢◌, refl, sym, ap, ◌∙◌, subst, arith, Result-cases, Bool-cases, inl,
  inr,
}
use tsecret.Api.{NamespacedName, Secret}
use tsecret.Certs.Tools.{Certificate, X509, IsX509, IsCertClient, key_of}
use tsecret.Certs.{
  CertManager, step, tls_data, tls_type, serving_cert_secret_name, ca_secret_name, marshal_key,
  cert_pem, is_due, needs_renewal, ca_key, serving_key, new_secret, serving_cert_validity_duration,
}
use tsecret.Certs.Ensure.{serving_template, new_serving, store_serving, ensure_serving_cert}

-- The two Secrets have different names.
pub serving-apart : {W : Type 0} (cm : CertManager W) → serving_key cm ≢ ca_key cm
unfolding text_eq
serving-apart cm e =
    let names : false ≡ true =
      (text_eq_iff serving_cert_secret_name ca_secret_name).1
        (ap (λ (k : NamespacedName). k.name) e) in
    cc names

module _ {Key W : Type 0} (x : X509 Key) (laws : IsX509 x) (cm : CertManager W)
    (client : IsCertClient cm.client) (now : ℕ) where
  fresh-not_due :
      (der pem : Bytes) (cert : Certificate) (s : Secret)
      → x.parse_certificate der ≡ ok cert
      → cert.not_after ≡ now + serving_cert_validity_duration
      → s.entries ≡ tls_data (cert_pem x der) pem
      → is_due x cm now s ≡ false
  unfolding is_due lookup text_eq
  fresh-not_due der pem cert s parsed valid same =
      rw (same, is_due)
        (rw (laws.decoded (codes "CERTIFICATE") der) (rw parsed (rw valid (ground arith))))

  new_serving-not_due :
      (ca : Key) (ca_cert : Certificate) (entries : Map Bytes) (s : Secret)
      → new_serving x cm now ca ca_cert ≡ ok entries
      → s.entries ≡ entries
      → is_due x cm now s ≡ false
  unfolding new_serving
  new_serving-not_due ca ca_cert entries s h same =
      let (key, _, h1) =
        bind_ok (wrap "failed to generate serving key: %w" [] (x.generate_key 1)) _ _ h in
      let (der, wrapped, h2) =
        bind_ok
          (wrap "failed to create serving certificate: %w" []
            (x.create (serving_template x cm now) (some ca_cert) key ca))
          _ _ h1 in
      let (pem, _, h3) = bind_ok (marshal_key x key) _ _ h2 in
      let (cert, parsed, valid) =
        laws.parsed (serving_template x cm now) (some ca_cert) key ca der
          (wrap_ok _ [] _ der wrapped) in
      let stored : tls_data (cert_pem x der) pem ≡ entries = cc h3 in
      fresh-not_due der pem cert s parsed valid (same ∙ sym stored)

  -- The Secret has the new data, and the Secret of the CA is as it was.
  store_serving-stored :
      (entries : Map Bytes) (w : W)
      → (store_serving x cm now entries w).0 ≡ ok tt
      → (s : Secret) × (cm.client.get_secret (store_serving x cm now entries w).1 (serving_key cm)
          ≡ ok s)
        × (s.entries ≡ entries)
        × (cm.client.get_secret (store_serving x cm now entries w).1 (ca_key cm)
            ≡ cm.client.get_secret w (ca_key cm))
  unfolding store_serving
  store_serving-stored entries w h = elim (Result-cases (cm.client.get_secret w (serving_key cm))) [
    | inl (s, got) ↦
        let new = record s { entries = entries } in
        let at_key : key_of new ≡ serving_key cm = client.named w (serving_key cm) s got in
        let h1 = rw (got, store_serving) at h in
        let (t, found, same) =
          client.updated new w (wrap_ok _ [] (cm.client.update_secret new w).0 tt h1) in
        rw (got, store_serving)
          (
            t,
            subst (λ k. cm.client.get_secret (cm.client.update_secret new w).1 k ≡ ok t) at_key
                found,
            same,
            client.update_apart new w (ca_key cm) (λ e. serving-apart cm (sym at_key ∙ e)),
          )
    | inr (e, missing) ↦ elim (Bool-cases (is_not_found e)) [
      | inl absent ↦
          let fresh =
            new_secret serving_cert_secret_name cm.namespace (codes "webhook-tls") entries in
          let h1 = rw absent at (rw (missing, store_serving) at h) in
          let (t, found, same) =
            client.created tls_type fresh w
              (wrap_ok _ [] (cm.client.create_secret tls_type fresh w).0 tt h1) in
          rw (missing, store_serving)
            (rw absent
              (t, found, same, client.create_apart tls_type fresh w (ca_key cm) (serving-apart cm)))
      | inr other ↦ cc (rw other at (rw (missing, store_serving) at h))
    ]
  ]

  needs_renewal-found :
      (w : W) (s : Secret)
      → cm.client.get_secret w (serving_key cm) ≡ ok s
      → needs_renewal x cm now w ≡ ok (is_due x cm now s)
  unfolding needs_renewal
  needs_renewal-found w s got = rw (got, needs_renewal) refl

  -- After ensureServingCert the serving certificate is not due, and the CA is as it was.
  pub ensure_serving_cert-served :
      (key : Key) (cert : Certificate) (w : W)
      → (ensure_serving_cert x cm now key cert w).0 ≡ ok tt
      → (needs_renewal x cm now (ensure_serving_cert x cm now key cert w).1 ≡ ok false)
        × (cm.client.get_secret (ensure_serving_cert x cm now key cert w).1 (ca_key cm)
            ≡ cm.client.get_secret w (ca_key cm))
  unfolding ensure_serving_cert step
  ensure_serving_cert-served key cert w h = elim (Result-cases (needs_renewal x cm now w)) [
    | inr (e, failed) ↦ cc (rw (failed, ensure_serving_cert) at h)
    | inl (due, asked) ↦ elim (Bool-cases due) [
      | inr kept ↦ rw (asked, ensure_serving_cert) (rw kept (asked ∙ ap ok kept, refl))
      | inl due_now ↦
          let h1 = rw due_now at (rw (asked, ensure_serving_cert) at h) in
          elim (Result-cases (new_serving x cm now key cert)) [
            | inr (e, failed) ↦ cc (rw failed at h1)
            | inl (entries, made) ↦
                let (s, got, same, ca) = store_serving-stored entries w (rw made at h1) in
                rw (asked, ensure_serving_cert)
                  (rw due_now (
                    rw made (
                      needs_renewal-found (store_serving x cm now entries w).1 s got
                          ∙ ap ok (new_serving-not_due key cert entries s made same),
                      ca,
                    )))
          ]
    ]
  ]
