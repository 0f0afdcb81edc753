-- ===== src/Certs/Ready.antt =====
-- EnsureCerts as a whole: the state that it is after, step by step.
use tsecret.Common.{
  ℕ, true, false, [], Bytes, ok, err, wrap_ok, is_not_found, All, ◌≡◌, refl, sym, subst,
  Result-cases, Bool-cases, inl, inr, Message,
}
use tsecret.Api.{NamespacedName, Secret}
use tsecret.Certs.Tools.{Certificate, X509, Webhook, WebhookConfig, IsCertClient}
use tsecret.Certs.{
  CertManager, step, cert_pem, parse_ca_from_secret, needs_renewal, ca_key, ensure_ca,
  webhook_config_name,
}
use tsecret.Certs.Steps.{patch_bundles-All, patch_bundles-same, patch_bundles-false}
use tsecret.Certs.Ensure.{patch_bundles, patch_webhook_ca_bundle, ensure_serving_cert, ensure_certs}

-- There is no configuration of the webhook, or all its bundles are this one.
pub data Bundled {W : Type 0} (cm : CertManager W) (bundle : Bytes) (w : W) : Type 0 where
  unregistered :
      (e : Message)
      → cm.client.get_webhooks w webhook_config_name ≡ err e
      → is_not_found e ≡ true
      → Bundled cm bundle w
  registered :
      (g : WebhookConfig)
      → cm.client.get_webhooks w webhook_config_name ≡ ok g
      → All (λ (h : Webhook). h.ca_bundle ≡ bundle) g.webhooks
      → Bundled cm bundle w

-- A CA is stored, the serving certificate is not due, and the webhooks trust the CA.
pub record Ready {Key W : Type 0} (x : X509 Key) (cm : CertManager W) (now : ℕ) (w : W)
    : Type 0 where
  pub key : Key
  pub cert : Certificate
  pub ca : Secret
  pub found : cm.client.get_secret w (ca_key cm) ≡ ok ca
  pub parses : parse_ca_from_secret x ca ≡ ok (key, cert)
  pub served : needs_renewal x cm now w ≡ ok false
  pub bundled : Bundled cm (cert_pem x cert.raw) w

module _ {Key W : Type 0} (x : X509 Key) (cm : CertManager W) where
  still-patched :
      (cert : Certificate) (w : W)
      → Bundled cm (cert_pem x cert.raw) w
      → patch_webhook_ca_bundle x cm cert w ≡ (ok tt, w)
  unfolding patch_webhook_ca_bundle
  still-patched cert w (unregistered e missing absent) =
      rw (missing, patch_webhook_ca_bundle) (rw absent refl)
  still-patched cert w (registered g got all) =
      rw (got, patch_webhook_ca_bundle)
        (rw (patch_bundles-same (cert_pem x cert.raw) g.webhooks all) refl)

  pub patch-Bundled :
      (cert : Certificate) (w : W)
      → IsCertClient cm.client
      → (patch_webhook_ca_bundle x cm cert w).0 ≡ ok tt
      → Bundled cm (cert_pem x cert.raw) (patch_webhook_ca_bundle x cm cert w).1
        × ((k : NamespacedName)
            → cm.client.get_secret (patch_webhook_ca_bundle x cm cert w).1 k
              ≡ cm.client.get_secret w k)
  unfolding patch_webhook_ca_bundle
  patch-Bundled cert w client h =
      let bundle = cert_pem x cert.raw in
      elim (Result-cases (cm.client.get_webhooks w webhook_config_name)) [
        | inr (e, missing) ↦ elim (Bool-cases (is_not_found e)) [
          | inl absent ↦
              rw (missing, patch_webhook_ca_bundle)
                (rw absent (unregistered e missing absent, λ k. refl))
          | inr other ↦ cc (rw other at (rw (missing, patch_webhook_ca_bundle) at h))
        ]
        | inl (g, got) ↦ elim (Bool-cases (patch_bundles bundle g.webhooks).0) [
          | inr same ↦
              rw (got, patch_webhook_ca_bundle)
                (rw same (registered g got (patch_bundles-false bundle g.webhooks same), λ k. refl))
          | inl changed ↦
              let new = record g { webhooks = (patch_bundles bundle g.webhooks).1 } in
              let call = cm.client.update_webhooks new w in
              let h1 = rw changed at (rw (got, patch_webhook_ca_bundle) at h) in
              let (g', found, same) = client.webhooks_updated new w (wrap_ok _ [] call.0 tt h1) in
              let name = client.webhooks_named w webhook_config_name g got in
              rw (got, patch_webhook_ca_bundle)
                (rw changed (
                  registered g' (subst (λ n. cm.client.get_webhooks call.1 n ≡ ok g') name found) (
                      subst (All (λ (h : Webhook). h.ca_bundle ≡ bundle)) (sym same)
                        (patch_bundles-All bundle g.webhooks)),
                  λ k. client.webhooks_apart new w k,
                ))
        ]
      ]

  module _ (now : ℕ) where
    pub serving-still :
        (key : Key) (cert : Certificate) (w : W)
        → needs_renewal x cm now w ≡ ok false
        → ensure_serving_cert x cm now key cert w ≡ (ok tt, w)
    unfolding ensure_serving_cert step
    serving-still key cert w h = rw (h, ensure_serving_cert) refl

    ca-still :
        (w : W) (s : Secret) (key : Key) (cert : Certificate)
        → cm.client.get_secret w (ca_key cm) ≡ ok s
        → parse_ca_from_secret x s ≡ ok (key, cert)
        → ensure_ca x cm now w ≡ (ok (key, cert), w)
    unfolding ensure_ca
    ca-still w s key cert got parses = rw (got, ensure_ca) (rw parses refl)

    -- Where everything is ready nothing is written.
    pub Ready-still : (w : W) → Ready x cm now w → ensure_certs x cm now w ≡ (ok tt, w)
    unfolding ensure_certs step
    Ready-still w r =
        rw (ca-still w r.ca r.key r.cert r.found r.parses, ensure_certs)
          (rw (serving-still r.key r.cert w r.served) (rw (still-patched r.cert w r.bundled) refl))
