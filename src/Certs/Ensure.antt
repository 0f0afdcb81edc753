-- ===== src/Certs/Ensure.antt =====
-- pkg/certs/certs.go: ensureServingCert, patchWebhookCABundle, and EnsureCerts, which runs the
-- three steps.
use tsecret.Common.{
  ℕ, ◌+◌, ◌-◌, Bool, true, false, not, some, List, [], ◌∷◌, ◌++◌, Bytes, codes, text_eq, Map,
  Result, ok, err, wrap, is_not_found, ◌>>=◌, if◌then◌else◌,
}
use tsecret.Certs.Tools.{Certificate, Template, X509, Webhook}
use tsecret.Certs.{
  CertManager, step, wrap_step, serving_cert_validity_duration, serving_cert_secret_name,
  webhook_config_name, tls_data, tls_type, new_secret, marshal_key, cert_pem, needs_renewal,
  serving_key, ensure_ca,
}

-- Every bundle that is another one is replaced, with whether there was one.
unfoldable pub patch_bundles : Bytes → List Webhook → Bool × List Webhook
patch_bundles bundle [] = (false, [])
patch_bundles bundle (h ∷ hs) =
    let (updated, rest) = patch_bundles bundle hs in
    if text_eq h.ca_bundle bundle
    then (updated, h ∷ rest)
    else (true, record h { ca_bundle = bundle } ∷ rest)

module _ {Key W : Type 0} (x : X509 Key) (cm : CertManager W) where
  unfoldable pub patch_webhook_ca_bundle : Certificate → W → Result (Unit {0}) × W
  unfolding patch_bundles
  patch_webhook_ca_bundle ca_cert w = elim (cm.client.get_webhooks w webhook_config_name) [
    | err e ↦ if is_not_found e then (ok tt, w) else (err e, w)
    | ok config ↦
        let (updated, webhooks) = patch_bundles (cert_pem x ca_cert.raw) config.webhooks in
        if updated
        then wrap_step "failed to update webhook CA bundle: %w"
            (cm.client.update_webhooks (record config { webhooks = webhooks }) w)
        else (ok tt, w)
  ]

  module _ (now : ℕ) where
    abbrev pub serving_template : Template
    serving_template =
        let svc = cm.service ++ b'.' ∷ (cm.namespace ++ codes ".svc") in
        record {
          serial_number = x.serial 1;
          common_name = svc;
          organization = codes "TSecret" ∷ [];
          dns_names =
              cm.service
              ∷ (cm.service ++ b'.' ∷ cm.namespace)
              ∷ svc
              ∷ (svc ++ codes ".cluster.local")
              ∷ [];
          not_before = now - 3600;
          not_after = now + serving_cert_validity_duration;
          key_usage = codes "DigitalSignature" ∷ codes "KeyEncipherment" ∷ [];
          ext_key_usage = codes "ServerAuth" ∷ [];
          basic_constraints_valid = true;
          is_ca = false;
          max_path_len = 0;
        }

    -- A new serving certificate and its key, as two PEM blocks.
    unfoldable pub new_serving : Key → Certificate → Result (Map Bytes)
    unfolding marshal_key
    new_serving ca_key ca_cert = do
      key ← wrap "failed to generate serving key: %w" [] (x.generate_key 1)
      der ←
          wrap "failed to create serving certificate: %w" []
            (x.create serving_template (some ca_cert) key ca_key)
      key_pem ← marshal_key x key
      ok (tls_data (cert_pem x der) key_pem)

    -- The Secret is created, or the one that is there gets the new data.
    unfoldable pub store_serving : Map Bytes → W → Result (Unit {0}) × W
    store_serving entries w = elim (cm.client.get_secret w (serving_key cm)) [
      | ok secret ↦
          wrap_step "failed to update serving cert secret: %w"
            (cm.client.update_secret (record secret { entries = entries }) w)
      | err e ↦
          if is_not_found e
          then wrap_step "failed to create serving cert secret: %w" (
              cm.client.create_secret tls_type
                (new_secret serving_cert_secret_name cm.namespace (codes "webhook-tls") entries) w)
          else (err e, w)
    ]

    unfoldable pub ensure_serving_cert : Key → Certificate → W → Result (Unit {0}) × W
    unfolding step needs_renewal new_serving store_serving
    ensure_serving_cert ca_key ca_cert w =
        step (needs_renewal x cm now w, w)
          (λ due w1.
            if not due
            then (ok tt, w1)
            else step (new_serving ca_key ca_cert, w1) (λ entries w2. store_serving entries w2))

    unfoldable pub ensure_certs : W → Result (Unit {0}) × W
    unfolding step ensure_ca ensure_serving_cert patch_webhook_ca_bundle
    ensure_certs w =
        step (wrap_step "failed to ensure CA: %w" (ensure_ca x cm now w)) (λ (key, cert) w1.
          step (wrap_step "failed to ensure serving cert: %w" (ensure_serving_cert key cert w1))
            (λ _ w2.
              wrap_step "failed to patch webhook CA bundle: %w" (patch_webhook_ca_bundle cert w2)))
