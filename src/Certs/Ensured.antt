-- ===== src/Certs/Ensured.antt =====
-- The theorems about EnsureCerts and NeedsRenewal.
use tsecret.Common.{ℕ, [], ok, wrap_ok, ◌≡◌, refl, sym, ap, ◌∙◌, subst}
use tsecret.Certs.Tools.{Certificate, X509, IsX509, IsCertClient}
use tsecret.Certs.{CertManager, wrap_step, needs_renewal, ca_key, serving_key, ensure_ca}
use tsecret.Certs.Steps.{step_ok, ensure_ca-stored}
use tsecret.Certs.Serving.{ensure_serving_cert-served}
use tsecret.Certs.Ready.{Ready, Ready-still, patch-Bundled}
use tsecret.Certs.Ensure.{patch_webhook_ca_bundle, ensure_serving_cert, ensure_certs}

-- How a run of EnsureCerts that returns without error went.
pub record Ran {Key W : Type 0} (x : X509 Key) (cm : CertManager W) (now : ℕ) (w : W) : Type 0 where
  pub key : Key
  pub cert : Certificate
  pub ca_ran : (ensure_ca x cm now w).0 ≡ ok (key, cert)
  pub serving_ran : (ensure_serving_cert x cm now key cert (ensure_ca x cm now w).1).0 ≡ ok tt
  pub patch_ran :
      (patch_webhook_ca_bundle x cm cert
        (ensure_serving_cert x cm now key cert (ensure_ca x cm now w).1).1).0
      ≡ ok tt
  pub left :
      (ensure_certs x cm now w).1
      ≡ (patch_webhook_ca_bundle x cm cert
          (ensure_serving_cert x cm now key cert (ensure_ca x cm now w).1).1).1

module _ {Key W : Type 0} (x : X509 Key) (cm : CertManager W) (now : ℕ) where
  pub ran : (w : W) → (ensure_certs x cm now w).0 ≡ ok tt → Ran x cm now w
  unfolding ensure_certs
  ran w h =
      let first = ensure_ca x cm now w in
      let ((key, cert), wrapped, e) = step_ok (wrap_step "failed to ensure CA: %w" first) _ tt h in
      let second = ensure_serving_cert x cm now key cert first.1 in
      let (_, wrapped', e') =
        step_ok (wrap_step "failed to ensure serving cert: %w" second)
          (λ _ w2.
            wrap_step "failed to patch webhook CA bundle: %w"
              (patch_webhook_ca_bundle x cm cert w2))
          tt (ap (λ r. r.0) (sym e) ∙ h) in
      let third = patch_webhook_ca_bundle x cm cert second.1 in
      let whole = e ∙ e' in
      record {
        key = key;
        cert = cert;
        ca_ran = wrap_ok "failed to ensure CA: %w" [] first.0 (key, cert) wrapped;
        serving_ran = wrap_ok "failed to ensure serving cert: %w" [] second.0 tt wrapped';
        patch_ran =
            wrap_ok "failed to patch webhook CA bundle: %w" [] third.0 tt
              (ap (λ r. r.0) (sym whole) ∙ h);
        left = ap (λ r. r.1) whole;
      }

  pub needs_renewal-same :
      (w w' : W)
      → cm.client.get_secret w' (serving_key cm) ≡ cm.client.get_secret w (serving_key cm)
      → needs_renewal x cm now w' ≡ needs_renewal x cm now w
  unfolding needs_renewal
  needs_renewal-same w w' e = rw (e, needs_renewal) refl

  -- With certificates and a client that keep their contracts: a run of EnsureCerts that returns
  -- without error leaves a cluster in which the Secret of the CA holds a key and a certificate that
  -- can be read, the serving certificate is not due for renewal, and either there is no
  -- configuration of the webhook or every bundle in it is the PEM of this CA's certificate.
  pub ensure_certs-Ready :
      (w : W)
      → IsX509 x
      → IsCertClient cm.client
      → (ensure_certs x cm now w).0 ≡ ok tt
      → Ready x cm now (ensure_certs x cm now w).1
  ensure_certs-Ready w laws client h =
      let r = ran w h in
      let w1 = (ensure_ca x cm now w).1 in
      let w2 = (ensure_serving_cert x cm now r.key r.cert w1).1 in
      let (ca, found, parses) = ensure_ca-stored x laws cm client now w r.key r.cert r.ca_ran in
      let (served, kept) =
        ensure_serving_cert-served x laws cm client now r.key r.cert w1 r.serving_ran in
      let (bundled, apart) = patch-Bundled x cm r.cert w2 client r.patch_ran in
      subst (Ready x cm now) (sym r.left) (record {
        key = r.key;
        cert = r.cert;
        ca = ca;
        found = apart (ca_key cm) ∙ kept ∙ found;
        parses = parses;
        served = needs_renewal-same w2 _ (apart (serving_key cm)) ∙ served;
        bundled = bundled;
      })

  -- Under the same contracts a second run of EnsureCerts at the same time, after one that returned
  -- without error, returns without error and writes nothing.
  pub ensure_certs_twice :
      (w : W)
      → IsX509 x
      → IsCertClient cm.client
      → (ensure_certs x cm now w).0 ≡ ok tt
      → ensure_certs x cm now (ensure_certs x cm now w).1 ≡ (ok tt, (ensure_certs x cm now w).1)
  ensure_certs_twice w laws client h =
      Ready-still x cm now (ensure_certs x cm now w).1 (ensure_certs-Ready w laws client h)
