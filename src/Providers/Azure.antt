-- ===== src/Providers/Azure.antt =====
-- pkg/providers/azure.go. A method that may fetch a token returns the provider that it leaves.
use tsecret.Common.{
  ◌||◌, not, [], ◌∷◌, ◌++◌, Text, Bytes, codes, is_empty, trim_right, Result, ok, err, errorf,
  wrapf, text, num, wrap, ◌>>=◌, ◌==◌, if◌then◌else◌,
}
use tsecret.Api.{AzureConfig}
use tsecret.Providers.Base.{
  Http, HttpResponse, Json, Environ, get, post, get_request, bearer, property_or_all,
}

pub record AzureProvider : Type 0 where
  pub vault_url : Text
  pub tenant_id : Text
  pub client_id : Text
  pub token : Text

unfoldable pub new_azure_provider : AzureConfig → Result AzureProvider
new_azure_provider config =
    if is_empty config.vault_url
    then err (errorf "Azure Key Vault URL is required" [])
    else ok (record {
      vault_url = trim_right config.vault_url;
      tenant_id = config.tenant_id;
      client_id = config.auth.client_id;
      token = [];
    })

-- The address of the managed identity endpoint.
imds_url : AzureProvider → Text
imds_url p =
    codes "http://169.254.169.254/metadata/identity/oauth2/token"
    ++ codes "?api-version=2019-08-01&resource=https://vault.azure.net"
    ++ (if is_empty p.client_id then [] else codes "&client_id=" ++ p.client_id)

unfoldable pub azure_check_status : Text → HttpResponse → Result Bytes
azure_check_status key resp =
    if resp.status_code == 404
    then err (errorf "secret %q not found in Azure Key Vault" (text key ∷ []))
    else if resp.status_code == 200
    then ok resp.body
    else err
        (errorf "Azure Key Vault returned HTTP %d: %s" (num resp.status_code ∷ text resp.body ∷ []))

module _ {J : Type 0} (http : Http) (json : Json J) (env : Environ) where
  unfoldable pub token_from_service_principal : AzureProvider → Result AzureProvider
  token_from_service_principal p =
      let client_secret = env (codes "AZURE_CLIENT_SECRET") in
      if is_empty client_secret || is_empty p.tenant_id || is_empty p.client_id
      then err (
          errorf "Azure auth: no managed identity and no service principal credentials configured"
            [])
      else do
        let token_url =
            codes "https://login.microsoftonline.com/" ++ p.tenant_id ++ codes "/oauth2/v2.0/token"
        _ ← http.check post token_url
        resp ← wrap "Azure token request failed: %w" [] (
            http.send (record {
              method = post;
              url = token_url;
              raw_query = [];
              headers = (codes "Content-Type", codes "application/x-www-form-urlencoded") ∷ [];
              body =
                  codes "grant_type=client_credentials&client_id="
                  ++ p.client_id
                  ++ codes "&client_secret="
                  ++ client_secret
                  ++ codes "&scope=https://vault.azure.net/.default";
            }))
        body ←
            (if resp.status_code == 200
              then ok resp.body
              else err (
                  errorf "Azure token request returned HTTP %d: %s"
                    (num resp.status_code ∷ text resp.body ∷ [])))
        token ← json.decode_string (codes "access_token" ∷ []) body
        ok (record p { token = token })

  -- What ensureToken makes of the answer of the managed identity endpoint.
  from_imds : AzureProvider → Result HttpResponse → Result AzureProvider
  from_imds p (err e) = token_from_service_principal p
  from_imds p (ok resp) =
      if resp.status_code == 200
      then (wrap "failed to decode IMDS token response: %w" []
            (json.decode_string (codes "access_token" ∷ []) resp.body)
          >>= λ token. ok (record p { token = token }))
      else token_from_service_principal p

  unfoldable pub azure_ensure_token : AzureProvider → Result AzureProvider
  unfolding from_imds imds_url
  azure_ensure_token p =
      if not (is_empty p.token)
      then ok p
      else http.check get (imds_url p) >>= λ _.
          from_imds p (http.send (get_request (imds_url p) ((codes "Metadata", codes "true") ∷ [])))

  -- GetSecret with the token in place.
  unfoldable pub azure_read : AzureProvider → Text → Text → Result Text
  unfolding azure_check_status
  azure_read p key property = do
    let url = p.vault_url ++ codes "/secrets/" ++ key ++ codes "?api-version=7.4"
    _ ← wrap "failed to create Azure request: %w" [] (http.check get url)
    resp ←
        wrap "Azure Key Vault request failed: %w" [] (http.send (get_request url (bearer p.token)))
    body ← azure_check_status key resp
    value ←
        wrap "failed to decode Azure response: %w" [] (json.decode_string (codes "value" ∷ []) body)
    property_or_all json "Azure secret %q is not JSON, cannot extract property %q"
        "property %q not found in Azure secret %q" key property value

  unfoldable pub azure_get_secret : AzureProvider → Text → Text → Result Text × AzureProvider
  unfolding azure_read
  azure_get_secret p key property = elim (azure_ensure_token p) [
    | err e ↦ (err e, p)
    | ok p' ↦ (azure_read p' key property, p')
  ]

  azure_probe : AzureProvider → Result (Unit {0})
  azure_probe p = do
    let url = p.vault_url ++ codes "/secrets?api-version=7.4&maxresults=1"
    _ ← http.check get url
    resp ←
        wrap "Azure Key Vault health check failed: %w" []
          (http.send (get_request url (bearer p.token)))
    (if resp.status_code == 401 || resp.status_code == 403
        then err (errorf "Azure Key Vault auth failed: HTTP %d" (num resp.status_code ∷ []))
        else ok tt)

  unfoldable pub azure_health_check : AzureProvider → Result (Unit {0}) × AzureProvider
  unfolding azure_probe
  azure_health_check p = elim (azure_ensure_token p) [
    | err e ↦ (err (wrapf "Azure auth failed: %w" [] e), p)
    | ok p' ↦ (azure_probe p', p')
  ]
