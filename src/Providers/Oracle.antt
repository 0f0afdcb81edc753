-- ===== src/Providers/Oracle.antt =====
-- pkg/providers/oracle.go
use tsecret.Common.{
  ◌||◌, not, [], ◌∷◌, ◌++◌, Text, codes, is_empty, Result, ok, err, errorf, text, num, wrap, ◌>>=◌,
  ◌==◌, if◌then◌else◌,
}
use tsecret.Api.{OracleConfig}
use tsecret.Providers.Base.{Http, Json, Environ, get, get_request, property_or_all, decode_std}

pub record OracleProvider : Type 0 where
  pub vault_id : Text
  pub region : Text

unfoldable pub new_oracle_provider : OracleConfig → Result OracleProvider
new_oracle_provider config =
    if is_empty config.vault_id
    then err (errorf "Oracle Vault OCID is required" [])
    else if is_empty config.region
    then err (errorf "Oracle region is required" [])
    else ok (record { vault_id = config.vault_id; region = config.region })

unfoldable pub oracle_sign_request : Environ → Result (Unit {0})
oracle_sign_request env =
    if not (is_empty (env (codes "OCI_RESOURCE_PRINCIPAL_VERSION")))
    then ok tt
    else err (
        errorf "OCI request signing requires oci-go-sdk — configure instance/resource principal" [])

unfoldable pub oracle_get_secret :
    {J : Type 0} → Http → Json J → Environ → OracleProvider → Text → Text → Result Text
oracle_get_secret http json env p key property = do
  let endpoint = codes "https://secrets.vaults." ++ p.region ++ codes ".oci.oraclecloud.com"
  let url = endpoint ++ codes "/20190301/secretbundles/" ++ key ++ codes "?stage=CURRENT"
  _ ← wrap "failed to create OCI request: %w" [] (http.check get url)
  _ ← oracle_sign_request env
  resp ← wrap "OCI Vault request failed: %w" [] (http.send (get_request url []))
  body ←
      (if resp.status_code == 404
        then err (errorf "secret %q not found in OCI Vault" (text key ∷ []))
        else if resp.status_code == 200
        then ok resp.body
        else err
            (errorf "OCI Vault returned HTTP %d: %s" (num resp.status_code ∷ text resp.body ∷ [])))
  content ←
      wrap "failed to decode OCI response: %w" []
        (json.decode_string (codes "secretBundleContent" ∷ codes "content" ∷ []) body)
  decoded ← decode_std "failed to decode OCI secret content: %w" content
  property_or_all json "OCI secret %q is not JSON, cannot extract property %q"
      "property %q not found in OCI secret %q" key property decoded

unfoldable pub oracle_health_check : Http → Environ → OracleProvider → Result (Unit {0})
oracle_health_check http env p = do
  let endpoint = codes "https://vaults." ++ p.region ++ codes ".oci.oraclecloud.com"
  let url = endpoint ++ codes "/20180608/vaults/" ++ p.vault_id
  _ ← http.check get url
  _ ← oracle_sign_request env
  resp ← wrap "OCI Vault health check failed: %w" [] (http.send (get_request url []))
  (if resp.status_code == 401 || resp.status_code == 403
      then err (errorf "OCI auth failed: HTTP %d" (num resp.status_code ∷ []))
      else ok tt)
