-- ===== src/Providers/Answers.antt =====
-- The request whose answer a secret value that a provider returns was taken from.
pub mod Direct
use tsecret.Common.{
  [], ◌∷◌, Text, Bytes, ok, err, bind_ok, wrap_ok, wrap, ◌≡◌, arith, ◌==◌, ◌++◌, codes, errorf, num,
  text, if◌then◌else◌, Message, Result-cases, inl, inr,
}
use tsecret.Providers.Base.{
  Http, HttpRequest, HttpResponse, Json, Environ, get, post, get_request, token_header, bearer,
  decode_std,
}
use tsecret.Providers.Vault.{VaultProvider, vault_get_secret, check_status, kv_read_path}
use tsecret.Providers.Aws.{AwsProvider, aws_get_secret, aws_sign_request}
use tsecret.Providers.Azure.{
  AzureProvider, azure_get_secret, azure_read, azure_ensure_token, azure_check_status,
}
use tsecret.Providers.Gcp.{
  GcpProvider, gcp_get_secret, gcp_read, gcp_ensure_token, gcp_check_status, gcp_key_version,
}
use tsecret.Providers.Oracle.{OracleProvider, oracle_get_secret, oracle_sign_request}
use tsecret.Providers.{Provider, vault, aws, azure, gcp, oracle, get_secret}
use tsecret.Providers.Answers.Direct.{
  vault_get_secret-Answered, aws_get_secret-Answered, oracle_get_secret-Answered,
}
use tsecret.Providers.Requests.{
  secret_request, Answered, of_aws, of_azure, of_gcp, of_oracle, property-Part, pick-Holds,
  decoded_std,
}

azure_status :
    (key : Text) (resp : HttpResponse) (body : Bytes)
    → azure_check_status key resp ≡ ok body
    → (resp.status_code ≡ 200) × (resp.body ≡ body)
unfolding azure_check_status
azure_status key resp body h = (ground arith, ground arith)

gcp_status :
    (key : Text) (p : GcpProvider) (resp : HttpResponse) (body : Bytes)
    → gcp_check_status key p resp ≡ ok body
    → (resp.status_code ≡ 200) × (resp.body ≡ body)
unfolding gcp_check_status
gcp_status key p resp body h = (ground arith, ground arith)

module _ {J : Type 0} (http : Http) (json : Json J) (env : Environ) where
  azure_read-Answered :
      (p : AzureProvider) (key property value : Text)
      → azure_read http json env p key property ≡ ok value
      → Answered http json (azure p) key property value
  unfolding azure_read secret_request
  azure_read-Answered p key property value h =
      let url = p.vault_url ++ codes "/secrets/" ++ key ++ codes "?api-version=7.4" in
      let request = get_request url (bearer p.token) in
      let (_, _, h1) =
        bind_ok (wrap "failed to create Azure request: %w" [] (http.check get url)) _ value h in
      let (resp, wrapped, h2) =
        bind_ok (wrap "Azure Key Vault request failed: %w" [] (http.send request)) _ value h1 in
      let (body, checked, h3) = bind_ok (azure_check_status key resp) _ value h2 in
      let (fine, same) = azure_status key resp body checked in
      let (raw, decoded, h4) =
        bind_ok
          (wrap "failed to decode Azure response: %w" []
            (json.decode_string (codes "value" ∷ []) body))
          _ value h3 in
      record {
        resp = resp;
        sent = wrap_ok "Azure Key Vault request failed: %w" [] (http.send request) resp wrapped;
        fine = fine;
        read = rw same (
            of_azure raw (wrap_ok "failed to decode Azure response: %w" [] _ raw decoded)
              (property-Part json _ _ key property value raw h4));
      }

  gcp_read-Answered :
      (p : GcpProvider) (key property value : Text)
      → gcp_read http json env p key property ≡ ok value
      → Answered http json (gcp p) key property value
  unfolding gcp_read secret_request
  gcp_read-Answered p key property value h =
      let (name, version) = gcp_key_version key in
      let url =
        codes "https://secretmanager.googleapis.com/v1/projects/"
        ++ p.project_id
        ++ codes "/secrets/"
        ++ name
        ++ codes "/versions/"
        ++ version
        ++ codes ":access" in
      let request = get_request url (bearer p.token) in
      let (_, _, h1) =
        bind_ok (wrap "failed to create GCP request: %w" [] (http.check get url)) _ value h in
      let (resp, wrapped, h2) =
        bind_ok (wrap "GCP Secret Manager request failed: %w" [] (http.send request)) _ value h1 in
      let (body, checked, h3) = bind_ok (gcp_check_status name p resp) _ value h2 in
      let (fine, same) = gcp_status name p resp body checked in
      let (encoded, held, h4) =
        bind_ok
          (wrap "failed to decode GCP response: %w" []
            (json.decode_string (codes "payload" ∷ codes "data" ∷ []) body))
          _ value h3 in
      let (raw, decoded, h5) =
        bind_ok (decode_std "failed to decode GCP secret data: %w" encoded) _ value h4 in
      record {
        resp = resp;
        sent = wrap_ok "GCP Secret Manager request failed: %w" [] (http.send request) resp wrapped;
        fine = fine;
        read = rw same (
            of_gcp encoded raw (wrap_ok "failed to decode GCP response: %w" [] _ encoded held)
              (decoded_std json "failed to decode GCP secret data: %w" encoded raw decoded)
              (property-Part json _ _ name property value raw h5));
      }

  azure_get_secret-Answered :
      (p : AzureProvider) (key property value : Text)
      → (azure_get_secret http json env p key property).0 ≡ ok value
      → Answered http json
          (azure (azure_get_secret http json env p key property).1)
          key
          property
          value
  unfolding azure_get_secret
  azure_get_secret-Answered p key property value h =
      elim (Result-cases (azure_ensure_token http json env p)) [
        | inl (p', e) ↦
            rw (e, azure_get_secret)
              (azure_read-Answered p' key property value (rw (e, azure_get_secret) at h))
        | inr (m, e) ↦ cc (rw (e, azure_get_secret) at h)
      ]

  gcp_get_secret-Answered :
      (p : GcpProvider) (key property value : Text)
      → (gcp_get_secret http json env p key property).0 ≡ ok value
      → Answered http json (gcp (gcp_get_secret http json env p key property).1) key property value
  unfolding gcp_get_secret
  gcp_get_secret-Answered p key property value h =
      elim (Result-cases (gcp_ensure_token http json env p)) [
        | inl (p', e) ↦
            rw (e, gcp_get_secret)
              (gcp_read-Answered p' key property value (rw (e, gcp_get_secret) at h))
        | inr (m, e) ↦ cc (rw (e, gcp_get_secret) at h)
      ]

  -- Each of the five providers returns a secret value only where its request for this key, with the
  -- token that the call leaves, was answered with the status 200, and the value is what the answer
  -- holds: for Vault the JSON of its data or the property that is asked for, for the others the
  -- secret's text, in Base64 for GCP and Oracle, or that property of the JSON object in it.
  pub get_secret-Answered :
      (provider : Provider) (key property value : Text)
      → (get_secret http json env provider key property).0 ≡ ok value
      → Answered http json (get_secret http json env provider key property).1 key property value
  unfolding get_secret
  get_secret-Answered (vault p) key property value h =
      vault_get_secret-Answered http json env p key property value h
  get_secret-Answered (aws p) key property value h =
      aws_get_secret-Answered http json env p key property value h
  get_secret-Answered (azure p) key property value h =
      azure_get_secret-Answered p key property value h
  get_secret-Answered (gcp p) key property value h = gcp_get_secret-Answered p key property value h
  get_secret-Answered (oracle p) key property value h =
      oracle_get_secret-Answered http json env p key property value h
