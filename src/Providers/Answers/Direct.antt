-- ===== src/Providers/Answers/Direct.antt =====
-- The providers that fetch no token: Vault, AWS and Oracle.
use tsecret.Common.{
  [], ◌∷◌, Text, Bytes, ok, err, bind_ok, wrap_ok, wrap, ◌≡◌, arith, ◌==◌, ◌++◌, codes, errorf, num,
  text, if◌then◌else◌, Message,
}
use tsecret.Providers.Base.{
  Http, HttpRequest, HttpResponse, Json, Environ, get, post, get_request, token_header, decode_std,
}
use tsecret.Providers.Vault.{VaultProvider, vault_get_secret, check_status, kv_read_path}
use tsecret.Providers.Aws.{AwsProvider, aws_get_secret, aws_sign_request}
use tsecret.Providers.Oracle.{OracleProvider, oracle_get_secret, oracle_sign_request}
use tsecret.Providers.{vault, aws, oracle}
use tsecret.Providers.Requests.{
  secret_request, Answered, of_aws, of_oracle, property-Part, pick-Holds, decoded_std,
}

test_status :
    (resp : HttpResponse) (e : Message) (body : Bytes)
    → (if resp.status_code == 200 then ok resp.body else err e) ≡ ok body
    → (resp.status_code ≡ 200) × (resp.body ≡ body)
test_status resp e body h = (ground arith, ground arith)

vault_status :
    (key : Text) (resp : HttpResponse) (body : Bytes)
    → check_status key resp ≡ ok body
    → (resp.status_code ≡ 200) × (resp.body ≡ body)
unfolding check_status
vault_status key resp body h = (ground arith, ground arith)

module _ {J : Type 0} (http : Http) (json : Json J) (env : Environ) where
  pub vault_get_secret-Answered :
      (p : VaultProvider) (key property value : Text)
      → vault_get_secret http json p key property ≡ ok value
      → Answered http json (vault p) key property value
  unfolding vault_get_secret secret_request
  vault_get_secret-Answered p key property value h =
      let url = p.server ++ codes "/v1/" ++ kv_read_path p key in
      let request = get_request url (token_header (codes "X-Vault-Token") p.token) in
      let (_, _, h1) =
        bind_ok (wrap "failed to create request: %w" [] (http.check get url)) _ value h in
      let (resp, wrapped, h2) =
        bind_ok (wrap "vault request failed: %w" [] (http.send request)) _ value h1 in
      let (body, checked, h3) = bind_ok (check_status key resp) _ value h2 in
      let (fine, same) = vault_status key resp body checked in
      let (values, decoded, h4) =
        bind_ok
          (wrap "failed to decode vault response: %w" []
            (json.decode_nested (codes "data" ∷ codes "data" ∷ []) body))
          _ value h3 in
      record {
        resp = resp;
        sent = wrap_ok "vault request failed: %w" [] (http.send request) resp wrapped;
        fine = fine;
        read = rw same (
            pick-Holds json p key property value body values
              (wrap_ok "failed to decode vault response: %w" [] _ values decoded) h4);
      }

  pub aws_get_secret-Answered :
      (p : AwsProvider) (key property value : Text)
      → aws_get_secret http json env p key property ≡ ok value
      → Answered http json (aws p) key property value
  unfolding aws_get_secret secret_request
  aws_get_secret-Answered p key property value h =
      let endpoint = codes "https://secretsmanager." ++ p.region ++ codes ".amazonaws.com" in
      let request : HttpRequest = record {
        method = post;
        url = endpoint;
        raw_query = [];
        headers =
            (codes "Content-Type", codes "application/x-amz-json-1.1")
            ∷ (codes "X-Amz-Target", codes "secretsmanager.GetSecretValue")
            ∷ [];
        body = codes "{\"SecretId\":\"" ++ key ++ codes "\"}";
      } in
      let (_, _, h1) =
        bind_ok (wrap "failed to create AWS request: %w" [] (http.check post endpoint)) _ value h in
      let (_, _, h2) =
        bind_ok (wrap "failed to sign AWS request: %w" [] (aws_sign_request env p)) _ value h1 in
      let (resp, wrapped, h3) =
        bind_ok (wrap "AWS Secrets Manager request failed: %w" [] (http.send request)) _ value h2 in
      let failure =
        errorf "AWS Secrets Manager returned HTTP %d: %s"
          (num resp.status_code ∷ text resp.body ∷ []) in
      let (body, checked, h4) =
        bind_ok (if resp.status_code == 200 then ok resp.body else err failure) _ value h3 in
      let (fine, same) = test_status resp failure body checked in
      let (raw, decoded, h5) =
        bind_ok
          (wrap "failed to decode AWS response: %w" []
            (json.decode_string (codes "SecretString" ∷ []) body))
          _ value h4 in
      record {
        resp = resp;
        sent = wrap_ok "AWS Secrets Manager request failed: %w" [] (http.send request) resp wrapped;
        fine = fine;
        read = rw same (
            of_aws raw (wrap_ok "failed to decode AWS response: %w" [] _ raw decoded)
              (property-Part json _ _ key property value raw h5));
      }

  pub oracle_get_secret-Answered :
      (p : OracleProvider) (key property value : Text)
      → oracle_get_secret http json env p key property ≡ ok value
      → Answered http json (oracle p) key property value
  unfolding oracle_get_secret secret_request
  oracle_get_secret-Answered p key property value h =
      let endpoint = codes "https://secrets.vaults." ++ p.region ++ codes ".oci.oraclecloud.com" in
      let url = endpoint ++ codes "/20190301/secretbundles/" ++ key ++ codes "?stage=CURRENT" in
      let request = get_request url [] in
      let (_, _, h1) =
        bind_ok (wrap "failed to create OCI request: %w" [] (http.check get url)) _ value h in
      let (_, _, h2) = bind_ok (oracle_sign_request env) _ value h1 in
      let (resp, wrapped, h3) =
        bind_ok (wrap "OCI Vault request failed: %w" [] (http.send request)) _ value h2 in
      let missing = errorf "secret %q not found in OCI Vault" (text key ∷ []) in
      let failure =
        errorf "OCI Vault returned HTTP %d: %s" (num resp.status_code ∷ text resp.body ∷ []) in
      let (body, checked, h4) =
        bind_ok
          (if resp.status_code == 404
            then err missing
            else if resp.status_code == 200
            then ok resp.body
            else err failure)
          _ value h3 in
      let (fine, same) : (resp.status_code ≡ 200) × (resp.body ≡ body) =
        (ground arith, ground arith) in
      let (encoded, held, h5) =
        bind_ok
          (wrap "failed to decode OCI response: %w" []
            (json.decode_string (codes "secretBundleContent" ∷ codes "content" ∷ []) body))
          _ value h4 in
      let (raw, decoded, h6) =
        bind_ok (decode_std "failed to decode OCI secret content: %w" encoded) _ value h5 in
      record {
        resp = resp;
        sent = wrap_ok "OCI Vault request failed: %w" [] (http.send request) resp wrapped;
        fine = fine;
        read = rw same (
            of_oracle encoded raw (wrap_ok "failed to decode OCI response: %w" [] _ encoded held)
              (decoded_std json "failed to decode OCI secret content: %w" encoded raw decoded)
              (property-Part json _ _ key property value raw h6));
      }
