-- ===== src/Providers/Requests.antt =====
-- The requests of the providers for a secret, and how the answers hold its value.
use tsecret.Common.{
  true, false, Option, some, is_empty, Map, lookup, Bool-cases, Option-cases, [], ◌∷◌, Text, Bytes,
  ok, wrap_ok, ◌≡◌, arith, ◌++◌, String, codes, Result-cases, inl, inr,
}
use tsecret.Providers.Base.{
  Http, HttpRequest, HttpResponse, Json, get_request, token_header, bearer, lookup_nil,
  property_or_all, decode_std,
}
use tsecret.Crypto.Base64.{std_decode}
use tsecret.Providers.Vault.{VaultProvider, kv_read_path, pick}
use tsecret.Providers.Aws.{AwsProvider}
use tsecret.Providers.Azure.{AzureProvider}
use tsecret.Providers.Gcp.{GcpProvider, gcp_key_version}
use tsecret.Providers.Oracle.{OracleProvider}
use tsecret.Providers.{Provider, vault, aws, azure, gcp, oracle}

-- The request for a key, as the service of each provider documents it; `provider` holds the token
-- that is sent.
unfoldable pub secret_request : Provider → Text → HttpRequest
secret_request (vault p) key =
    get_request (p.server ++ codes "/v1/" ++ kv_read_path p key)
      (token_header (codes "X-Vault-Token") p.token)
secret_request (aws p) key = record {
  method = codes "POST";
  url = codes "https://secretsmanager." ++ p.region ++ codes ".amazonaws.com";
  raw_query = [];
  headers =
      (codes "Content-Type", codes "application/x-amz-json-1.1")
      ∷ (codes "X-Amz-Target", codes "secretsmanager.GetSecretValue")
      ∷ [];
  body = codes "{\"SecretId\":\"" ++ key ++ codes "\"}";
}
secret_request (azure p) key =
    get_request (p.vault_url ++ codes "/secrets/" ++ key ++ codes "?api-version=7.4")
      (bearer p.token)
secret_request (gcp p) key =
    let (name, version) = gcp_key_version key in
    get_request
      (codes "https://secretmanager.googleapis.com/v1/projects/"
        ++ p.project_id
        ++ codes "/secrets/"
        ++ name
        ++ codes "/versions/"
        ++ version
        ++ codes ":access")
      (bearer p.token)
secret_request (oracle p) key =
    get_request
      (codes "https://secrets.vaults."
        ++ p.region
        ++ codes ".oci.oraclecloud.com"
        ++ codes "/20190301/secretbundles/"
        ++ key
        ++ codes "?stage=CURRENT")
      []

-- The text that a JSON document holds at a path, or, where a property is asked for, that property
-- of the JSON object which the text holds.
pub data Part {J : Type 0} (json : Json J) (property : Text) (raw : Bytes) (value : Text)
    : Type 0 where
  whole : is_empty property ≡ true → value ≡ raw → Part json property raw value
  one_of :
      (object : Map J) (v : J)
      → is_empty property ≡ false
      → json.decode_object raw ≡ ok object
      → lookup property object ≡ some v
      → value ≡ json.show v
      → Part json property raw value

-- How the value is read from the body of the answer.
pub data Holds {J : Type 0} (json : Json J) (property : Text) (body : Bytes) (value : Text)
    : Provider → Type 0 where
  all_of_vault :
      {p : VaultProvider} (values : Option (Map J))
      → json.decode_nested (codes "data" ∷ codes "data" ∷ []) body ≡ ok values
      → is_empty property ≡ true
      → json.encode values ≡ ok value
      → Holds json property body value (vault p)
  one_of_vault :
      {p : VaultProvider} (values : Map J) (v : J)
      → json.decode_nested (codes "data" ∷ codes "data" ∷ []) body ≡ ok (some values)
      → is_empty property ≡ false
      → lookup property values ≡ some v
      → value ≡ json.show v
      → Holds json property body value (vault p)
  of_aws :
      {p : AwsProvider} (raw : Text)
      → json.decode_string (codes "SecretString" ∷ []) body ≡ ok raw
      → Part json property raw value
      → Holds json property body value (aws p)
  of_azure :
      {p : AzureProvider} (raw : Text)
      → json.decode_string (codes "value" ∷ []) body ≡ ok raw
      → Part json property raw value
      → Holds json property body value (azure p)
  of_gcp :
      {p : GcpProvider} (encoded : Text) (raw : Bytes)
      → json.decode_string (codes "payload" ∷ codes "data" ∷ []) body ≡ ok encoded
      → std_decode encoded ≡ some raw
      → Part json property raw value
      → Holds json property body value (gcp p)
  of_oracle :
      {p : OracleProvider} (encoded : Text) (raw : Bytes)
      → json.decode_string (codes "secretBundleContent" ∷ codes "content" ∷ []) body ≡ ok encoded
      → std_decode encoded ≡ some raw
      → Part json property raw value
      → Holds json property body value (oracle p)

-- The provider's request for the key was answered with 200, and the value is read from the answer.
pub record Answered {J : Type 0} (http : Http) (json : Json J) (provider : Provider)
    (key property value : Text) : Type 0 where
  pub resp : HttpResponse
  pub sent : http.send (secret_request provider key) ≡ ok resp
  pub fine : resp.status_code ≡ 200
  pub read : Holds json property resp.body value provider

module _ {J : Type 0} (json : Json J) where
  pub property-Part :
      (not_json not_found : String) (key property value : Text) (raw : Bytes)
      → property_or_all json not_json not_found key property raw ≡ ok value
      → Part json property raw value
  unfolding property_or_all
  property-Part not_json not_found key property value raw h =
      elim (Bool-cases (is_empty property)) [
        | inl e ↦ whole e (cc (rw (e, property_or_all) at h))
        | inr e ↦
            let h1 = rw (e, property_or_all) at h in
            elim (Result-cases (json.decode_object raw)) [
              | inr (m, k) ↦ cc (rw (k, property_or_all) at h1)
              | inl (object, k) ↦
                  let h2 = rw (k, property_or_all) at h1 in
                  elim (Option-cases (lookup property object)) [
                    | inl q ↦ cc (rw (q, property_or_all) at h2)
                    | inr (v, q) ↦ one_of object v e k q (cc (rw (q, property_or_all) at h2))
                  ]
            ]
      ]

  pub pick-Holds :
      (p : VaultProvider) (key property value : Text) (body : Bytes) (values : Option (Map J))
      → json.decode_nested (codes "data" ∷ codes "data" ∷ []) body ≡ ok values
      → pick json key property values ≡ ok value
      → Holds json property body value (vault p)
  unfolding pick lookup_nil
  pick-Holds p key property value body values decoded h = elim (Bool-cases (is_empty property)) [
    | inl e ↦ all_of_vault values decoded e (
        wrap_ok "failed to marshal vault secret data: %w" [] (json.encode values) value
          (rw (e, pick) at h))
    | inr e ↦
        let h1 = rw (e, pick) at h in
        elim (Option-cases values) [
          | inl k ↦ cc (rw (k, pick, lookup_nil) at h1)
          | inr (object, k) ↦
              let h2 = rw (k, pick, lookup_nil) at h1 in
              elim (Option-cases (lookup property object)) [
                | inl q ↦ cc (rw (q, pick) at h2)
                | inr (v, q) ↦ one_of_vault object v (cc (decoded, k)) e q (cc (rw (q, pick) at h2))
              ]
        ]
  ]

  pub decoded_std :
      (format : String) (encoded : Text) (raw : Bytes)
      → decode_std format encoded ≡ ok raw
      → std_decode encoded ≡ some raw
  unfolding decode_std
  decoded_std format encoded raw h = ground arith
