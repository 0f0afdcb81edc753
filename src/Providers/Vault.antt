-- ===== src/Providers/Vault.antt =====
-- pkg/providers/vault.go
pub mod Paths
use tsecret.Common.{
  ℕ, Bool, true, false, ◌&&◌, not, Option, none, some, List, [], ◌∷◌, ◌++◌, Text, Bytes, codes,
  is_empty, Map, lookup, trim_left, trim_right, has_suffix, trim_suffix, Message, Result, ok, err,
  errorf, wrapf, text, num, wrap, ◌>>=◌, ltb, leb, ◌==◌, if◌then◌else◌,
}
use tsecret.Api.{VaultConfig, VaultAuth, SecretKeyRef, NamespacedName, Secret}
use tsecret.Providers.Base.{
  HttpRequest, HttpResponse, Http, Json, get, get_request, token_header, lookup_nil,
}

pub record VaultProvider : Type 0 where
  pub server : Text
  pub path : Text
  pub token : Text

unfoldable pub new_vault_provider : VaultConfig → Result VaultProvider
new_vault_provider config =
    if is_empty config.server
    then err (errorf "vault server URL is required" [])
    else ok (record { server = trim_right config.server; path = config.path; token = [] })

unfoldable pub set_token : VaultProvider → Text → VaultProvider
set_token p token = record p { token = token }

-- ConfigureVaultAuth, behind its type assertion; `read` is the client's Get of a Secret.
unfoldable pub configure_vault_auth :
    (NamespacedName → Result Secret) → Text → VaultProvider → VaultAuth → Result VaultProvider
unfolding set_token
configure_vault_auth read namespace p auth = elim auth.token_secret_ref [
  | none ↦ err (errorf "no supported vault auth method configured" [])
  | some ref ↦
      let secret_ns = if is_empty ref.namespace then namespace else ref.namespace in
      let found =
        wrap "failed to read vault token secret %s/%s: %w" (text secret_ns ∷ text ref.name ∷ [])
          (read (record { namespace = secret_ns; name = ref.name })) in
      found >>= λ secret. elim (lookup ref.key secret.entries) [
        | none ↦ err (
            errorf "key %q not found in secret %s/%s"
              (text ref.key ∷ text secret_ns ∷ text ref.name ∷ []))
        | some token ↦ ok (set_token p token)
      ]
]

abbrev pub data_suffix : Text
data_suffix = codes "/data"

-- The mount without slashes around it and without a "/data" at its end.
unfoldable pub kv_mount : Text → Text
kv_mount path =
    let mount = trim_right (trim_left (trim_right path)) in
    if has_suffix mount data_suffix then trim_right (trim_suffix mount data_suffix) else mount

unfoldable pub kv_read_path : VaultProvider → Text → Text
unfolding kv_mount
kv_read_path p key =
    if is_empty p.path then key else kv_mount p.path ++ codes "/data/" ++ trim_left key

-- `status` tests of GetSecret.
unfoldable pub check_status : Text → HttpResponse → Result Bytes
check_status key resp =
    if resp.status_code == 404
    then err (errorf "secret not found in vault: %s" (text key ∷ []))
    else if resp.status_code == 403
    then err (errorf "vault permission denied for: %s" (text key ∷ []))
    else if resp.status_code == 200
    then ok resp.body
    else err (errorf "vault returned HTTP %d: %s" (num resp.status_code ∷ text resp.body ∷ []))

module _ {J : Type 0} (json : Json J) where
  -- The property of the secret, or all of it where none is asked for.
  unfoldable pub pick : Text → Text → Option (Map J) → Result Text
  pick key property values =
      if is_empty property
      then wrap "failed to marshal vault secret data: %w" [] (json.encode values)
      else elim (lookup_nil property values) [
        | none ↦
            err (errorf "property %q not found in vault secret %q" (text property ∷ text key ∷ []))
        | some v ↦ ok (json.show v)
      ]

module _ {J : Type 0} (http : Http) (json : Json J) where
  unfoldable pub vault_get_secret : VaultProvider → Text → Text → Result Text
  unfolding check_status pick
  vault_get_secret p key property = do
    let url = p.server ++ codes "/v1/" ++ kv_read_path p key
    _ ← wrap "failed to create request: %w" [] (http.check get url)
    resp ←
        wrap "vault request failed: %w" []
          (http.send (get_request url (token_header (codes "X-Vault-Token") p.token)))
    body ← check_status key resp
    values ←
        wrap "failed to decode vault response: %w" []
          (json.decode_nested (codes "data" ∷ codes "data" ∷ []) body)
    pick json key property values

unfoldable pub vault_health_check : Http → VaultProvider → Result (Unit {0})
vault_health_check http p = do
  let url = p.server ++ codes "/v1/sys/health"
  _ ← wrap "failed to create health check request: %w" [] (http.check get url)
  resp ← wrap "vault health check failed: %w" [] (
      http.send (record {
        method = get;
        url = url;
        raw_query = codes "standbyok=true&sealedcode=200&uninitcode=200";
        headers = [];
        body = [];
      }))
  (if leb 200 resp.status_code && ltb resp.status_code 500
      then ok tt
      else err (errorf "vault unhealthy: HTTP %d: %s" (num resp.status_code ∷ text resp.body ∷ [])))
