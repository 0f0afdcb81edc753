-- ===== src/Providers/Gcp.antt =====
-- pkg/providers/gcp.go. A method that may fetch a token returns the provider that it leaves.
use tsecret.Common.{
  ◌||◌, not, Option, none, some, [], ◌∷◌, ◌++◌, Text, Bytes, codes, is_empty, cut_at, Result, ok,
  err, errorf, wrapf, text, num, wrap, ◌>>=◌, ◌==◌, if◌then◌else◌,
}
use tsecret.Api.{GcpConfig}
use tsecret.Providers.Base.{
  Http, HttpResponse, Json, Environ, get, get_request, bearer, property_or_all, decode_std,
}

pub record GcpProvider : Type 0 where
  pub project_id : Text
  pub token : Text

unfoldable pub new_gcp_provider : GcpConfig → Result GcpProvider
new_gcp_provider config =
    if is_empty config.project_id
    then err (errorf "GCP project ID is required" [])
    else ok (record { project_id = config.project_id; token = [] })

abbrev metadata_url : Text
metadata_url =
    codes
      "http://metadata.google.internal/computeMetadata/v1/instance/service-accounts/default/token"

-- What is left where the metadata server gives no token.
no_workload_identity : Environ → GcpProvider → Result GcpProvider
no_workload_identity env p =
    if is_empty (env (codes "GOOGLE_APPLICATION_CREDENTIALS"))
    then err (errorf "GCP auth: no workload identity and GOOGLE_APPLICATION_CREDENTIALS not set" [])
    else err (errorf "GCP service account JSON auth not yet implemented — use workload identity" [])

-- The project and the version that a key names.
unfoldable pub gcp_key_version : Text → Text × Text
gcp_key_version key = elim (cut_at (codes "/versions/") key) [
  | none ↦ (key, codes "latest")
  | some (k, v) ↦ (k, v)
]

unfoldable pub gcp_check_status : Text → GcpProvider → HttpResponse → Result Bytes
gcp_check_status key p resp =
    if resp.status_code == 404
    then err (errorf "secret %q not found in GCP project %s" (text key ∷ text p.project_id ∷ []))
    else if resp.status_code == 200
    then ok resp.body
    else err (
        errorf "GCP Secret Manager returned HTTP %d: %s"
          (num resp.status_code ∷ text resp.body ∷ []))

module _ {J : Type 0} (http : Http) (json : Json J) (env : Environ) where
  -- The token in the answer of the metadata server, if it is one.
  metadata_token : Result HttpResponse → Option Text
  metadata_token (err e) = none
  metadata_token (ok resp) =
      if resp.status_code == 200
      then elim (json.decode_string (codes "access_token" ∷ []) resp.body) [
        | err e ↦ none
        | ok token ↦ if is_empty token then none else some token
      ]
      else none

  unfoldable pub gcp_ensure_token : GcpProvider → Result GcpProvider
  unfolding no_workload_identity metadata_token
  gcp_ensure_token p =
      if not (is_empty p.token)
      then ok p
      else http.check get metadata_url >>= λ _.
          elim (metadata_token (
            http.send
              (get_request metadata_url ((codes "Metadata-Flavor", codes "Google") ∷ [])))) [
                | some token ↦ ok (record p { token = token })
                | none ↦ no_workload_identity env p
              ]

  -- GetSecret with the token in place.
  unfoldable pub gcp_read : GcpProvider → Text → Text → Result Text
  unfolding gcp_check_status
  gcp_read p key property = do
    let (name, version) = gcp_key_version key
    let url =
        codes "https://secretmanager.googleapis.com/v1/projects/"
        ++ p.project_id
        ++ codes "/secrets/"
        ++ name
        ++ codes "/versions/"
        ++ version
        ++ codes ":access"
    _ ← wrap "failed to create GCP request: %w" [] (http.check get url)
    resp ←
        wrap "GCP Secret Manager request failed: %w" []
          (http.send (get_request url (bearer p.token)))
    body ← gcp_check_status name p resp
    payload ←
        wrap "failed to decode GCP response: %w" []
          (json.decode_string (codes "payload" ∷ codes "data" ∷ []) body)
    decoded ← decode_std "failed to decode GCP secret data: %w" payload
    property_or_all json "GCP secret %q is not JSON, cannot extract property %q"
        "property %q not found in GCP secret %q" name property decoded

  unfoldable pub gcp_get_secret : GcpProvider → Text → Text → Result Text × GcpProvider
  unfolding gcp_read
  gcp_get_secret p key property = elim (gcp_ensure_token p) [
    | err e ↦ (err e, p)
    | ok p' ↦ (gcp_read p' key property, p')
  ]

  gcp_probe : GcpProvider → Result (Unit {0})
  gcp_probe p = do
    let url =
        codes "https://secretmanager.googleapis.com/v1/projects/"
        ++ p.project_id
        ++ codes "/secrets?pageSize=1"
    _ ← http.check get url
    resp ← wrap "GCP health check failed: %w" [] (http.send (get_request url (bearer p.token)))
    (if resp.status_code == 403 || resp.status_code == 401
        then err (errorf "GCP auth failed: HTTP %d" (num resp.status_code ∷ []))
        else ok tt)

  unfoldable pub gcp_health_check : GcpProvider → Result (Unit {0}) × GcpProvider
  unfolding gcp_probe
  gcp_health_check p = elim (gcp_ensure_token p) [
    | err e ↦ (err (wrapf "GCP auth failed: %w" [] e), p)
    | ok p' ↦ (gcp_probe p', p')
  ]
