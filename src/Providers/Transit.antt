-- ===== src/Providers/Transit.antt =====
-- pkg/providers/vault_transit.go
pub mod RoundTrip
use tsecret.Common.{
  ℕ, Bool, true, false, Option, none, some, List, [], ◌∷◌, ◌++◌, Text, Bytes, codes, is_empty, Map,
  Message, Result, ok, err, errorf, wrapf, text, num, wrap, ◌>>=◌, ◌==◌, not, if◌then◌else◌,
}
use tsecret.Crypto.Base64
use tsecret.Providers.Base.{HttpRequest, HttpResponse, Http, Json, post, token_header, decode_std}
use tsecret.Providers.Vault.{VaultProvider}

-- transitRequest up to the raw body of a successful answer; the caller decodes it.
unfoldable pub transit_request :
    {J : Type 0} → Http → Json J → VaultProvider → Text → Map Text → Result Bytes
transit_request http json p path body = do
  payload ← wrap "marshal transit request: %w" [] (json.encode_strings body)
  let url = p.server ++ codes "/v1/" ++ path
  _ ← wrap "create transit request: %w" [] (http.check post url)
  resp ← wrap "vault transit request failed: %w" [] (
      http.send (record {
        method = post;
        url = url;
        raw_query = [];
        headers =
            (codes "Content-Type", codes "application/json")
            ∷ token_header (codes "X-Vault-Token") p.token;
        body = payload;
      }))
  (if not (resp.status_code == 200)
      then err
          (errorf "vault transit returned HTTP %d: %s" (num resp.status_code ∷ text resp.body ∷ []))
      else ok resp.body)

module _ {J : Type 0} (http : Http) (json : Json J) where
  -- transitRequest with the field of the answer's data that the caller reads.
  unfoldable pub transit_field : VaultProvider → Text → Map Text → Text → Result Text
  unfolding transit_request
  transit_field p path body field = do
    raw ← transit_request http json p path body
    wrap "decode transit response: %w" [] (json.decode_string (codes "data" ∷ field ∷ []) raw)

  unfoldable pub transit_decrypt : VaultProvider → Text → Text → Result Bytes
  transit_decrypt p transit_key ciphertext =
      if is_empty transit_key
      then err (errorf "transit key name is required" [])
      else if is_empty ciphertext
      then err (errorf "ciphertext is required" [])
      else do
        plaintext ←
            transit_field p (codes "transit/decrypt/" ++ transit_key)
              ((codes "ciphertext", ciphertext) ∷ []) (codes "plaintext")
        decode_std "failed to decode transit plaintext: %w" plaintext

  unfoldable pub transit_encrypt : VaultProvider → Text → Bytes → Result Text
  transit_encrypt p transit_key plaintext =
      if is_empty transit_key
      then err (errorf "transit key name is required" [])
      else if is_empty plaintext
      then err (errorf "plaintext is required" [])
      else do
        ciphertext ←
            transit_field p (codes "transit/encrypt/" ++ transit_key)
              ((codes "plaintext", Base64.std_encode plaintext) ∷ []) (codes "ciphertext")
        (if is_empty ciphertext
            then err (errorf "vault transit returned empty ciphertext" [])
            else ok ciphertext)
