-- ===== src/Providers/Transit/RoundTrip.antt =====
-- Encryption and decryption by Vault's Transit engine.
use tsecret.Common.{false, [], ◌∷◌, ◌++◌, Text, Bytes, codes, is_empty, All, ok, ◌≡◌, refl, arith}
use tsecret.Crypto.Base64.{std_encode}
use tsecret.Crypto.Base64.RoundTrip.{IsByte, std_decode-encode}
use tsecret.Providers.Base.{HttpRequest, HttpResponse, Http, Json, token_header, decode_std}
use tsecret.Providers.Vault.{VaultProvider}
use tsecret.Providers.Transit.{transit_request, transit_field, transit_encrypt, transit_decrypt}

-- A request of Vault's documented Transit API: POST to the operation and the key, with a token and
-- a JSON body.
abbrev pub transit_call : Text → Text → Text → Text → Bytes → HttpRequest
transit_call server token operation key payload = record {
  method = codes "POST";
  url = server ++ codes "/v1/" ++ (operation ++ key);
  raw_query = [];
  headers = (codes "Content-Type", codes "application/json") ∷ (codes "X-Vault-Token", token) ∷ [];
  body = payload;
}

-- The server answers the request with 200 and a JSON body whose `data` has the field.
pub record Answers {J : Type 0} (http : Http) (json : Json J) (request : HttpRequest)
    (field answer : Text) : Type 0 where
  pub resp : HttpResponse
  pub sent : http.send request ≡ ok resp
  pub fine : resp.status_code ≡ 200
  pub holds : json.decode_string (codes "data" ∷ field ∷ []) resp.body ≡ ok answer

-- What the Transit engine at a server promises for a token and a key, in its own requests: the
-- address of its operation is well formed, a JSON object of strings has an encoding, and where it
-- gave a ciphertext for a Base64 text it gives that text for the ciphertext.
pub record IsTransit {J : Type 0} (http : Http) (json : Json J) (server token key : Text)
    : Type 0 where
  pub reachable :
      http.check (codes "POST") (server ++ codes "/v1/" ++ (codes "transit/decrypt/" ++ key))
      ≡ ok tt
  pub encodes :
      (name value : Text)
      → (payload : Bytes) × (json.encode_strings ((name, value) ∷ []) ≡ ok payload)
  pub decrypts :
      (plaintext ciphertext : Text) (sent asked : Bytes)
      → json.encode_strings ((codes "plaintext", plaintext) ∷ []) ≡ ok sent
      → json.encode_strings ((codes "ciphertext", ciphertext) ∷ []) ≡ ok asked
      → Answers http json
          (transit_call server token (codes "transit/encrypt/") key sent)
          (codes "ciphertext")
          ciphertext
      → Answers http json
          (transit_call server token (codes "transit/decrypt/") key asked)
          (codes "plaintext")
          plaintext

module _ {J : Type 0} (http : Http) (json : Json J) (p : VaultProvider) (key : Text)
    (given_token : is_empty p.token ≡ false) where
  called : Text → Bytes → HttpRequest
  called path payload = record {
    method = codes "POST";
    url = p.server ++ codes "/v1/" ++ path;
    raw_query = [];
    headers =
        (codes "Content-Type", codes "application/json") ∷ (codes "X-Vault-Token", p.token) ∷ [];
    body = payload;
  }

  -- What the program returned came from the server's answer to the request.
  field-Answers :
      (path name value field answer : Text)
      → transit_field http json p path ((name, value) ∷ []) field ≡ ok answer
      → (payload : Bytes) × (json.encode_strings ((name, value) ∷ []) ≡ ok payload)
        × Answers http json (called path payload) field answer
  unfolding transit_field transit_request token_header called
  field-Answers path name value field answer h = grind (arith, rw given_token at h)

  -- An answer of the server to the request is what the program returns.
  field_answered :
      (path name value field answer : Text) (payload : Bytes)
      → json.encode_strings ((name, value) ∷ []) ≡ ok payload
      → http.check (codes "POST") (p.server ++ codes "/v1/" ++ path) ≡ ok tt
      → Answers http json (called path payload) field answer
      → transit_field http json p path ((name, value) ∷ []) field ≡ ok answer
  unfolding transit_field transit_request token_header called
  field_answered path name value field answer payload encoded checked a =
      rw (encoded, transit_field)
        (rw (checked, given_token, transit_request)
          (rw (a.sent, transit_request) (rw (a.fine, a.holds) refl)))

  encrypted :
      (plaintext : Bytes) (ciphertext : Text)
      → transit_encrypt http json p key plaintext ≡ ok ciphertext
      → (is_empty key ≡ false)
        × (is_empty ciphertext ≡ false)
        × (transit_field http json p
              (codes "transit/encrypt/" ++ key)
              ((codes "plaintext", std_encode plaintext) ∷ [])
              (codes "ciphertext")
            ≡ ok ciphertext)
  unfolding transit_encrypt
  encrypted plaintext ciphertext h = ground arith

  -- Where the server at the provider's address keeps the promise of the Transit engine for the
  -- provider's token, which is not empty: what TransitEncrypt made of some bytes, TransitDecrypt
  -- makes into the same bytes.
  pub transit_decrypt-encrypt :
      (plaintext : Bytes) (ciphertext : Text)
      → IsTransit http json p.server p.token key
      → All IsByte plaintext
      → transit_encrypt http json p key plaintext ≡ ok ciphertext
      → transit_decrypt http json p key ciphertext ≡ ok plaintext
  unfolding transit_decrypt decode_std called
  transit_decrypt-encrypt plaintext ciphertext server bytes h =
      let (named, given, sent) = encrypted plaintext ciphertext h in
      let (payload, encoded, answered) =
        field-Answers (codes "transit/encrypt/" ++ key) (codes "plaintext") (std_encode plaintext)
          (codes "ciphertext") ciphertext sent in
      let (asked, encoded') = server.encodes (codes "ciphertext") ciphertext in
      let back =
        field_answered (codes "transit/decrypt/" ++ key) (codes "ciphertext") ciphertext
          (codes "plaintext") (std_encode plaintext) asked encoded' server.reachable
          (server.decrypts (std_encode plaintext) ciphertext payload asked encoded encoded'
            answered) in
      rw (named, given, back) (rw (std_decode-encode plaintext bytes, decode_std) refl)
