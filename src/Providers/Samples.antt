-- ===== src/Providers/Samples.antt =====
-- The theorems about pkg/providers at concrete inputs.
use tsecret.Common.{
  some, [], ◌∷◌, ◌++◌, Text, Bytes, codes, ◌≡◌, refl, Map, ok, arith, has_suffix, has_prefix,
}
use tsecret.Crypto.Base64
use tsecret.Providers.Base.{Http, Json}
use tsecret.Providers.Vault.{VaultProvider, kv_mount, data_suffix}
use tsecret.Providers.Vault.Paths.{IsPlain, slashes, kv_mount_spellings}
use tsecret.Providers.Requests.{Answered}
use tsecret.Providers.Answers.{get_secret-Answered}
use tsecret.Providers.{vault, get_secret}
use tsecret.Providers.Transit.{transit_encrypt, transit_decrypt, transit_field}
use tsecret.Providers.Transit.RoundTrip.{IsTransit, transit_decrypt-encrypt}

-- A server that sends the body of a request back, which is the value of its only field.
abbrev echo : Http
echo = record {
  check = λ method url. ok tt;
  send = λ request. ok (record { status_code = 200; body = request.body });
}

the_value : Map Text → Bytes
the_value [] = []
the_value ((k, v) ∷ m) = v

abbrev plain_json : Json (Unit {0})
unfolding the_value
plain_json = record {
  decode_object = λ body. ok [];
  decode_string = λ path body. ok body;
  decode_nested = λ path body. ok (some []);
  show = λ j. codes "v";
  encode = λ values. ok (codes "{}");
  encode_strings = λ values. ok (the_value values);
}

abbrev p : VaultProvider
p = record { server = codes "http://vault"; path = codes "secret"; token = codes "t" }

echo-IsTransit : IsTransit echo plain_json p.server p.token (codes "master")
unfolding plain_json the_value
echo-IsTransit = record {
  reachable = refl;
  encodes = λ name value. (value, refl);
  decrypts = λ plaintext ciphertext sent asked h k answers. record {
    resp = record { status_code = 200; body = asked };
    sent = refl;
    fine = refl;
    holds = ground (arith, answers.sent, answers.holds);
  };
}

sent : transit_encrypt echo plain_json p (codes "master") (codes "foobar") ≡ ok (codes "Zm9vYmFy")
unfolding transit_encrypt transit_field plain_json Base64.std_encode
sent = refl

transit_decrypt-encrypt_example :
    transit_decrypt echo plain_json p (codes "master") (codes "Zm9vYmFy") ≡ ok (codes "foobar")
transit_decrypt-encrypt_example =
    transit_decrypt-encrypt echo plain_json p (codes "master") refl (codes "foobar")
      (codes "Zm9vYmFy") echo-IsTransit (omega arith) sent

secret-IsPlain : IsPlain (codes "secret")
unfolding has_suffix has_prefix
secret-IsPlain = record { starts = omega arith; ends = omega arith; no_data = refl }

kv_mount_spellings_example :
    (kv_mount (slashes 1 ++ codes "secret" ++ slashes 2) ≡ codes "secret")
    × (kv_mount (slashes 1 ++ (codes "secret" ++ data_suffix) ++ slashes 2) ≡ codes "secret")
kv_mount_spellings_example = kv_mount_spellings (codes "secret") 1 2 secret-IsPlain

read_from_vault :
    (get_secret echo plain_json (λ name. []) (vault p) (codes "db") []).0 ≡ ok (codes "{}")
unfolding get_secret tsecret.Providers.Vault.vault_get_secret plain_json
read_from_vault = refl

get_secret-Answered_example :
    Answered echo plain_json
      (get_secret echo plain_json (λ name. []) (vault p) (codes "db") []).1
      (codes "db")
      []
      (codes "{}")
get_secret-Answered_example =
    get_secret-Answered echo plain_json (λ name. []) (vault p) (codes "db") [] (codes "{}")
      read_from_vault
