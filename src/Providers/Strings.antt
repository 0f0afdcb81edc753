-- ===== src/Providers/Strings.antt =====
-- The secrets that the providers give are strings of bytes.
use tsecret.Common.{
  Bool, true, false, Option, List, [], Text, Bytes, All, Map, is_empty, ◌≡◌, refl, Message, Result,
  ok, err, wrap, ◌>>=◌, Bool-cases, Option-cases, Result-cases, inl, inr, subst, String, lookup,
  arith, if◌then◌else◌,
}
use tsecret.Crypto.Base64.{std_decode}
use tsecret.Crypto.Base64.RoundTrip.{IsByte}
use tsecret.Crypto.Base64.Decoded.{std_decode-IsByte}
use tsecret.Providers.Base.{Http, Json, Environ, property_or_all, decode_std, lookup_nil}
use tsecret.Providers.Vault.{VaultProvider, vault_get_secret, pick}
use tsecret.Providers.Aws.{AwsProvider, aws_get_secret}
use tsecret.Providers.Azure.{AzureProvider, azure_get_secret, azure_ensure_token, azure_read}
use tsecret.Providers.Gcp.{GcpProvider, gcp_get_secret, gcp_ensure_token, gcp_read}
use tsecret.Providers.Oracle.{OracleProvider, oracle_get_secret}
use tsecret.Providers.{Provider, vault, aws, azure, gcp, oracle, get_secret}

-- The strings that encoding/json gives are strings of bytes.
pub record IsJson {J : Type 0} (json : Json J) : Type 0 where
  pub decoded :
      (path : List Text) (body : Bytes) (s : Text)
      → json.decode_string path body ≡ ok s
      → All IsByte s
  pub shown : (j : J) → All IsByte (json.show j)
  pub encoded : (values : Option (Map J)) (s : Text) → json.encode values ≡ ok s → All IsByte s

-- A result that is a string of bytes where it is one.
record AreBytes (r : Result Text) : Type 0 where
  bytes : (s : Text) → r ≡ ok s → All IsByte s

ok-AreBytes : (s : Text) → All IsByte s → AreBytes (ok s)
ok-AreBytes s h = record { bytes = λ t e. let same : s ≡ t = cc e in subst (All IsByte) same h }

err-AreBytes : (m : Message) → AreBytes (err m)
err-AreBytes m = record { bytes = λ t e. cc e }

>>=-AreBytes :
    {A : Type 0} (m : Result A) (f : A → Result Text)
    → ((a : A) → m ≡ ok a → AreBytes (f a))
    → AreBytes (m >>= f)
>>=-AreBytes (ok a) f h = h a refl
>>=-AreBytes (err e) f h = err-AreBytes e

if-AreBytes :
    (t : Bool) (m n : Result Text) → AreBytes m → AreBytes n → AreBytes (if t then m else n)
if-AreBytes true m n h k = h
if-AreBytes false m n h k = k

wrap-eq-ok :
    {A : Type 0} (format : String) (m : Result A) {a : A} → wrap format [] m ≡ ok a → m ≡ ok a
wrap-eq-ok format (ok b) h = h
wrap-eq-ok format (err e) h = cc h

wrap-AreBytes :
    (format : String) (m : Result Text)
    → ((s : Text) → m ≡ ok s → All IsByte s)
    → AreBytes (wrap format [] m)
wrap-AreBytes format (ok s) h = ok-AreBytes s (h s refl)
wrap-AreBytes format (err e) h = err-AreBytes _

decode_std-IsByte :
    (format : String) (s : Text) (b : Bytes) → decode_std format s ≡ ok b → All IsByte b
unfolding decode_std
decode_std-IsByte format s b h = elim (Option-cases (std_decode s)) [
  | inl e ↦ cc (h, e)
  | inr (x, e) ↦ std_decode-IsByte s b (cc (h, e))
]

module _ {J : Type 0} (json : Json J) (good : IsJson json) where
  property_or_all-AreBytes :
      (f g : String) (key property : Text) (value : Bytes)
      → All IsByte value
      → AreBytes (property_or_all json f g key property value)
  unfolding property_or_all
  property_or_all-AreBytes f g key property value h = elim (Bool-cases (is_empty property)) [
    | inl e ↦ rw e (ok-AreBytes value h)
    | inr e ↦ elim (Result-cases (json.decode_object value)) [
      | inr (m, k) ↦ rw (e, k) (err-AreBytes _)
      | inl (values, k) ↦ elim (Option-cases (lookup property values)) [
        | inl l ↦ rw (e, k, l) (err-AreBytes _)
        | inr (j, l) ↦ rw (e, k, l) (ok-AreBytes (json.show j) (good.shown j))
      ]
    ]
  ]

  property_or_all-IsByte :
      (f g : String) (key property : Text) (value v : Bytes)
      → All IsByte value
      → property_or_all json f g key property value ≡ ok v
      → All IsByte v
  property_or_all-IsByte f g key property value v h e =
      (property_or_all-AreBytes f g key property value h).bytes v e

  pick-AreBytes :
      (key property : Text) (values : Option (Map J)) → AreBytes (pick json key property values)
  unfolding pick
  pick-AreBytes key property values = elim (Bool-cases (is_empty property)) [
    | inl e ↦ rw e (
        wrap-AreBytes "failed to marshal vault secret data: %w" (json.encode values)
          (good.encoded values))
    | inr e ↦ elim (Option-cases (lookup_nil property values)) [
      | inl l ↦ rw (e, l) (err-AreBytes _)
      | inr (j, l) ↦ rw (e, l) (ok-AreBytes (json.show j) (good.shown j))
    ]
  ]

  pick-IsByte :
      (key property : Text) (values : Option (Map J)) (v : Text)
      → pick json key property values ≡ ok v
      → All IsByte v
  pick-IsByte key property values v e = (pick-AreBytes key property values).bytes v e

  decoded-IsByte :
      (f g : String) (key property : Text) (path : List Text) (body value v : Bytes)
      → json.decode_string path body ≡ ok value
      → property_or_all json f g key property value ≡ ok v
      → All IsByte v
  decoded-IsByte f g key property path body value v h e =
      (property_or_all-AreBytes f g key property value (good.decoded path body value h)).bytes v e

  std_decoded-IsByte :
      (f g x : String) (key property : Text) (content value v : Bytes)
      → decode_std x content ≡ ok value
      → property_or_all json f g key property value ≡ ok v
      → All IsByte v
  std_decoded-IsByte f g x key property content value v h e =
      let bytes = decode_std-IsByte x content value h in
      (property_or_all-AreBytes f g key property value bytes).bytes v e

  module _ (http : Http) (env : Environ) where
    vault_get_secret-IsByte :
        (p : VaultProvider) (key property v : Text)
        → vault_get_secret http json p key property ≡ ok v
        → All IsByte v
    unfolding vault_get_secret
    vault_get_secret-IsByte p key property v h = grind (arith, pick-IsByte)

    aws_get_secret-IsByte :
        (p : AwsProvider) (key property v : Text)
        → aws_get_secret http json env p key property ≡ ok v
        → All IsByte v
    unfolding aws_get_secret
    aws_get_secret-IsByte p key property v h = grind (arith, decoded-IsByte)

    oracle_get_secret-IsByte :
        (p : OracleProvider) (key property v : Text)
        → oracle_get_secret http json env p key property ≡ ok v
        → All IsByte v
    unfolding oracle_get_secret
    oracle_get_secret-IsByte p key property v h = grind (arith, std_decoded-IsByte)

    azure_read-IsByte :
        (p : AzureProvider) (key property v : Text)
        → azure_read http json env p key property ≡ ok v
        → All IsByte v
    unfolding azure_read
    azure_read-IsByte p key property v h = grind (arith, decoded-IsByte)

    gcp_read-IsByte :
        (p : GcpProvider) (key property v : Text)
        → gcp_read http json env p key property ≡ ok v
        → All IsByte v
    unfolding gcp_read
    gcp_read-IsByte p key property v h = grind (arith, std_decoded-IsByte)

    azure_get_secret-IsByte :
        (p : AzureProvider) (key property v : Text)
        → (azure_get_secret http json env p key property).0 ≡ ok v
        → All IsByte v
    unfolding azure_get_secret
    azure_get_secret-IsByte p key property v h =
        elim (Result-cases (azure_ensure_token http json env p)) [
          | inr (m, k) ↦ cc (h, k)
          | inl (q, k) ↦ azure_read-IsByte q key property v (cc (h, k))
        ]

    gcp_get_secret-IsByte :
        (p : GcpProvider) (key property v : Text)
        → (gcp_get_secret http json env p key property).0 ≡ ok v
        → All IsByte v
    unfolding gcp_get_secret
    gcp_get_secret-IsByte p key property v h =
        elim (Result-cases (gcp_ensure_token http json env p)) [
          | inr (m, k) ↦ cc (h, k)
          | inl (q, k) ↦ gcp_read-IsByte q key property v (cc (h, k))
        ]

    -- Every secret that a provider gives is a string of bytes, where the strings of the JSON
    -- library are.
    pub get_secret-IsByte :
        (p : Provider) (key property v : Text)
        → (get_secret http json env p key property).0 ≡ ok v
        → All IsByte v
    unfolding get_secret
    get_secret-IsByte (vault p) key property v h = vault_get_secret-IsByte p key property v h
    get_secret-IsByte (aws p) key property v h = aws_get_secret-IsByte p key property v h
    get_secret-IsByte (azure p) key property v h = azure_get_secret-IsByte p key property v h
    get_secret-IsByte (gcp p) key property v h = gcp_get_secret-IsByte p key property v h
    get_secret-IsByte (oracle p) key property v h = oracle_get_secret-IsByte p key property v h
