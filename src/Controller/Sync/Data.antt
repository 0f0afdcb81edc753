-- ===== src/Controller/Sync/Data.antt =====
-- What the loop over the items of a synchronisation makes of them.
use tsecret.Common.{
  ℕ, ◌+◌, true, some, List, [], ◌∷◌, ◌++◌, ap, Text, Bytes, Map, insert, lookup, ◌≡◌, refl, arith,
  ok, In, text_eq, text_eq_iff, lookup-insert, lookup_inserted, text_eq_refl, subst, ◌∙◌,
  Bool-cases, ◌⊎◌, inl, inr,
}
use tsecret.Api.{TSecretEntry, TSecretSyncData, EncryptionRef}
use tsecret.Crypto.{
  IsChacha, plain, encrypt, decrypt, is_supported, is_valid_encrypted_value, algorithm_xchacha,
}
use tsecret.Crypto.RoundTrip.{Reads, decrypt-encrypt}
use tsecret.Keys.Laws.{length-resolve_key}
use tsecret.Controller.Entries.{entry_valid}
use tsecret.Providers.{Provider, get_secret}
use tsecret.Providers.Strings.{IsJson, get_secret-IsByte}
use tsecret.Providers.Store.{Reader}
use tsecret.Keys.{resolve_key}
use tsecret.Controller.Sync.{done, Tools, make_entry, pull_items, Step-cases}

module _ {J : Type 0} (t : Tools J) where
  -- The provider that the pull of an item leaves: a provider may keep a token.
  abbrev pub left_by : Provider → TSecretSyncData → Provider
  left_by p item = (get_secret t.http t.json t.env p item.remote_ref.key item.remote_ref.property).1

  -- The provider that the pulls of the items leave, one after the other.
  abbrev pub left_after : Provider → List TSecretSyncData → Provider
  left_after p [] = p
  left_after p (item ∷ items) = left_after (left_by p item) items

module _ {J : Type 0} (t : Tools J) (c : Reader) (enc_ref : EncryptionRef) (namespace : Text) where
  pub make_entry_inv :
      (n : ℕ) (p : Provider) (item : TSecretSyncData) (e : TSecretEntry)
      → (make_entry t c enc_ref namespace n p item).0 ≡ done e
      → (v : Text) × (key : Bytes) × ((get_secret t.http t.json t.env p item.remote_ref.key
            item.remote_ref.property).0
          ≡ ok v)
        × (resolve_key t.http t.json t.chacha.key_size c enc_ref namespace ≡ ok key)
        × (encrypt t.chacha (t.rand n) v key algorithm_xchacha ≡ ok e.value)
        × (e.algorithm ≡ algorithm_xchacha)
  unfolding make_entry
  make_entry_inv n p item e h = ground arith

  -- An entry that holds the value that the provider gives for the item's remote secret: it is a
  -- valid entry, and it opens under the resolved key to that value.
  pub record Sealed (p : Provider) (item : TSecretSyncData) (e : TSecretEntry) : Type 0 where
    pub value : Text
    pub key : Bytes
    pub pulled :
        (get_secret t.http t.json t.env p item.remote_ref.key item.remote_ref.property).0 ≡ ok value
    pub resolved : resolve_key t.http t.json t.chacha.key_size c enc_ref namespace ≡ ok key
    pub opens : decrypt t.chacha e.value key ≡ plain value
    pub valid : entry_valid e ≡ true

-- The parts that a synchronisation builds on keep their contracts: the ciphers, the source of
-- randomness, and the JSON library.
pub record IsWorking {J : Type 0} (t : Tools J) : Type 0 where
  pub chacha : IsChacha t.chacha
  pub rand : (n : ℕ) → Reads (t.rand n)
  pub json : IsJson t.json

x_supported : is_supported algorithm_xchacha ≡ true
unfolding is_supported text_eq
x_supported = refl

entry_valid_lem :
    (e : TSecretEntry)
    → is_valid_encrypted_value e.value ≡ true
    → e.algorithm ≡ algorithm_xchacha
    → entry_valid e ≡ true
unfolding entry_valid
entry_valid_lem e h k = ground (arith, text_eq_iff e.algorithm algorithm_xchacha)

module _ {J : Type 0} (t : Tools J) (c : Reader) (enc_ref : EncryptionRef) (namespace : Text)
    (working : IsWorking t) where
  make_entry-Sealed :
      (n : ℕ) (p : Provider) (item : TSecretSyncData) (e : TSecretEntry)
      → (make_entry t c enc_ref namespace n p item).0 ≡ done e
      → Sealed t c enc_ref namespace p item e
  make_entry-Sealed n p item e h =
      let (v, key, pulled, resolved, encrypted, algorithm) =
        make_entry_inv t c enc_ref namespace n p item e h in
      let sized =
        (length-resolve_key t.http t.json t.chacha.key_size c enc_ref namespace key resolved).0 in
      let (value, encrypted', valid, opens) =
        decrypt-encrypt t.chacha (t.rand n) v key algorithm_xchacha working.chacha (working.rand n)
          (get_secret-IsByte t.json working.json t.http t.env p item.remote_ref.key
            item.remote_ref.property v pulled)
          sized x_supported in
      let same : value ≡ e.value = cc (encrypted, encrypted') in
      record {
        value = v;
        key = key;
        pulled = pulled;
        resolved = resolved;
        opens = rw (← same) opens;
        valid = entry_valid_lem e (rw (← same) valid) algorithm;
      }

  pub pull_items_step :
      (n : ℕ) (p : Provider) (item : TSecretSyncData) (items : List TSecretSyncData)
      (entries entries' : Map TSecretEntry)
      → pull_items t c enc_ref namespace n p (item ∷ items) entries ≡ done entries'
      → (e : TSecretEntry) × Sealed t c enc_ref namespace p item e
        × (pull_items t c enc_ref namespace
              (n + 1)
              (left_by t p item)
              items
              (insert item.secret_key e entries)
            ≡ done entries')
  unfolding pull_items make_entry
  pull_items_step n p item items entries entries' h =
      elim (Step-cases (make_entry t c enc_ref namespace n p item).0) [
        | inl (e, k) ↦ (e, make_entry-Sealed n p item e k, cc (h, k))
        | inr (f, k) ↦ cc (h, k)
      ]

  -- Every entry of the result was there before, or is sealed for an item of its key, with the
  -- provider that the items before it leave.
  pull_items_sound :
      (n : ℕ) (p : Provider) (items : List TSecretSyncData) (entries entries' : Map TSecretEntry)
      (k : Text) (e : TSecretEntry)
      → pull_items t c enc_ref namespace n p items entries ≡ done entries'
      → lookup k entries' ≡ some e
      → (lookup k entries ≡ some e)
        ⊎ ((before : List TSecretSyncData) × (item : TSecretSyncData) × (after : List
              TSecretSyncData)
            × (items ≡ before ++ item ∷ after)
            × (item.secret_key ≡ k)
            × Sealed t c enc_ref namespace (left_after t p before) item e)
  pull_items_sound n p [] entries entries' k e h found = inl (unfold pull_items in cc (h, found))
  pull_items_sound n p (item ∷ items) entries entries' k e h found =
      let (e', sealed, rest) = pull_items_step n p item items entries entries' h in
      elim (pull_items_sound (n + 1) (left_by t p item) items (insert item.secret_key e' entries)
        entries' k e rest found) [
          | inr (before, i, after, split, key, s) ↦
              inr (item ∷ before, i, after, ap (λ is. item ∷ is) split, key, s)
          | inl old ↦ elim (lookup_inserted item.secret_key k e' e entries old) [
            | inl (same, made) ↦ inr (
              [],
              item,
              items,
              refl,
              same,
              subst (Sealed t c enc_ref namespace p item) made sealed,
            )
            | inr before ↦ inl before
          ]
        ]

  -- A key that is there stays there, and the keys of the items are added.
  pull_items_keep :
      (n : ℕ) (p : Provider) (items : List TSecretSyncData) (entries entries' : Map TSecretEntry)
      (k : Text) (e : TSecretEntry)
      → pull_items t c enc_ref namespace n p items entries ≡ done entries'
      → lookup k entries ≡ some e
      → (e' : TSecretEntry) × (lookup k entries' ≡ some e')
  pull_items_keep n p [] entries entries' k e h found = (e, unfold pull_items in cc (h, found))
  pull_items_keep n p (item ∷ items) entries entries' k e h found =
      let (made, _, rest) = pull_items_step n p item items entries entries' h in
      elim (Bool-cases (text_eq item.secret_key k)) [
        | inl same ↦
            pull_items_keep (n + 1) (left_by t p item) items (insert item.secret_key made entries)
              entries' k made rest (ground (arith, lookup-insert item.secret_key k made entries))
        | inr other ↦
            pull_items_keep (n + 1) (left_by t p item) items (insert item.secret_key made entries)
              entries' k e rest (ground (arith, lookup-insert item.secret_key k made entries))
      ]

  pull_items_complete :
      (n : ℕ) (p : Provider) (items : List TSecretSyncData) (entries entries' : Map TSecretEntry)
      (item : TSecretSyncData)
      → pull_items t c enc_ref namespace n p items entries ≡ done entries'
      → In item items
      → (e : TSecretEntry) × (lookup item.secret_key entries' ≡ some e)
  pull_items_complete n p [] entries entries' item h member = absurd member
  pull_items_complete n p (i ∷ items) entries entries' item h (inr member) =
      let (made, _, rest) = pull_items_step n p i items entries entries' h in
      pull_items_complete (n + 1) (left_by t p i) items (insert i.secret_key made entries) entries'
        item rest member
  pull_items_complete n p (i ∷ items) entries entries' item h (inl same) =
      let (made, _, rest) = pull_items_step n p i items entries entries' h in
      pull_items_keep (n + 1) (left_by t p i) items (insert i.secret_key made entries) entries'
        item.secret_key made rest
        (rw (← same) (lookup-insert i.secret_key i.secret_key made entries ∙ rw text_eq_refl))

  -- Every item of a list that is pulled to the end has an entry under its key, sealed for an item of
  -- this key, with the provider that the items before that one leave.
  pub pull_items_lem :
      (p : Provider) (items : List TSecretSyncData) (entries : Map TSecretEntry)
      (item : TSecretSyncData)
      → pull_items t c enc_ref namespace 0 p items [] ≡ done entries
      → In item items
      → (e : TSecretEntry) × (lookup item.secret_key entries ≡ some e)
        × (before : List TSecretSyncData) × (source : TSecretSyncData) × (after : List
            TSecretSyncData)
        × (items ≡ before ++ source ∷ after)
        × (source.secret_key ≡ item.secret_key)
        × Sealed t c enc_ref namespace (left_after t p before) source e
  pull_items_lem p items entries item h member =
      let (e, found) = pull_items_complete 0 p items [] entries item h member in
      elim (pull_items_sound 0 p items [] entries item.secret_key e h found) [
        | inl old ↦ unfold lookup in cc old
        | inr (before, source, after, split, key, s) ↦
            (e, found, before, source, after, split, key, s)
      ]
