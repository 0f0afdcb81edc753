-- ===== src/Controller/Sync.antt =====
-- TSecretSyncReconciler of pkg/controller/sync_controller.go. time.ParseDuration is a parameter.
pub mod Interval
pub mod Failure
pub mod Data
pub mod Pulled
pub mod Target
use tsecret.Common.{
  ℕ, ◌+◌, ◌*◌, Bool, true, false, Option, none, some, List, [], ◌∷◌, Text, Bytes, codes, text_eq,
  is_empty, Map, insert, length, Message, errorf, wrapf, text, num, Result, ok, err, wrap, ◌>>=◌,
  ltb_ℤ, ◌≡◌, refl, ◌⊎◌, inl, inr, if◌then◌else◌,
}
use tsecret.Api.{
  NamespacedName, ObjectMeta, TSecret, TSecretSpec, TSecretStatus, TSecretEntry, TSecretSync,
  TSecretSyncStatus, TSecretSyncData, TSecretStoreSpec, EncryptionRef, Condition, Time,
}
use tsecret.Crypto.{Chacha, encrypt, algorithm_xchacha}
use tsecret.Providers.Base.{Http, Json, Environ}
use tsecret.Providers.Store.{Reader, kind_store, kind_cluster_store}
use tsecret.Providers.{Provider, new_provider, get_secret, configure_provider_auth}
use tsecret.Keys.{resolve_key, sealed_secret}
use tsecret.Controller.{Client, Duration, seconds}
use tsecret.Controller.Conditions.{set_condition}
use tsecret.Controller.Entries.{ignore_not_found}

-- The client as the reader of keys and credentials.
unfoldable pub reader : {W : Type 0} → Client W → W → Reader
reader c w = record {
  get_secret = c.get_secret w;
  get_store = c.get_store w;
  get_cluster_store = c.get_cluster_store w;
}

abbrev pub unavailable : Text
unavailable = codes "Unavailable"

unfoldable pub resolve_store : {W : Type 0} → Client W → TSecretSync → W → Result TSecretStoreSpec
resolve_store c sync w =
    let ref = sync.spec.secret_store_ref in
    if text_eq ref.kind kind_store
    then (wrap "TSecretStore %s not found: %w" (text ref.name ∷ [])
          (c.get_store w (record { namespace = sync.metadata.namespace; name = ref.name }))
        >>= λ store.
            if text_eq store.status.status unavailable
            then err (errorf "TSecretStore %s is unavailable" (text ref.name ∷ []))
            else ok store.spec)
    else if text_eq ref.kind kind_cluster_store
    then (wrap "ClusterTSecretStore %s not found: %w" (text ref.name ∷ [])
          (c.get_cluster_store w (record { namespace = []; name = ref.name }))
        >>= λ store.
            if text_eq store.status.status unavailable
            then err (errorf "ClusterTSecretStore %s is unavailable" (text ref.name ∷ []))
            else ok store.spec)
    else err (errorf "unsupported store kind: %s" (text ref.kind ∷ []))

unfoldable pub sync_with_status : TSecretSync → Time → Text → Text → Message → TSecretSync
sync_with_status sync now status reason message = record sync {
  status = record sync.status {
    status = status;
    conditions = set_condition sync.status.conditions (record {
      kind = codes "Synced";
      status = text_eq status (codes "Synced");
      last_transition_time = now;
      reason = reason;
      message = message;
    });
  };
}

-- setSyncStatus; the update's error is only logged.
unfoldable pub set_sync_status :
    {W : Type 0} → Client W → Time → TSecretSync → Text → Text → Message → W → W
set_sync_status c now sync status reason message w =
    (c.update_sync_status (sync_with_status sync now status reason message) w).1

unfoldable pub default_encryption_ref : TSecretSync → EncryptionRef
default_encryption_ref sync = elim sync.spec.encryption_ref [
  | some ref ↦ ref
  | none ↦ record {
    provider = sealed_secret;
    name = codes "tsecret-master-key";
    namespace = [];
    vault_transit = none;
  }
]

-- parseDuration, over time.ParseDuration.
unfoldable pub parse_duration : (Text → Option Duration) → Text → Duration → Duration
parse_duration parse s default_val =
    if is_empty s then default_val else elim (parse s) [ some d ↦ d | none ↦ default_val ]

-- The interval of the next reconciliation, with its bounds.
unfoldable pub requeue_interval : (Text → Option Duration) → Text → Duration
unfolding parse_duration
requeue_interval parse s =
    let interval = parse_duration parse s (seconds 3600) in
    let interval' = if ltb_ℤ interval (seconds 30) then seconds 30 else interval in
    if ltb_ℤ (seconds 86400) interval' then seconds 86400 else interval'

-- Where a step fails: the reason and the message of the condition.
pub record Failed : Type 0 where
  pub reason : Text
  pub message : Message

pub data Step (A : Type 0) : Type 0 where
  done : A → Step A
  stop : Failed → Step A

pub Step-cases :
    {A : Type 0} (s : Step A) → ((a : A) × (s ≡ done a)) ⊎ ((f : Failed) × (s ≡ stop f))
Step-cases (done a) = inl (a, refl)
Step-cases (stop f) = inr (f, refl)

infixl 5 ◌▸◌
abbrev pub ◌▸◌ : {A B : Type 0} → Step A → (A → Step B) → Step B
done a ▸ f = f a
stop e ▸ f = stop e

abbrev pub or_stop : {A : Type 0} → Text → Result A → Step A
or_stop reason (ok a) = done a
or_stop reason (err e) = stop (record { reason = reason; message = e })

-- What a reconciliation uses beside the cluster; `rand n` is the outcome of the n-th read of
-- rand.Reader, `synced_at` and `now` are the two times of a successful one.
pub record Tools (J : Type 0) : Type 0 where
  pub http : Http
  pub json : Json J
  pub env : Environ
  pub chacha : Chacha
  pub rand : ℕ → ℕ → Result Bytes
  pub parse : Text → Option Duration
  pub synced_at : Time
  pub now : Time

module _ {J : Type 0} (t : Tools J) (c : Reader) (enc_ref : EncryptionRef) (namespace : Text) where
  -- The entry of one item: its remote value is pulled, and sealed under the resolved key.
  unfoldable pub make_entry : ℕ → Provider → TSecretSyncData → Step TSecretEntry × Provider
  make_entry n p item =
      let remote = item.remote_ref in
      let (pulled, p') = get_secret t.http t.json t.env p remote.key remote.property in
      let entry =
        or_stop (codes "PullFailed") (wrap "failed to pull %s: %v" (text remote.key ∷ []) pulled)
        ▸ λ value.
            or_stop (codes "KeyResolutionFailed")
              (resolve_key t.http t.json t.chacha.key_size c enc_ref namespace)
            ▸ λ key.
                or_stop (codes "EncryptionFailed")
                  (encrypt t.chacha (t.rand n) value key algorithm_xchacha)
                ▸ λ encrypted. done (record {
                  value = encrypted;
                  algorithm = algorithm_xchacha;
                  key_ref = enc_ref.name;
                }) in
      (entry, p')

  -- The loop over the items, from the entries so far.
  unfoldable pub pull_items :
      ℕ → Provider → List TSecretSyncData → Map TSecretEntry → Step (Map TSecretEntry)
  pull_items n p [] entries = done entries
  pull_items n p (item ∷ items) entries =
      let (made, p') = make_entry n p item in
      made ▸ λ entry. pull_items (n + 1) p' items (insert item.secret_key entry entries)

-- The provider with its credentials, and the entries that are pulled with it.
unfoldable pub pull :
    {J W : Type 0} → Tools J → Client W → TSecretSync → Text → W → Step (Map TSecretEntry)
unfolding reader
pull t c sync namespace w =
    or_stop (codes "StoreResolutionFailed") (resolve_store c sync w) ▸ λ spec.
    or_stop (codes "ProviderError") (new_provider t.env spec.provider) ▸ λ p.
    (elim spec.provider.vault [
      | none ↦ done p
      | some config ↦
          or_stop (codes "AuthFailed")
            (configure_provider_auth (c.get_secret w) sync.metadata.namespace p config.auth)
    ])
    ▸ λ p'.
        pull_items t (reader c w) (default_encryption_ref sync) namespace 0 p' sync.spec.items []

unfoldable pub new_target : TSecretSync → Text → Map TSecretEntry → TSecret
new_target sync namespace entries = record {
  metadata = record {
    name = sync.spec.target.name;
    namespace = namespace;
    labels =
        (codes "tsecret.io/managed-by", codes "tsecretsync")
        ∷ (codes "tsecret.io/sync-name", sync.metadata.name)
        ∷ [];
    annotations = [];
    generation = 0;
  };
  spec = record { encryption_ref = default_encryption_ref sync; entries = entries };
  status = record { conditions = []; last_encrypted_at = none; key_version = [] };
}

unfoldable pub updated_target : TSecretSync → Map TSecretEntry → TSecret → TSecret
updated_target sync entries target = record target {
  spec = record { encryption_ref = default_encryption_ref sync; entries = entries };
}

-- Any error of the Get makes a new target.
unfoldable pub write_target :
    {W : Type 0} → Client W → TSecretSync → Text → Map TSecretEntry → W → Step (Unit {0}) × W
write_target c sync namespace entries w =
    elim (c.get_tsecret w (record { namespace = namespace; name = sync.spec.target.name })) [
      | err e ↦
          let (r, w') = c.create_tsecret (new_target sync namespace entries) w in
          (or_stop (codes "CreateFailed") r, w')
      | ok target ↦
          let (r, w') = c.update_tsecret (updated_target sync entries target) w in
          (or_stop (codes "UpdateFailed") r, w')
    ]

unfoldable pub mark_synced : TSecretSync → Time → TSecretSync
mark_synced sync synced_at = record sync {
  status = record sync.status {
    last_synced_at = some synced_at;
    synced_generation = sync.metadata.generation;
  };
}

module _ {J W : Type 0} (t : Tools J) (c : Client W) where
  -- setSyncStatus "SyncFailed", and a new attempt after a minute.
  unfoldable pub fail_sync : TSecretSync → Failed → W → Result Duration × W
  fail_sync sync f w =
      (ok (seconds 60), set_sync_status c t.now sync (codes "SyncFailed") f.reason f.message w)

  unfoldable pub succeed_sync : TSecretSync → Map TSecretEntry → W → Result Duration × W
  succeed_sync sync entries w = (
    ok (requeue_interval t.parse sync.spec.refresh_interval),
    set_sync_status c t.now (mark_synced sync t.synced_at) (codes "Synced") (codes "SyncComplete")
        (errorf "Successfully synced %d secrets" (num (length entries) ∷ [])) w,
  )

  finish_sync : TSecretSync → Map TSecretEntry → Step (Unit {0}) × W → Result Duration × W
  finish_sync sync entries (done _, w) = succeed_sync sync entries w
  finish_sync sync entries (stop f, w) = fail_sync sync f w

  unfoldable pub sync_target : TSecretSync → Text → W → Result Duration × W
  unfolding finish_sync
  sync_target sync namespace w = elim (pull t c sync namespace w) [
    | stop f ↦ fail_sync sync f w
    | done entries ↦ finish_sync sync entries (write_target c sync namespace entries w)
  ]

  unfoldable pub reconcile_sync : NamespacedName → W → Result Duration × W
  reconcile_sync key w = elim (c.get_sync w key) [
    | err e ↦ (ignore_not_found e, w)
    | ok sync ↦ sync_target sync key.namespace w
  ]
