-- ===== src/Controller/World.antt =====
-- A small cluster: the TSecrets are a list, with the latest of a name at its front; everything else
-- is fixed.
use tsecret.Common.{
  ◌&&◌, none, some, List, [], ◌∷◌, Text, codes, text_eq, text_eq_iff, text_eq_refl, ◌≡◌, refl,
  arith, Result, ok, err, not_found, external, if◌then◌else◌, All, subst,
}
use tsecret.Api.{
  NamespacedName, ObjectMeta, TSecret, TSecretSync, TSecretSyncData, TSecretStore, VaultAuth,
  VaultConfig, Secret,
}
use tsecret.Crypto.Base64.RoundTrip.{IsByte}
use tsecret.Crypto.Samples.{clear_chacha, clear_chacha-IsChacha, zeros, zeros-Reads, zero_key}
use tsecret.Providers.Base.{Http, Json}
use tsecret.Providers.Strings.{IsJson}
use tsecret.Controller.{Client}
use tsecret.Controller.Sync.{Tools}
use tsecret.Controller.Sync.Data.{IsWorking}
use tsecret.Controller.Sync.Target.{IsCluster}

abbrev pub World : Type 0
World = List TSecret

abbrev find : World → NamespacedName → Result TSecret
find [] k = err not_found
find (t ∷ ts) k =
    if text_eq t.metadata.namespace k.namespace && text_eq t.metadata.name k.name
    then ok t
    else find ts k

abbrev pub no_auth : VaultAuth
no_auth = record {
  token_secret_ref = some (record { name = codes "vault"; key = codes "token"; namespace = [] });
  kubernetes = none;
  app_role = none;
}

abbrev meta : Text → ObjectMeta
meta name = record {
  name = name;
  namespace = codes "prod";
  labels = [];
  annotations = [];
  generation = 3;
}

abbrev pub vault_config : VaultConfig
vault_config = record {
  server = codes "http://vault/";
  path = codes "/secret/data/";
  auth = no_auth;
}

abbrev pub vault_store : TSecretStore
vault_store = record {
  metadata = meta (codes "vault");
  spec = record {
    provider = record {
      vault = some vault_config;
      aws = none;
      azure = none;
      gcp = none;
      oracle = none;
    };
    refresh_interval = [];
  };
  status = record { conditions = []; status = codes "Ready"; last_checked_at = none };
}

abbrev pub db_item : TSecretSyncData
db_item = record {
  secret_key = codes "password";
  remote_ref = record { key = codes "db"; property = []; version = [] };
}

abbrev pub db_sync : TSecretSync
db_sync = record {
  metadata = meta (codes "db-sync");
  spec = record {
    secret_store_ref = record { name = codes "vault"; kind = codes "TSecretStore" };
    target = record { name = codes "db" };
    items = db_item ∷ [];
    refresh_interval = codes "1s";
    encryption_ref = none;
  };
  status = record { conditions = []; status = []; last_synced_at = none; synced_generation = 0 };
}

-- One Secret holds both the token for Vault and the key.
abbrev pub keys : Secret
keys = record {
  metadata = meta (codes "keys");
  entries = (codes "token", codes "t") ∷ (codes "encryption-key", zero_key) ∷ [];
}

abbrev pub cluster : Client World
cluster = record {
  get_tsecret = find;
  get_sync = λ w k. ok db_sync;
  get_store = λ w k. ok vault_store;
  get_cluster_store = λ w k. err not_found;
  get_secret = λ w k. ok keys;
  create_tsecret = λ t w. (ok tt, t ∷ w);
  update_tsecret = λ t w. (ok tt, t ∷ w);
  update_tsecret_status = λ t w. (ok tt, t ∷ w);
  update_store_status = λ s w. (ok tt, w);
  update_sync_status = λ s w. (ok tt, w);
}

find_named :
    (w : World) (k : NamespacedName) (t : TSecret)
    → find w k ≡ ok t
    → (t.metadata.namespace ≡ k.namespace) × (t.metadata.name ≡ k.name)
find_named [] k t h = cc h
find_named (u ∷ w) k t h = ground (
  arith,
  find_named w k t,
  text_eq_iff u.metadata.namespace k.namespace,
  text_eq_iff u.metadata.name k.name,
)

find_front :
    (t : TSecret) (w : World)
    → find (t ∷ w) (record { namespace = t.metadata.namespace; name = t.metadata.name }) ≡ ok t
find_front t w = rw (text_eq_refl t.metadata.namespace, text_eq_refl t.metadata.name) refl

pub cluster-IsCluster : IsCluster cluster
cluster-IsCluster = record {
  named = find_named;
  created = λ t w h. (t, find_front t w, refl);
  updated = λ t w h. (t, find_front t w, refl);
  status_apart = λ s w k. refl;
}

-- A server that answers every request alike, and one that cannot be reached.
abbrev answering : Http
answering = record {
  check = λ method url. ok tt;
  send = λ request. ok (record { status_code = 200; body = codes "{}" });
}

abbrev pub down : Http
down = record { check = λ method url. ok tt; send = λ request. err (external (codes "timeout")) }

-- JSON in which every document is an empty object.
abbrev pub empty_objects : Json (Unit {0})
empty_objects = record {
  decode_object = λ body. ok [];
  decode_string = λ path body. ok (codes "v");
  decode_nested = λ path body. ok (some []);
  show = λ j. codes "v";
  encode = λ values. ok (codes "{}");
  encode_strings = λ values. ok (codes "{}");
}

abbrev tools_over : Http → Tools (Unit {0})
tools_over http = record {
  http = http;
  json = empty_objects;
  env = λ name. [];
  chacha = clear_chacha;
  rand = λ n. zeros;
  parse = λ s. none;
  synced_at = 7;
  now = 8;
}

abbrev pub tools : Tools (Unit {0})
tools = tools_over answering

abbrev pub tools_down : Tools (Unit {0})
tools_down = tools_over down

pub empty_objects-IsJson : IsJson empty_objects
empty_objects-IsJson = record {
  decoded =
      λ path body s h. let same : codes "v" ≡ s = cc h in subst (All IsByte) same (omega arith, tt);
  shown = λ j. (omega arith, tt);
  encoded = λ values s h.
      let same : codes "{}" ≡ s = cc h in subst (All IsByte) same (omega arith, (omega arith, tt));
}

pub tools-IsWorking : IsWorking tools
tools-IsWorking = record {
  chacha = clear_chacha-IsChacha;
  rand = λ n. zeros-Reads;
  json = empty_objects-IsJson;
}

-- A cluster of one store.
abbrev pub store_cluster : Client TSecretStore
store_cluster = record {
  get_tsecret = λ w k. err not_found;
  get_sync = λ w k. ok db_sync;
  get_store = λ w k. ok w;
  get_cluster_store = λ w k. err not_found;
  get_secret = λ w k. ok keys;
  create_tsecret = λ t w. (ok tt, w);
  update_tsecret = λ t w. (ok tt, w);
  update_tsecret_status = λ t w. (ok tt, w);
  update_store_status = λ s w. (ok tt, record w { status = s.status });
  update_sync_status = λ s w. (ok tt, w);
}
