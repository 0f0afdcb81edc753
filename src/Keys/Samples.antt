-- ===== src/Keys/Samples.antt =====
-- The theorem about pkg/webhook/keyresolver.go in the small cluster.
use tsecret.Common.{
  Bool, true, false, Option, none, some, [], ◌∷◌, Text, codes, length, ◌≡◌, ◌⊎◌, refl, Result, ok,
  err,
}
use tsecret.Api.{EncryptionRef}
use tsecret.Crypto.Samples.{zero_key}
use tsecret.Keys.{resolve_key, sealed_secret, vault_transit}
use tsecret.Keys.Laws.{length-resolve_key}
use tsecret.Controller.Sync.{reader}
use tsecret.Controller.World.{cluster, tools}

abbrev sealed_ref : EncryptionRef
sealed_ref = record {
  provider = sealed_secret;
  name = codes "tsecret-master-key";
  namespace = [];
  vault_transit = none;
}

resolved :
    resolve_key tools.http tools.json 32 (reader cluster []) sealed_ref (codes "prod") ≡ ok zero_key
unfolding resolve_key tsecret.Common.text_eq tsecret.Keys.resolve_from_secret reader
    tsecret.Common.lookup
resolved = refl

length-resolve_key_example :
    (length zero_key ≡ 32)
    × ((sealed_ref.provider ≡ sealed_secret) ⊎ (sealed_ref.provider ≡ vault_transit))
length-resolve_key_example =
    length-resolve_key tools.http tools.json 32 (reader cluster []) sealed_ref (codes "prod")
      zero_key resolved
