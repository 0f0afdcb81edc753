-- ===== src/Commands/Samples.antt =====
-- The theorems about the commands at concrete arguments.
use tsecret.Common.{
  ℕ, Bool, true, false, Option, none, some, List, [], ◌∷◌, ◌++◌, Text, Bytes, codes, Map, Result,
  ok, err, All, ◌≡◌, ◌⊎◌, refl, ap, ◌∙◌, length, cut, lookup, insert, text_eq, has_prefix, arith,
  not_found,
}
use tsecret.Crypto.Samples.{clear_chacha, clear_chacha-IsChacha, zeros, zeros-Reads, zero_key}
use tsecret.Crypto.Base64
use tsecret.Crypto.Base64.RoundTrip.{IsByte}
use tsecret.Keys.{resolve_key}
use tsecret.Controller.Sync.{reader}
use tsecret.Controller.World.{cluster, tools}
use tsecret.Webhook.Plan.{TSecretInjection}
use tsecret.Webhook.Patch.{injector, injector_args}
use tsecret.Inject.Samples.{
  Disk, disk, disk-IsFileSystem, disk-IsRoomy, db, swapped, swapped-Reorder, names_fit, different,
  opening, unnamed,
}
use tsecret.Inject.Writer.Mounted.{Mounted}
use tsecret.Inject.Writer.Twice.{write_delivers}
use tsecret.Commands.Flags.{parsed, help, parse_flags}
use tsecret.Commands.Inject.{Access, inject_main, inject_flags, options, exit_code}
use tsecret.Commands.Inject.Args.{planned, options-injector_args}
use tsecret.Commands.Inject.Exit.{main_lem, exit-Mounted}
use tsecret.Commands.Encrypt.{encrypt_main, encrypt_flags}
use tsecret.Commands.Encrypt.Lines.{Lines, Delivered, encrypt_main-Lines}
use tsecret.Commands.Encrypt.Run.{IsPair, encrypt_main_delivers}

abbrev plan : TSecretInjection
plan = record {
  secret_name = codes "db";
  mount_path = codes "/run/db";
  prefix = codes "DB_";
  export_env = true;
  volume_name = codes "tsecret-db";
  containers = [];
}

abbrev access : Access
access = record { get_tsecret = λ k. ok db; reader = reader cluster [] }

abbrev main : List Text → Disk → ℕ × Disk
main = inject_main tools.http tools.json clear_chacha disk swapped [] (ok tt) (λ config. ok access)

key_resolved :
    resolve_key tools.http tools.json 32 (reader cluster []) db.spec.encryption_ref (codes "prod")
    ≡ ok zero_key
unfolding resolve_key tsecret.Common.text_eq tsecret.Keys.resolve_from_secret reader
    tsecret.Common.lookup
key_resolved = refl

exits : (main (injector plan (codes "image") (codes "prod")).args []).0 ≡ 0
unfolding exit_code lookup
exits =
    let resolve = resolve_key tools.http tools.json 32 (reader cluster []) in
    let (w', e, _) =
      write_delivers disk clear_chacha (λ k. ok db) resolve swapped (codes "prod") (codes "db")
        (codes "/run/db") (codes "DB_") true [] db zero_key disk-IsFileSystem
        (disk-IsRoomy (codes "/run/db")) swapped-Reorder refl key_resolved names_fit different
        opening (refl, (refl, tt)) unnamed (λ _. refl) in
    ap (λ (r : ℕ × Disk). r.0)
      (main_lem tools.http tools.json clear_chacha disk swapped [] (ok tt) (λ config. ok access)
        plan (codes "image") (codes "prod") [] tt access refl refl refl refl refl)
    ∙ ap (λ r. exit_code r.0) e

exit-Mounted_example :
    (key : Bytes) × (resolve_key tools.http tools.json 32
        (reader cluster [])
        db.spec.encryption_ref
        (codes "prod")
      ≡ ok key)
    × (length key ≡ 32)
    × Mounted disk clear_chacha key
        (codes "/run/db")
        (codes "DB_")
        true
        db.spec.entries
        []
        (main (injector plan (codes "image") (codes "prod")).args []).1
exit-Mounted_example =
    exit-Mounted tools.http tools.json clear_chacha disk swapped [] (ok tt) (λ config. ok access)
      plan (codes "image") (codes "prod") [] tt access db disk-IsFileSystem swapped-Reorder refl
      refl refl refl names_fit different unnamed exits

options-injector_args_example :
    (values : Map Text) × (parse_flags inject_flags (injector_args plan (codes "prod")) []
      ≡ parsed values [])
    × (options values ≡ planned plan (codes "prod"))
options-injector_args_example = options-injector_args plan (codes "prod")

-- Two pairs, one of them with a second `=`.
abbrev pairs : List Text
pairs = codes "USER=admin" ∷ codes "PASS=a=b" ∷ []

no_file : Text → Result Bytes
no_file path = err not_found

pairs-IsPair : All IsPair pairs
unfolding cut
pairs-IsPair = (
  record { name = codes "USER"; value = codes "admin"; split = refl; bytes = omega arith },
  (record { name = codes "PASS"; value = codes "a=b"; split = refl; bytes = omega arith }, tt),
)

pair_bytes : All (All IsByte) pairs
pair_bytes = (omega arith, (omega arith, tt))

zero_key-IsByte : All IsByte zero_key
zero_key-IsByte = omega arith

encrypt_main_delivers_example :
    (lines : List Text) × (encrypt_main clear_chacha
        (λ i. zeros)
        no_file
        ((codes "--key-b64=" ++ Base64.std_encode zero_key) ∷ pairs)
      ≡ (0, lines))
    × Lines clear_chacha zero_key pairs lines
unfolding has_prefix
encrypt_main_delivers_example =
    encrypt_main_delivers clear_chacha (λ i. zeros) no_file zero_key (codes "USER=admin")
      (codes "PASS=a=b" ∷ []) clear_chacha-IsChacha (λ i. zeros-Reads) zero_key-IsByte refl refl
      refl pairs-IsPair pair_bytes

encrypt_exits :
    (encrypt_main clear_chacha
      (λ i. zeros)
      no_file
      ((codes "--key-b64=" ++ Base64.std_encode zero_key) ∷ pairs)).0
    ≡ 0
unfolding has_prefix
encrypt_exits =
    let (lines, e, _) =
      encrypt_main_delivers clear_chacha (λ i. zeros) no_file zero_key (codes "USER=admin")
        (codes "PASS=a=b" ∷ []) clear_chacha-IsChacha (λ i. zeros-Reads) zero_key-IsByte refl refl
        refl pairs-IsPair pair_bytes in
    ap (λ (r : ℕ × List Text). r.0) e

abbrev encrypt_args : List Text
encrypt_args = (codes "--key-b64=" ++ Base64.std_encode zero_key) ∷ pairs

args_bytes : All (All IsByte) encrypt_args
unfolding Base64.std_encode
args_bytes = (omega arith, pair_bytes)

encrypt_main-Lines_example :
    ((parse_flags encrypt_flags encrypt_args [] ≡ help)
      × ((encrypt_main clear_chacha (λ i. zeros) no_file encrypt_args).1 ≡ []))
    ⊎ ((values : Map Text) × (rest : List Text) × (parse_flags encrypt_flags encrypt_args []
          ≡ parsed values rest)
        × Delivered clear_chacha no_file values rest
            (encrypt_main clear_chacha (λ i. zeros) no_file encrypt_args).1)
encrypt_main-Lines_example =
    encrypt_main-Lines clear_chacha (λ i. zeros) no_file encrypt_args clear_chacha-IsChacha
      (λ i. zeros-Reads) args_bytes encrypt_exits
