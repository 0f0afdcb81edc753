-- ===== src/Inject/Samples.antt =====
-- The theorems about pkg/inject on a small file system, an association list of files.
use tsecret.Common.{
  ℕ, true, false, none, some, [], ◌∷◌, Text, Bytes, codes, Map, lookup, insert, lookup-insert,
  Result, ok, err, Message, external, All, Pairwise, Reorder, Reorder-refl, swap, keep, empty, ◌≡◌,
  ◌≢◌, refl, sym, ap, ◌∙◌, arith, text_eq, text_eq_iff, text_eq_refl, if◌then◌else◌, Option, inl,
  inr, Bool-cases,
}
use tsecret.Api.{TSecret, TSecretEntry}
use tsecret.Crypto.{algorithm_xchacha}
use tsecret.Crypto.Samples.{clear_chacha, zero_key, sealed, sealed_plain}
use tsecret.Inject.Path.{base_sample, join, join_injective}
use tsecret.Inject.Files.{File, FileSystem, IsFileSystem, owner_writes}
use tsecret.Inject.Writer.Entries.{Plain, Apart, Spares}
use tsecret.Inject.Writer.Again.{IsRoomy, Opens}
use tsecret.Inject.Writer.Mounted.{Mounted, write-Mounted}
use tsecret.Inject.Writer.Twice.{write_delivers, write_twice}
use tsecret.Inject.Shell.{
  is_identifier, is_special, has_nul, is_path_char, all_chars, source_script,
}
use tsecret.Inject.Sourced.{contents, Exportable, WithoutNul, Exported, source-Mounted}
use tsecret.Inject.Writer.{Run, done, stopped, loader_name, write}

abbrev pub Disk : Type 0
Disk = Map File

-- A file that is there keeps whether it may be written, as with os.WriteFile.
abbrev store : Option File → Text → Bytes → ℕ → Disk → Result (Unit {0}) × Disk
store none path s mode w =
    (ok tt, insert path (record { content = s; writable = owner_writes mode }) w)
store (some g) path s mode w =
    if g.writable
    then (ok tt, insert path (record { content = s; writable = true }) w)
    else (err (external (codes "permission denied")), w)

abbrev pub disk : FileSystem Disk
disk = record {
  mkdir_all = λ path mode w. (ok tt, w);
  write_file = λ path s mode w. store (lookup path w) path s mode w;
  stat = λ path w. lookup path w;
}

lookup-same : (path : Text) (g : File) (w : Disk) → lookup path (insert path g w) ≡ some g
lookup-same path g w = ground (arith, lookup-insert path path g w, text_eq_refl path)

store-written :
    (o : Option File) (path : Text) (s : Bytes) (mode : ℕ) (w : Disk)
    → (store o path s mode w).0 ≡ ok tt
    → (g : File) × (lookup path (store o path s mode w).1 ≡ some g) × (g.content ≡ s)
store-written none path s mode w h = (_, lookup-same path _ w, refl)
store-written (some g) path s mode w h = elim (Bool-cases g.writable) [
  | inl e ↦ rw e (_, lookup-same path _ w, refl)
  | inr e ↦ cc (rw e at h)
]

insert-apart :
    (path other : Text) (g : File) (w : Disk)
    → path ≢ other
    → lookup other (insert path g w) ≡ lookup other w
insert-apart path other g w ne =
    ground (arith, lookup-insert path other g w, text_eq_iff path other)

store-apart :
    (o : Option File) (path other : Text) (s : Bytes) (mode : ℕ) (w : Disk)
    → path ≢ other
    → lookup other (store o path s mode w).1 ≡ lookup other w
store-apart none path other s mode w ne =
    insert-apart path other (record { content = s; writable = owner_writes mode }) w ne
store-apart (some g) path other s mode w ne = elim (Bool-cases g.writable) [
  | inl e ↦ rw e (insert-apart path other (record { content = s; writable = true }) w ne)
  | inr e ↦ rw e refl
]

store-created :
    (path : Text) (s : Bytes) (mode : ℕ) (w : Disk) (g : File)
    → lookup path (store none path s mode w).1 ≡ some g
    → owner_writes mode ≡ false
    → g.writable ≡ false
store-created path s mode w g found shut =
    let made = lookup-same path (record { content = s; writable = owner_writes mode }) w in
    let same : record { content = s; writable = owner_writes mode } ≡ g = cc (made, found) in
    ap (λ (h : File). h.writable) (sym same) ∙ shut

pub disk-IsFileSystem : IsFileSystem disk
disk-IsFileSystem = record {
  written = λ path s mode w h. store-written (lookup path w) path s mode w h;
  created =
      λ path s mode w g fresh found shut. store-created path s mode w g (rw fresh at found) shut;
  denied =
      λ path s mode w g found shut. (external (codes "permission denied"), rw found (rw shut refl));
  apart = λ folder name other s mode w k k' ne.
      store-apart (lookup (join folder name) w) (join folder name) (join folder other) s mode w
        (λ e. ne (join_injective folder name other k k' e));
  made = λ path other mode w. refl;
}

pub disk-IsRoomy : (mount : Text) → IsRoomy disk mount
disk-IsRoomy mount = record { folder = λ w. refl; fresh = λ name s mode w k new. rw new refl }

-- Two entries that are visited in either order.
abbrev entry : TSecretEntry
entry = record { value = sealed; algorithm = algorithm_xchacha; key_ref = [] }

abbrev entries : Map TSecretEntry
entries = (codes "USER", entry) ∷ (codes "PASS", entry) ∷ []

abbrev pub db : TSecret
db = record {
  metadata = record {
    name = codes "db";
    namespace = codes "prod";
    labels = [];
    annotations = [];
    generation = 1;
  };
  spec = record {
    encryption_ref = record {
      provider = codes "sealed-secret";
      name = codes "tsecret-master-key";
      namespace = [];
      vault_transit = none;
    };
    entries = entries;
  };
  status = record { conditions = []; last_encrypted_at = none; key_version = [] };
}

abbrev same_order : Map TSecretEntry → Map TSecretEntry
same_order m = m

abbrev pub swapped : Map TSecretEntry → Map TSecretEntry
swapped (x ∷ y ∷ m) = y ∷ x ∷ m
swapped m = m

pub swapped-Reorder : (m : Map TSecretEntry) → Reorder m (swapped m)
swapped-Reorder [] = empty
swapped-Reorder (x ∷ []) = keep x empty
swapped-Reorder (x ∷ y ∷ m) = swap x y m

abbrev run : Disk → Run Unit × Disk
run =
    write disk clear_chacha (λ k. ok db) (λ ref namespace. ok zero_key) swapped (codes "prod")
      (codes "db") (codes "/run/db") (codes "DB_") true

pub names_fit : All (Plain (codes "DB_")) entries
unfolding text_eq
names_fit = (
  record { given = refl; no_slash = omega arith; no_dot = refl; no_dots = refl },
  (record { given = refl; no_slash = omega arith; no_dot = refl; no_dots = refl }, tt),
)

pub different : Pairwise Apart entries
unfolding text_eq
different = (
  (λ e. let h : false ≡ true = (text_eq_iff (codes "USER") (codes "PASS")).1 e in cc h, tt),
  (tt, tt),
)

pub opening : All (Opens clear_chacha zero_key) entries
opening = ((codes "hunter2", sealed_plain), ((codes "hunter2", sealed_plain), tt))

pub unnamed : (true ≡ true) → All (Spares (codes "DB_") loader_name) entries
unnamed _ = ((λ e. cc e), ((λ e. cc e), tt))

delivered :
    (w' : Disk) × (run [] ≡ (done tt, w'))
    × Mounted disk clear_chacha zero_key (codes "/run/db") (codes "DB_") true entries [] w'
unfolding lookup
delivered =
    write_delivers disk clear_chacha (λ k. ok db) (λ ref namespace. ok zero_key) swapped
      (codes "prod") (codes "db") (codes "/run/db") (codes "DB_") true [] db zero_key
      disk-IsFileSystem (disk-IsRoomy (codes "/run/db")) swapped-Reorder refl refl names_fit
      different opening (refl, (refl, tt)) unnamed (λ _. refl)

first_run : (run []).0 ≡ done tt
first_run = ap (λ r. r.0) delivered.1

write_delivers_example :
    (w' : Disk) × (run [] ≡ (done tt, w'))
    × Mounted disk clear_chacha zero_key (codes "/run/db") (codes "DB_") true entries [] w'
unfolding lookup
write_delivers_example =
    write_delivers disk clear_chacha (λ k. ok db) (λ ref namespace. ok zero_key) swapped
      (codes "prod") (codes "db") (codes "/run/db") (codes "DB_") true [] db zero_key
      disk-IsFileSystem (disk-IsRoomy (codes "/run/db")) swapped-Reorder refl refl names_fit
      different opening (refl, (refl, tt)) unnamed (λ _. refl)

write_twice_example :
    (w' : Disk) × (run [] ≡ (done tt, w'))
    × (e : Message) × ((write disk clear_chacha
          (λ k. ok db)
          (λ ref namespace. ok zero_key)
          same_order
          (codes "prod")
          (codes "db")
          (codes "/run/db")
          (codes "DB_")
          true
          w').0
        ≡ stopped e)
unfolding lookup
write_twice_example =
    write_twice disk clear_chacha (λ k. ok db) (λ ref namespace. ok zero_key) swapped same_order
      (codes "prod") (codes "db") (codes "/run/db") (codes "DB_") true [] db zero_key
      disk-IsFileSystem (disk-IsRoomy (codes "/run/db")) swapped-Reorder Reorder-refl refl refl
      (λ e. cc e) names_fit different opening (refl, (refl, tt)) unnamed (λ _. refl)

write-Mounted_example :
    (key : Bytes) × (ok zero_key ≡ ok key)
    × Mounted disk clear_chacha key (codes "/run/db") (codes "DB_") true entries [] (run []).1
write-Mounted_example =
    write-Mounted disk clear_chacha (λ k. ok db) (λ ref namespace. ok zero_key) swapped
      (codes "prod") (codes "db") (codes "/run/db") (codes "DB_") true [] db disk-IsFileSystem
      swapped-Reorder refl names_fit different unnamed first_run

exportable : All (Exportable (codes "DB_")) entries
unfolding is_identifier is_special text_eq tsecret.Common.has_prefix
exportable = ((refl, refl), ((refl, refl), tt))

-- The plaintext of either entry is "hunter2".
no_nuls : All (WithoutNul clear_chacha zero_key) entries
unfolding has_nul
no_nuls = (
  (λ s e. let same : codes "hunter2" ≡ s = cc (e, sealed_plain) in rw (← same) refl),
  ((λ s e. let same : codes "hunter2" ≡ s = cc (e, sealed_plain) in rw (← same) refl), tt),
)

path_spared : All (Spares (codes "DB_") (codes "PATH")) entries
unfolding text_eq
path_spared = (
  (λ e. let h : false ≡ true = (text_eq_iff (codes "DB_USER") (codes "PATH")).1 e in cc h),
  ((λ e. let h : false ≡ true = (text_eq_iff (codes "DB_PASS") (codes "PATH")).1 e in cc h), tt),
)

mount_chars : all_chars is_path_char (codes "/run/db") ≡ true
unfolding all_chars is_path_char
mount_chars = refl

source-Mounted_example :
    (script : File) × (env' : Map Bytes) × (disk.stat
        (join (codes "/run/db") loader_name)
        delivered.0
      ≡ some script)
    × (source_script (contents disk delivered.0) script.content [] ≡ some env')
    × All (Exported clear_chacha zero_key (codes "DB_") env') entries
    × (lookup (codes "PATH") env' ≡ lookup (codes "PATH") [])
source-Mounted_example =
    source-Mounted disk clear_chacha zero_key (codes "/run/db") (codes "DB_") entries [] delivered.0
      [] (codes "PATH") delivered.2 base_sample mount_chars names_fit exportable no_nuls path_spared
