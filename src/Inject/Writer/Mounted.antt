-- ===== src/Inject/Writer/Mounted.antt =====
-- Write against what a mount promises: a file for each entry, the script, and nothing else changed.
use tsecret.Common.{
  ℕ, Bool, true, false, none, some, List, [], ◌∷◌, ◌++◌, Text, Bytes, Map, map, Result, ok, err,
  All, All-map, combined_lists, Pairwise, Pairwise-Reorder, All-Reorder, Reorder, Reorder-symm,
  sort_strings, sort_strings-Reorder, ◌≡◌, ◌≢◌, refl, sym, ap, ◌∙◌, subst, arith, ◌⊎◌, inl, inr,
  Result-cases, if◌then◌else◌, empty, keep, swap, via, codes,
}
use tsecret.Api.{NamespacedName, EncryptionRef, TSecret, TSecretEntry}
use tsecret.Crypto.{Chacha}
use tsecret.Inject.Path.{join, IsPlainName}
use tsecret.Inject.Files.{File, FileSystem, IsFileSystem}
use tsecret.Inject.Writer.Entries.{
  after-done, of_write-done, Opened, Plain, Apart, Spares, entries-frame, entries-Opened,
  Opened-frame,
}
use tsecret.Inject.Writer.{
  Run, done, after, made, env_script, loader_name, write_entries, write_env_loader, write_files,
  write,
}

abbrev pub file_names : Text → Map TSecretEntry → List Text
file_names prefix = map (λ (x : Text × TSecretEntry). prefix ++ x.0)

file_names-Reorder :
    (prefix : Text) {es es' : Map TSecretEntry}
    → Reorder es es'
    → Reorder (file_names prefix es) (file_names prefix es')
file_names-Reorder prefix empty = empty
file_names-Reorder prefix (keep x r) = keep (prefix ++ x.0) (file_names-Reorder prefix r)
file_names-Reorder prefix (swap x y l) = swap (prefix ++ x.0) (prefix ++ y.0) (file_names prefix l)
file_names-Reorder prefix (via r s) =
    via (file_names-Reorder prefix r) (file_names-Reorder prefix s)

-- The script does not depend on the order in which the names were collected.
env_script-Reorder :
    (mount : Text) {names names' : List Text}
    → Reorder names names'
    → env_script mount names ≡ env_script mount names'
unfolding env_script
env_script-Reorder mount r = rw (sort_strings-Reorder r, env_script)

pub loader_name-IsPlainName : IsPlainName loader_name
unfolding tsecret.Common.text_eq
loader_name-IsPlainName = record {
  given = refl;
  no_slash = omega arith;
  no_dot = refl;
  no_dots = refl;
}

pub state-made : {W : Type 0} (r : Result (Unit {0}) × W) → (made r).1 ≡ r.1
unfolding made
state-made (ok _, w) = refl
state-made (err e, w) = refl

-- What a mount promises of the files `w'` that are left of the files `w`.
pub record Mounted {W : Type 0} (f : FileSystem W) (c : Chacha) (key : Bytes) (mount prefix : Text)
    (export_env : Bool) (entries : Map TSecretEntry) (w w' : W) : Type 0 where
  pub opened : All (Opened f c key mount prefix w') entries
  pub loader :
      export_env ≡ true
      → (g : File) × (f.stat (join mount loader_name) w' ≡ some g)
        × (g.content ≡ env_script mount (file_names prefix entries))
  pub others :
      (other : Text)
      → IsPlainName other
      → All (Spares prefix other) entries
      → (export_env ≡ true → other ≢ loader_name)
      → f.stat (join mount other) w' ≡ f.stat (join mount other) w

module _ {W : Type 0} (f : FileSystem W) (laws : IsFileSystem f) (c : Chacha) (key : Bytes)
    (mount prefix : Text) where
  pub loader-frame :
      (other : Text) (names : List Text) (w : W)
      → IsPlainName other
      → other ≢ loader_name
      → f.stat (join mount other) (write_env_loader f mount names w).1 ≡ f.stat (join mount other) w
  unfolding write_env_loader
  loader-frame other names w k ne =
      laws.apart mount loader_name other _ 320 w loader_name-IsPlainName k (λ e. ne (sym e))

  loader-written :
      (names : List Text) (w : W)
      → (write_env_loader f mount names w).0 ≡ done tt
      → (g : File) × (f.stat (join mount loader_name) (write_env_loader f mount names w).1 ≡ some g)
        × (g.content ≡ env_script mount names)
  unfolding write_env_loader
  loader-written names w h =
      laws.written (join mount loader_name) (env_script mount names) 320 w
        (of_write-done "write load-env.sh: %w" [] tt tt _ h).0

  -- Behind the loop: the script is written over nothing that the loop wrote.
  exported :
      (entries : Map TSecretEntry) (names : List Text) (export_env : Bool) (w w2 : W)
      → All (Plain prefix) entries
      → (export_env ≡ true → All (Spares prefix loader_name) entries)
      → All (Opened f c key mount prefix w2) entries
      → env_script mount names ≡ env_script mount (file_names prefix entries)
      → ((other : Text)
          → IsPlainName other
          → All (Spares prefix other) entries
          → f.stat (join mount other) w2 ≡ f.stat (join mount other) w)
      → (if export_env then write_env_loader f mount names w2 else (done tt, w2)).0 ≡ done tt
      → Mounted f c key mount prefix export_env entries w
          (if export_env then write_env_loader f mount names w2 else (done tt, w2)).1
  exported entries names false w w2 plains free opened same frame h = record {
    opened = opened;
    loader = λ e. cc e;
    others = λ other k apart ne. frame other k apart;
  }
  exported entries names true w w2 plains free opened same frame h =
      let (g, found, held) = loader-written names w2 h in
      record {
        opened =
            combined_lists (Plain prefix) (Spares prefix loader_name)
              (Opened f c key mount prefix w2) _
              (λ x k ne o.
                Opened-frame f laws c key mount prefix w2 _ x
                  (loader-frame (prefix ++ x.0) names w2 k ne) o)
              entries plains (free refl) opened;
        loader = λ e. (g, found, held ∙ same);
        others = λ other k apart ne. loader-frame other names w2 k (ne refl) ∙ frame other k apart;
      }

module _ {W : Type 0} (f : FileSystem W) (c : Chacha) (get : NamespacedName → Result TSecret)
    (resolve : EncryptionRef → Text → Result Bytes)
    (range : Map TSecretEntry → Map TSecretEntry) where
  files-Mounted :
      (entries : Map TSecretEntry) (key : Bytes) (mount prefix : Text) (export_env : Bool) (w : W)
      → IsFileSystem f
      → ((m : Map TSecretEntry) → Reorder m (range m))
      → All (Plain prefix) entries
      → Pairwise Apart entries
      → (export_env ≡ true → All (Spares prefix loader_name) entries)
      → (write_files f c get resolve range entries key mount prefix export_env w).0 ≡ done tt
      → Mounted f c key mount prefix export_env entries w
          (write_files f c get resolve range entries key mount prefix export_env w).1
  unfolding write_files
  files-Mounted entries key mount prefix export_env w laws visits plains apart free h =
      let order = visits entries in
      let plains' = All-Reorder (Plain prefix) order plains in
      let apart' = Pairwise-Reorder Apart (λ x y ne e. ne (sym e)) order apart in
      let w1 = (made (f.mkdir_all mount 448 w)).1 in
      let w2 = (write_entries f c key mount prefix (range entries) w1).1 in
      let visit : W → Run (List Text) × W = write_entries f c key mount prefix (range entries) in
      let behind : List Text → W → Run Unit × W =
        λ names w'. if export_env then write_env_loader f mount names w' else (done tt, w') in
      let (_, _, e) =
        after-done (made (f.mkdir_all mount 448 w)) (λ _ w'. after (visit w') behind) tt h in
      let (names, looped, e') = after-done (visit w1) behind tt (ap (λ r. r.0) (sym e) ∙ h) in
      let (opened, named) =
        entries-Opened f laws c key mount prefix (range entries) names w1 plains' apart' looped in
      let whole = e ∙ e' in
      subst (λ (r : Run Unit × W). Mounted f c key mount prefix export_env entries w r.1)
        (sym whole)
        (exported f laws c key mount prefix entries names export_env w w2 plains free
          (All-Reorder (Opened f c key mount prefix w2) (Reorder-symm order) opened)
          (ap (env_script mount) named
            ∙ env_script-Reorder mount (file_names-Reorder prefix (Reorder-symm order)))
          (λ other k spares.
            entries-frame f laws c key mount prefix other (range entries) w1 k plains'
              (All-Reorder (Spares prefix other) order spares)
            ∙ ap (f.stat (join mount other)) (state-made (f.mkdir_all mount 448 w))
            ∙ laws.made mount (join mount other) 448 w)
          (ap (λ r. r.0) (sym whole) ∙ h))

  -- In whatever order the entries are visited, on a file system that keeps its contract, where the
  -- entries have different keys, the names of their files have no slash and, with export, are not
  -- load-env.sh: a run of Write that returns without error had a key, and each entry's file now
  -- holds the plaintext that Decrypt gives for it under this key; with export, load-env.sh holds
  -- the script of the sorted names; every other file of the folder is as it was.
  pub write-Mounted :
      (namespace name mount prefix : Text) (export_env : Bool) (w : W) (t : TSecret)
      → IsFileSystem f
      → ((m : Map TSecretEntry) → Reorder m (range m))
      → get (record { namespace = namespace; name = name }) ≡ ok t
      → All (Plain prefix) t.spec.entries
      → Pairwise Apart t.spec.entries
      → (export_env ≡ true → All (Spares prefix loader_name) t.spec.entries)
      → (write f c get resolve range namespace name mount prefix export_env w).0 ≡ done tt
      → (key : Bytes) × (resolve t.spec.encryption_ref namespace ≡ ok key)
        × Mounted f c key mount prefix export_env t.spec.entries w
            (write f c get resolve range namespace name mount prefix export_env w).1
  unfolding write
  write-Mounted namespace name mount prefix export_env w t laws visits got plains apart free h =
      elim (Result-cases (resolve t.spec.encryption_ref namespace)) [
        | inl (key, e) ↦ (
          key,
          e,
          rw (got, write, e)
              (files-Mounted t.spec.entries key mount prefix export_env w laws visits plains apart
                free (rw (got, write, e) at h)),
        )
        | inr (m, e) ↦ cc (rw (got, write, e) at h)
      ]
