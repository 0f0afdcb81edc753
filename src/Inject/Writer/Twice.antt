-- ===== src/Inject/Writer/Twice.antt =====
-- A whole run of Write on a fresh mount, and one more on the same mount.
use tsecret.Common.{
  Bool, true, false, none, List, [], ◌∷◌, ◌++◌, Text, Bytes, Map, Result, ok, Message, wrapf, text,
  All, All-map, combined_lists, Pairwise, Pairwise-Reorder, All-Reorder, Reorder, Reorder-symm,
  Reorder-ne-nil, ◌≡◌, ◌≢◌, refl, sym, ap, ◌∙◌, subst, if◌then◌else◌,
}
use tsecret.Api.{NamespacedName, EncryptionRef, TSecret, TSecretEntry}
use tsecret.Crypto.{Chacha}
use tsecret.Inject.Path.{join}
use tsecret.Inject.Files.{FileSystem, IsFileSystem}
use tsecret.Inject.Writer.Entries.{Plain, Apart, Spares, entries-frame}
use tsecret.Inject.Writer.Again.{IsRoomy, Opens, Fresh, Locked, entries_deliver, entries_stop}
use tsecret.Inject.Writer.Mounted.{Mounted, write-Mounted, loader-frame, loader_name-IsPlainName}
use tsecret.Inject.Writer.{
  Run, done, stopped, after, made, of_write, env_script, loader_name, write_env_loader, write_files,
  write,
}

module _ {W : Type 0} (f : FileSystem W) (laws : IsFileSystem f) (c : Chacha)
    (get : NamespacedName → Result TSecret) (resolve : EncryptionRef → Text → Result Bytes)
    (key : Bytes) (mount prefix : Text) where
  loader_delivered :
      (names : List Text) (export_env : Bool) (entries : Map TSecretEntry) (w : W)
      → IsRoomy f mount
      → (export_env ≡ true → f.stat (join mount loader_name) w ≡ none)
      → (export_env ≡ true → All (Spares prefix loader_name) entries)
      → All (Plain prefix) entries
      → All (Locked f mount prefix w) entries
      → (w' : W) × ((if export_env then write_env_loader f mount names w else (done tt, w))
          ≡ (done tt, w'))
        × All (Locked f mount prefix w') entries
  unfolding write_env_loader of_write
  loader_delivered names false entries w roomy new free plains locked = (w, refl, locked)
  loader_delivered names true entries w roomy new free plains locked = (
    (write_env_loader f mount names w).1,
    rw
        (
          roomy.fresh loader_name (env_script mount names) 320 w loader_name-IsPlainName (new refl),
          of_write,
        )
        refl,
    combined_lists (Plain prefix) (Spares prefix loader_name) (Locked f mount prefix w) _
        (λ x k ne (g, found, shut).
          (g, loader-frame f laws c key mount prefix (prefix ++ x.0) names w k ne ∙ found, shut))
        entries plains (free refl) locked,
  )

  module _ (range : Map TSecretEntry → Map TSecretEntry)
      (visits : (m : Map TSecretEntry) → Reorder m (range m)) where
    made_lem :
        (w : W)
        → IsRoomy f mount
        → made (f.mkdir_all mount 448 w) ≡ (done tt, (f.mkdir_all mount 448 w).1)
    unfolding made
    made_lem w roomy = rw (roomy.folder w, made) refl

    files_delivered :
        (entries : Map TSecretEntry) (export_env : Bool) (w : W)
        → IsRoomy f mount
        → All (Plain prefix) entries
        → Pairwise Apart entries
        → All (Opens c key) entries
        → All (Fresh f mount prefix w) entries
        → (export_env ≡ true → All (Spares prefix loader_name) entries)
        → (export_env ≡ true → f.stat (join mount loader_name) w ≡ none)
        → (w' : W) × (write_files f c get resolve range entries key mount prefix export_env w
            ≡ (done tt, w'))
          × All (Locked f mount prefix w') entries
    unfolding write_files
    files_delivered entries export_env w roomy plains apart opens fresh free new =
        let order = visits entries in
        let w1 = (f.mkdir_all mount 448 w).1 in
        let plains' = All-Reorder (Plain prefix) order plains in
        let fresh1 : All (Fresh f mount prefix w1) (range entries) =
          All-Reorder (Fresh f mount prefix w1) order (
            All-map (Fresh f mount prefix w) (Fresh f mount prefix w1)
              (λ x e. laws.made mount (join mount (prefix ++ x.0)) 448 w ∙ e) entries fresh) in
        let (names, w2, looped, locked) =
          entries_deliver f laws c key mount prefix (range entries) w1 roomy plains'
            (Pairwise-Reorder Apart (λ x y ne e. ne (sym e)) order apart)
            (All-Reorder (Opens c key) order opens) fresh1 in
        let new2 : export_env ≡ true → f.stat (join mount loader_name) w2 ≡ none = λ e.
          ap (λ (r : Run (List Text) × W). f.stat (join mount loader_name) r.1) (sym looped)
          ∙ entries-frame f laws c key mount prefix loader_name (range entries) w1
              loader_name-IsPlainName plains'
              (All-Reorder (Spares prefix loader_name) order (free e))
          ∙ laws.made mount (join mount loader_name) 448 w
          ∙ new e in
        let (w3, exported, locked3) =
          loader_delivered names export_env entries w2 roomy new2 free plains
            (All-Reorder (Locked f mount prefix w2) (Reorder-symm order) locked) in
        (w3, unfold after in rw (made_lem w roomy, after) (rw (looped, after) exported), locked3)

    write-files :
        (namespace name : Text) (export_env : Bool) (w : W) (t : TSecret)
        → get (record { namespace = namespace; name = name }) ≡ ok t
        → resolve t.spec.encryption_ref namespace ≡ ok key
        → write f c get resolve range namespace name mount prefix export_env w
          ≡ write_files f c get resolve range t.spec.entries key mount prefix export_env w
    unfolding write
    write-files namespace name export_env w t got resolved = rw (got, write, resolved) refl

    -- On locked files a run stops, whatever it exports.
    files_stop :
        (entries : Map TSecretEntry) (export_env : Bool) (w : W)
        → IsRoomy f mount
        → entries ≢ []
        → All (Opens c key) entries
        → All (Locked f mount prefix w) entries
        → (e : Message) × ((write_files f c get resolve range entries key mount prefix export_env
              w).0
            ≡ stopped e)
    unfolding write_files
    files_stop entries export_env w roomy some_entry opens locked =
        let order = visits entries in
        let w1 = (f.mkdir_all mount 448 w).1 in
        let locked1 : All (Locked f mount prefix w1) entries =
          All-map (Locked f mount prefix w) (Locked f mount prefix w1)
            (λ x (g, found, shut).
              (g, laws.made mount (join mount (prefix ++ x.0)) 448 w ∙ found, shut))
            entries locked in
        let (target, e, stops) =
          entries_stop f laws c key mount prefix (range entries) w1
            (Reorder-ne-nil order some_entry) (All-Reorder (Opens c key) order opens)
            (All-Reorder (Locked f mount prefix w1) order locked1) in
        (
          wrapf "write file %q: %w" (text target ∷ []) e,
          unfold after in rw (made_lem w roomy, after) (rw (stops, after) refl),
        )

-- On a file system that keeps its contract and has room, visiting the entries in any order: where
-- the TSecret and its key are found, every entry opens under the key, the entries have different
-- keys, the names of their files have no slash, none of these files is there yet and, with export,
-- neither is load-env.sh, which no entry is named: Write returns without error, and the mount is
-- as promised.
pub write_delivers :
    {W : Type 0} (f : FileSystem W) (c : Chacha) (get : NamespacedName → Result TSecret)
    (resolve : EncryptionRef → Text → Result Bytes) (range : Map TSecretEntry → Map TSecretEntry)
    (namespace name mount prefix : Text) (export_env : Bool) (w : W) (t : TSecret) (key : Bytes)
    → IsFileSystem f
    → IsRoomy f mount
    → ((m : Map TSecretEntry) → Reorder m (range m))
    → get (record { namespace = namespace; name = name }) ≡ ok t
    → resolve t.spec.encryption_ref namespace ≡ ok key
    → All (Plain prefix) t.spec.entries
    → Pairwise Apart t.spec.entries
    → All (Opens c key) t.spec.entries
    → All (Fresh f mount prefix w) t.spec.entries
    → (export_env ≡ true → All (Spares prefix loader_name) t.spec.entries)
    → (export_env ≡ true → f.stat (join mount loader_name) w ≡ none)
    → (w' : W) × (write f c get resolve range namespace name mount prefix export_env w
        ≡ (done tt, w'))
      × Mounted f c key mount prefix export_env t.spec.entries w w'
write_delivers {W = W} f c get resolve range namespace name mount prefix export_env w t key laws
      roomy visits got resolved plains apart opens fresh free new =
    let (w', e, _) =
      files_delivered f laws c get resolve key mount prefix range visits t.spec.entries export_env w
        roomy plains apart opens fresh free new in
    let run =
      write-files f laws c get resolve key mount prefix range visits namespace name export_env w t
        got resolved
      ∙ e in
    let (key', resolved', mounted) =
      write-Mounted f c get resolve range namespace name mount prefix export_env w t laws visits got
        plains apart free (ap (λ r. r.0) run) in
    let same : key' ≡ key = cc (resolved, resolved') in
    (
      w',
      run,
      subst (λ k. Mounted f c k mount prefix export_env t.spec.entries w w') same
          (subst
            (λ (r : Run Unit × W). Mounted f c key' mount prefix export_env t.spec.entries w r.1)
            run mounted),
    )

-- Under the same conditions a TSecret with an entry cannot be written twice: the first run returns
-- without error, and the next one on the files that it leaves, in whatever order it visits the
-- entries, returns an error.
pub write_twice :
    {W : Type 0} (f : FileSystem W) (c : Chacha) (get : NamespacedName → Result TSecret)
    (resolve : EncryptionRef → Text → Result Bytes)
    (range range' : Map TSecretEntry → Map TSecretEntry) (namespace name mount prefix : Text)
    (export_env : Bool) (w : W) (t : TSecret) (key : Bytes)
    → IsFileSystem f
    → IsRoomy f mount
    → ((m : Map TSecretEntry) → Reorder m (range m))
    → ((m : Map TSecretEntry) → Reorder m (range' m))
    → get (record { namespace = namespace; name = name }) ≡ ok t
    → resolve t.spec.encryption_ref namespace ≡ ok key
    → t.spec.entries ≢ []
    → All (Plain prefix) t.spec.entries
    → Pairwise Apart t.spec.entries
    → All (Opens c key) t.spec.entries
    → All (Fresh f mount prefix w) t.spec.entries
    → (export_env ≡ true → All (Spares prefix loader_name) t.spec.entries)
    → (export_env ≡ true → f.stat (join mount loader_name) w ≡ none)
    → (w' : W) × (write f c get resolve range namespace name mount prefix export_env w
        ≡ (done tt, w'))
      × (e : Message) × ((write f c get resolve range' namespace name mount prefix export_env w').0
          ≡ stopped e)
write_twice f c get resolve range range' namespace name mount prefix export_env w t key laws roomy
      visits visits' got resolved some_entry plains apart opens fresh free new =
    let (w', e, locked) =
      files_delivered f laws c get resolve key mount prefix range visits t.spec.entries export_env w
        roomy plains apart opens fresh free new in
    let (m, stops) =
      files_stop f laws c get resolve key mount prefix range' visits' t.spec.entries export_env w'
        roomy some_entry opens locked in
    (
      w',
      write-files f laws c get resolve key mount prefix range visits namespace name export_env w t
            got resolved
          ∙ e,
      m,
      ap (λ r. r.0)
            (write-files f laws c get resolve key mount prefix range' visits' namespace name
              export_env w' t got resolved)
          ∙ stops,
    )
