-- ===== src/Inject/Writer/Again.antt =====
-- The loop of Write on fresh files, and on files that must not be written.
use tsecret.Common.{
  ℕ, false, none, some, List, [], ◌∷◌, ◌++◌, Text, Bytes, Map, ok, Message, wrapf, text, All,
  All-map, combined_lists, Pairwise, ◌≡◌, ◌≢◌, refl, sym, ap, ◌∙◌,
}
use tsecret.Api.{TSecretEntry}
use tsecret.Crypto.{Chacha, plain, decrypt}
use tsecret.Inject.Path.{join, IsPlainName, append_cancel}
use tsecret.Inject.Files.{File, FileSystem, IsFileSystem}
use tsecret.Inject.Writer.Entries.{Plain, Apart, Spares, entries-frame}
use tsecret.Inject.Writer.{Run, done, stopped, after, of_write, write_entry, write_entries}

-- A file system with room for new files in the folder.
pub record IsRoomy {W : Type 0} (f : FileSystem W) (mount : Text) : Type 0 where
  pub folder : (w : W) → (f.mkdir_all mount 448 w).0 ≡ ok tt
  pub fresh :
      (name : Text) (s : Bytes) (mode : ℕ) (w : W)
      → IsPlainName name
      → f.stat (join mount name) w ≡ none
      → (f.write_file (join mount name) s mode w).0 ≡ ok tt

-- The entry's value opens under the key.
abbrev pub Opens : Chacha → Bytes → Text × TSecretEntry → Type 0
Opens c key entry = (s : Bytes) × (decrypt c entry.1.value key ≡ plain s)

-- The entry has no file yet.
abbrev pub Fresh : {W : Type 0} → FileSystem W → Text → Text → W → Text × TSecretEntry → Type 0
Fresh f mount prefix w entry = f.stat (join mount (prefix ++ entry.0)) w ≡ none

-- The entry has a file that must not be written.
abbrev pub Locked : {W : Type 0} → FileSystem W → Text → Text → W → Text × TSecretEntry → Type 0
Locked f mount prefix w entry =
    (g : File) × (f.stat (join mount (prefix ++ entry.0)) w ≡ some g) × (g.writable ≡ false)

module _ {W : Type 0} (f : FileSystem W) (laws : IsFileSystem f) (c : Chacha) (key : Bytes)
    (mount prefix : Text) where
  -- A value that opens is written to a fresh file.
  entry_written :
      (data_key : Text) (entry : TSecretEntry) (plaintext : Bytes) (w : W)
      → IsRoomy f mount
      → IsPlainName (prefix ++ data_key)
      → decrypt c entry.value key ≡ plain plaintext
      → Fresh f mount prefix w (data_key, entry)
      → write_entry f c key mount prefix data_key entry w ≡ (
        done (prefix ++ data_key),
        (f.write_file (join mount (prefix ++ data_key)) plaintext 256 w).1,
      )
  unfolding write_entry of_write
  entry_written data_key entry plaintext w roomy k e new =
      rw (e, write_entry)
        (rw (roomy.fresh (prefix ++ data_key) plaintext 256 w k new, of_write) refl)

  entry-Locked :
      (data_key : Text) (entry : TSecretEntry) (plaintext : Bytes) (w : W)
      → IsRoomy f mount
      → IsPlainName (prefix ++ data_key)
      → Fresh f mount prefix w (data_key, entry)
      → Locked f mount prefix
          (f.write_file (join mount (prefix ++ data_key)) plaintext 256 w).1
          (data_key, entry)
  entry-Locked data_key entry plaintext w roomy k new =
      let target = join mount (prefix ++ data_key) in
      let (g, found, held) =
        laws.written target plaintext 256 w
          (roomy.fresh (prefix ++ data_key) plaintext 256 w k new) in
      (g, found, laws.created target plaintext 256 w g new found refl)

  entries_cons :
      (data_key name : Text) (entry : TSecretEntry) (es : Map TSecretEntry) (names : List Text)
      (w w1 w2 : W)
      → write_entry f c key mount prefix data_key entry w ≡ (done name, w1)
      → write_entries f c key mount prefix es w1 ≡ (done names, w2)
      → write_entries f c key mount prefix ((data_key, entry) ∷ es) w ≡ (done (name ∷ names), w2)
  unfolding write_entries after
  entries_cons data_key name entry es names w w1 w2 first rest =
      ap
        (λ r.
          after r (λ a w'.
            after (write_entries f c key mount prefix es w') (λ l w''. (done (a ∷ l), w''))))
        first
      ∙ ap (λ r. after r (λ l w''. (done (name ∷ l), w''))) rest

  -- On fresh files the loop ends well, and every entry then has a file that must not be written.
  pub entries_deliver :
      (es : Map TSecretEntry) (w : W)
      → IsRoomy f mount
      → All (Plain prefix) es
      → Pairwise Apart es
      → All (Opens c key) es
      → All (Fresh f mount prefix w) es
      → (names : List Text) × (w' : W) × (write_entries f c key mount prefix es w
          ≡ (done names, w'))
        × All (Locked f mount prefix w') es
  unfolding write_entries
  entries_deliver [] w roomy plains apart opens fresh = ([], w, refl, tt)
  entries_deliver ((data_key, entry) ∷ es) w roomy (here, plains) (ne, apart) ((s, e), opens)
        (new, fresh) =
      let w1 = (f.write_file (join mount (prefix ++ data_key)) s 256 w).1 in
      let first = entry_written data_key entry s w roomy here e new in
      let keeps : (x : Text × TSecretEntry)
          → Plain prefix x
          → Apart (data_key, entry) x
          → f.stat (join mount (prefix ++ x.0)) w1 ≡ f.stat (join mount (prefix ++ x.0)) w =
        λ x k differ.
          laws.apart mount (prefix ++ data_key) (prefix ++ x.0) s 256 w here k
            (λ same. differ (append_cancel prefix data_key x.0 same)) in
      let fresh1 =
        combined_lists (Plain prefix) (Apart (data_key, entry)) (Fresh f mount prefix w)
          (Fresh f mount prefix w1) (λ x k differ none_yet. keeps x k differ ∙ none_yet) es plains
          ne fresh in
      let (names, w2, rest, locked) = entries_deliver es w1 roomy plains apart opens fresh1 in
      let (g, found, shut) = entry-Locked data_key entry s w roomy here new in
      let kept = entries-frame f laws c key mount prefix (prefix ++ data_key) es w1 here plains (
        All-map (Apart (data_key, entry)) (Spares prefix (prefix ++ data_key))
          (λ x differ same. differ (sym (append_cancel prefix x.0 data_key same))) es ne) in
      (
        (prefix ++ data_key) ∷ names,
        w2,
        entries_cons data_key (prefix ++ data_key) entry es names w w1 w2 first rest,
        (
          (
            g,
            ap (λ (r : Run (List Text) × W). f.stat (join mount (prefix ++ data_key)) r.1)
                  (sym rest)
                ∙ kept
                ∙ found,
            shut,
          ),
          locked,
        ),
      )

  -- On an entry whose file must not be written the loop stops.
  pub entries_stop :
      (es : Map TSecretEntry) (w : W)
      → es ≢ []
      → All (Opens c key) es
      → All (Locked f mount prefix w) es
      → (target : Text) × (e : Message) × (write_entries f c key mount prefix es w
          ≡ (stopped (wrapf "write file %q: %w" (text target ∷ []) e), w))
  unfolding write_entries
  entries_stop [] w some_entry opens locked = absurd (some_entry refl)
  entries_stop ((data_key, entry) ∷ es) w some_entry ((s, e), opens) ((g, found, shut), locked) =
      let target = join mount (prefix ++ data_key) in
      let (m, refused) = laws.denied target s 256 w g found shut in
      (target, m, unfold after write_entry of_write in rw (e, write_entry) (rw refused refl))
