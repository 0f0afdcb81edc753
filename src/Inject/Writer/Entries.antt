-- ===== src/Inject/Writer/Entries.antt =====
-- The loop of Write: what it leaves in each file, and which files it leaves alone.
use tsecret.Common.{
  some, List, [], ◌∷◌, ◌++◌, Text, Bytes, Map, map, Result, ok, err, Message, All, All-map,
  Pairwise, ◌≡◌, ◌≢◌, refl, sym, ap, ◌∙◌, ◌⊎◌, inl, inr, subst,
}
use tsecret.Api.{TSecretEntry}
use tsecret.Crypto.{Chacha, Decrypted, plain, failed, panics, decrypt}
use tsecret.Inject.Path.{join, IsPlainName, append_cancel}
use tsecret.Inject.Files.{File, FileSystem, IsFileSystem}
use tsecret.Inject.Writer.{Run, done, stopped, crashed, of_write, after, write_entry, write_entries}

pub after-done :
    {W A B : Type 0} (r : Run A × W) (next : A → W → Run B × W) (b : B)
    → (after r next).0 ≡ done b
    → (a : A) × (r.0 ≡ done a) × (after r next ≡ next a r.1)
unfolding after
after-done (done a, w) next b h = (a, refl, refl)
after-done (stopped e, w) next b h = cc h
after-done (crashed, w) next b h = cc h

-- What both steps keep of the files, they keep together.
pub after_keeps :
    {W A B : Type 0} (P : W → Type 0) (r : Run A × W) (next : A → W → Run B × W)
    → P r.1
    → ((a : A) → P r.1 → P (next a r.1).1)
    → P (after r next).1
unfolding after
after_keeps P (done a, w) next h k = k a h
after_keeps P (stopped e, w) next h k = h
after_keeps P (crashed, w) next h k = h

pub of_write-done :
    {A : Type 0} (format : _) (args : List Text) (a b : A) (r : Result (Unit {0}))
    → of_write format args a r ≡ done b
    → (r ≡ ok tt) × (b ≡ a)
unfolding of_write
of_write-done format args a b (ok tt) h = (refl, cc h)
of_write-done format args a b (err e) h = cc h

pub Decrypted-cases :
    (d : Decrypted)
    → ((s : Bytes) × (d ≡ plain s)) ⊎ ((e : Message) × (d ≡ failed e)) ⊎ (d ≡ panics)
Decrypted-cases (plain s) = inl (s, refl)
Decrypted-cases (failed e) = inr (inl (e, refl))
Decrypted-cases panics = inr (inr refl)

-- The file of an entry holds its plaintext.
pub record Opened {W : Type 0} (f : FileSystem W) (c : Chacha) (key : Bytes) (mount prefix : Text)
    (w : W) (entry : Text × TSecretEntry) : Type 0 where
  pub plaintext : Bytes
  pub opens : decrypt c entry.1.value key ≡ plain plaintext
  pub file : File
  pub found : f.stat (join mount (prefix ++ entry.0)) w ≡ some file
  pub held : file.content ≡ plaintext

-- The name of the entry's file has no slash.
abbrev pub Plain : Text → Text × TSecretEntry → Type 0
Plain prefix entry = IsPlainName (prefix ++ entry.0)

abbrev pub Apart : Text × TSecretEntry → Text × TSecretEntry → Type 0
Apart a b = a.0 ≢ b.0

-- The entry's file is another one.
abbrev pub Spares : Text → Text → Text × TSecretEntry → Type 0
Spares prefix other entry = prefix ++ entry.0 ≢ other

module _ {W : Type 0} (f : FileSystem W) (laws : IsFileSystem f) (c : Chacha) (key : Bytes)
    (mount prefix : Text) where
  entry-frame :
      (data_key other : Text) (entry : TSecretEntry) (w : W)
      → IsPlainName (prefix ++ data_key)
      → IsPlainName other
      → prefix ++ data_key ≢ other
      → f.stat (join mount other) (write_entry f c key mount prefix data_key entry w).1
        ≡ f.stat (join mount other) w
  unfolding write_entry
  entry-frame data_key other entry w h k ne = elim (Decrypted-cases (decrypt c entry.value key)) [
    | inl (s, e) ↦ rw (e, write_entry) (laws.apart mount (prefix ++ data_key) other s 256 w h k ne)
    | inr (inl (m, e)) ↦ rw (e, write_entry)
    | inr (inr e) ↦ rw (e, write_entry)
  ]

  -- A file that no entry names is left alone, however the loop ends.
  pub entries-frame :
      (other : Text) (es : Map TSecretEntry) (w : W)
      → IsPlainName other
      → All (Plain prefix) es
      → All (Spares prefix other) es
      → f.stat (join mount other) (write_entries f c key mount prefix es w).1
        ≡ f.stat (join mount other) w
  unfolding write_entries
  entries-frame other [] w k plains apart = refl
  entries-frame other ((data_key, entry) ∷ es) w k (here, plains) (ne, apart) =
      after_keeps (λ w'. f.stat (join mount other) w' ≡ f.stat (join mount other) w)
        (write_entry f c key mount prefix data_key entry w) _
        (entry-frame data_key other entry w here k ne)
        (λ name e.
          after_keeps (λ w'. f.stat (join mount other) w' ≡ f.stat (join mount other) w)
            (write_entries f c key mount prefix es
              (write_entry f c key mount prefix data_key entry w).1)
            _ (entries-frame other es _ k plains apart ∙ e) (λ names e'. e'))

  entry-Opened :
      (data_key name : Text) (entry : TSecretEntry) (w : W)
      → (write_entry f c key mount prefix data_key entry w).0 ≡ done name
      → Opened f c key mount prefix
          (write_entry f c key mount prefix data_key entry w).1
          (data_key, entry)
        × (name ≡ prefix ++ data_key)
  unfolding write_entry
  entry-Opened data_key name entry w h = elim (Decrypted-cases (decrypt c entry.value key)) [
    | inl (s, e) ↦
        let (written, same) =
          of_write-done _ (join mount (prefix ++ data_key) ∷ []) _ name _
            (rw (e, write_entry) at h) in
        let (g, found, held) = laws.written (join mount (prefix ++ data_key)) s 256 w written in
        rw (e, write_entry)
          (record { plaintext = s; opens = e; file = g; found = found; held = held }, same)
    | inr (inl (m, e)) ↦ cc (rw (e, write_entry) at h)
    | inr (inr e) ↦ cc (rw (e, write_entry) at h)
  ]

  pub Opened-frame :
      (w w' : W) (x : Text × TSecretEntry)
      → f.stat (join mount (prefix ++ x.0)) w' ≡ f.stat (join mount (prefix ++ x.0)) w
      → Opened f c key mount prefix w x
      → Opened f c key mount prefix w' x
  Opened-frame w w' x e o = record {
    plaintext = o.plaintext;
    opens = o.opens;
    file = o.file;
    found = e ∙ o.found;
    held = o.held;
  }

  -- A loop that ends well has opened every entry, and returns the names of the files.
  pub entries-Opened :
      (es : Map TSecretEntry) (names : List Text) (w : W)
      → All (Plain prefix) es
      → Pairwise Apart es
      → (write_entries f c key mount prefix es w).0 ≡ done names
      → All (Opened f c key mount prefix (write_entries f c key mount prefix es w).1) es
        × (names ≡ map (λ (x : Text × TSecretEntry). prefix ++ x.0) es)
  unfolding write_entries
  entries-Opened [] names w plains apart h = (tt, cc h)
  entries-Opened ((data_key, entry) ∷ es) names w (here, plains) (ne, apart) h =
      let (name, first, e) = after-done _ _ names h in
      let w1 = (write_entry f c key mount prefix data_key entry w).1 in
      let (rest, second, e') = after-done _ _ names (ap (λ r. r.0) (sym e) ∙ h) in
      let (opened, named) = entry-Opened data_key name entry w first in
      let (all, are) = entries-Opened es rest w1 plains apart second in
      let whole = e ∙ e' in
      let kept = entries-frame (prefix ++ data_key) es w1 here plains (
        All-map (Apart (data_key, entry)) (Spares prefix (prefix ++ data_key))
          (λ x differ same. differ (sym (append_cancel prefix x.0 data_key same))) es ne) in
      (
        subst
            (λ (r : Run (List Text) × W).
              All (Opened f c key mount prefix r.1) ((data_key, entry) ∷ es))
            (sym whole) (Opened-frame w1 _ (data_key, entry) kept opened, all),
        cc (h, whole, named, are),
      )
