-- ===== src/Inject/Files.antt =====
-- What pkg/inject uses of package os: MkdirAll and WriteFile over a file system `W`, which every
-- call leaves anew. `stat` is what the theorems look at; the code does not call it.
use tsecret.Common.{
  ℕ, Bool, false, Option, none, some, ◌≡◌, ◌≢◌, Text, Bytes, Result, ok, err, Message, ◌==◌, ◌/◌,
  ◌%◌,
}
use tsecret.Inject.Path.{join, IsPlainName}

pub record File : Type 0 where
  pub content : Bytes
  pub writable : Bool

pub record FileSystem (W : Type 0) : Type 0 where
  pub mkdir_all : Text → ℕ → W → Result (Unit {0}) × W
  pub write_file : Text → Bytes → ℕ → W → Result (Unit {0}) × W
  pub stat : Text → W → Option File

-- The owner's bit for writing in the mode of a file.
abbrev pub owner_writes : ℕ → Bool
owner_writes mode = mode / 128 % 2 == 1

-- What package os documents for a process that is not root, in folders without links: a file that
-- was written has the new content; one that is made by it has the mode; one that the process must
-- not write stays, with an error; the other files of the folder stay, and MkdirAll leaves all files.
pub record IsFileSystem {W : Type 0} (f : FileSystem W) : Type 0 where
  pub written :
      (path : Text) (s : Bytes) (mode : ℕ) (w : W)
      → (f.write_file path s mode w).0 ≡ ok tt
      → (g : File) × (f.stat path (f.write_file path s mode w).1 ≡ some g) × (g.content ≡ s)
  pub created :
      (path : Text) (s : Bytes) (mode : ℕ) (w : W) (g : File)
      → f.stat path w ≡ none
      → f.stat path (f.write_file path s mode w).1 ≡ some g
      → owner_writes mode ≡ false
      → g.writable ≡ false
  pub denied :
      (path : Text) (s : Bytes) (mode : ℕ) (w : W) (g : File)
      → f.stat path w ≡ some g
      → g.writable ≡ false
      → (e : Message) × (f.write_file path s mode w ≡ (err e, w))
  pub apart :
      (folder name other : Text) (s : Bytes) (mode : ℕ) (w : W)
      → IsPlainName name
      → IsPlainName other
      → name ≢ other
      → f.stat (join folder other) (f.write_file (join folder name) s mode w).1
        ≡ f.stat (join folder other) w
  pub made :
      (path other : Text) (mode : ℕ) (w : W)
      → f.stat other (f.mkdir_all path mode w).1 ≡ f.stat other w
