-- ===== src/Transaction/Files.antt =====
-- The file system as internal/generator/transaction.go calls it, directly and by internal/securefs:
-- the calls as a record, and what they do to the contents of regular files as laws.
use sdbx.Base.{ℕ, String, Bool, Option, none, some, Result, ok, Check, ◌≡◌, ◌≢◌}
use sdbx.Base.Int.{ℤ}

-- os.Lstat: no such file, an error, a directory, or anything else.
pub data Info (IoError : Type 0) : Type 0 where
  missing directory other : Info IoError
  failed : IoError → Info IoError

pub record FileSystem (S Data IoError : Type 0) : Type 0 where
  pub lstat : S → String → Info IoError
  -- securefs.ReadRegularFile with transactionFileLimit
  pub read_regular_file : S → String → Result IoError Data
  -- sha256 of a content, as text
  pub sum : Data → String
  pub ensure_dir : String → ℕ → S → Check IoError × S
  -- securefs.WriteFileAtomicPreserveDir, and the Owned variant where an owner is given
  pub write_file_atomic : String → Data → ℕ → ℕ → Option (ℤ × ℤ) → S → Check IoError × S
  pub chmod : String → ℕ → S → Check IoError × S
  pub remove : String → S → Check IoError × S
  pub is_not_exist : IoError → Bool

-- The contents of regular files, and how the calls change them. A call changes the content of no
-- other path than its own, and creating a directory or changing a mode changes no content.
pub record Laws {S Data IoError : Type 0} (fs : FileSystem S Data IoError) : Type 0 where
  pub content : S → String → Option Data
  pub read :
      (s : S) (p : String) (d : Data) → fs.read_regular_file s p ≡ ok d → content s p ≡ some d
  pub absent : (s : S) (p : String) → fs.lstat s p ≡ missing → content s p ≡ none
  pub ensure :
      (p : String) (mode : ℕ) (s : S) (q : String)
      → content (fs.ensure_dir p mode s).1 q ≡ content s q
  pub mode :
      (p : String) (mode : ℕ) (s : S) (q : String) → content (fs.chmod p mode s).1 q ≡ content s q
  pub written :
      (p : String) (d : Data) (dir_mode mode : ℕ) (owner : Option (ℤ × ℤ)) (s : S)
      → (fs.write_file_atomic p d dir_mode mode owner s).0 ≡ ok tt
      → content (fs.write_file_atomic p d dir_mode mode owner s).1 p ≡ some d
  pub write_elsewhere :
      (p : String) (d : Data) (dir_mode mode : ℕ) (owner : Option (ℤ × ℤ)) (s : S) (q : String)
      → q ≢ p
      → content (fs.write_file_atomic p d dir_mode mode owner s).1 q ≡ content s q
  pub removed :
      (p : String) (s : S) → (fs.remove p s).0 ≡ ok tt → content (fs.remove p s).1 p ≡ none
  pub remove_elsewhere :
      (p : String) (s : S) (q : String) → q ≢ p → content (fs.remove p s).1 q ≡ content s q
