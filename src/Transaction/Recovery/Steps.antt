-- ===== src/Transaction/Recovery/Steps.antt =====
-- The moments at which a transaction or its recovery can be interrupted, as states that steps reach.
-- A step is one call that changes the disk; a moment inside os.RemoveAll is not among them.
use sdbx.Base.{ℕ, String, true, false, Option, none, some, ok, err, ◌≡◌, ◌⊎◌, All}
use mathlib.Core.List.{Memᴰ}
use sdbx.Base.Int.{ℤ}
use sdbx.Transaction.{TransactionEntry, TransactionManifest, path_within}
use sdbx.Transaction.Files.{FileSystem, Laws}
use sdbx.Transaction.Promotion.{apply_entry, rollback_entry}
use sdbx.Transaction.Recovery.{
  JournalSystem, write_manifest, with_state, join, transaction_manifest_name,
}

-- What the calls do to the contents of files, beyond `Laws`: a write is atomic, also where it fails,
-- a file that cannot be found has no content, the decoder reads what the encoder wrote, and removing
-- a directory changes nothing outside of it.
pub record JournalLaws {S Data IoError : Type 0} {fs : FileSystem S Data IoError} (laws : Laws fs)
    (js : JournalSystem S Data IoError) : Type 0 where
  pub atomic :
      (p : String) (d : Data) (dir_mode mode : ℕ) (owner : Option (ℤ × ℤ)) (s : S)
      → (laws.content (fs.write_file_atomic p d dir_mode mode owner s).1 p ≡ some d)
        ⊎ (laws.content (fs.write_file_atomic p d dir_mode mode owner s).1 p ≡ laws.content s p)
  pub read :
      (s : S) (p : String) (d : Data) → js.read_journal s p ≡ ok d → laws.content s p ≡ some d
  pub unread :
      (s : S) (p : String) (e : IoError)
      → js.read_journal s p ≡ err e
      → fs.is_not_exist e ≡ true
      → laws.content s p ≡ none
  pub gone :
      (s : S) (dir p : String) (e : IoError)
      → js.lstat_dir s dir ≡ err e
      → fs.is_not_exist e ≡ true
      → path_within dir p ≡ true
      → laws.content s p ≡ none
  pub removed_elsewhere :
      (dir : String) (s : S) (q : String)
      → path_within dir q ≡ false
      → laws.content (js.remove_all dir s).1 q ≡ laws.content s q
  pub round_trip : (m : TransactionManifest) → js.decode (js.encode m) ≡ some m

module _ {S Data IoError : Type 0} (fs : FileSystem S Data IoError) (laws : Laws fs)
    (js : JournalSystem S Data IoError) (journal : String) (m : TransactionManifest) where
  abbrev pub manifest_path : String
  manifest_path = join journal transaction_manifest_name

  -- The manifest on the disk has the state.
  abbrev pub Recorded : String → S → Type 0
  Recorded state s = laws.content s manifest_path ≡ some (js.encode (with_state state m))

  -- Every file of the entries has the content of its staged file at the start.
  abbrev pub IsPromoted : S → S → Type 0
  IsPromoted start s =
      All (λ e. e.kind ≡ "file" → laws.content s e.target ≡ laws.content start e.source) m.entries

  abbrev pub IsRestored : S → S → Type 0
  IsRestored start s =
      All (λ e. e.kind ≡ "file" → laws.content s e.target ≡ laws.content start e.target) m.entries

  module _ (start : S) where
    infix 40 ◌⟶◌ ◌⟶*◌
    pub data ◌⟶◌ : S → S → Type 0 where
      prepare :
          {s : S}
          → laws.content s manifest_path ≡ none
          → s ⟶ (write_manifest fs js journal (with_state "prepared" m) s).1
      begin :
          {s : S}
          → Recorded "prepared" s
          → s ⟶ (write_manifest fs js journal (with_state "promoting" m) s).1
      apply :
          {s : S} {e : TransactionEntry}
          → Recorded "promoting" s
          → Memᴰ e m.entries
          → s ⟶ (apply_entry fs m.secrets_root e s).1
      roll_back :
          {s : S} {e : TransactionEntry}
          → Recorded "promoting" s
          → Memᴰ e m.entries
          → s ⟶ (rollback_entry fs e s).1
      -- A call that changes owners and modes only.
      chown : {s t : S} → ((q : String) → laws.content t q ≡ laws.content s q) → s ⟶ t
      commit :
          {s : S}
          → Recorded "promoting" s
          → IsPromoted start s
          → s ⟶ (write_manifest fs js journal (with_state "committed" m) s).1

    pub data ◌⟶*◌ : S → S → Type 0 where
      here : {s : S} → s ⟶* s
      later : {s t u : S} → s ⟶* t → t ⟶ u → s ⟶* u

  pub trans : {start s t u : S} → ◌⟶*◌ start s t → ◌⟶*◌ start t u → ◌⟶*◌ start s u
  trans r here = r
  trans r (later q step) = later (trans r q) step
