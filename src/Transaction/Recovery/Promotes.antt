-- ===== src/Transaction/Recovery/Promotes.antt =====
-- A promotion without an error gives every file its staged content.
use sdbx.Base.{
  String, true, false, ◌==◌, List, [], ◌∷◌, Result, ok, err, Check, ◌≡◌, refl, sym, ap, ◌∙◌, All,
  All-map, eq_iff,
}
use mathlib.Core.Path.{subst}
use sdbx.Base.Paths.{clean}
use sdbx.Transaction.{TransactionEntry, path_within}
use sdbx.Transaction.Journal.{HasDistinctTargets}
use sdbx.Transaction.Files.{FileSystem, Laws}
use sdbx.Transaction.Promotion.{
  TransactionError, then_do, lift, write_staged, apply_entry, apply_transaction, verify_digest,
}
use sdbx.Transaction.Elsewhere.{apply_entry-content, apply_transaction-content}
use sdbx.Transaction.Restores.{All-zip, IsOutside}

module _ {S Data IoError : Type 0} (fs : FileSystem S Data IoError) (laws : Laws fs) where
  then_do-ok :
      (first : Check (TransactionError IoError) × S)
      (next : S → Check (TransactionError IoError) × S)
      → (then_do fs first next).0 ≡ ok tt
      → (first.0 ≡ ok tt) × ((next first.1).0 ≡ ok tt) × (then_do fs first next ≡ next first.1)
  unfolding then_do
  then_do-ok (ok _, s) next h = (refl, h, refl)
  then_do-ok (err e, s) next h = cc

  pub lift-ok : (r : Check IoError) → lift fs r ≡ ok tt → r ≡ ok tt
  unfolding lift
  lift-ok (ok _) h = refl
  lift-ok (err e) h = cc

  write_staged-ok :
      (root : String) (entry : TransactionEntry) (r : Result IoError Data) (s : S)
      → fs.read_regular_file s entry.source ≡ r
      → (write_staged fs root entry r s).0 ≡ ok tt
      → laws.content (write_staged fs root entry r s).1 entry.target ≡ laws.content s entry.source
  unfolding write_staged
  write_staged-ok root entry (err e) s was h = cc
  write_staged-ok root entry (ok d) s was h =
      laws.written entry.target d _ _ _ s (lift-ok _ h) ∙ sym (laws.read s entry.source d was)

  -- The part of `apply_entry` for a file: the write of the staged content, then its verification.
  store : String → TransactionEntry → S → Check (TransactionError IoError) × S
  store root entry s =
      then_do fs (write_staged fs root entry (fs.read_regular_file s entry.source) s)
        (λ after. (verify_digest fs after entry.target entry.staged_digest, after))

  promote_file : String → TransactionEntry → S → Check (TransactionError IoError) × S
  unfolding store
  promote_file root entry s =
      then_do fs (verify_digest fs s entry.source entry.staged_digest, s) (store root entry)

  apply_entry-file :
      (root : String) (entry : TransactionEntry) (s : S)
      → entry.kind ≡ "file"
      → apply_entry fs root entry s ≡ promote_file root entry s
  unfolding apply_entry promote_file store
  apply_entry-file root entry s file =
      let is_file : (entry.kind == "file") ≡ true = (eq_iff entry.kind "file").1 file in
      let not_dir : (entry.kind == "dir") ≡ false = rw file refl in rw (not_dir, is_file) refl

  promote_file-ok :
      (root : String) (entry : TransactionEntry) (s : S)
      → (promote_file root entry s).0 ≡ ok tt
      → laws.content (promote_file root entry s).1 entry.target ≡ laws.content s entry.source
  unfolding promote_file store
  promote_file-ok root entry s h =
      let check = verify_digest fs s entry.source entry.staged_digest in
      let written = write_staged fs root entry (fs.read_regular_file s entry.source) s in
      let verify : S → Check (TransactionError IoError) × S =
        λ after. (verify_digest fs after entry.target entry.staged_digest, after) in
      let (first, rest, whole) = then_do-ok (check, s) (store root entry) h in
      let (stored, verified, last) = then_do-ok written verify rest in
      ap (λ o. laws.content o.1 entry.target) whole
      ∙ ap (λ o. laws.content o.1 entry.target) last
      ∙ write_staged-ok root entry (fs.read_regular_file s entry.source) s refl stored

  apply_entry-ok :
      (root : String) (entry : TransactionEntry) (s : S)
      → (apply_entry fs root entry s).0 ≡ ok tt
      → entry.kind ≡ "file"
      → laws.content (apply_entry fs root entry s).1 entry.target ≡ laws.content s entry.source
  apply_entry-ok root entry s h file =
      subst (λ o. o.0 ≡ ok tt → laws.content o.1 entry.target ≡ laws.content s entry.source)
        (sym (apply_entry-file root entry s file)) (promote_file-ok root entry s) h

  module _ (journal : String) where
    -- Every file of the list has the content that its staged file had before.
    pub apply_transaction-ok :
        (root : String) (es : List TransactionEntry) (s : S)
        → HasDistinctTargets es
        → All (IsOutside fs laws journal) es
        → All (λ e. path_within journal e.source ≡ true) es
        → (apply_transaction fs root es s).0 ≡ ok tt
        → All
            (λ e.
              e.kind ≡ "file"
              → laws.content (apply_transaction fs root es s).1 e.target ≡ laws.content s e.source)
            es
    unfolding apply_transaction
    apply_transaction-ok root [] s distinct outside inside h = tt
    apply_transaction-ok root (e ∷ es) s (apart, distinct) (out, outside) (within, inside) h =
        let (first, rest, whole) =
          then_do-ok (apply_entry fs root e s) (apply_transaction fs root es) h in
        let mid = (apply_entry fs root e s).1 in
        let later = apply_transaction-ok root es mid distinct outside inside rest in
        (
          λ file.
              ap (λ o. laws.content o.1 e.target) whole
              ∙ apply_transaction-content fs laws root es mid e.target
                  (All-map _ _ es (λ d differ same. differ (ap clean same)) apart)
              ∙ apply_entry-ok root e s first file,
          All-zip _ _ _ es
              (λ d within promoted file.
                ap (λ o. laws.content o.1 d.target) whole
                ∙ promoted file
                ∙ apply_entry-content fs laws root e s d.source
                    (λ same. cc (subst (λ p. path_within journal p ≡ true) same within, out)))
              inside later,
        )
