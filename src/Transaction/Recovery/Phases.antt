-- ===== src/Transaction/Recovery/Phases.antt =====
-- What is on the disk at every moment of a transaction: nothing has changed, or the journal still has
-- what the rollback needs, or every file is promoted.
use sdbx.Base.{
  String, true, false, ◌==◌, List, Option, none, some, ◌≡◌, ◌≢◌, ◌⊎◌, refl, sym, ◌∙◌, inl, inr, All,
  arith, eq_iff,
}
use mathlib.Core.Path.{subst}
use mathlib.Core.List.{Memᴰ}
use sdbx.Transaction.{TransactionEntry, TransactionManifest, path_within}
use sdbx.Transaction.Files.{FileSystem, Laws}
use sdbx.Transaction.Elsewhere.{apply_entry-content, rollback_entry-content}
use sdbx.Transaction.Restores.{IsRecorded, IsOutside, All-zip}
use sdbx.Transaction.Recovery.{JournalSystem, write_manifest, with_state}
use sdbx.Transaction.Recovery.Steps.{
  JournalLaws, manifest_path, Recorded, IsPromoted, ◌⟶◌, prepare, begin, apply, roll_back, chown,
  commit, ◌⟶*◌, here, later,
}

pub All-Mem {ℓ κ} : {A : Type ℓ} (P : A → Type κ) {a : A} {xs : List A} → Memᴰ a xs → All P xs → P a
All-Mem P (Memᴰ.head same) (p, h) = subst P (sym same) p
All-Mem P (Memᴰ.tail rest) (p, h) = All-Mem P rest h

module _ {S Data IoError : Type 0} (fs : FileSystem S Data IoError) (laws : Laws fs)
    (js : JournalSystem S Data IoError) (journal_laws : JournalLaws laws js) (journal : String)
    (m : TransactionManifest) where
  abbrev manifest_file : String
  manifest_file = manifest_path fs laws js journal m

  -- What the preparation leaves: no manifest yet, the backups of the files, and no entry that has the
  -- manifest for its source, backup or target.
  pub record IsPrepared (start : S) : Type 0 where
    pub inside : path_within journal manifest_file ≡ true
    pub unwritten : laws.content start manifest_file ≡ none
    pub recorded : All (IsRecorded fs laws journal start) m.entries
    pub outside : All (IsOutside fs laws journal) m.entries
    pub apart : All (λ e. (e.source ≢ manifest_file) × (e.backup ≢ manifest_file)) m.entries

  -- The phases.
  pub data Phase (start s : S) : Type 0 where
    untouched :
        laws.content s manifest_file ≡ none
        → ((q : String) → q ≢ manifest_file → laws.content s q ≡ laws.content start q)
        → Phase start s
    prepared :
        Recorded fs laws js journal m "prepared" s
        → ((q : String) → q ≢ manifest_file → laws.content s q ≡ laws.content start q)
        → Phase start s
    promoting :
        Recorded fs laws js journal m "promoting" s
        → ((q : String)
            → path_within journal q ≡ true
            → q ≢ manifest_file
            → laws.content s q ≡ laws.content start q)
        → Phase start s
    committed :
        Recorded fs laws js journal m "committed" s
        → IsPromoted fs laws js journal m start s
        → Phase start s

  state_at : Option Data → Option String
  state_at none = none
  state_at (some d) = elim (js.decode d) [ none ↦ none | some n ↦ some n.state ]

  state_lem :
      (state : String) (s : S)
      → Recorded fs laws js journal m state s
      → state_at (laws.content s manifest_file) ≡ some state
  unfolding state_at
  state_lem state s h = rw (h, state_at, journal_laws.round_trip (with_state state m)) refl

  one_state :
      (a b : String) (s : S)
      → (a == b) ≡ false
      → Recorded fs laws js journal m a s
      → Recorded fs laws js journal m b s
      → ⊥
  one_state a b s differ h k =
      let same = sym (state_lem a s h) ∙ state_lem b s k in ground (arith, eq_iff a b)

  of_none :
      {start s : S}
      → Phase start s
      → laws.content s manifest_file ≡ none
      → (q : String) → q ≢ manifest_file
      → laws.content s q ≡ laws.content start q
  of_none (untouched h same) k = same
  of_none (prepared h same) k = absurd (cc (h, k))
  of_none (promoting h same) k = absurd (cc (h, k))
  of_none (committed h done) k = absurd (cc (h, k))

  of_prepared :
      {start s : S}
      → Phase start s
      → Recorded fs laws js journal m "prepared" s
      → (q : String) → q ≢ manifest_file
      → laws.content s q ≡ laws.content start q
  of_prepared (untouched h same) k = absurd (cc (h, k))
  of_prepared (prepared h same) k = same
  of_prepared {s = s} (promoting h same) k = absurd (one_state "prepared" "promoting" s refl k h)
  of_prepared {s = s} (committed h done) k = absurd (one_state "prepared" "committed" s refl k h)

  pub of_promoting :
      {start s : S}
      → Phase start s
      → Recorded fs laws js journal m "promoting" s
      → (q : String) → path_within journal q ≡ true
      → q ≢ manifest_file
      → laws.content s q ≡ laws.content start q
  of_promoting (untouched h same) k = absurd (cc (h, k))
  of_promoting {s = s} (prepared h same) k = absurd (one_state "prepared" "promoting" s refl h k)
  of_promoting (promoting h same) k = same
  of_promoting {s = s} (committed h done) k = absurd (one_state "promoting" "committed" s refl k h)

  -- A write of the manifest: the new one or the old one, and no other file changes.
  pub write_manifest_lem :
      (state : String) (s : S)
      → let after = (write_manifest fs js journal (with_state state m) s).1 in
        (Recorded fs laws js journal m state after
          ⊎ (laws.content after manifest_file ≡ laws.content s manifest_file))
        × ((q : String) → q ≢ manifest_file → laws.content after q ≡ laws.content s q)
  unfolding write_manifest
  write_manifest_lem state s = (
    journal_laws.atomic manifest_file (js.encode (with_state state m)) _ _ _ s,
    λ q differ.
        laws.write_elsewhere manifest_file (js.encode (with_state state m)) _ _ _ s q differ,
  )

  pub outside_differs :
      (e : TransactionEntry) (q : String)
      → path_within journal e.target ≡ false
      → path_within journal q ≡ true
      → q ≢ e.target
  outside_differs e q out inside same =
      cc (subst (λ p. path_within journal p ≡ true) same inside, out)

  module _ {start : S} (ready : IsPrepared start) where
    pub target_differs :
        (e : TransactionEntry) → path_within journal e.target ≡ false → e.target ≢ manifest_file
    target_differs e out same = outside_differs e manifest_file out ready.inside (sym same)

    kept :
        (s t : S)
        → ((q : String) → q ≢ manifest_file → laws.content t q ≡ laws.content s q)
        → IsPromoted fs laws js journal m start s
        → IsPromoted fs laws js journal m start t
    kept s t elsewhere done =
        All-zip (IsOutside fs laws journal) _ _ m.entries
          (λ e out was file. elsewhere e.target (target_differs e out) ∙ was file) ready.outside
          done

    carried :
        {s t : S}
        → Phase start s
        → laws.content t manifest_file ≡ laws.content s manifest_file
        → ((q : String) → q ≢ manifest_file → laws.content t q ≡ laws.content s q)
        → Phase start t
    carried (untouched h same) at elsewhere = untouched (at ∙ h) (λ q d. elsewhere q d ∙ same q d)
    carried (prepared h same) at elsewhere = prepared (at ∙ h) (λ q d. elsewhere q d ∙ same q d)
    carried (promoting h same) at elsewhere =
        promoting (at ∙ h) (λ q i d. elsewhere q d ∙ same q i d)
    carried {s} {t} (committed h done) at elsewhere = committed (at ∙ h) (kept s t elsewhere done)

    step-Phase : {s t : S} → ◌⟶◌ fs laws js journal m start s t → Phase start s → Phase start t
    step-Phase {s} (prepare h) p =
        let (written, elsewhere) = write_manifest_lem "prepared" s in
        elim written [
          | inl r ↦ prepared r (λ q d. elsewhere q d ∙ of_none p h q d)
          | inr r ↦ carried p r elsewhere
        ]
    step-Phase {s} (begin h) p =
        let (written, elsewhere) = write_manifest_lem "promoting" s in
        elim written [
          | inl r ↦ promoting r (λ q i d. elsewhere q d ∙ of_prepared p h q d)
          | inr r ↦ carried p r elsewhere
        ]
    step-Phase {s} (apply {e = e} h mem) p =
        let out = All-Mem (IsOutside fs laws journal) mem ready.outside in
        let still = λ (q : String) (i : path_within journal q ≡ true).
          apply_entry-content fs laws m.secrets_root e s q (outside_differs e q out i) in
        promoting (still manifest_file ready.inside ∙ h)
          (λ q i d. still q i ∙ of_promoting p h q i d)
    step-Phase {s} (roll_back {e = e} h mem) p =
        let out = All-Mem (IsOutside fs laws journal) mem ready.outside in
        let still = λ (q : String) (i : path_within journal q ≡ true).
          rollback_entry-content fs laws e s q (outside_differs e q out i) in
        promoting (still manifest_file ready.inside ∙ h)
          (λ q i d. still q i ∙ of_promoting p h q i d)
    step-Phase (chown same) p = carried p (same manifest_file) (λ q _. same q)
    step-Phase {s} (commit h done) p =
        let (written, elsewhere) = write_manifest_lem "committed" s in
        elim written [
          | inl r ↦ committed r (kept s _ elsewhere done)
          | inr r ↦ carried p r elsewhere
        ]

    -- Every moment of the transaction is in one of the phases.
    pub moments-Phase : {s : S} → ◌⟶*◌ fs laws js journal m start start s → Phase start s
    moments-Phase here = untouched ready.unwritten (λ q _. refl)
    moments-Phase (later r step) = step-Phase step (moments-Phase r)
