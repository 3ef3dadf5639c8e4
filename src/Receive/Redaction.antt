-- ===== src/Receive/Redaction.antt =====
-- A redacted object does not come back in through `receive`.
use git_ents.Base.{
  ℕ, Bytes, mem, true, false, List, [], ◌∷◌, none, some, Result, ok, err, ◌≡◌, inl, inr, ap, ◌==◌,
  ==_refl, Bool-cases, Option-cases, Result-cases, arith,
}
use git_ents.Substrate.Refs.{Oid, StoreError, RefStoreRead}
use git_ents.Substrate.Objects.{Objects}
use git_ents.Receive.Types.{Proposal, Mode, Services, Views, World}
use git_ents.Receive.Scan.{
  redactions_prefix, commit_tree, redaction_targets, find_target, first_redacted, target_of,
}
use git_ents.Receive.Batch.{receive}
use git_ents.Receive.Atomic.{receive-cases}

-- Among the refs listed, one holds a redaction of the object.
pub data Redacts (o : Objects) (s : Services) (x : Oid)
    : List (Result StoreError (Bytes × Oid)) → Type 0 where
  here :
      {name : Bytes} {tip tree : Oid} {es : List (Result StoreError (Bytes × Oid))}
      → commit_tree o tip ≡ ok (some tree)
      → s.redaction_target tree ≡ some x
      → Redacts o s x (ok (name, tip) ∷ es)
  there :
      {e : Result StoreError (Bytes × Oid)} {es : List (Result StoreError (Bytes × Oid))}
      → Redacts o s x es
      → Redacts o s x (e ∷ es)

-- The object is the target of a redaction under refs/meta/redactions/.
unfoldable pub IsRedacted : RefStoreRead → Objects → Services → Oid → Type 0
IsRedacted seen o s x =
    (entries : List (Result StoreError (Bytes × Oid))) × (seen.iter_prefix redactions_prefix
      ≡ ok entries)
    × Redacts o s x entries

find_target-none :
    (targets oids : List Oid) (x : Oid)
    → find_target targets oids ≡ none
    → mem x oids ≡ true
    → mem x targets ≡ false
unfolding find_target
find_target-none targets [] x e h = cc
find_target-none targets (oid ∷ oids) x e h = elim (Bool-cases (mem oid targets)) [
  | inl f ↦ ground arith
  | inr f ↦ elim (Bool-cases (oid == x)) [
    | inl g ↦ let same : oid ≡ x = ground arith in rw same at f
    | inr g ↦ find_target-none targets oids x (rw f at e) (rw g at h)
  ]
]

module _ (o : Objects) (s : Services) (x : Oid) where
  redaction_targets-mem :
      (es : List (Result StoreError (Bytes × Oid))) (targets : List Oid)
      → redaction_targets o s es ≡ ok targets
      → Redacts o s x es
      → mem x targets ≡ true
  unfolding redaction_targets
  redaction_targets-mem [] targets h r = elim r [ ]
  redaction_targets-mem (e ∷ es) targets h (here {tip = tip} c t) =
      elim (Result-cases (redaction_targets o s es)) [
        | inr (z, f) ↦ ground arith
        | inl (ts, f) ↦ ground (arith, ==_refl x)
      ]
  redaction_targets-mem (err z ∷ es) targets h (there r) = cc
  redaction_targets-mem (ok (name, tip) ∷ es) targets h (there r) =
      elim (Result-cases (commit_tree o tip)) [
        | inr (z, f) ↦ ground arith
        | inl (tree, f) ↦ elim (Result-cases (redaction_targets o s es)) [
          | inr (z, g) ↦ ground arith
          | inl (ts, g) ↦
              let found : mem x ts ≡ true = redaction_targets-mem es ts g r in
              elim (Option-cases (target_of s tree)) [
                | inl k ↦ ground arith
                | inr (y, k) ↦ ground arith
              ]
        ]
      ]

  first_redacted-none :
      (seen : RefStoreRead) (oids : List Oid)
      → first_redacted seen o s oids ≡ ok none
      → mem x oids ≡ true
      → ¬ IsRedacted seen o s x
  unfolding first_redacted IsRedacted
  first_redacted-none seen [] e h r = cc
  first_redacted-none seen (y ∷ oids) e h (entries, listed, r) =
      elim (Result-cases (redaction_targets o s entries)) [
        | inr (z, f) ↦ ground arith
        | inl (targets, f) ↦
            let found : mem x targets ≡ true = redaction_targets-mem entries targets f r in
            let none_found : mem x targets ≡ false =
              find_target-none targets (y ∷ oids) x (ground arith) h in
            absurd cc
      ]

-- In either mode nothing changes, neither a ref nor the event queue, if an object that comes with
-- the proposal is the target of a redaction.
pub receive-redaction :
    (seen : Views) (o : Objects) (s : Services) (fuel : ℕ) (proposal : Proposal) (mode : Mode)
    (w : World) (x : Oid)
    → mem x proposal.objects ≡ true
    → IsRedacted seen.scanned o s x
    → (receive seen o s fuel proposal mode w).1 ≡ w
receive-redaction seen o s fuel proposal mode w x m r =
    elim (receive-cases seen o fuel s proposal mode w) [
      | inl (_, e) ↦ ap (λ y. y.1) e
      | inr b ↦ absurd (first_redacted-none o s x seen.scanned proposal.objects b.unredacted m r)
    ]
