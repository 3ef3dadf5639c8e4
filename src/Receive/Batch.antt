-- ===== src/Receive/Batch.antt =====
-- `receive` itself (crates/kernel/ents-receive/src/receive.rs). `seen` is the store as the scan, the
-- rounds of the loop and the judgments read it; `w` is the store when the transaction runs.
use git_ents.Base.{
  ℕ, suc, Bytes, Bool, true, false, not, ◌||◌, List, [], ◌∷◌, Option, none, some, Result, ok, err,
  ◌>>=◌, if◌then◌else◌,
}
use git_ents.Substrate.Refs.{RefEdit, TxOutcome, StoreError, RefStoreRead}
use git_ents.Substrate.Objects.{Objects}
use git_ents.Gate.Errors.{Gate}
use git_ents.Gate.Verdict.{Verdict, is_pass}
use git_ents.Gate.Verify.{Update, cas_of, verify}
use git_ents.Query.Eval.{Transition}
use git_ents.Receive.Types.{
  RefTransition, Proposal, Mode, mandatory, advisory, TxResult, applied, refused, rejected,
  redacted, Outcome, ReceiveError, Receive, gate, Services, Views, World,
}
use git_ents.Receive.Types
use git_ents.Receive.Scan.{of_store, first_redacted, enqueue_matches}

abbrev pub of_gate : {A : Type 0} → Gate A → Receive A
of_gate (ok a) = ok a
of_gate (err e) = err (gate e)

abbrev pub update_of : RefTransition → Update
update_of t = record { name = t.name; new = t.new }

-- One round of the loop over the transitions: the verdict, the edit and the move to announce.
pub record Judged : Type 0 where
  pub verdict : Verdict
  pub edit : RefEdit
  pub move : Transition

unfoldable pub judge : RefStoreRead → RefStoreRead → Objects → ℕ → RefTransition → Receive Judged
judge own judged o fuel t = do
  old ← of_store (own.get t.name)
  verdict ← of_gate (verify judged o fuel (update_of t))
  ok (record {
    verdict = verdict;
    edit = record { name = t.name; expected = cas_of old; new = t.new };
    move = record { name = t.name; old = old; new = t.new };
  })

-- The rounds from the i-th on.
unfoldable pub judge_all : Views → Objects → ℕ → ℕ → List RefTransition → Receive (List Judged)
unfolding judge
judge_all seen o fuel i [] = ok []
judge_all seen o fuel i (t ∷ ts) = do
  judged ← judge (seen.own i) (seen.judged i) o fuel t
  rest ← judge_all seen o fuel (suc i) ts
  ok (judged ∷ rest)

unfoldable pub any_failed : List Judged → Bool
any_failed [] = false
any_failed (j ∷ js) = not (is_pass j.verdict) || any_failed js

unfoldable pub verdicts_of : List Judged → List (Bytes × Verdict)
verdicts_of [] = []
verdicts_of (j ∷ js) = (j.edit.name, j.verdict) ∷ verdicts_of js

unfoldable pub edits_of : List Judged → List RefEdit
edits_of [] = []
edits_of (j ∷ js) = j.edit ∷ edits_of js

unfoldable pub announce : Objects → Services → List Judged → World → Option ReceiveError × World
announce o s [] w = (none, w)
announce o s (j ∷ js) w =
    let (failed, w') = enqueue_matches o s j.move w in
    elim failed [ some e ↦ (some e, w') | none ↦ announce o s js w' ]

abbrev pub is_mandatory : Mode → Bool
is_mandatory mandatory = true
is_mandatory advisory = false

abbrev pub outcome : List Judged → TxResult → Outcome
outcome js result = record { verdicts = verdicts_of js; result = result }

-- The events of a batch that was written.
unfoldable pub announced : Objects → Services → List Judged → World → Receive Outcome × World
unfolding announce
announced o s js w =
    let (failed, w') = announce o s js w in
    elim failed [ some e ↦ (err e, w') | none ↦ (ok (outcome js applied), w') ]

-- What follows the transaction, by its answer, in the store that it left.
unfoldable pub settle :
    Objects → Services → List Judged → World → Result StoreError TxOutcome → Receive Outcome × World
unfolding announced verdicts_of
settle o s js w (err _) = (err Types.refs, w)
settle o s js w (ok TxOutcome.applied) = announced o s js w
settle o s js w (ok (TxOutcome.rejected name)) = (ok (outcome js (rejected name)), w)

unfoldable pub write : Objects → Services → List Judged → World → Receive Outcome × World
unfolding settle edits_of
write o s [] w = (ok (outcome [] applied), w)
write o s (j ∷ js) w =
    let (answer, refs) = s.transaction w.refs (edits_of (j ∷ js)) in
    settle o s (j ∷ js) (record { refs = refs; queue = w.queue }) answer

unfoldable pub receive :
    Views → Objects → Services → ℕ → Proposal → Mode → World → Receive Outcome × World
unfolding write judge_all any_failed
receive seen o s fuel proposal mode w = elim (first_redacted seen.scanned o s proposal.objects) [
  | err e ↦ (err e, w)
  | ok (some oid) ↦ (ok (record { verdicts = []; result = redacted oid }), w)
  | ok none ↦ elim (judge_all seen o fuel 0 proposal.transitions) [
    | err e ↦ (err e, w)
    | ok js ↦
        if any_failed js
        then (if is_mandatory mode then (ok (outcome js refused), w) else write o s js w)
        else write o s js w
  ]
]
