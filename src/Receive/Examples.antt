-- ===== src/Receive/Examples.antt =====
-- `receive` on the small repository of the gate: a batch that is written, and one that is not.
use git_ents.Base.{
  bytes_eq, starts_with, [], ◌∷◌, none, some, ok, ◌≡◌, ◌⊎◌, Bool-cases, inl, inr, refl,
  if◌then◌else◌, ◌==◌, ap, sym,
}
use git_ents.Substrate.Refs.{must_exist_and_match, RefStoreRead}
use git_ents.Gate.Verdict.{is_pass, tip_invariant}
use git_ents.Gate.Object.{all_roots, descends_from}
use git_ents.Gate.Signature.{split_signed, verifies}
use git_ents.Gate.Policy.{members, current_epoch}
use git_ents.Gate.Binding.{bind_hash_identified, identity_binding}
use git_ents.Gate.Authority.{authorize, find_signer, owner_mutation}
use git_ents.Model.Namespace.{classify}
use git_ents.Gate.Verify.{admit, verify}
use git_ents.Gate.Sample.{objects, refs, issue_name, advance}
use git_ents.Receive.Sample.{set_all, all_held, compare_and_swap, all_held_sound}
use git_ents.Receive.Types.{Proposal, mandatory, advisory, applied, Services, Views, World}
use git_ents.Receive.Scan.{commit_tree, first_redacted, known_effects, enqueue_matches}
use git_ents.Receive.Batch.{judge_all, receive}
use git_ents.Receive.Atomic.{receive-mandatory, receive-all_or_nothing}
use git_ents.Receive.Judgments.{Admitted, IsAtomic, Pinned}
use git_ents.Receive.Redaction.{here, IsRedacted, receive-redaction}

-- The redaction that stands at tree 110 has object 7 as its target.
abbrev services : Services
services = record {
  transaction = compare_and_swap;
  redaction_target = λ tree. if tree == 110 then some 7 else none;
  effect_trigger = λ _. none;
  parse_query = λ _. none;
  work_set = λ _ _ _ _. ok [];
  outstanding = λ _ _ _. ok [];
  enqueue = λ _ _. none;
}

services-IsAtomic : IsAtomic services
services-IsAtomic = record {
  applied_holds = λ refs after edits h. elim (Bool-cases (all_held refs edits)) [
    | inl e ↦ all_held_sound refs edits e
    | inr e ↦ absurd (let t = ap (λ x. x.0) (rw e at h) in cc)
  ];
  rejected_same = λ refs after edits name h. elim (Bool-cases (all_held refs edits)) [
    | inl e ↦ absurd (let t = ap (λ x. x.0) (rw e at h) in cc)
    | inr e ↦ sym (ap (λ x. x.1) (rw e at h))
  ];
}

-- No other writer comes in between.
abbrev views : Views
views = record { scanned = refs; own = λ _. refs; judged = λ _. refs }

abbrev world : World
world = record { refs = refs; queue = [] }

abbrev proposal : Proposal
proposal = record {
  transitions = record { name = issue_name; old = some 1; new = some 2 } ∷ [];
  objects = 7 ∷ [];
  auth = none;
}

receive-mandatory_example :
    ((receive views objects services 10 proposal mandatory world).1 ≡ world)
    ⊎ Admitted views.judged objects 10 0 proposal.transitions
receive-mandatory_example = receive-mandatory views objects 10 services proposal world

abbrev advance_issue : Proposal
advance_issue = record {
  transitions = record { name = issue_name; old = some 1; new = some 2 } ∷ [];
  objects = [];
  auth = none;
}

abbrev advanced : World
advanced = record {
  refs =
      set_all (record { name = issue_name; expected = must_exist_and_match 1; new = some 2 } ∷ [])
        refs;
  queue = [];
}

issue_advanced : receive views objects services 10 advance_issue advisory world ≡ (
  ok (record {
    verdicts = (issue_name, admit tip_invariant advance (some 1)) ∷ [];
    result = applied;
  }),
  advanced,
)
unfolding receive judge_all verify first_redacted starts_with current_epoch bytes_eq split_signed
    members find_signer verifies authorize classify identity_binding bind_hash_identified all_roots
    owner_mutation descends_from is_pass enqueue_matches known_effects
issue_advanced = refl

-- While `verify` judges, another writer has removed the issue: the admission pins its absence, and the
-- batch is applied over the tip that `receive` read.
abbrev removed : RefStoreRead
removed = record {
  get = λ name. if bytes_eq name issue_name then ok none else refs.get name;
  iter_prefix = refs.iter_prefix;
}

other_tip_judged :
    receive
      (record { scanned = refs; own = λ _. refs; judged = λ _. removed })
      objects
      services
      10
      advance_issue
      advisory
      world
    ≡ (
      ok (record {
        verdicts = (issue_name, admit tip_invariant advance none) ∷ [];
        result = applied;
      }),
      advanced,
    )
unfolding receive judge_all verify first_redacted starts_with current_epoch bytes_eq split_signed
    members find_signer verifies authorize classify identity_binding bind_hash_identified all_roots
    owner_mutation descends_from is_pass enqueue_matches known_effects
other_tip_judged = refl

IsRedacted-seven : IsRedacted refs objects services 7
unfolding IsRedacted commit_tree
IsRedacted-seven = (_, refl, here refl refl)

receive-redaction_example : (receive views objects services 10 proposal mandatory world).1 ≡ world
receive-redaction_example =
    receive-redaction views objects services 10 proposal mandatory world 7 refl IsRedacted-seven

receive-all_or_nothing_example :
    ((applied ≡ applied) × Pinned views objects 10 refs 0 advance_issue.transitions)
    ⊎ (advanced ≡ world)
receive-all_or_nothing_example =
    receive-all_or_nothing views objects 10 services services-IsAtomic world advance_issue advisory
      _ advanced issue_advanced
