-- ===== src/Receive/Scan.antt =====
-- The scans of `receive` and the reconciliation (crates/kernel/ents-receive/src/receive.rs,
-- reconcile.rs): redaction targets, effect definitions, and the events of a transition.
use git_ents.Base.{
  Bytes, codes, strip_prefix, mem, Bool, true, false, List, [], ◌∷◌, Option, none, some, Result, ok,
  err, ◌>>=◌, if◌then◌else◌,
}
use git_ents.Substrate.Refs.{Oid, StoreError, RefStoreRead}
use git_ents.Substrate.Objects.{Kind, Objects}
use git_ents.Query.Ast.{Query}
use git_ents.Query.Eval.{Transition}
use git_ents.Receive.Types.{
  ReceiveError, Receive, decode, eval, sink, EvalError, SinkError, Services, World,
}
use git_ents.Receive.Types

abbrev pub redactions_prefix : Bytes
redactions_prefix = codes "refs/meta/redactions/"

abbrev pub effects_prefix : Bytes
effects_prefix = codes "refs/meta/effects/"

abbrev pub is_commit_kind : Kind → Bool
is_commit_kind Kind.commit = true
is_commit_kind _ = false

-- `?` on a read of the ref store, and on an evaluation
abbrev pub of_store {ℓ} : {A : Type ℓ} → Result StoreError A → Result ReceiveError A
of_store (ok a) = ok a
of_store (err _) = err Types.refs

abbrev pub of_eval {ℓ} : {A : Type ℓ} → Result EvalError A → Result ReceiveError A
of_eval (ok a) = ok a
of_eval (err _) = err eval

abbrev pub tree_of : Option (Oid × List Oid) → Option Oid
tree_of none = none
tree_of (some (tree, _)) = some tree

unfoldable pub commit_tree : Objects → Oid → Receive (Option Oid)
commit_tree o oid = elim (o.try_find oid) [
  | err _ ↦ err (decode oid)
  | ok none ↦ ok none
  | ok (some data_) ↦
      if is_commit_kind data_.kind then ok (tree_of (o.commit_from_bytes data_.bytes)) else ok none
]

abbrev pub with_target : Option Oid → List Oid → List Oid
with_target none targets = targets
with_target (some target) targets = target ∷ targets

abbrev pub target_of : Services → Option Oid → Option Oid
target_of s none = none
target_of s (some tree) = s.redaction_target tree

-- The targets that the loop of `first_redacted` collects.
unfoldable pub redaction_targets :
    Objects → Services → List (Result StoreError (Bytes × Oid)) → Receive (List Oid)
unfolding commit_tree
redaction_targets o s [] = ok []
redaction_targets o s (entry ∷ entries) = do
  (_, tip) ← of_store entry
  tree ← commit_tree o tip
  targets ← redaction_targets o s entries
  ok (with_target (target_of s tree) targets)

unfoldable pub find_target : List Oid → List Oid → Option Oid
find_target targets [] = none
find_target targets (oid ∷ oids) = if mem oid targets then some oid else find_target targets oids

unfoldable pub first_redacted : RefStoreRead → Objects → Services → List Oid → Receive (Option Oid)
unfolding redaction_targets find_target
first_redacted seen o s [] = ok none
first_redacted seen o s (oid ∷ oids) = do
  entries ← of_store (seen.iter_prefix redactions_prefix)
  targets ← redaction_targets o s entries
  ok (find_target targets (oid ∷ oids))

-- The whole rest of the refname, if it is one nonempty segment.
abbrev pub one_segment : Option Bytes → Option Bytes
one_segment none = none
one_segment (some []) = none
one_segment (some (c ∷ short)) = if mem b'/' (c ∷ short) then none else some (c ∷ short)

unfoldable pub short_effect_name : (Bytes → Bytes) → Bytes → Option Bytes
unfolding strip_prefix
short_effect_name to_string name = one_segment (strip_prefix effects_prefix (to_string name))

abbrev pub trigger_of : Services → Option Oid → Option Query
trigger_of s none = none
trigger_of s (some tree) = elim (s.effect_trigger tree) [
  | none ↦ none
  | some text ↦ s.parse_query text
]

abbrev pub with_effect : Bytes → Option Query → List (Bytes × Query) → List (Bytes × Query)
with_effect short none effects = effects
with_effect short (some trigger) effects = (short, trigger) ∷ effects

unfoldable pub effects_of :
    Objects → Services → List (Result StoreError (Bytes × Oid)) → Receive (List (Bytes × Query))
unfolding commit_tree short_effect_name
effects_of o s [] = ok []
effects_of o s (entry ∷ entries) = do
  (name, tip) ← of_store entry
  elim (short_effect_name o.name_to_string name) [
    | none ↦ effects_of o s entries
    | some short ↦ do
      tree ← commit_tree o tip
      effects ← effects_of o s entries
      ok (with_effect short (trigger_of s tree) effects)
  ]

unfoldable pub known_effects : RefStoreRead → Objects → Services → Receive (List (Bytes × Query))
unfolding effects_of
known_effects refs o s = do
  entries ← of_store (refs.iter_prefix effects_prefix)
  effects_of o s entries

-- The loop over the commits of one effect; an event that the sink refuses ends it.
unfoldable pub enqueue_all : Services → Bytes → List Oid → World → Option ReceiveError × World
enqueue_all s effect [] w = (none, w)
enqueue_all s effect (oid ∷ oids) w = elim (s.enqueue effect oid) [
  | some _ ↦ (some sink, w)
  | none ↦ enqueue_all s effect oids (record { refs = w.refs; queue = (effect, oid) ∷ w.queue })
]

-- The loop over the effects, for what the evaluator finds for each.
unfoldable pub enqueue_effects :
    Services
    → (Bytes → Query → Result EvalError (List Oid))
    → List (Bytes × Query)
    → World
    → Option ReceiveError × World
unfolding enqueue_all
enqueue_effects s work [] w = (none, w)
enqueue_effects s work ((name, trigger) ∷ effects) w = elim (work name trigger) [
  | err _ ↦ (some eval, w)
  | ok oids ↦
      let (failed, w') = enqueue_all s name oids w in
      elim failed [ some e ↦ (some e, w') | none ↦ enqueue_effects s work effects w' ]
]

unfoldable pub enqueue_known :
    Objects
    → Services
    → (RefStoreRead → Bytes → Query → Result EvalError (List Oid))
    → World
    → Option ReceiveError × World
unfolding known_effects enqueue_effects
enqueue_known o s work w = elim (known_effects w.refs o s) [
  | err e ↦ (some e, w)
  | ok effects ↦ enqueue_effects s (work w.refs) effects w
]

unfoldable pub enqueue_matches :
    Objects → Services → Transition → World → Option ReceiveError × World
unfolding enqueue_known
enqueue_matches o s transition w =
    enqueue_known o s (λ refs name trigger. s.work_set refs name trigger transition) w

unfoldable pub reconcile : Objects → Services → World → Option ReceiveError × World
unfolding enqueue_known
reconcile o s w = enqueue_known o s s.outstanding w
