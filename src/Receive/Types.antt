-- ===== src/Receive/Types.antt =====
-- The types of `receive` (crates/kernel/ents-receive/src/proposal.rs, outcome.rs and error.rs, and
-- the transition of crates/kernel/ents-query/src/eval.rs), and what it calls as a parameter.
use git_ents.Base.{ℕ, Bytes, List, Option, Result}
use git_ents.Substrate.Refs.{Oid, RefEdit, TxOutcome, StoreError, RefStoreRead}
use git_ents.Gate.Errors.{GateError}
use git_ents.Gate.Verdict.{Verdict}
use git_ents.Query.Ast.{Query}
use git_ents.Query.Eval.{Transition}

pub record RefTransition : Type 0 where
  pub name : Bytes
  pub old : Option Oid
  pub new : Option Oid

-- What a transport says of its caller; `receive` does not read it.
pub record TransportAuth : Type 0 where
  pub evidence : Bytes

pub record Proposal : Type 0 where
  pub transitions : List RefTransition
  pub objects : List Oid
  pub auth : Option TransportAuth

pub data Mode : Type 0 where
  mandatory advisory : Mode

pub data TxResult : Type 0 where
  applied refused : TxResult
  rejected : Bytes → TxResult
  redacted : Oid → TxResult

pub record Outcome : Type 0 where
  pub verdicts : List (Bytes × Verdict)
  pub result : TxResult

pub data ReceiveError : Type 0 where
  gate : GateError → ReceiveError
  refs eval sink : ReceiveError
  decode : Oid → ReceiveError

abbrev pub Receive : Type 0 → Type 0
Receive A = Result ReceiveError A

-- A failed evaluation, whatever its cause.
pub data EvalError : Type 0 where
  eval_error : EvalError

pub data SinkError : Type 0 where
  sink_error : SinkError

-- What `receive` calls: the write half of a ref store, the decoding of two entities, the parser and
-- the evaluator of queries, and the event sink, which may fail.
pub record Services : Type 0 where
  -- `RefStore::transaction`, with the store that it leaves
  pub transaction : RefStoreRead → List RefEdit → Result StoreError TxOutcome × RefStoreRead
  -- `deserialize::<Redaction>`, of which the target is kept
  pub redaction_target : Oid → Option Oid
  -- `deserialize::<Effect>`, of which the trigger is kept
  pub effect_trigger : Oid → Option Bytes
  pub parse_query : Bytes → Option Query
  -- `Evaluator::work_set` and `Evaluator::outstanding`
  pub work_set : RefStoreRead → Bytes → Query → Transition → Result EvalError (List Oid)
  pub outstanding : RefStoreRead → Bytes → Query → Result EvalError (List Oid)
  pub enqueue : Bytes → Oid → Option SinkError

-- The refs as `receive` finds them each time it reads: at the redaction scan, and in the round of the
-- i-th transition at its own read of the ref and, after it, while `verify` judges. Another writer may
-- move them in between.
pub record Views : Type 0 where
  pub scanned : RefStoreRead
  pub own : ℕ → RefStoreRead
  pub judged : ℕ → RefStoreRead

-- What `receive` changes: the refs, and the events that the sink took, the last one first.
pub record World : Type 0 where
  pub refs : RefStoreRead
  pub queue : List (Bytes × Oid)
