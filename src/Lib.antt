-- ===== src/Lib.antt =====
-- git-ents keeps a forge's entities (members, issues, reviews, results) as git commits under
-- refs/meta/, and judges every update of such a ref by the contents of the repository alone. This
-- library models that judgment, the gate, and what it rests on.
--
-- Model stands for crates/kernel/ents-model. Model.Namespace is src/namespace.rs: a refname is its
-- bytes, the builders (member_ref, issue_ref, ...) take the refname rules of gix,
-- FullName::try_from, as the argument `valid_ref`, and classify, parse_review_ref,
-- parse_result_ref, inbox_owner and self_run_owner are the source's functions of the same names.
-- The last four read the text of a refname, which bstr's BStr::to_string makes of its bytes with
-- U+FFFD for what is not UTF-8; that function is the argument `to_string`, name_to_string in the
-- record Objects. Model.Member is src/member.rs.
--
-- Substrate stands for what the program is built on. Substrate.Refs has the types of
-- crates/substrate/gix-ref-store/src/edit.rs and read.rs: a snapshot of the refs is a record of the
-- two reads. Substrate.Objects is a record of the code outside the repository: the object store and
-- the decoders of gitoxide, facet's decoding of typed trees, and the ssh-key crate.
--
-- Gate stands for crates/kernel/ents-gate, file by file: Gate.Object is src/object.rs,
-- Gate.Signature is src/signature.rs, Gate.Verdict is src/verdict.rs, Gate.Policy is src/policy.rs
-- with src/config.rs. src/verify.rs is split along its private functions: Gate.Binding is
-- identity_binding and what it calls, Gate.Authority is authorize, the search for the signer and
-- owner_mutation, and Gate.Verify is verify with bootstrap. The rest of the body of verify is cut
-- into judge_meta, judge_signed, judge_signer, judge_member and fast_forwards, each of which goes
-- on where the one before it hands over. Graph has the lemmas on walks that the two loops over the
-- ancestry share.
--
-- Query stands for crates/kernel/ents-query. Query.Pattern is src/pattern.rs without the footprint:
-- `ref_pattern` is RefPattern::new, and the loop of glob_match keeps its indices in a Cursor.
-- Query.Rev is the terms of src/rev.rs and RevExpr::parse, Query.Space is Rust's trim and
-- split_whitespace on the bytes of UTF-8 text, and Query.Parse is the parser of src/parse.rs, with
-- Query.Atom for what each atom makes of its arguments; the text that is left stands beside its
-- position there. Query.Ast is the tree of src/ast.rs with the Footprint of src/pattern.rs, and
-- Query.Ast.Display its Display; `sort` of a list of strings is insertion by the order of their
-- bytes. Query.Eval is the part of src/eval.rs that reads refs: a Transition and the view of the
-- refs on either Side of it, and the tips of `rev` and `meta` atoms; gitoxide's FullName::try_from
-- is a parameter. The results index and the walks of the evaluation are left out. The patterns and
-- the evaluation read refnames as text, so a name in Query is its text.
--
-- Receive stands for crates/kernel/ents-receive, which puts the others together: Receive.Types has
-- src/proposal.rs, outcome.rs and error.rs, Receive.Scan is src/reconcile.rs and the redaction
-- scan, and Receive.Batch is `receive` of src/receive.rs. It scans for redactions, asks `verify` of
-- the gate about each transition, hands the edits to the ref store and announces what was written
-- to the event sink. The loop over the transitions collects one Judged for each instead of three
-- lists and a flag. The state is a World, the refs and the events the sink took. The record Views
-- gives the refs as receive reads them: at the scan, at its own read in each round, and while
-- verify judges in that round. The refs at the transaction (`w`) are another store. So another
-- writer may come in between any two of them. The record Services holds the transaction, the event
-- sink, facet's decoding of two entities, and the query parser and evaluator, which the repository
-- has but this library does not model as a whole; IsAtomic is the contract of RefStore::transaction
-- in gix-ref-store/src/store.rs.
--
-- Rules stands for crates/kernel/ents-gate-rules/src/lib.rs, the same policy as Datalog rules. A
-- relation that the rules derive is a data type in Rules.Derive with a constructor for each rule,
-- and Rules.Gate is `gate`. The engine, the ascent crate, is the argument `run`; IsLeastModel is
-- its contract: a row is there exactly if the rules derive it. Ids, refs and keys are texts.
--
-- Sync stands for crates/kernel/ents-sync, file by file: Sync.Objects is src/objects.rs,
-- Sync.Preflight is src/preflight.rs, Sync.Merge with Sync.Merge.Loop is src/merge.rs, Sync.Resolve
-- is src/resolve.rs, and Sync.Transfer with Sync.Transfer.Push is src/transfer.rs. An object store
-- that is written to is a state, the function that `try_find` is (Db); the record Git holds
-- gitoxide's writing, and IsStore says that it addresses objects by their hash. In fetch_one,
-- `reconcile` is the match on the local tip and `land` the transaction with its answer; in push,
-- `move` is what follows a verdict that passes. Functions from stores to stores stand for other
-- writers between a read and a transaction. The loop of three_way is merge_names, `choose` its
-- chain of tests, and a nested merge is the argument `nested`. IsCas is the contract of a
-- transaction of one edit.
--
-- Errors are values: Gate A is a result with the errors of src/error.rs, without their texts. A
-- refusal's text is an element of Detail, one for each place that writes one. Object ids and parsed
-- keys are numbers, texts are lists of bytes. RefStoreRead is one consistent snapshot: the code
-- reads the store several times and takes each answer as it comes.
--
-- Anchor stands for crates/kernel/ents-anchor: Anchor.Capture is src/anchor.rs with src/util.rs,
-- Anchor.Range is map_range of src/projection.rs and Anchor.Project the rest of it. What the code
-- asks of gitoxide, bstr and imara-diff is the record Repo, and IsHonest and IsSplitting are what
-- it relies on there. Base.Words has the checked and saturating arithmetic of Rust's `u64` and
-- `usize`. A long function is cut at its early returns, so project_diff is project_exact after its
-- fast path.
--
-- The loops of all_roots and descends_from run on fuel; when it runs out they return out_of_fuel,
-- an error that the code does not have. Both take a commit off a queue and put its parents on
-- unless they have seen it. walk_fuel counts the parents of the given commits, plus two, which is
-- enough where those are all the commits with parents (HasHistory). identity_binding calls itself
-- on the refname that an inbox ref stands for; the text of that one is shorter (KeepsText), and the
-- model gives it the length of the refname's text as depth. The loop of split_signed takes a byte
-- at least each round, so that the length of the header is fuel enough. glob_match runs on
-- glob_fuel, an attempt for each byte of the text and one more, each of as many rounds as pattern
-- and text have bytes, and one more. The walks of Sync run on fuel in the same way, and the fuel
-- that walk_fuel and copy_fuel of Sync.Objects count is enough for them; three_way takes one more
-- than the rank of our tree, which bounds its depth. The recursion of parse_query takes two rounds
-- for each byte of the input, and two more.
--
-- Not modelled: the store on disk, the rest of the query language's evaluation, effects and their
-- execution, the bindings of anchors, the commands on issues, comments and reviews, and the user
-- interfaces.
pub mod Base
pub mod Graph
pub mod Anchor
pub mod Model
pub mod Substrate
pub mod Gate
pub mod Query
pub mod Receive
pub mod Rules
pub mod Sync
