-- ===== src/Gate/Verdict.antt =====
-- The verdict vocabulary (crates/kernel/ents-gate/src/verdict.rs). A refusal's text is named by the
-- place in the code that writes it.
use git_ents.Base.{Bytes, codes, Bool, true, false}
use git_ents.Substrate.Refs.{Expected}

pub data Requirement : Type 0 where
  tip_signed identity_binding fast_forward atomic_cas : Requirement

unfoldable pub uid : Requirement → Bytes
uid tip_signed = codes "gate.tip-signed"
uid identity_binding = codes "gate.identity-binding"
uid fast_forward = codes "gate.fast-forward"
uid atomic_cas = codes "gate.atomic-cas"

pub data AdmissionKind : Type 0 where
  tip_invariant pre_epoch bootstrap code_ref : AdmissionKind

pub record Admission : Type 0 where
  pub kind : AdmissionKind
  pub refname : Bytes
  pub cas : Expected

-- The texts of crates/kernel/ents-gate/src/verify.rs, in the order in which they stand there.
pub data Detail : Type 0 where
  deletion not_a_commit unsigned unknown_signer revoked_signer not_descending : Detail
  not_self_owner not_inbox_owner effect_not_admin not_promoted : Detail
  no_members unreadable_enrollment foreign_enrollment misnamed_enrollment stale_enrollment : Detail
  field_differs field_absent : Detail
  not_a_genesis_oid no_readable_root foreign_root : Detail
  unknown_entry undecodable_entity : Detail
  malformed_review review_target_differs review_signer_differs : Detail
  malformed_result result_effect_differs result_target_differs self_run_signer_differs : Detail
  claim_tip_differs claim_parentless claim_signer_differs : Detail
  inbox_signer_differs : Detail
  not_genesis_signer not_reviewer : Detail

pub record Refusal : Type 0 where
  pub requirement : Requirement
  pub refname : Bytes
  pub detail : Detail
  pub inbox_alternative : Bool

pub data Verdict : Type 0 where
  pass : Admission → Verdict
  fail : Refusal → Verdict

unfoldable pub is_pass : Verdict → Bool
is_pass (pass _) = true
is_pass (fail _) = false
