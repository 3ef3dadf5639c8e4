-- ===== src/Model/Namespace/Built.antt =====
-- What the builders of crates/kernel/ents-model/src/namespace.rs make, read back by `classify` and
-- by the owner functions.
use git_ents.Base.{Bytes, Bool, true, some, Result, ok, ◌≡◌, refl, arith}
use git_ents.Model.Member.{MemberId}
use git_ents.Model.Namespace.{
  NameError, build, member_ref, issue_ref, comment_ref, review_ref, review_pin_ref, effect_ref,
  result_ref, self_result_ref, inbox_ref, toolchain_ref, redaction_ref, claim_ref, Namespace,
  classify,
}

-- One constructor for each builder, with its arguments.
pub data Entity : Type 0 where
  member : MemberId → Entity
  issue comment effect toolchain redaction claim : Bytes → Entity
  review pin : Bytes → MemberId → Entity
  result : Bytes → Bytes → Entity
  self_run : MemberId → Bytes → Bytes → Entity
  inbox : MemberId → Bytes → Entity

unfoldable pub entity_ref : (Bytes → Bool) → Entity → Result NameError Bytes
entity_ref v (member id) = member_ref v id
entity_ref v (issue id) = issue_ref v id
entity_ref v (comment id) = comment_ref v id
entity_ref v (effect name) = effect_ref v name
entity_ref v (toolchain name) = toolchain_ref v name
entity_ref v (redaction id) = redaction_ref v id
entity_ref v (claim id) = claim_ref v id
entity_ref v (review target m) = review_ref v target m
entity_ref v (pin target m) = review_pin_ref v target m
entity_ref v (result e s) = result_ref v e s
entity_ref v (self_run m e s) = self_result_ref v m e s
entity_ref v (inbox m id) = inbox_ref v m id

pub entity_namespace : Entity → Namespace
entity_namespace (member _) = Namespace.member
entity_namespace (issue _) = Namespace.issue
entity_namespace (comment _) = Namespace.comment
entity_namespace (effect _) = Namespace.effect
entity_namespace (toolchain _) = Namespace.toolchain
entity_namespace (redaction _) = Namespace.redaction
entity_namespace (claim _) = Namespace.claim
entity_namespace (review _ _) = Namespace.review
entity_namespace (pin _ _) = Namespace.pin
entity_namespace (result _ _) = Namespace.result
entity_namespace (self_run _ _ _) = Namespace.self_run
entity_namespace (inbox _ _) = Namespace.inbox

build-eq-ok :
    (v : Bytes → Bool) (name : Bytes) {r : Bytes}
    → build v name ≡ ok r
    → (v name ≡ true) × (r ≡ name)
unfolding build
build-eq-ok v name h = ground arith

module _ (v : Bytes → Bool) where
  -- Whatever a builder makes is accepted by `FullName::try_from`, and `classify` puts it in the
  -- builder's own namespace.
  pub classify-entity_ref :
      (e : Entity) {r : Bytes}
      → entity_ref v e ≡ ok r
      → (v r ≡ true) × (classify r ≡ some (entity_namespace e))
  unfolding entity_ref entity_namespace member_ref issue_ref comment_ref effect_ref toolchain_ref
      redaction_ref claim_ref review_ref review_pin_ref result_ref self_result_ref inbox_ref
      classify
  classify-entity_ref (member id) h = let (a, e) = build-eq-ok v _ h in rw e (a, refl)
  classify-entity_ref _ h = let (a, e) = build-eq-ok v _ h in rw e (a, refl)
