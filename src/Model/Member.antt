-- ===== src/Model/Member.antt =====
-- The member entity (crates/kernel/ents-model/src/member.rs). A text is a list of bytes.
use git_ents.Base.{Bytes}

abbrev pub MemberId : Type 0
MemberId = Bytes

pub data MemberState : Type 0 where
  active revoked : MemberState

pub data Provenance : Type 0 where
  admin_registered self_attested : Provenance

pub record Member : Type 0 where
  pub id : MemberId
  pub key : Bytes
  pub state : MemberState
  pub provenance : Provenance
