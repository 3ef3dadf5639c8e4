-- ===== src/Gate/Policy.antt =====
-- The policy read from refs/meta/* (crates/kernel/ents-gate/src/policy.rs, config.rs).
use git_ents.Base.{
  ℕ, Bytes, codes, strip_prefix, List, [], ◌∷◌, Option, none, some, Result, ok, err, ◌>>=◌,
}
use git_ents.Model.Member.{MemberId, Member}
use git_ents.Model.Namespace.{config_ref}
use git_ents.Substrate.Refs.{Oid, StoreError, RefStoreRead}
use git_ents.Substrate.Objects.{Config, Objects}
use git_ents.Gate.Errors.{Gate, entity, from_store}
use git_ents.Gate.Object.{expect_commit}

pub record Enrolled : Type 0 where
  pub id : MemberId
  pub tip : Oid

abbrev pub member_prefix : Bytes
member_prefix = codes "refs/meta/member/"

-- `strip_prefix(..).unwrap_or(&path)`
abbrev member_segment : Bytes → Bytes
member_segment path = elim (strip_prefix member_prefix path) [ none ↦ path | some id ↦ id ]

unfoldable pub enroll :
    (Bytes → Bytes) → List (Result StoreError (Bytes × Oid)) → Gate (List Enrolled)
unfolding strip_prefix
enroll to_string [] = ok []
enroll to_string (entry ∷ entries) = do
  (name, tip) ← from_store entry
  rest ← enroll to_string entries
  ok (record { id = member_segment (to_string name); tip = tip } ∷ rest)

unfoldable pub members : (Bytes → Bytes) → RefStoreRead → Gate (List Enrolled)
unfolding enroll
members to_string refs = do
  entries ← from_store (refs.iter_prefix member_prefix)
  enroll to_string entries

module _ (o : Objects) where
  unfoldable pub member_current : Oid → Gate Member
  unfolding expect_commit
  member_current tip = do
    commit ← expect_commit o tip
    elim (o.member_from_tree commit.tree) [ none ↦ err (entity tip) | some member ↦ ok member ]

  unfoldable pub config_at_commit : Oid → Gate Config
  unfolding expect_commit
  config_at_commit oid = do
    commit ← expect_commit o oid
    elim (o.config_from_tree commit.tree) [ none ↦ err (entity oid) | some config ↦ ok config ]

  unfoldable pub epoch_at_commit : Oid → Gate (Option ℕ)
  unfolding config_at_commit
  epoch_at_commit oid = do config ← config_at_commit oid; ok config.epoch

  unfoldable pub current_config : RefStoreRead → Gate Config
  unfolding config_at_commit
  current_config refs = do
    tip ← from_store (refs.get config_ref)
    elim tip [ none ↦ ok (record { epoch = none }) | some oid ↦ config_at_commit oid ]

  unfoldable pub current_epoch : RefStoreRead → Gate (Option ℕ)
  unfolding current_config
  current_epoch refs = do config ← current_config refs; ok config.epoch
