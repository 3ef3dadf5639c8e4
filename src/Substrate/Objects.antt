-- ===== src/Substrate/Objects.antt =====
-- Code that is not in the repository, as a parameter: gitoxide's object store, decoders and refname
-- rules, facet's decoding of typed trees, and the ssh-key crate. A parsed key or signature is named
-- by a number.
use git_ents.Base.{ℕ, Bytes, Bool, Option, List, Result}
use git_ents.Model.Member.{Member}
use git_ents.Substrate.Refs.{Oid}

-- The kind of an object, `gix_object::Kind`.
pub data Kind : Type 0 where
  tree blob commit tag : Kind

pub record Object : Type 0 where
  pub kind : Kind
  pub bytes : Bytes

pub record TreeEntry : Type 0 where
  pub filename : Bytes
  pub oid : Oid
  -- `EntryMode`: a file mode as a number
  pub mode : ℕ

pub data FindError : Type 0 where
  find_error : FindError

-- crates/kernel/ents-gate/src/config.rs: the one field of refs/meta/config.
pub record Config : Type 0 where
  pub epoch : Option ℕ

pub record Objects : Type 0 where
  -- `Find::try_find`
  pub try_find : Oid → Result FindError (Option Object)
  -- `CommitRef::from_bytes`: the tree and the parents
  pub commit_from_bytes : Bytes → Option (Oid × List Oid)
  -- `TreeRef::from_bytes`
  pub tree_from_bytes : Bytes → Option (List TreeEntry)
  -- `String::from_utf8`, `str::from_utf8` and `String::from_utf8_lossy`
  pub from_utf8 : Bytes → Option Bytes
  pub from_utf8_lossy : Bytes → Bytes
  -- `BStr::to_string` of a refname, with U+FFFD in place of what is not UTF-8
  pub name_to_string : Bytes → Bytes
  -- `ObjectId::from_hex`, `ObjectId::from_bytes_or_panic` and `to_string`
  pub oid_from_hex : Bytes → Option Oid
  pub oid_from_bytes : Bytes → Oid
  pub oid_to_string : Oid → Bytes
  -- `FullName::try_from`
  pub valid_ref : Bytes → Bool
  -- `facet_git_tree::deserialize` of each entity the gate reads
  pub member_from_tree : Oid → Option Member
  pub config_from_tree : Oid → Option Config
  pub result_decodes : Oid → Bool
  pub claim_decodes : Oid → Bool
  -- `PublicKey::from_openssh`, `SshSig::from_pem` and `PublicKey::verify`
  pub key_from_openssh : Bytes → Option ℕ
  pub sig_from_pem : Bytes → Option ℕ
  pub key_verify : ℕ → Bytes → Bytes → ℕ → Bool
