-- ===== src/Rules/Derive.antt =====
-- The rules, one data type for each derived relation and one constructor for each rule, and what the
-- Datalog engine (the ascent crate) computes from them: the rows of their least model.
use git_ents.Base.{
  In, Bytes, codes, bytes_eq, starts_with, Bool, true, ◌&&◌, ◌≡◌, ◌↔◌, List, Option, none, some,
  any,
}
use git_ents.Rules.Facts.{Role, admin, Facts}

abbrev pub effects : Bytes
effects = codes "refs/meta/effects/"

module _ (f : Facts) where
  pub data Ancestor : Bytes → Bytes → Type 0 where
    by_parent : {c p : Bytes} → In (c, p) f.parent → Ancestor c p
    by_ancestor : {c p a : Bytes} → In (c, p) f.parent → Ancestor p a → Ancestor c a

  pub data HasParent (c : Bytes) : Type 0 where
    has_parent : {p : Bytes} → In (c, p) f.parent → HasParent c

  pub data Covered (r : Bytes) : Bytes → Type 0 where
    old_tip : {o n : Bytes} → In (r, some o, n) f.ref_update → Covered r o
    old_ancestor : {o n a : Bytes} → In (r, some o, n) f.ref_update → Ancestor o a → Covered r a

  pub data Introduced (r : Bytes) : Bytes → Type 0 where
    new_tip :
        {old : Option Bytes} {n : Bytes}
        → In (r, old, n) f.ref_update
        → ¬ Covered r n
        → Introduced r n
    new_ancestor :
        {old : Option Bytes} {n c : Bytes}
        → In (r, old, n) f.ref_update
        → Ancestor n c
        → ¬ Covered r c
        → Introduced r c

  pub data MemberSigned (c : Bytes) : Type 0 where
    member_signed :
        {k : Bytes} {role : Role} → In (c, k) f.signed_by → In (k, role) f.members → MemberSigned c

  pub data AdminSigned (c : Bytes) : Type 0 where
    admin_signed : {k : Bytes} → In (c, k) f.signed_by → In (k, admin) f.members → AdminSigned c

  pub data FfViolation (r : Bytes) : Type 0 where
    ff_violation :
        {o n : Bytes} → In (r, some o, n) f.ref_update → ¬ (o ≡ n) → ¬ Ancestor n o → FfViolation r

  pub data GenesisViolation (r : Bytes) : Type 0 where
    genesis_violation :
        {n : Bytes} → In (r, none, n) f.ref_update → HasParent n → GenesisViolation r

  pub data SecondRootViolation (r c : Bytes) : Type 0 where
    second_root_violation :
        {o n : Bytes}
        → In (r, some o, n) f.ref_update
        → Introduced r c
        → ¬ HasParent c
        → SecondRootViolation r c

  pub data UnsignedViolation (r c : Bytes) : Type 0 where
    unsigned_violation : Introduced r c → ¬ MemberSigned c → UnsignedViolation r c

  pub data DanglingAnchorViolation (r t : Bytes) : Type 0 where
    dangling_anchor_violation :
        {c : Bytes}
        → Introduced r c
        → In (c, t) f.anchor
        → ¬ In t f.object_exists
        → DanglingAnchorViolation r t

  pub data DanglingContextViolation (r t : Bytes) : Type 0 where
    dangling_context_violation :
        {c : Bytes}
        → Introduced r c
        → In (c, t) f.context
        → ¬ In t f.object_exists
        → DanglingContextViolation r t

  pub data EffectAdminViolation (r c : Bytes) : Type 0 where
    effect_admin_violation :
        Introduced r c → starts_with effects r ≡ true → ¬ AdminSigned c → EffectAdminViolation r c

-- The relations of a `GateRules` after `run`, as far as they are read here.
pub record GateRules : Type 0 where
  pub ancestor : List (Bytes × Bytes)
  pub has_parent : List Bytes
  pub covered : List (Bytes × Bytes)
  pub member_signed : List Bytes
  pub admin_signed : List Bytes
  pub ff_violation : List Bytes
  pub genesis_violation : List Bytes
  pub second_root_violation : List (Bytes × Bytes)
  pub unsigned_violation : List (Bytes × Bytes)
  pub dangling_anchor_violation : List (Bytes × Bytes)
  pub dangling_context_violation : List (Bytes × Bytes)
  pub effect_admin_violation : List (Bytes × Bytes)

abbrev pub has : List Bytes → Bytes → Bool
has rows x = any (λ y. bytes_eq y x) rows

abbrev pub has_pair : List (Bytes × Bytes) → Bytes → Bytes → Bool
has_pair rows x y = any (λ row. bytes_eq row.0 x && bytes_eq row.1 y) rows

-- The engine has derived exactly the rows that the rules derive, and only what is declared a fact
-- counts as an existing object.
pub record IsLeastModel (f : Facts) (m : GateRules) : Type 0 where
  pub ancestor : (c a : Bytes) → (has_pair m.ancestor c a ≡ true) ↔ Ancestor f c a
  pub has_parent : (c : Bytes) → (has m.has_parent c ≡ true) ↔ HasParent f c
  pub covered : (r c : Bytes) → (has_pair m.covered r c ≡ true) ↔ Covered f r c
  pub member_signed : (c : Bytes) → (has m.member_signed c ≡ true) ↔ MemberSigned f c
  pub admin_signed : (c : Bytes) → (has m.admin_signed c ≡ true) ↔ AdminSigned f c
  pub ff_violation : (r : Bytes) → (has m.ff_violation r ≡ true) ↔ FfViolation f r
  pub genesis_violation : (r : Bytes) → (has m.genesis_violation r ≡ true) ↔ GenesisViolation f r
  pub second_root_violation :
      (r c : Bytes) → (has_pair m.second_root_violation r c ≡ true) ↔ SecondRootViolation f r c
  pub unsigned_violation :
      (r c : Bytes) → (has_pair m.unsigned_violation r c ≡ true) ↔ UnsignedViolation f r c
  pub dangling_anchor_violation :
      (r t : Bytes)
      → (has_pair m.dangling_anchor_violation r t ≡ true) ↔ DanglingAnchorViolation f r t
  pub dangling_context_violation :
      (r t : Bytes)
      → (has_pair m.dangling_context_violation r t ≡ true) ↔ DanglingContextViolation f r t
  pub effect_admin_violation :
      (r c : Bytes) → (has_pair m.effect_admin_violation r c ≡ true) ↔ EffectAdminViolation f r c
