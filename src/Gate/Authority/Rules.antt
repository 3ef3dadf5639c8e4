-- ===== src/Gate/Authority/Rules.antt =====
-- What `authorize` and `owner_mutation` (crates/kernel/ents-gate/src/verify.rs) allow.
use git_ents.Base.{
  ℕ, Bytes, codes, bytes_eq_iff, true, false, List, Option, none, some, Bool-cases, inl, inr, ok,
  ◌≡◌, ◌↔◌, refl, sym, ap, ◌∙◌, false≢true, arith, if◌then◌else◌,
}
use git_ents.Model.Member.{MemberId, Member, admin_registered}
use git_ents.Model.Namespace.{Namespace, classify, inbox_owner, self_run_owner}
use git_ents.Model.Namespace.Parse.{IsOwnedBy, owners_iff}
use git_ents.Substrate.Refs.{Oid}
use git_ents.Substrate.Objects.{Objects}
use git_ents.Gate.Verdict.{Detail}
use git_ents.Gate.Policy.{Enrolled}
use git_ents.Gate.Binding.{is_some_of}
use git_ents.Gate.Binding.Replay.{IsHashIdentified}
use git_ents.Gate.Authority.{
  authority_refusal, authorize_in, authorize, owner_of_genesis, owner_mutation,
}

-- Who may write a ref of each namespace, by the text of its name.
abbrev pub MayWrite : Namespace → Bytes → MemberId → Member → Type 0
MayWrite Namespace.self_run text id member = IsOwnedBy (codes "refs/meta/self/") text id
MayWrite Namespace.inbox text id member = IsOwnedBy (codes "refs/meta/inbox/") text id
MayWrite _ text id member = member.provenance ≡ admin_registered

is_some_of_iff : (o : Option Bytes) (b : Bytes) → (is_some_of o b ≡ true) ↔ (o ≡ some b)
is_some_of_iff none b = (λ e. cc, λ e. cc)
is_some_of_iff (some a) b = (
  λ e. ap some ((bytes_eq_iff a b).0 e),
  λ e. let same : a ≡ b = ground arith in (bytes_eq_iff a b).1 same,
)

owner_gate :
    (owner : Option Bytes) (name id : Bytes) (d : Detail) {P : Type 0}
    → (owner ≡ some id) ↔ P
    → ((if is_some_of owner id then none else authority_refusal name d false) ≡ none) ↔ P
unfolding authority_refusal
owner_gate owner name id d iff = elim (Bool-cases (is_some_of owner id)) [
  | inl y ↦ rw y (λ _. iff.0 ((is_some_of_iff owner id).0 y), λ _. refl)
  | inr n ↦ rw n (λ e. cc, λ p. absurd (false≢true (sym n ∙ (is_some_of_iff owner id).1 (iff.1 p))))
]

module _ (to_string : Bytes → Bytes) (name : Bytes) (id : MemberId) (member : Member) where
  authorize_in_iff :
      (n : Namespace)
      → (authorize_in to_string n name id member ≡ none) ↔ MayWrite n (to_string name) id member
  unfolding authorize_in
  authorize_in_iff Namespace.self_run =
      owner_gate (self_run_owner to_string name) name id Detail.not_self_owner
        (owners_iff to_string name id).1
  authorize_in_iff Namespace.inbox =
      owner_gate (inbox_owner to_string name) name id Detail.not_inbox_owner
        (owners_iff to_string name id).0
  authorize_in_iff Namespace.effect = ground arith
  authorize_in_iff _ = ground arith

  -- The signer's authority, for a refname of the namespace `n`: `authorize` lets a member write a
  -- self-run or inbox ref exactly if the text of its name, as `BStr::to_string` gives it, lies below
  -- that member's own segment, whatever the member's provenance, and any other ref exactly if the
  -- member is admin-registered.
  pub authorize_iff :
      (n : Namespace)
      → classify name ≡ some n
      → (authorize to_string name id member ≡ none) ↔ MayWrite n (to_string name) id member
  unfolding authorize
  authorize_iff n c = rw (c, authorize) (authorize_in_iff n)

owner_of_genesis-admin :
    (o : Objects) (fuel : ℕ) (name : Bytes) (old : Option Oid) (new : Oid) (members : List Enrolled)
    (id : MemberId) (member : Member)
    → member.provenance ≡ admin_registered
    → owner_of_genesis o fuel name old new members id member ≡ ok none
unfolding owner_of_genesis
owner_of_genesis-admin o fuel name none new members id member admin = refl
owner_of_genesis-admin o fuel name (some old) new members id member admin = ground arith

-- On an issue or comment ref the owner rule refuses nobody whom `authorize` lets through, whether the
-- ref is created or advanced: `authorize` lets only admin-registered signers through there.
pub owner_mutation-authorized :
    (o : Objects) (fuel : ℕ) (name : Bytes) (old : Option Oid) (new : Oid) (members : List Enrolled)
    (id : MemberId) (member : Member)
    → IsHashIdentified name
    → authorize o.name_to_string name id member ≡ none
    → owner_mutation o fuel name old new members id member ≡ ok none
unfolding owner_mutation
owner_mutation-authorized o fuel name old new members id member (inl c) a =
    rw (c, owner_mutation)
      (owner_of_genesis-admin o fuel name old new members id member
        ((authorize_iff o.name_to_string name id member Namespace.issue c).0 a))
owner_mutation-authorized o fuel name old new members id member (inr c) a =
    rw (c, owner_mutation)
      (owner_of_genesis-admin o fuel name old new members id member
        ((authorize_iff o.name_to_string name id member Namespace.comment c).0 a))
