-- ===== src/Rules/Examples.antt =====
-- A transaction that the rules accept: commit n is put on commit o, signed by an enrolled key.
use git_ents.Base.{
  In, now, later, Bytes, codes, bytes_eq, bytes_eq_refl, bytes_eq_sound, starts_with, true,
  Bool-cases, false≢true, ◌≡◌, ◌↔◌, ◌⊎◌, inl, inr, refl, ap, sym, ◌∙◌, [], ◌∷◌, Option, none, some,
  arith, sort_bytes-nil,
}
use git_ents.Rules.Facts.{admin, member, Facts}
use git_ents.Rules.Derive.{
  GateRules, IsLeastModel, has, has_pair, effects, Ancestor, HasParent, Covered, Introduced,
  MemberSigned, AdminSigned, FfViolation, GenesisViolation, SecondRootViolation, UnsignedViolation,
  DanglingAnchorViolation, DanglingContextViolation, EffectAdminViolation,
}
use git_ents.Rules.Derive
use git_ents.Rules.Gate.{gate}
use git_ents.Rules.Accepted.{Accepted, gate_iff, gate-Signed}

abbrev issue : Bytes
issue = codes "refs/meta/issues/g"

abbrev old_commit : Bytes
old_commit = codes "o"

abbrev new_commit : Bytes
new_commit = codes "n"

abbrev key : Bytes
key = codes "k"

abbrev facts : Facts
facts = record {
  ref_update = (issue, some old_commit, new_commit) ∷ [];
  parent = (new_commit, old_commit) ∷ [];
  signed_by = (old_commit, key) ∷ (new_commit, key) ∷ [];
  members = (key, member) ∷ [];
  anchor = [];
  context = [];
  object_exists = [];
}

abbrev model : GateRules
model = record {
  ancestor = (new_commit, old_commit) ∷ [];
  has_parent = new_commit ∷ [];
  covered = (issue, old_commit) ∷ [];
  member_signed = old_commit ∷ new_commit ∷ [];
  admin_signed = [];
  ff_violation = [];
  genesis_violation = [];
  second_root_violation = [];
  unsigned_violation = [];
  dangling_anchor_violation = [];
  dangling_context_violation = [];
  effect_admin_violation = [];
}

In-nil : {A : Type 0} {x : A} → ¬ In x []
In-nil i = elim i [ ]

In-one : {A : Type 0} {x y : A} → In x (y ∷ []) → x ≡ y
In-one now = refl
In-one (later i) = absurd (In-nil i)

signer : (c k : Bytes) → In (c, k) facts.signed_by → (c ≡ old_commit) ⊎ (c ≡ new_commit)
signer c k now = inl refl
signer c k (later i) = inr (ap (λ row. row.0) (In-one i))

has-one : (x y : Bytes) → has (y ∷ []) x ≡ true → y ≡ x
has-one x y h = bytes_eq_sound y x (ground arith)

has_pair-one : (x y a b : Bytes) → has_pair ((a, b) ∷ []) x y ≡ true → (a ≡ x) × (b ≡ y)
has_pair-one x y a b h = (bytes_eq_sound a x (ground arith), bytes_eq_sound b y (ground arith))

tips : {c a : Bytes} → In (c, a) facts.parent → (c ≡ new_commit) × (a ≡ old_commit)
tips i = (ap (λ row. row.0) (In-one i), ap (λ row. row.1) (In-one i))

apart : ¬ (old_commit ≡ new_commit)
unfolding bytes_eq
apart e = false≢true (sym (ap (λ x. bytes_eq old_commit x) e))

some-injective : {x y : Bytes} → some x ≡ some y → x ≡ y
some-injective {x} e = ap (λ o. elim o [ none ↦ x | some z ↦ z ]) e

only-Ancestor : (c a : Bytes) → Ancestor facts c a → (c ≡ new_commit) × (a ≡ old_commit)
only-Ancestor c a (Derive.by_parent i) = tips i
only-Ancestor c a (Derive.by_ancestor i x) =
    let (e, e') = tips i in let (g, g') = only-Ancestor _ a x in absurd (apart (sym e' ∙ g))

update :
    {r n : Bytes} {o : Option Bytes}
    → In (r, o, n) facts.ref_update
    → (r ≡ issue) × (o ≡ some old_commit) × (n ≡ new_commit)
update i = let e = In-one i in (ap (λ row. row.0) e, ap (λ row. row.1) e, ap (λ row. row.2) e)

only-Covered : (r c : Bytes) → Covered facts r c → (r ≡ issue) × (c ≡ old_commit)
only-Covered r c (Derive.old_tip u) = let (a, b, d) = update u in (a, some-injective b)
only-Covered r c (Derive.old_ancestor u a) =
    let (x, b, d) = update u in absurd (apart (sym (some-injective b) ∙ (only-Ancestor _ c a).0))

only-Introduced : (r c : Bytes) → Introduced facts r c → (r ≡ issue) × (c ≡ new_commit)
only-Introduced r c (Derive.new_tip u k) = let (a, b, d) = update u in (a, d)
only-Introduced r c (Derive.new_ancestor u a k) =
    let (x, b, d) = update u in absurd (k (rw (x, (only-Ancestor _ c a).1) (Derive.old_tip now)))

new-Introduced : Introduced facts issue new_commit
new-Introduced = Derive.new_tip now (λ k. apart (sym (only-Covered issue new_commit k).1))

new_signed : MemberSigned facts new_commit
new_signed = Derive.member_signed (later now) now

old_signed : MemberSigned facts old_commit
old_signed = Derive.member_signed now now

signed : (c : Bytes) → has (old_commit ∷ new_commit ∷ []) c ≡ true → MemberSigned facts c
signed c h = elim (Bool-cases (bytes_eq old_commit c)) [
  | inl e ↦ rw (← bytes_eq_sound old_commit c e) old_signed
  | inr e ↦ rw (← has-one c new_commit (ground arith)) new_signed
]

signed_row :
    (c : Bytes) → (c ≡ old_commit) ⊎ (c ≡ new_commit) → has (old_commit ∷ new_commit ∷ []) c ≡ true
signed_row c (inl e) = rw e (ground (arith, bytes_eq_refl old_commit))
signed_row c (inr e) = rw e (ground (arith, bytes_eq_refl new_commit))

one : {x y : Bytes} → y ≡ x → has (y ∷ []) x ≡ true
one {x} e = rw e (ground (arith, bytes_eq_refl x))

one_pair : {x y a b : Bytes} → (x ≡ a) × (y ≡ b) → has_pair ((a, b) ∷ []) x y ≡ true
one_pair {a} {b} (e, e') = rw (e, e') (ground (arith, bytes_eq_refl a, bytes_eq_refl b))

-- Every commit that a ref of the update covers or gets is signed, and none of them is denied.
not_ff : (r : Bytes) → ¬ FfViolation facts r
not_ff r (Derive.ff_violation u d k) =
    let (a, b, e) = update u in k (rw (e, some-injective b) (Derive.by_parent now))

not_genesis : (r : Bytes) → ¬ GenesisViolation facts r
not_genesis r (Derive.genesis_violation u h) = let (a, b, e) = update u in cc

not_root : (r c : Bytes) → ¬ SecondRootViolation facts r c
not_root r c (Derive.second_root_violation u i h) =
    h (rw ((only-Introduced r c i).1) (Derive.has_parent now))

not_unsigned : (r c : Bytes) → ¬ UnsignedViolation facts r c
not_unsigned r c (Derive.unsigned_violation i h) = h (rw ((only-Introduced r c i).1) new_signed)

not_effect : (r c : Bytes) → ¬ EffectAdminViolation facts r c
unfolding starts_with
not_effect r c (Derive.effect_admin_violation i e h) =
    false≢true (rw ((only-Introduced r c i).0) at e)

not_admin : (c : Bytes) → ¬ AdminSigned facts c
not_admin c (Derive.admin_signed i j) = let e : admin ≡ member = ap (λ row. row.1) (In-one j) in cc

not_anchor : (r t : Bytes) → ¬ DanglingAnchorViolation facts r t
not_anchor r t (Derive.dangling_anchor_violation i a h) = In-nil a

not_context : (r t : Bytes) → ¬ DanglingContextViolation facts r t
not_context r t (Derive.dangling_context_violation i a h) = In-nil a

IsLeastModel-model : IsLeastModel facts model
IsLeastModel-model = record {
  ancestor = λ c a. (
    λ h.
        let (e, e') = has_pair-one c a new_commit old_commit h in
        rw (← e, ← e') (Derive.by_parent now),
    λ x. one_pair (only-Ancestor c a x),
  );
  has_parent = λ c. (
    λ h. rw (← has-one c new_commit h) (Derive.has_parent now),
    λ x. one (elim x [ Derive.has_parent i ↦ sym (tips i).0 ]),
  );
  covered = λ r c. (
    λ h. let (e, e') = has_pair-one r c issue old_commit h in rw (← e, ← e') (Derive.old_tip now),
    λ x. one_pair (only-Covered r c x),
  );
  member_signed =
      λ c. (signed c, λ x. signed_row c (elim x [ Derive.member_signed i j ↦ signer c _ i ]));
  admin_signed = λ c. (λ h. cc, λ x. absurd (not_admin c x));
  ff_violation = λ r. (λ h. cc, λ v. absurd (not_ff r v));
  genesis_violation = λ r. (λ h. cc, λ v. absurd (not_genesis r v));
  second_root_violation = λ r c. (λ h. cc, λ v. absurd (not_root r c v));
  unsigned_violation = λ r c. (λ h. cc, λ v. absurd (not_unsigned r c v));
  dangling_anchor_violation = λ r t. (λ h. cc, λ v. absurd (not_anchor r t v));
  dangling_context_violation = λ r t. (λ h. cc, λ v. absurd (not_context r t v));
  effect_admin_violation = λ r c. (λ h. cc, λ v. absurd (not_effect r c v));
}

abbrev run : Facts → GateRules
run f = model

gate_iff_example : (gate run facts ≡ []) ↔ Accepted facts
gate_iff_example = gate_iff run facts IsLeastModel-model

accepted : gate run facts ≡ []
unfolding gate
accepted = sort_bytes-nil

before : (c : Bytes) → Covered facts issue c → MemberSigned facts c
before c k = rw ((only-Covered issue c k).1) old_signed

gate-Signed_example : MemberSigned facts new_commit
gate-Signed_example =
    gate-Signed run facts IsLeastModel-model issue (some old_commit) new_commit accepted now before
      new_commit (inl refl)
