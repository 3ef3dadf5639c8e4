-- ===== src/Sync/Sample.antt =====
-- The small repository of the gate with the trees of its commits, and a git that writes to it: an
-- object's id is the first of its bytes, and a write over another object fails.
use git_ents.Base.{
  ℕ, Bytes, codes, bytes_eq, bytes_eq_sound, Bool, true, ◌&&◌, Bool-cases, List, [], ◌∷◌, Option,
  none, some, Result, ok, err, Result-cases, Option-cases, if◌then◌else◌, ◌==◌, ==_refl, ◌≡◌, refl,
  ap, sym, ◌∙◌, inl, inr, arith,
}
use git_ents.Model.Member.{Member, self_attested}
use git_ents.Substrate.Refs.{Oid}
use git_ents.Substrate.Objects.{Kind, Object, TreeEntry, FindError, Objects}
use git_ents.Gate.Sample
use git_ents.Gate.Sample.{raw_commit, is_known, commit_parts, jo}
use git_ents.Sync.Types.{WriteError, write_error, Db, Git, IsStore, IsAddressed}

abbrev is_tree_id : Oid → Bool
is_tree_id x =
    if x == 101
    then true
    else if x == 102
    then true
    else if x == 103
    then true
    else if x == 110
    then true
    else x == 111

abbrev pub db : Db
db x =
    if is_known x
    then ok (some (record { kind = Kind.commit; bytes = raw_commit x }))
    else if is_tree_id x
    then ok (some (record { kind = Kind.tree; bytes = x ∷ [] }))
    else ok none

abbrev pub hash : Object → Oid
hash x = elim x.bytes [ [] ↦ 0 | b ∷ _ ↦ b ]

abbrev key : Result FindError (Option Object) → ℕ
key (ok (some z)) = hash z
key _ = 0

pub db-IsAddressed : IsAddressed hash db
db-IsAddressed x z h = elim (Bool-cases (is_known x)) [
  | inl e ↦ sym (ap key (rw e at h))
  | inr e ↦ elim (Bool-cases (is_tree_id x)) [
    | inl f ↦ sym (ap key (rw (e, f) at h))
    | inr f ↦ absurd (let t : ok none ≡ ok (some z) = rw (e, f) at h in cc t)
  ]
]

abbrev kind_code : Kind → ℕ
kind_code Kind.tree = 0
kind_code Kind.blob = 1
kind_code Kind.commit = 2
kind_code Kind.tag = 3

abbrev kind_of : ℕ → Kind
kind_of n =
    if n == 0
    then Kind.tree
    else if n == 1
    then Kind.blob
    else if n == 2
    then Kind.commit
    else Kind.tag

kind_of-kind_code : (a : Kind) → kind_of (kind_code a) ≡ a
kind_of-kind_code Kind.tree = refl
kind_of-kind_code Kind.blob = refl
kind_of-kind_code Kind.commit = refl
kind_of-kind_code Kind.tag = refl

kind_code_sound : (a b : Kind) → (kind_code a == kind_code b) ≡ true → a ≡ b
kind_code_sound a b h =
    let e : kind_code a ≡ kind_code b = ground arith in
    sym (kind_of-kind_code a) ∙ ap kind_of e ∙ kind_of-kind_code b

abbrev same : Object → Object → Bool
same a b = kind_code a.kind == kind_code b.kind && bytes_eq a.bytes b.bytes

same_sound : (a b : Object) → same a b ≡ true → a ≡ b
same_sound a b h =
    ap (λ k. record { kind = k; bytes = a.bytes }) (kind_code_sound a.kind b.kind (ground arith))
    ∙ ap (λ t. record { kind = b.kind; bytes = t }) (bytes_eq_sound a.bytes b.bytes (ground arith))

abbrev put_at : Db → Object → Db
put_at store x y = if hash x == y then ok (some x) else store y

abbrev pub write_object : Db → Object → Result WriteError Oid × Db
write_object store x = elim (store (hash x)) [
  | err _ ↦ (err write_error, store)
  | ok none ↦ (ok (hash x), put_at store x)
  | ok (some y) ↦ if same x y then (ok (hash x), store) else (err write_error, store)
]

abbrev Written : Object → Oid → Db → Db → Type 0
Written x oid store after =
    (oid ≡ hash x)
    × (after oid ≡ ok (some x))
    × ((y : Oid) (z : Object) → store y ≡ ok (some z) → after y ≡ ok (some z))

-- A write that succeeds.
write_object-Written :
    (store after : Db) (x : Object) (oid : Oid)
    → write_object store x ≡ (ok oid, after)
    → Written x oid store after
write_object-Written store after x oid h = elim (Result-cases (store (hash x))) [
  | inr (e, p) ↦
      absurd (let q : err write_error ≡ ok oid = ap (λ r. r.0) (rw (write_object, p) at h) in cc q)
  | inl (found, p) ↦ elim (Option-cases found) [
    | inl n ↦
        let p' : store (hash x) ≡ ok none = p ∙ ap (λ f. ok f) n in
        let q = rw (write_object, p') at h in
        let o : ok (hash x) ≡ ok oid = ap (λ r. r.0) q in
        let o' : hash x ≡ oid = cc o in
        rw (← o', ← ap (λ r. r.1) q)
          (
            refl,
            rw (==_refl (hash x)) refl,
            λ y z g. elim (Bool-cases (hash x == y)) [
              | inl e ↦ absurd (
                  let e' : hash x ≡ y = ground arith in
                  let t : ok none ≡ ok (some z) = sym p' ∙ ap store e' ∙ g in cc t)
              | inr e ↦ rw e g
            ],
          )
    | inr (y, n) ↦
        let p' : store (hash x) ≡ ok (some y) = p ∙ ap (λ f. ok f) n in
        elim (Bool-cases (same x y)) [
          | inr e ↦ absurd (
              let q : err write_error ≡ ok oid = ap (λ r. r.0) (rw (write_object, p', e) at h) in
              cc q)
          | inl e ↦
              let q = rw (write_object, p', e) at h in
              let o : ok (hash x) ≡ ok oid = ap (λ r. r.0) q in
              let o' : hash x ≡ oid = cc o in
              rw (← o', ← ap (λ r. r.1) q)
                (refl, p' ∙ ap (λ f. ok (some f)) (sym (same_sound x y e)), λ y z g. g)
        ]
  ]
]

-- A commit is written as its tree and its parents behind a 0.
abbrev pub git : Git
git = record {
  write_buf = λ store kind bytes. write_object store (record { kind = kind; bytes = bytes });
  write_tree = λ store _. (ok 105, store);
  write_commit = λ c. some (0 ∷ c.tree ∷ c.parents);
  mode_is_tree = λ mode. mode == 16384;
  tree_mode = 16384;
  sort_entries = λ entries. entries;
}

pub git-IsStore : IsStore git hash
git-IsStore = record {
  put = λ store x oid after h. let (e, p, k) = write_object-Written store after x oid h in (e, p);
  kept = λ store x oid after h. let (e, p, k) = write_object-Written store after x oid h in k;
}

abbrev commit_of : Bytes → Option (Oid × List Oid)
commit_of (b ∷ tree ∷ parents) =
    if b == 0 then some (tree, parents) else commit_parts (b ∷ tree ∷ parents)
commit_of raw = commit_parts raw

-- Tree 102 holds one file, and tree 103 another one.
abbrev entries_of : Bytes → List TreeEntry
entries_of [] = []
entries_of (b ∷ _) =
    if b == 102
    then record { filename = codes "a"; oid = 7; mode = 33188 } ∷ []
    else if b == 103
    then record { filename = codes "b"; oid = 8; mode = 33188 } ∷ []
    else []

-- The repository when this member is the one enrolled.
abbrev pub objects_of : Member → Objects
objects_of member = record {
  try_find = db;
  commit_from_bytes = commit_of;
  tree_from_bytes = λ raw. some (entries_of raw);
  from_utf8 = Sample.objects.from_utf8;
  from_utf8_lossy = Sample.objects.from_utf8_lossy;
  name_to_string = Sample.objects.name_to_string;
  oid_from_hex = Sample.objects.oid_from_hex;
  oid_from_bytes = Sample.objects.oid_from_bytes;
  oid_to_string = Sample.objects.oid_to_string;
  valid_ref = Sample.objects.valid_ref;
  member_from_tree = λ t. if t == 110 then some member else none;
  config_from_tree = Sample.objects.config_from_tree;
  result_decodes = Sample.objects.result_decodes;
  claim_decodes = Sample.objects.claim_decodes;
  key_from_openssh = Sample.objects.key_from_openssh;
  sig_from_pem = Sample.objects.sig_from_pem;
  key_verify = Sample.objects.key_verify;
}

abbrev pub objects : Objects
objects = objects_of jo

-- The member without promotion.
abbrev pub guest : Member
guest = record { id = jo.id; key = jo.key; state = jo.state; provenance = self_attested }
