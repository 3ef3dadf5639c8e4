-- ===== src/Gate/Verify/Admitted.antt =====
-- What an admission by `verify` (crates/kernel/ents-gate/src/verify.rs) guarantees.
use git_ents.Base.{
  ℕ, Bytes, starts_with, true, List, [], ◌∷◌, Option, none, some, ok, ◌≡◌, ap, ◌∙◌, arith,
  Bool-cases, inl, inr, ◌⊎◌,
}
use git_ents.Model.Member.{MemberId, Member, active}
use git_ents.Substrate.Refs.{Oid, RefStoreRead}
use git_ents.Substrate.Objects.{Objects}
use git_ents.Graph.{Reaches}
use git_ents.Gate.Errors.{Gate-cases}
use git_ents.Gate.Object.{CommitData, read_commit}
use git_ents.Gate.Object.Ancestry.{parents_of, descends_from_sound}
use git_ents.Gate.Signature.{split_signed, verifies}
use git_ents.Gate.Policy.{Enrolled, members, member_current, current_epoch}
use git_ents.Gate.Verdict.{tip_invariant, pass, Admission}
use git_ents.Gate.Binding.{identity_binding}
use git_ents.Gate.Authority.{authorize, find_signer, owner_mutation}
use git_ents.Gate.Verify.{Update, meta_prefix, bootstrap, judge_signer, verify}
use git_ents.Gate.Verify.Steps.{
  admission, DescendsOk, judge_member-pass, judge_signer-pass, judge_signed-pass, judge_meta-pass,
  verify-pass,
}

-- `id` is enrolled, and `member` is the entity at the tip of its ref in this snapshot.
abbrev pub IsEnrolled : Objects → MemberId → Member → List Enrolled → Type 0
IsEnrolled o id member [] = ⊥
IsEnrolled o id member (e ∷ enrolled) =
    ((e.id ≡ id) × (member_current o e.tip ≡ ok member)) ⊎ IsEnrolled o id member enrolled

find_signer-IsEnrolled :
    (o : Objects) (enrolled : List Enrolled) (payload sig : Bytes) (id : MemberId) (member : Member)
    → find_signer o enrolled payload sig ≡ ok (some (id, member))
    → IsEnrolled o id member enrolled × (verifies o member.key payload sig ≡ true)
unfolding find_signer
find_signer-IsEnrolled o [] payload sig id member h = ground arith
find_signer-IsEnrolled o (e ∷ enrolled) payload sig id member h =
    elim (Gate-cases (member_current o e.tip)) [
      | inr (x, g) ↦ ground arith
      | inl (current, g) ↦ elim (Bool-cases (verifies o current.key payload sig)) [
        | inl v ↦
            let same : current ≡ member = ground arith in
            let same_id : e.id ≡ id = ground arith in (inl (same_id, g ∙ ap ok same), rw same at v)
        | inr n ↦
            let (there, v) =
              find_signer-IsEnrolled o enrolled payload sig id member
                (rw (g, n, find_signer) at h) in
            (inr there, v)
      ]
    ]

-- The old tip, if there is one, is an ancestor of the new one.
abbrev pub Descends : Objects → Oid → Option Oid → Type 0
Descends o new none = Unit
Descends o new (some old) = Reaches (parents_of o) new old

pub Descends-sound :
    (o : Objects) (fuel : ℕ) (new : Oid) (old : Option Oid)
    → DescendsOk o fuel new old
    → Descends o new old
Descends-sound o fuel new none h = tt
Descends-sound o fuel new (some old) h = descends_from_sound o fuel new old h

-- What the tip invariant says of an update and of the admission that it got.
pub record TipInvariant (refs : RefStoreRead) (o : Objects) (fuel : ℕ) (update : Update)
    (a : Admission) : Type 0 where
  pub old : Option Oid
  pub was : refs.get update.name ≡ ok old
  pub new : Oid
  pub proposed : update.new ≡ some new
  pub commit : CommitData
  pub readable : read_commit o new ≡ ok (some commit)
  pub payload : Bytes
  pub sig : Bytes
  pub signed : split_signed o commit.raw ≡ some (payload, sig)
  pub enrolled : List Enrolled
  pub policy : members o.name_to_string refs ≡ ok enrolled
  pub id : MemberId
  pub member : Member
  pub signer : IsEnrolled o id member enrolled
  pub verified : verifies o member.key payload sig ≡ true
  pub in_force : member.state ≡ active
  pub authorized : authorize o.name_to_string update.name id member ≡ none
  pub bound : identity_binding o fuel new commit id update.name ≡ ok none
  pub owned : owner_mutation o fuel update.name old new enrolled id member ≡ ok none
  pub descends : Descends o new old
  pub pinned : a ≡ admission tip_invariant update old

module _ (refs : RefStoreRead) (o : Objects) (fuel : ℕ) where
  judged_by_signer :
      (update : Update) (old : Option Oid) (new : Oid) (commit : CommitData) (payload sig : Bytes)
      (enrolled : List Enrolled) (signer : Option (MemberId × Member)) {a : Admission}
      → refs.get update.name ≡ ok old
      → update.new ≡ some new
      → read_commit o new ≡ ok (some commit)
      → split_signed o commit.raw ≡ some (payload, sig)
      → members o.name_to_string refs ≡ ok enrolled
      → find_signer o enrolled payload sig ≡ ok signer
      → judge_signer refs o fuel update old new commit enrolled signer ≡ ok (pass a)
      → TipInvariant refs o fuel update a
  judged_by_signer update old new commit payload sig enrolled signer w p r s m f j =
      let (id, member, is, force, k) =
        judge_signer-pass refs o fuel update old new commit enrolled signer j in
      let (au, bo, ow, pin, de) =
        judge_member-pass refs o fuel update old new commit enrolled id member k in
      let (there, v) = find_signer-IsEnrolled o enrolled payload sig id member (f ∙ ap ok is) in
      record {
        old = old;
        was = w;
        new = new;
        proposed = p;
        commit = commit;
        readable = r;
        payload = payload;
        sig = sig;
        signed = s;
        enrolled = enrolled;
        policy = m;
        id = id;
        member = member;
        signer = there;
        verified = v;
        in_force = force;
        authorized = au;
        bound = bo;
        owned = ow;
        descends = Descends-sound o fuel new old de;
        pinned = pin;
      }

  -- Once an epoch is recorded and a member is enrolled, an admitted update of a ref under refs/meta/
  -- meets the tip invariant: the proposed tip is a commit signed by the key of a member enrolled now
  -- and not revoked, who may write the ref; its content names the ref; the owner rule holds; it
  -- descends from the ref's current tip; and the admission pins that tip and that refname.
  pub verify-TipInvariant :
      (update : Update) (epoch : ℕ) (first : Enrolled) (rest : List Enrolled) (a : Admission)
      → starts_with meta_prefix update.name ≡ true
      → current_epoch o refs ≡ ok (some epoch)
      → members o.name_to_string refs ≡ ok (first ∷ rest)
      → verify refs o fuel update ≡ ok (pass a)
      → TipInvariant refs o fuel update a
  verify-TipInvariant update epoch first rest a m e policy h =
      let (old, w, j) = verify-pass refs o fuel update epoch m e h in
      let (new, commit, payload, sig, p, r, s, k) = judge_meta-pass refs o fuel update old j in
      let (enrolled, en, by) = judge_signed-pass refs o fuel update old new commit payload sig k in
      by_signer old new commit payload sig enrolled w p r s en by
    where
      by_signer :
          (old : Option Oid) (new : Oid) (commit : CommitData) (payload sig : Bytes)
          (enrolled : List Enrolled)
          → refs.get update.name ≡ ok old
          → update.new ≡ some new
          → read_commit o new ≡ ok (some commit)
          → split_signed o commit.raw ≡ some (payload, sig)
          → members o.name_to_string refs ≡ ok enrolled
          → ((enrolled ≡ [])
              × (bootstrap refs o fuel update new commit payload sig old ≡ ok (pass a)))
            ⊎ ((signer : Option (MemberId × Member)) × (find_signer o enrolled payload sig
                  ≡ ok signer)
                × (judge_signer refs o fuel update old new commit enrolled signer ≡ ok (pass a)))
          → TipInvariant refs o fuel update a
      by_signer old new commit payload sig enrolled w p r s en (inl (nobody, _)) = cc
      by_signer old new commit payload sig enrolled w p r s en (inr (signer, f, j)) =
          judged_by_signer update old new commit payload sig enrolled signer w p r s en f j
