-- ===== src/Gate/Verify/Enrollment.antt =====
-- The bootstrap window (crates/kernel/ents-gate/src/verify.rs): while nobody is enrolled, only a
-- member's own first enrollment is admitted.
use git_ents.Base.{
  ℕ, Bytes, codes, starts_with, true, List, [], ◌++◌, Option, some, ok, ◌≡◌, subst, ◌⊎◌, inl, inr,
}
use git_ents.Model.Member.{MemberId, Member}
use git_ents.Substrate.Refs.{Oid, RefStoreRead}
use git_ents.Substrate.Objects.{Objects}
use git_ents.Gate.Object.{CommitData, read_commit}
use git_ents.Gate.Signature.{split_signed, verifies}
use git_ents.Gate.Policy.{Enrolled, members, current_epoch}
use git_ents.Gate.Verdict
use git_ents.Gate.Verdict.{pass, Admission}
use git_ents.Gate.Authority.{find_signer}
use git_ents.Gate.Verify.{Update, meta_prefix, bootstrap, judge_signer, verify}
use git_ents.Gate.Verify.Steps.{admission, judge_signed-pass, judge_meta-pass, verify-pass}
use git_ents.Gate.Verify.Admitted.{Descends, Descends-sound}
use git_ents.Gate.Verify.Kinds.{bootstrap-pass, nobody_signs}

-- The update enrols the member whose entity the proposed tip carries, at that member's own ref, and
-- the tip is signed by the key that it enrols.
pub record SelfEnrollment (refs : RefStoreRead) (o : Objects) (update : Update) (a : Admission)
    : Type 0 where
  pub old : Option Oid
  pub was : refs.get update.name ≡ ok old
  pub new : Oid
  pub proposed : update.new ≡ some new
  pub commit : CommitData
  pub readable : read_commit o new ≡ ok (some commit)
  pub payload : Bytes
  pub sig : Bytes
  pub signed : split_signed o commit.raw ≡ some (payload, sig)
  pub pushed : Member
  pub carried : o.member_from_tree commit.tree ≡ some pushed
  pub verified : verifies o pushed.key payload sig ≡ true
  pub named : update.name ≡ codes "refs/meta/member/" ++ pushed.id
  pub descends : Descends o new old
  pub pinned : a ≡ admission Verdict.bootstrap update old

module _ (refs : RefStoreRead) (o : Objects) (fuel : ℕ) where
  -- Once an epoch is recorded and while no member is enrolled, the only updates under refs/meta/ that
  -- are admitted are self-enrollments: the tip is a commit that carries a member entity, is signed by
  -- that entity's own key, stands at that member's own ref, and descends from the ref's current tip.
  pub verify-SelfEnrollment :
      (update : Update) (epoch : ℕ) (a : Admission)
      → starts_with meta_prefix update.name ≡ true
      → current_epoch o refs ≡ ok (some epoch)
      → members o.name_to_string refs ≡ ok []
      → verify refs o fuel update ≡ ok (pass a)
      → SelfEnrollment refs o update a
  verify-SelfEnrollment update epoch a m e nobody h =
      let (old, w, j) = verify-pass refs o fuel update epoch m e h in
      let (new, commit, payload, sig, p, r, s, k) = judge_meta-pass refs o fuel update old j in
      by_policy old new commit payload sig w p r s
        (judge_signed-pass refs o fuel update old new commit payload sig k)
    where
      by_policy :
          (old : Option Oid) (new : Oid) (commit : CommitData) (payload sig : Bytes)
          → refs.get update.name ≡ ok old
          → update.new ≡ some new
          → read_commit o new ≡ ok (some commit)
          → split_signed o commit.raw ≡ some (payload, sig)
          → ((enrolled : List Enrolled) × (members o.name_to_string refs ≡ ok enrolled)
              × (((enrolled ≡ [])
                    × (bootstrap refs o fuel update new commit payload sig old ≡ ok (pass a)))
                  ⊎ ((signer : Option (MemberId × Member)) × (find_signer o enrolled payload sig
                        ≡ ok signer)
                      × (judge_signer refs o fuel update old new commit enrolled signer
                          ≡ ok (pass a)))))
          → SelfEnrollment refs o update a
      by_policy old new commit payload sig w p r s (enrolled, q, inl (_, b)) =
          let (pushed, c, v, n, same, d) =
            bootstrap-pass refs o fuel update new commit payload sig old b in
          record {
            old = old;
            was = w;
            new = new;
            proposed = p;
            commit = commit;
            readable = r;
            payload = payload;
            sig = sig;
            signed = s;
            pushed = pushed;
            carried = c;
            verified = v;
            named = n;
            descends = Descends-sound o fuel new old d;
            pinned = same;
          }
      by_policy old new commit payload sig w p r s (enrolled, q, inr (signer, f, j)) =
          let empty : enrolled ≡ [] = cc in
          absurd (
            nobody_signs refs o fuel update old new commit payload sig signer
              (subst (λ l. find_signer o l payload sig ≡ ok signer) empty f)
              (subst (λ l. judge_signer refs o fuel update old new commit l signer ≡ ok (pass a))
                empty j))
