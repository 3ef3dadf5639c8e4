-- ===== src/Model/Examples.antt =====
-- The refname theorems at concrete names.
use git_ents.Base.{Bytes, codes, Bool, true, ok, some, ◌≡◌, ◌↔◌, refl}
use git_ents.Model.Namespace.{classify, issue_ref, parse_review_ref, parse_result_ref}
use git_ents.Model.Namespace.Built.{Entity, entity_ref, entity_namespace, classify-entity_ref}
use git_ents.Model.Namespace.Parse.{
  IsSegment, NamesReview, NamesResult, parse_review_ref_iff, parse_result_ref_iff,
}

abbrev any_name : Bytes → Bool
any_name _ = true

issue_built : entity_ref any_name (Entity.issue (codes "01")) ≡ ok (codes "refs/meta/issues/01")
unfolding entity_ref issue_ref
issue_built = refl

classify-entity_ref_example :
    (any_name (codes "refs/meta/issues/01") ≡ true)
    × (classify (codes "refs/meta/issues/01") ≡ some (entity_namespace (Entity.issue (codes "01"))))
classify-entity_ref_example = classify-entity_ref any_name (Entity.issue (codes "01")) issue_built

-- The text of an ASCII name.
abbrev same_name : Bytes → Bytes
same_name name = name

abbrev review_name : Bytes
review_name = codes "refs/meta/reviews/ab/jo"

parse_review_ref_iff_example :
    (parse_review_ref same_name review_name ≡ some (codes "ab", codes "jo")) ↔ (
      IsSegment (codes "ab")
      × IsSegment (codes "jo")
      × NamesReview review_name (codes "ab") (codes "jo"))
parse_review_ref_iff_example = parse_review_ref_iff same_name review_name (codes "ab") (codes "jo")

abbrev result_name : Bytes
result_name = codes "refs/meta/self/jo/ci/01"

parse_result_ref_iff_example :
    (parse_result_ref same_name result_name ≡ some (codes "ci", codes "01")) ↔ (
      IsSegment (codes "ci")
      × IsSegment (codes "01")
      × NamesResult result_name (codes "ci") (codes "01"))
parse_result_ref_iff_example = parse_result_ref_iff same_name result_name (codes "ci") (codes "01")
