-- ===== src/Query/Examples.antt =====
-- Patterns, terms and footprints at concrete texts.
use git_ents.Base.{
  Bytes, codes, any, starts_with, bytes_eq, sort_bytes, [], ◌∷◌, if◌then◌else◌, true, false, Option,
  none, some, ok, ◌≡◌, ◌↔◌, refl,
}
use git_ents.Substrate.Refs.{Oid, RefStoreRead}
use git_ents.Query.Pattern.{glob_match, may_match, ref_pattern}
use git_ents.Query.Pattern.Spec.{Matches}
use git_ents.Query.Pattern.Glob.{glob_match_iff}
use git_ents.Query.Pattern.Prefix.{Overlaps, may_match_iff}
use git_ents.Query.Rev.{
  RevTerm, RevExpr, expr_patterns, term_patterns, parse_term, all_hex, dwim_candidates,
}
use git_ents.Query.Rev.Domain.{names_meta, parse_term-outside_meta}
use git_ents.Query.Rev.Candidates.{none_left, by_glob, parse_term-Named}
use git_ents.Query.Eval.{Transition, new, old, term_tips, rev_tips}
use git_ents.Query.Eval.Footprint.{rev_tips-quiet}
use git_ents.Query.Ast.{Query, results, rev, op, pass, union, footprint, footprint_matches}
use git_ents.Query.Ast.Touched.{Touches, footprint_iff}

abbrev glob : Bytes
glob = codes "refs/*/unit/*"

abbrev run_name : Bytes
run_name = codes "refs/meta/results/unit/ab"

stars_cross_slashes : glob_match glob run_name ≡ true
unfolding glob_match
stars_cross_slashes = refl

suffix_must_match : glob_match (codes "refs/*/unit") run_name ≡ false
unfolding glob_match
suffix_must_match = refl

glob_match_iff_example : (glob_match glob run_name ≡ true) ↔ Matches glob run_name
glob_match_iff_example = glob_match_iff glob run_name

may_match_iff_example :
    (may_match glob (codes "refs/meta/") ≡ true) ↔ Overlaps glob (codes "refs/meta/")
may_match_iff_example = may_match_iff glob (codes "refs/meta/")

abbrev no_oid : Bytes → Option Oid
no_oid _ = none

abbrev main : Bytes
main = codes "main"

main_parsed : parse_term no_oid main main ≡ ok (RevTerm.name main)
unfolding parse_term ref_pattern starts_with dwim_candidates all_hex
main_parsed = refl

parse_term-outside_meta_example : any names_meta (term_patterns (RevTerm.name main)) ≡ false
parse_term-outside_meta_example =
    parse_term-outside_meta no_oid main main (RevTerm.name main) main_parsed

abbrev both : Query
both = op union (results (codes "unit") pass) (results (codes "lint") pass)

footprint_iff_example : (footprint_matches (footprint both) run_name ≡ true) ↔ Touches run_name both
footprint_iff_example = footprint_iff run_name both

-- A store with two branches; the second is the one that moves.
abbrev branches : RefStoreRead
branches = record {
  get = λ name. if bytes_eq name (codes "refs/heads/main") then ok (some 7) else ok none;
  iter_prefix = λ _. ok (ok (codes "refs/heads/main", 7) ∷ ok (codes "refs/heads/topic", 8) ∷ []);
}

abbrev topic_moves : Transition
topic_moves = record { name = codes "refs/heads/topic"; old = some 8; new = some 9 }

abbrev of_main : RevExpr
of_main = record {
  include = RevTerm.name main ∷ [];
  exclude = RevTerm.glob (codes "refs/tags/*") ∷ [];
  raw = codes "main ^refs/tags/*";
}

topic_unseen : footprint_matches (footprint (rev of_main)) topic_moves.name ≡ false
unfolding footprint footprint_matches expr_patterns sort_bytes glob_match bytes_eq
topic_unseen = refl

main_tips : rev_tips (λ _. true) branches of_main (some topic_moves) new ≡ ok (7 ∷ [], [])
unfolding rev_tips bytes_eq
main_tips = refl

all_tips :
    term_tips (λ _. true) branches (RevTerm.glob (codes "refs/*")) (some topic_moves) new
    ≡ ok (7 ∷ 9 ∷ [])
unfolding term_tips
all_tips = refl

rev_tips-quiet_example :
    rev_tips (λ _. true) branches of_main (some topic_moves) new
    ≡ rev_tips (λ _. true) branches of_main (some topic_moves) old
rev_tips-quiet_example =
    rev_tips-quiet (λ _. true) branches topic_moves of_main
      (parse_term-Named no_oid main main (RevTerm.name main) main_parsed) (by_glob none_left)
      topic_unseen
