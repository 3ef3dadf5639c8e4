-- ===== src/Query/Parse/Examples.antt =====
-- Queries parsed and displayed.
use git_ents.Base.{Bytes, codes, true, [], ◌∷◌, none, ok, err, ◌≡◌, refl}
use git_ents.Query.Rev.{RevTerm}
use git_ents.Query.Ast.{Query, rev, results, meta, op, pass, union, difference}
use git_ents.Query.Ast.Display.{display}
use git_ents.Query.Atom.{Names}
use git_ents.Query.Parse.{parse_atom, op_of, close, parse}
use git_ents.Query.Errors.{out_of_fuel}
use git_ents.Query.Parse.Fuel.{parse-Ends}
use git_ents.Query.Parse.RoundTrip.{parse-display-parse}

abbrev names : Names
names = record { oid_from_hex = λ _. none; valid_ref = λ _. true }

abbrev input : Bytes
input = codes " rev( main ^v1) -( results(unit,pass)|meta(refs/meta/members/*))"

abbrev query : Query
query =
    op difference
      (rev (record {
        include = RevTerm.name (codes "main") ∷ [];
        exclude = RevTerm.name (codes "v1") ∷ [];
        raw = codes "main ^v1";
      }))
      (op union (results (codes "unit") pass) (meta (codes "refs/meta/members/*")))

input_parsed : parse names input ≡ ok query
unfolding parse parse_atom op_of close
input_parsed = refl

input_displayed :
    display query ≡ codes "rev(main ^v1) - (results(unit, pass) | meta(refs/meta/members/*))"
unfolding display
input_displayed = refl

parse-display-parse_example : parse names (display query) ≡ ok query
parse-display-parse_example = parse-display-parse names input query input_parsed

parse-Ends_example : ¬ (parse names input ≡ err out_of_fuel)
parse-Ends_example = parse-Ends names input
