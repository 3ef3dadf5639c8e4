-- ===== src/Query/Errors.antt =====
-- What makes a query text unacceptable (crates/kernel/ents-query/src/error.rs). The `why` of a bad
-- pattern is named by the place in the code that writes it.
use git_ents.Base.{ℕ, Bytes}

pub data Why : Type 0 where
  empty_pattern whitespace_or_control refname_byte empty_or_dot_dot_segment edge_slash : Why

pub data ParseError : Type 0 where
  unexpected_end self_keyword empty_rev no_positive_rev out_of_fuel : ParseError
  unknown_atom trailing bad_status bad_effect_name : Bytes → ParseError
  expected : Bytes → ℕ → ParseError
  unbalanced : ℕ → ParseError
  meta_in_rev meta_glob_outside unsupported_rev : Bytes → ParseError
  meta_glob_effect_written : Bytes → Bytes → ParseError
  bad_pattern : Bytes → Why → ParseError
