-- ===== src/Query/Ast/Display.antt =====
-- A query as text: Display in crates/kernel/ents-query/src/ast.rs.
use git_ents.Base.{Bytes, codes, Bool, true, false, ◌++◌}
use git_ents.Query.Ast.{
  Query, rev, results, meta, op, StatusFilter, pass, fail, error, any_status, SetOp, union,
  intersect, difference,
}

abbrev pub op_text : SetOp → Bytes
op_text union = codes "|"
op_text intersect = codes "&"
op_text difference = codes "-"

abbrev pub status_text : StatusFilter → Bytes
status_text pass = codes "pass"
status_text fail = codes "fail"
status_text error = codes "error"
status_text any_status = codes "any"

abbrev pub is_op : Query → Bool
is_op (op _ _ _) = true
is_op _ = false

abbrev pub in_parentheses : Bool → Bytes → Bytes
in_parentheses true text = codes "(" ++ text ++ codes ")"
in_parentheses false text = text

-- `Display` of a query
unfoldable pub display : Query → Bytes
display (rev e) = codes "rev(" ++ e.raw ++ codes ")"
display (results effect status) =
    codes "results(" ++ effect ++ codes ", " ++ status_text status ++ codes ")"
display (meta glob) = codes "meta(" ++ glob ++ codes ")"
display (op o lhs rhs) =
    display lhs ++ codes " " ++ op_text o ++ codes " " ++ in_parentheses (is_op rhs) (display rhs)
