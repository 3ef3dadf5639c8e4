-- ===== src/Rules/Gate.antt =====
-- `gate` (crates/kernel/ents-gate-rules/src/lib.rs): one sorted line of text for each denial.
use git_ents.Base.{Bytes, codes, List, ◌++◌, map, sort_bytes}
use git_ents.Rules.Facts.{Facts}
use git_ents.Rules.Derive.{GateRules}

-- The texts of the lines.
unfoldable pub ff_line : Bytes → Bytes
ff_line r = codes "ff: " ++ r ++ codes ": new tip does not descend from old tip"

unfoldable pub genesis_line : Bytes → Bytes
genesis_line r = codes "genesis: " ++ r ++ codes ": creation tip has parents"

unfoldable pub root_line : Bytes × Bytes → Bytes
root_line (r, c) = codes "root: " ++ r ++ codes ": introduces second root " ++ c

unfoldable pub unsigned_line : Bytes × Bytes → Bytes
unsigned_line (r, c) =
    codes "signature: " ++ r ++ codes ": " ++ c ++ codes " not signed by an enrolled member"

unfoldable pub anchor_line : Bytes × Bytes → Bytes
anchor_line (r, t) =
    codes "anchor: " ++ r ++ codes ": anchored object " ++ t ++ codes " does not exist"

unfoldable pub context_line : Bytes × Bytes → Bytes
context_line (r, t) =
    codes "context: " ++ r ++ codes ": context object " ++ t ++ codes " does not exist"

unfoldable pub effect_admin_line : Bytes × Bytes → Bytes
effect_admin_line (r, c) =
    codes "effect-admin: "
    ++ r
    ++ codes ": "
    ++ c
    ++ codes " not signed by an admin-registered member"

-- The lines in the order of the loops: after_x are those that the loops after the one for x push.
abbrev pub after_context : GateRules → List Bytes
after_context rules = map effect_admin_line rules.effect_admin_violation

abbrev pub after_anchor : GateRules → List Bytes
after_anchor rules = map context_line rules.dangling_context_violation ++ after_context rules

abbrev pub after_unsigned : GateRules → List Bytes
after_unsigned rules = map anchor_line rules.dangling_anchor_violation ++ after_anchor rules

abbrev pub after_root : GateRules → List Bytes
after_root rules = map unsigned_line rules.unsigned_violation ++ after_unsigned rules

abbrev pub after_genesis : GateRules → List Bytes
after_genesis rules = map root_line rules.second_root_violation ++ after_root rules

abbrev pub after_ff : GateRules → List Bytes
after_ff rules = map genesis_line rules.genesis_violation ++ after_genesis rules

abbrev pub lines : GateRules → List Bytes
lines rules = map ff_line rules.ff_violation ++ after_ff rules

-- `run` is the engine on the facts.
unfoldable pub gate : (Facts → GateRules) → Facts → List Bytes
gate run facts = sort_bytes (lines (run facts))
