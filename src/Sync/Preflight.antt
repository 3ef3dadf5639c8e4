-- ===== src/Sync/Preflight.antt =====
-- The judgment of a push before it is made, and the inbox that it is routed to
-- (crates/kernel/ents-sync/src/preflight.rs).
pub mod Routes
use git_ents.Base.{
  ℕ, Bytes, codes, Bool, true, false, Option, none, some, ok, ◌>>=◌, if◌then◌else◌, strip_prefix,
}
use git_ents.Model.Member.{MemberId}
use git_ents.Model.Namespace.{is_inbox, inbox_ref}
use git_ents.Substrate.Refs.{RefStoreRead}
use git_ents.Substrate.Objects.{Objects}
use git_ents.Gate.Verdict.{Verdict, pass, fail}
use git_ents.Gate.Verdict
use git_ents.Gate.Verify.{Update, verify}
use git_ents.Sync.Types.{Sync, of_gate, of_name}

pub record PreFlight : Type 0 where
  pub verdict : Verdict
  pub inbox : Option Bytes

unfoldable pub is_pass : PreFlight → Bool
is_pass pf = Verdict.is_pass pf.verdict

unfoldable pub inbox_route : Objects → Bytes → MemberId → Sync Bytes
unfolding is_inbox strip_prefix inbox_ref
inbox_route o canonical author =
    if is_inbox canonical
    then ok canonical
    else elim (strip_prefix (codes "refs/meta/") (o.name_to_string canonical)) [
      | none ↦ ok canonical
      | some suffix ↦ of_name (inbox_ref o.valid_ref author suffix)
    ]

-- The route that a verdict calls for.
unfoldable pub route_of : Objects → Bytes → MemberId → Verdict → Sync (Option Bytes)
unfolding inbox_route
route_of o name author (pass _) = ok none
route_of o name author (fail refusal) =
    if refusal.inbox_alternative
    then (do route ← inbox_route o name author; ok (some route))
    else ok none

unfoldable pub preflight : RefStoreRead → Objects → ℕ → Update → MemberId → Sync PreFlight
unfolding route_of
preflight refs o fuel update author = do
  verdict ← of_gate (verify refs o fuel update)
  inbox ← route_of o update.name author verdict
  ok (record { verdict = verdict; inbox = inbox })
