-- ===== src/Sync/Preflight/Routes.antt =====
-- Where a refused push is routed to (crates/kernel/ents-sync/src/preflight.rs).
use git_ents.Base.{ℕ, Bytes, codes, true, Option, none, some, ok, err, ◌≡◌, ◌∷◌, ◌++◌}
use git_ents.Model.Member.{MemberId}
use git_ents.Model.Namespace.{is_inbox, inbox_owner}
use git_ents.Substrate.Refs.{RefStoreRead}
use git_ents.Substrate.Objects.{Objects}
use git_ents.Gate.Verdict.{Refusal, fail}
use git_ents.Gate.Verify.{Update, verify}
use git_ents.Sync.Types.{Sync}
use git_ents.Sync.Preflight.{PreFlight}

abbrev inbox_of : Sync PreFlight → Option Bytes
inbox_of (ok pf) = pf.inbox
inbox_of (err _) = none

-- What a route to the inbox says: the gate refused the update and named the inbox, and the route is
-- the same entity below the author's own segment.
pub record Routed (refs : RefStoreRead) (o : Objects) (fuel : ℕ) (update : Update)
    (author : MemberId) (suffix route : Bytes) : Type 0 where
  pub refusal : Refusal
  pub refused : verify refs o fuel update ≡ ok (fail refusal)
  pub alternative : refusal.inbox_alternative ≡ true
  pub form : route ≡ codes "refs/meta/inbox/" ++ author ++ b'/' ∷ suffix
  pub owned : inbox_owner o.name_to_string route ≡ some author
  pub inside : is_inbox route ≡ true
