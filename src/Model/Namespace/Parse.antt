-- ===== src/Model/Namespace/Parse.antt =====
-- The refname parsers of crates/kernel/ents-model/src/namespace.rs against the shapes of refnames
-- that they are for.
use git_ents.Base.{
  Bytes, codes, strip_prefix, strip_prefix-append, strip_prefix_sound, split_once,
  split_once-append, split_once_sound, mem, false, Option, none, some, ◌∷◌, ◌++◌, ◌≡◌, ap, ◌∙◌,
  arith, Option-cases, inl, inr, ◌⊎◌, ◌↔◌,
}
use git_ents.Model.Member.{MemberId}
use git_ents.Model.Namespace.{
  is_empty, owner_segment, result_parts, result_tail, parse_review_ref, parse_result_ref,
  inbox_owner, self_run_owner,
}

abbrev pub reviews : Bytes
reviews = codes "refs/meta/reviews/"

abbrev pub review_pins : Bytes
review_pins = codes "refs/meta/pins/reviews/"

-- A nonempty segment with no slash in it.
abbrev pub IsSegment : Bytes → Type 0
IsSegment s = (is_empty s ≡ false) × (mem b'/' s ≡ false)

-- The refname names a review of `target` by `member`, or the pin that mirrors it.
abbrev pub NamesReview : Bytes → Bytes → MemberId → Type 0
NamesReview path target member =
    (path ≡ reviews ++ target ++ b'/' ∷ member) ⊎ (path ≡ review_pins ++ target ++ b'/' ∷ member)

parse_review_complete :
    (path target : Bytes) (member : MemberId)
    → IsSegment target
    → IsSegment member
    → NamesReview path target member
    → parse_review_ref (λ p. p) path ≡ some (target, member)
unfolding parse_review_ref
parse_review_complete path target member t m (inl e) =
    rw e (ground (arith, split_once-append b'/' target member))
parse_review_complete path target member t m (inr e) =
    rw e (ground (arith, split_once-append b'/' target member))

parse_review_sound :
    (path target : Bytes) (member : MemberId)
    → parse_review_ref (λ p. p) path ≡ some (target, member)
    → IsSegment target × IsSegment member × NamesReview path target member
unfolding parse_review_ref
parse_review_sound path target member h = elim (Option-cases (strip_prefix reviews path)) [
  | inl e ↦ elim (Option-cases (strip_prefix review_pins path)) [
    | inl f ↦ ground arith
    | inr (rest, f) ↦ elim (Option-cases (split_once b'/' rest)) [
      | inl g ↦ ground arith
      | inr (p, g) ↦ ground (
        arith,
        strip_prefix_sound review_pins path f,
        split_once_sound b'/' rest {a = p.0} {b = p.1},
      )
    ]
  ]
  | inr (rest, f) ↦ elim (Option-cases (split_once b'/' rest)) [
    | inl g ↦ ground arith
    | inr (p, g) ↦
        ground
          (arith, strip_prefix_sound reviews path f, split_once_sound b'/' rest {a = p.0} {b = p.1})
  ]
]

-- `parse_review_ref` reads a target and a member from exactly the refnames whose text, as
-- `BStr::to_string` gives it, is the one that `review_ref` and `review_pin_ref` write for them, and
-- both are nonempty and without slashes.
pub parse_review_ref_iff :
    (to_string : Bytes → Bytes) (name target : Bytes) (member : MemberId)
    → (parse_review_ref to_string name ≡ some (target, member))
      ↔ (IsSegment target × IsSegment member × NamesReview (to_string name) target member)
unfolding parse_review_ref
parse_review_ref_iff to_string name target member = (
  parse_review_sound (to_string name) target member,
  λ (t, m, n). parse_review_complete (to_string name) target member t m n,
)

abbrev pub results : Bytes
results = codes "refs/meta/results/"

abbrev pub self_runs : Bytes
self_runs = codes "refs/meta/self/"

-- The refname names a canonical result, or some member's mirror of it.
abbrev pub NamesResult : Bytes → Bytes → Bytes → Type 0
NamesResult path effect short_oid =
    (path ≡ results ++ effect ++ b'/' ∷ short_oid)
    ⊎ ((owner : MemberId) × (mem b'/' owner ≡ false)
        × (path ≡ self_runs ++ owner ++ b'/' ∷ (effect ++ b'/' ∷ short_oid)))

parse_result_complete :
    (path effect short_oid : Bytes)
    → IsSegment effect
    → IsSegment short_oid
    → NamesResult path effect short_oid
    → parse_result_ref (λ p. p) path ≡ some (effect, short_oid)
unfolding parse_result_ref
parse_result_complete path effect short_oid e s (inl p) =
    rw p (ground (arith, split_once-append b'/' effect short_oid))
parse_result_complete path effect short_oid e s (inr (owner, o, p)) = rw p (
    ground (
      arith,
      split_once-append b'/' owner (effect ++ b'/' ∷ short_oid),
      split_once-append b'/' effect short_oid,
    ))

tail_sound :
    (tail : Option Bytes) (effect short_oid : Bytes)
    → result_parts tail ≡ some (effect, short_oid)
    → IsSegment effect × IsSegment short_oid × (tail ≡ some (effect ++ b'/' ∷ short_oid))
tail_sound none effect short_oid h = cc
tail_sound (some tail) effect short_oid h = elim (Option-cases (split_once b'/' tail)) [
  | inl e ↦ ground arith
  | inr (p, e) ↦ ground (arith, split_once_sound b'/' tail {a = p.0} {b = p.1})
]

rest_sound :
    (rest t : Bytes)
    → result_tail rest ≡ some t
    → (rest ≡ codes "results/" ++ t)
      ⊎ ((owner : MemberId) × (mem b'/' owner ≡ false)
          × (rest ≡ codes "self/" ++ owner ++ b'/' ∷ t))
rest_sound rest t h = elim (Option-cases (strip_prefix (codes "results/") rest)) [
  | inr (c, e) ↦ inl (ground (arith, strip_prefix_sound (codes "results/") rest e))
  | inl n ↦ elim (Option-cases (strip_prefix (codes "self/") rest)) [
    | inl e ↦ ground arith
    | inr (s, e) ↦ elim (Option-cases (split_once b'/' s)) [
      | inl g ↦ ground arith
      | inr (p, g) ↦ inr (
        p.0,
        (split_once_sound b'/' s g).1,
        ground (arith, strip_prefix_sound (codes "self/") rest e, (split_once_sound b'/' s g).0),
      )
    ]
  ]
]

names_result :
    (path rest effect short_oid : Bytes)
    → path ≡ codes "refs/meta/" ++ rest
    → result_parts (result_tail rest) ≡ some (effect, short_oid)
    → IsSegment effect × IsSegment short_oid × NamesResult path effect short_oid
names_result path rest effect short_oid whole h =
    let (e, s, t) = tail_sound (result_tail rest) effect short_oid h in
    (e, s, shape (rest_sound rest _ t))
  where
    shape :
        (rest ≡ codes "results/" ++ (effect ++ b'/' ∷ short_oid))
          ⊎ ((owner : MemberId) × (mem b'/' owner ≡ false)
              × (rest ≡ codes "self/" ++ owner ++ b'/' ∷ (effect ++ b'/' ∷ short_oid)))
        → NamesResult path effect short_oid
    shape (inl p) = inl (whole ∙ ap (λ r. codes "refs/meta/" ++ r) p)
    shape (inr (owner, o, p)) = inr (owner, o, whole ∙ ap (λ r. codes "refs/meta/" ++ r) p)

parse_result_sound :
    (path effect short_oid : Bytes)
    → parse_result_ref (λ p. p) path ≡ some (effect, short_oid)
    → IsSegment effect × IsSegment short_oid × NamesResult path effect short_oid
unfolding parse_result_ref
parse_result_sound path effect short_oid h =
    elim (Option-cases (strip_prefix (codes "refs/meta/") path)) [
      | inl e ↦ ground arith
      | inr (rest, e) ↦
          names_result path rest effect short_oid (strip_prefix_sound (codes "refs/meta/") path e)
            (ground arith)
    ]

-- `parse_result_ref` reads an effect and a short oid from exactly the refnames whose text, as
-- `BStr::to_string` gives it, is that of the canonical result or of a member's mirror of it, and both
-- are nonempty and without slashes.
pub parse_result_ref_iff :
    (to_string : Bytes → Bytes) (name effect short_oid : Bytes)
    → (parse_result_ref to_string name ≡ some (effect, short_oid))
      ↔ (IsSegment effect × IsSegment short_oid × NamesResult (to_string name) effect short_oid)
unfolding parse_result_ref
parse_result_ref_iff to_string name effect short_oid = (
  parse_result_sound (to_string name) effect short_oid,
  λ (e, s, n). parse_result_complete (to_string name) effect short_oid e s n,
)

-- The refnames below one member's segment of a namespace.
abbrev pub IsOwnedBy : Bytes → Bytes → MemberId → Type 0
IsOwnedBy prefix path member =
    (mem b'/' member ≡ false) × (id : Bytes) × (path ≡ prefix ++ (member ++ b'/' ∷ id))

owner_segment_iff :
    (prefix path : Bytes) (member : MemberId)
    → (owner_segment (strip_prefix prefix path) ≡ some member) ↔ IsOwnedBy prefix path member
owner_segment_iff prefix path member = (
  λ h. elim (Option-cases (strip_prefix prefix path)) [
    | inl e ↦ ground arith
    | inr (rest, e) ↦ elim (Option-cases (split_once b'/' rest)) [
      | inl g ↦ ground arith
      | inr (p, g) ↦ owned rest p.0 p.1 h e g
    ]
  ],
  λ (m, id, e). rw e (rw strip_prefix-append (ground (arith, split_once-append b'/' member id))),
)
  where
    owned :
        (rest a b : Bytes)
        → owner_segment (strip_prefix prefix path) ≡ some member
        → strip_prefix prefix path ≡ some rest
        → split_once b'/' rest ≡ some (a, b)
        → IsOwnedBy prefix path member
    owned rest a b h e g =
        let (whole, slashless) = split_once_sound b'/' rest g in
        let same : a ≡ member = ground arith in
        (rw (← same) slashless, b, ground (arith, strip_prefix_sound prefix path e))

-- `inbox_owner` and `self_run_owner` name a member exactly at the refnames whose text lies below that
-- member's own segment of the namespace, refs/meta/inbox/<member>/ and refs/meta/self/<member>/.
pub owners_iff :
    (to_string : Bytes → Bytes) (name : Bytes) (member : MemberId)
    → ((inbox_owner to_string name ≡ some member)
        ↔ IsOwnedBy (codes "refs/meta/inbox/") (to_string name) member)
      × ((self_run_owner to_string name ≡ some member)
          ↔ IsOwnedBy (codes "refs/meta/self/") (to_string name) member)
unfolding inbox_owner self_run_owner
owners_iff to_string name member = (
  owner_segment_iff (codes "refs/meta/inbox/") (to_string name) member,
  owner_segment_iff (codes "refs/meta/self/") (to_string name) member,
)
