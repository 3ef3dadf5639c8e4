-- ===== src/Gate/Binding/Depth.antt =====
-- The recursion of `identity_binding` (crates/kernel/ents-gate/src/verify.rs) into an inbox: each
-- canonical refname has a shorter text than the inbox refname that it comes from.
use git_ents.Base.{
  ℕ, zero, suc, ◌<◌, Bytes, codes, split_once, split_once_sound, strip_prefix, strip_prefix_sound,
  length, length-append, true, ◌∷◌, ◌++◌, Option, some, Option-cases, inl, inr, ◌≡◌, ap, refl, ◌∙◌,
  arith,
}
use git_ents.Model.Member.{MemberId}
use git_ents.Model.Namespace.{Namespace, classify, inbox_owner}
use git_ents.Substrate.Refs.{Oid}
use git_ents.Substrate.Objects.{Objects}
use git_ents.Gate.Errors.{Gate}
use git_ents.Gate.Object.{CommitData}
use git_ents.Gate.Verdict.{Refusal}
use git_ents.Gate.Binding.{
  is_some_of, canonical_name, bind_inbox, bind_namespace, binding_at, identity_binding,
}

-- Documented behaviour of `BStr::to_string`: text is left as it is, so what follows a slash in the text
-- of a name is its own text below refs/meta/.
pub record KeepsText (to_string : Bytes → Bytes) : Type 0 where
  pub kept :
      (name start rest : Bytes)
      → to_string name ≡ start ++ b'/' ∷ rest
      → to_string (codes "refs/meta/" ++ rest) ≡ codes "refs/meta/" ++ rest

pub canonical_name-shorter :
    (o : Objects) (text : KeepsText o.name_to_string) (name : Bytes) {canonical : Bytes}
    → canonical_name o name ≡ some canonical
    → length (o.name_to_string canonical) < length (o.name_to_string name)
unfolding canonical_name
canonical_name-shorter o text name {canonical} h =
    elim (Option-cases (strip_prefix (codes "refs/meta/inbox/") (o.name_to_string name))) [
      | inl e ↦ ground arith
      | inr (rest, e) ↦ elim (Option-cases (split_once b'/' rest)) [
        | inl f ↦ ground arith
        | inr (p, f) ↦
            let whole : o.name_to_string name ≡ codes "refs/meta/inbox/" ++ rest =
              strip_prefix_sound (codes "refs/meta/inbox/") (o.name_to_string name) e in
            let parts : rest ≡ p.0 ++ b'/' ∷ p.1 = (split_once_sound b'/' rest f).0 in
            let made : canonical ≡ codes "refs/meta/" ++ p.1 = ground arith in
            let shown : o.name_to_string canonical ≡ codes "refs/meta/" ++ p.1 =
              ap o.name_to_string made
              ∙ text.kept name (codes "refs/meta/inbox/" ++ p.0) p.1
                  (whole ∙ ap (λ r. codes "refs/meta/inbox/" ++ r) parts) in
            omega (
              arith,
              ap length whole,
              ap length parts,
              ap length shown,
              length-append {0} p.0 (b'/' ∷ p.1),
            )
      ]
    ]

bind_inbox-cong :
    (o : Objects) (recur recur' : Bytes → Gate (Option Refusal)) (name : Bytes) (signer : MemberId)
    → ((c : Bytes) → canonical_name o name ≡ some c → recur c ≡ recur' c)
    → bind_inbox o recur name signer ≡ bind_inbox o recur' name signer
unfolding bind_inbox
bind_inbox-cong o recur recur' name signer h = elim (Option-cases (canonical_name o name)) [
  | inl e ↦ rw e refl
  | inr (c, e) ↦ rw (e, h c e) refl
]

module _ (o : Objects) (text : KeepsText o.name_to_string) (fuel : ℕ) (new : Oid)
    (commit : CommitData) (signer : MemberId) where
  bind_namespace-cong :
      (recur recur' : Bytes → Gate (Option Refusal)) (namespace : Namespace) (name : Bytes)
      → ((c : Bytes) → canonical_name o name ≡ some c → recur c ≡ recur' c)
      → bind_namespace o fuel new commit signer recur namespace name
        ≡ bind_namespace o fuel new commit signer recur' namespace name
  unfolding bind_namespace
  bind_namespace-cong recur recur' Namespace.inbox name h =
      bind_inbox-cong o recur recur' name signer h
  bind_namespace-cong recur recur' _ name h = refl

  -- One level of the recursion: the two depths have to agree on the canonical refname alone.
  binding_at-step :
      (d d' : ℕ) (name : Bytes)
      → ((c : Bytes)
          → canonical_name o name ≡ some c
          → binding_at o fuel new commit signer d c ≡ binding_at o fuel new commit signer d' c)
      → binding_at o fuel new commit signer (suc d) name
        ≡ binding_at o fuel new commit signer (suc d') name
  unfolding binding_at
  binding_at-step d d' name h = elim (Option-cases (classify name)) [
    | inl e ↦ rw (e, binding_at) refl
    | inr (namespace, e) ↦
        rw (e, binding_at)
          (bind_namespace-cong (λ c. binding_at o fuel new commit signer d c)
            (λ c. binding_at o fuel new commit signer d' c) namespace name h)
  ]

  -- Any depth beyond the refname's length gives the same answer.
  binding_at-deep :
      (d d' : ℕ) (name : Bytes)
      → length (o.name_to_string name) < d
      → length (o.name_to_string name) < d'
      → binding_at o fuel new commit signer d name ≡ binding_at o fuel new commit signer d' name
  binding_at-deep zero d' name h h' = absurd (omega arith)
  binding_at-deep (suc d) zero name h h' = absurd (omega arith)
  binding_at-deep (suc d) (suc d') name h h' = binding_at-step d d' name λ c e.
      binding_at-deep d d' c (omega (arith, canonical_name-shorter o text name e))
        (omega (arith, canonical_name-shorter o text name e))

  -- The depth given is enough, where `BStr::to_string` leaves text as it is: an inbox refname owned
  -- by the signer is bound exactly as the canonical refname that it stands for, by
  -- `identity_binding` itself at its own depth.
  pub identity_binding-inbox :
      (name canonical : Bytes)
      → classify name ≡ some Namespace.inbox
      → is_some_of (inbox_owner o.name_to_string name) signer ≡ true
      → canonical_name o name ≡ some canonical
      → identity_binding o fuel new commit signer name
        ≡ identity_binding o fuel new commit signer canonical
  unfolding identity_binding bind_inbox
  identity_binding-inbox name canonical c s e = ground (
    arith,
    binding_at-deep (length (o.name_to_string name)) (suc (length (o.name_to_string canonical)))
        canonical (canonical_name-shorter o text name e) (omega arith),
  )
