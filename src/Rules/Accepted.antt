-- ===== src/Rules/Accepted.antt =====
-- What a transaction that the rules accept does to the histories of its refs.
use git_ents.Base.{
  In, now, later, Bytes, bytes_eq, bytes_eq_refl, bytes_eq_sound, starts_with, true, ◌≡◌, ◌↔◌, ◌⊎◌,
  inl, inr, refl, List, [], ◌∷◌, ◌++◌, map, Option, some, Bool-cases, sort_bytes, sort_bytes-eq-nil,
  arith,
}
use git_ents.Rules.Facts.{Facts}
use git_ents.Rules.Derive
use git_ents.Rules.Derive.{
  GateRules, IsLeastModel, has, has_pair, effects, Ancestor, HasParent, Covered, Introduced,
  MemberSigned, AdminSigned, FfViolation, GenesisViolation, SecondRootViolation, UnsignedViolation,
  DanglingAnchorViolation, DanglingContextViolation, EffectAdminViolation,
}
use git_ents.Rules.Gate.{
  gate, lines, ff_line, genesis_line, root_line, unsigned_line, anchor_line, context_line,
  effect_admin_line, after_ff, after_genesis, after_root, after_unsigned, after_anchor,
  after_context,
}

-- No rule denies the transaction.
pub record Accepted (f : Facts) : Type 0 where
  pub ff : (r : Bytes) → ¬ FfViolation f r
  pub genesis : (r : Bytes) → ¬ GenesisViolation f r
  pub root : (r c : Bytes) → ¬ SecondRootViolation f r c
  pub unsigned : (r c : Bytes) → ¬ UnsignedViolation f r c
  pub anchor : (r t : Bytes) → ¬ DanglingAnchorViolation f r t
  pub context : (r t : Bytes) → ¬ DanglingContextViolation f r t
  pub effect_admin : (r c : Bytes) → ¬ EffectAdminViolation f r c

-- The commit is the tip or one of its ancestors.
abbrev pub InHistory : Facts → Bytes → Bytes → Type 0
InHistory f tip c = (c ≡ tip) ⊎ Ancestor f tip c

has-none : (rows : List Bytes) → ((x : Bytes) → ¬ (has rows x ≡ true)) → rows ≡ []
has-none [] n = refl
has-none (x ∷ rows) n = absurd (n x (ground (arith, bytes_eq_refl x)))

has_pair-none :
    (rows : List (Bytes × Bytes)) → ((x y : Bytes) → ¬ (has_pair rows x y ≡ true)) → rows ≡ []
has_pair-none [] n = refl
has_pair-none ((x, y) ∷ rows) n = absurd (n x y (ground (arith, bytes_eq_refl x, bytes_eq_refl y)))

append-eq-nil : (xs ys : List Bytes) → xs ++ ys ≡ [] → (xs ≡ []) × (ys ≡ [])
append-eq-nil [] ys h = (refl, h)
append-eq-nil (x ∷ xs) ys h = cc

map-eq-nil : {A : Type 0} (line : A → Bytes) (rows : List A) → map line rows ≡ [] → rows ≡ []
map-eq-nil line [] h = refl
map-eq-nil line (x ∷ rows) h = cc

-- A list whose lines and the rest together are empty.
no_rows :
    {A : Type 0} (line : A → Bytes) (rows : List A) (rest : List Bytes)
    → map line rows ++ rest ≡ []
    → (rows ≡ []) × (rest ≡ [])
no_rows line rows rest h =
    let (a, b) = append-eq-nil (map line rows) rest h in (map-eq-nil line rows a, b)

nil-has : (rows : List Bytes) (x : Bytes) → rows ≡ [] → ¬ (has rows x ≡ true)
nil-has rows x e h = let t : has [] x ≡ true = rw e at h in cc

nil-has_pair :
    (rows : List (Bytes × Bytes)) (x y : Bytes) → rows ≡ [] → ¬ (has_pair rows x y ≡ true)
nil-has_pair rows x y e h = let t : has_pair [] x y ≡ true = rw e at h in cc

bytes_eq-≡ : (a b : Bytes) → a ≡ b → bytes_eq a b ≡ true
bytes_eq-≡ a b e = rw e (bytes_eq_refl b)

has-In : (rows : List Bytes) (x : Bytes) → has rows x ≡ true → In x rows
has-In [] x h = cc
has-In (y ∷ rows) x h = elim (Bool-cases (bytes_eq y x)) [
  | inl e ↦ rw (bytes_eq_sound y x e) now
  | inr e ↦ later (has-In rows x (ground arith))
]

In-has : (x : Bytes) (rows : List Bytes) → In x rows → has rows x ≡ true
In-has x _ now = ground (arith, bytes_eq_refl x)
In-has x _ (later {y = y} {xs = rows} i) = ground (arith, In-has x rows i)

module _ (run : Facts → GateRules) (f : Facts) (m : IsLeastModel f (run f)) where
  silent-Accepted : gate run f ≡ [] → Accepted f
  unfolding gate
  silent-Accepted h =
      let rules = run f in
      let (a, h1) =
        no_rows ff_line rules.ff_violation (after_ff rules) (sort_bytes-eq-nil (lines rules) h) in
      let (b, h2) = no_rows genesis_line rules.genesis_violation (after_genesis rules) h1 in
      let (c, h3) = no_rows root_line rules.second_root_violation (after_root rules) h2 in
      let (d, h4) = no_rows unsigned_line rules.unsigned_violation (after_unsigned rules) h3 in
      let (e, h5) = no_rows anchor_line rules.dangling_anchor_violation (after_anchor rules) h4 in
      let (g, h6) =
        no_rows context_line rules.dangling_context_violation (after_context rules) h5 in
      let k = map-eq-nil effect_admin_line rules.effect_admin_violation h6 in
      record {
        ff = λ r v. nil-has rules.ff_violation r a ((m.ff_violation r).1 v);
        genesis = λ r v. nil-has rules.genesis_violation r b ((m.genesis_violation r).1 v);
        root = λ r x v.
            nil-has_pair rules.second_root_violation r x c ((m.second_root_violation r x).1 v);
        unsigned =
            λ r x v. nil-has_pair rules.unsigned_violation r x d ((m.unsigned_violation r x).1 v);
        anchor = λ r x v.
            nil-has_pair rules.dangling_anchor_violation r x e
              ((m.dangling_anchor_violation r x).1 v);
        context = λ r x v.
            nil-has_pair rules.dangling_context_violation r x g
              ((m.dangling_context_violation r x).1 v);
        effect_admin = λ r x v.
            nil-has_pair rules.effect_admin_violation r x k ((m.effect_admin_violation r x).1 v);
      }

  Accepted-silent : Accepted f → gate run f ≡ []
  unfolding gate sort_bytes
  Accepted-silent a =
      rw
        (
          has-none (run f).ff_violation (λ r h. a.ff r ((m.ff_violation r).0 h)),
          has-none (run f).genesis_violation (λ r h. a.genesis r ((m.genesis_violation r).0 h)),
          has_pair-none (run f).second_root_violation
              (λ r x h. a.root r x ((m.second_root_violation r x).0 h)),
          has_pair-none (run f).unsigned_violation
              (λ r x h. a.unsigned r x ((m.unsigned_violation r x).0 h)),
          has_pair-none (run f).dangling_anchor_violation
              (λ r x h. a.anchor r x ((m.dangling_anchor_violation r x).0 h)),
          has_pair-none (run f).dangling_context_violation
              (λ r x h. a.context r x ((m.dangling_context_violation r x).0 h)),
          has_pair-none (run f).effect_admin_violation
              (λ r x h. a.effect_admin r x ((m.effect_admin_violation r x).0 h)),
        )
        refl

  -- `gate` returns no line exactly when no rule denies the transaction, for an engine that computes
  -- the least model of the rules.
  pub gate_iff : (gate run f ≡ []) ↔ Accepted f
  gate_iff = (silent-Accepted, Accepted-silent)

  InHistory-Introduced :
      {r : Bytes} {old : Option Bytes} {n c : Bytes}
      → In (r, old, n) f.ref_update
      → InHistory f n c
      → ¬ Covered f r c
      → Introduced f r c
  InHistory-Introduced u (inl e) k = rw e (Derive.new_tip u (rw e at k))
  InHistory-Introduced u (inr a) k = Derive.new_ancestor u a k

  -- After an accepted transaction the whole history of every updated ref is signed by enrolled
  -- members, if the history that the ref had before is.
  pub gate-Signed :
      (r : Bytes) (old : Option Bytes) (n : Bytes)
      → gate run f ≡ []
      → In (r, old, n) f.ref_update
      → ((c : Bytes) → Covered f r c → MemberSigned f c)
      → (c : Bytes) → InHistory f n c
      → MemberSigned f c
  gate-Signed r old n h u before c k = elim (Bool-cases (has_pair (run f).covered r c)) [
    | inl e ↦ before c ((m.covered r c).0 e)
    | inr e ↦ elim (Bool-cases (has (run f).member_signed c)) [
      | inl s ↦ (m.member_signed c).0 s
      | inr s ↦ absurd (
          (silent-Accepted h).unsigned r c (
            Derive.unsigned_violation
              (InHistory-Introduced u k (λ x. let t = (m.covered r c).1 x in cc))
              (λ x. let t = (m.member_signed c).1 x in cc)))
    ]
  ]

  -- An accepted update moves its ref to a commit whose history holds the old tip, and every commit
  -- without parents of the new history is one that the ref covered before: no second root enters.
  gate-OneRoot :
      (r o n : Bytes)
      → gate run f ≡ []
      → In (r, some o, n) f.ref_update
      → InHistory f n o × ((c : Bytes) → InHistory f n c → ¬ HasParent f c → Covered f r c)
  gate-OneRoot r o n h u = (
    elim (Bool-cases (bytes_eq o n)) [
      | inl e ↦ inl (bytes_eq_sound o n e)
      | inr e ↦ elim (Bool-cases (has_pair (run f).ancestor n o)) [
        | inl a ↦ inr ((m.ancestor n o).0 a)
        | inr a ↦ absurd (
            (silent-Accepted h).ff r (
              Derive.ff_violation u (λ x. let y = bytes_eq-≡ o n x in cc)
                (λ x. let y = (m.ancestor n o).1 x in cc)))
      ]
    ],
    λ c k p. elim (Bool-cases (has_pair (run f).covered r c)) [
      | inl e ↦ (m.covered r c).0 e
      | inr e ↦ absurd (
          (silent-Accepted h).root r c (
            Derive.second_root_violation u
              (InHistory-Introduced u k (λ x. let t = (m.covered r c).1 x in cc)) p))
    ],
  )

  -- Once a transaction is accepted, both objects that a commit new to an updated ref anchors, the
  -- blob and its context, exist, and a commit new to a ref of an effect is signed by an admin.
  pub gate-Retained :
      (r : Bytes) (old : Option Bytes) (n c : Bytes)
      → gate run f ≡ []
      → In (r, old, n) f.ref_update
      → InHistory f n c
      → ¬ Covered f r c
      → ((t : Bytes) → In (c, t) f.anchor ⊎ In (c, t) f.context → In t f.object_exists)
        × (starts_with effects r ≡ true → AdminSigned f c)
  gate-Retained r old n c h u k new =
      let i : Introduced f r c = InHistory-Introduced u k new in
      (
        λ t a. elim (Bool-cases (has f.object_exists t)) [
          | inl e ↦ has-In f.object_exists t e
          | inr e ↦ dangling t i a (λ x. let y = In-has t f.object_exists x in cc)
        ],
        λ s. elim (Bool-cases (has (run f).admin_signed c)) [
          | inl e ↦ (m.admin_signed c).0 e
          | inr e ↦ absurd (
              (silent-Accepted h).effect_admin r c
                (Derive.effect_admin_violation i s (λ x. let y = (m.admin_signed c).1 x in cc)))
        ],
      )
    where
      dangling :
          (t : Bytes)
          → Introduced f r c
          → In (c, t) f.anchor ⊎ In (c, t) f.context
          → ¬ In t f.object_exists
          → In t f.object_exists
      dangling t i (inl a) absent =
          absurd ((silent-Accepted h).anchor r t (Derive.dangling_anchor_violation i a absent))
      dangling t i (inr a) absent =
          absurd ((silent-Accepted h).context r t (Derive.dangling_context_violation i a absent))
