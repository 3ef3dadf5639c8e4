-- ===== src/Graph.antt =====
-- The graph searches of the code (crates/kernel/ents-gate/src/object.rs and
-- crates/kernel/ents-query/src/eval.rs), seen as one: a stack of vertices to visit, a set of the
-- vertices seen, and the successors of a vertex, which are the parents of a commit.
use git_ents.Base.{
  ℕ, ◌+◌, ◌≤◌, ◌<◌, ◌≡◌, ap, length-rev_append, length-append, ◌++◌, true, false, ◌||◌, List, [],
  ◌∷◌, inl, inr, arith, ◌==◌, ==_refl, if◌then◌else◌, Bool-cases, length, mem, mem-rev_append,
  rev_append,
}

-- `x` reaches `y` along zero or more edges.
pub data Reaches (succ : ℕ → List ℕ) : ℕ → ℕ → Type 0 where
  here : (x : ℕ) → Reaches succ x x
  step : {x y z : ℕ} → mem y (succ x) ≡ true → Reaches succ y z → Reaches succ x z

module _ (succ : ℕ → List ℕ) where
  pub Reaches-snoc : {x y z : ℕ} → Reaches succ x y → mem z (succ y) ≡ true → Reaches succ x z
  Reaches-snoc (here x) e = step e (here _)
  Reaches-snoc (step e r) f = step e (Reaches-snoc r f)

  -- What holds whenever the loop looks at its queue: `seen` and `queue` hold the start and only what
  -- it reaches, and a successor of a seen vertex is in one of the two.
  pub record Covers (start : ℕ) (queue seen : List ℕ) : Type 0 where
    pub begun : mem start seen || mem start queue ≡ true
    pub only : (x : ℕ) → mem x seen || mem x queue ≡ true → Reaches succ start x
    pub closed :
        (x y : ℕ) → mem x seen ≡ true → mem y (succ x) ≡ true → mem y seen || mem y queue ≡ true

  pub Covers-start : (start : ℕ) → Covers start (start ∷ []) []
  Covers-start start = record {
    begun = ground (arith, ==_refl start);
    only = λ x h. let e : start ≡ x = ground arith in rw (← e) (here start);
    closed = λ x y h. cc;
  }

  -- A vertex that was seen before is dropped from the queue.
  pub Covers-skip :
      {start v : ℕ} (queue seen : List ℕ)
      → mem v seen ≡ true
      → Covers start (v ∷ queue) seen
      → Covers start queue seen
  Covers-skip {start} {v} queue seen m c = record {
    begun = skip start c.begun;
    only = λ x h. c.only x (ground arith);
    closed = λ x y hx hy. skip y (c.closed x y hx hy);
  }
    where
      skip : (x : ℕ) → mem x seen || mem x (v ∷ queue) ≡ true → mem x seen || mem x queue ≡ true
      skip x h = elim (Bool-cases (v == x)) [
        | inl e ↦
            let e' : v ≡ x = ground arith in
            ground (arith, let q : mem x seen ≡ true = rw e' at m in q)
        | inr e ↦ ground arith
      ]

  -- A vertex seen for the first time: its successors are added to the queue, wherever.
  pub Covers-grow :
      {start v : ℕ} (queue more seen : List ℕ)
      → ((x : ℕ) → mem x more ≡ (mem x (succ v) || mem x queue))
      → Covers start (v ∷ queue) seen
      → Covers start more (v ∷ seen)
  Covers-grow {start} {v} queue more seen grown c = record {
    begun = ground (arith, c.begun, grown start);
    only = λ x h. elim (Bool-cases (mem x seen || mem x (v ∷ queue))) [
      | inl e ↦ c.only x e
      | inr e ↦ Reaches-snoc (c.only v (ground (arith, ==_refl v))) (ground (arith, grown x))
    ];
    closed = λ x y hx hy. elim (Bool-cases (v == x)) [
      | inl e ↦
          let e' : x ≡ v = ground arith in
          let p : mem y (succ v) ≡ true = rw e' at hy in ground (arith, grown y)
      | inr e ↦ ground (arith, c.closed x y, grown y)
    ];
  }

  -- They are pushed, as on a stack.
  pub Covers-visit :
      {start v : ℕ} (queue seen : List ℕ)
      → Covers start (v ∷ queue) seen
      → Covers start (rev_append (succ v) queue) (v ∷ seen)
  Covers-visit {v} queue seen c =
      Covers-grow queue (rev_append (succ v) queue) seen (λ x. mem-rev_append x (succ v) queue) c

  -- When the queue is empty, the vertices seen are those that the start reaches.
  pub Covers-complete :
      {start x : ℕ} (seen : List ℕ)
      → Covers start [] seen
      → Reaches succ start x
      → mem x seen ≡ true
  Covers-complete {start} {x} seen c r = walk r (drop_empty start c.begun)
    where
      drop_empty : (y : ℕ) → mem y seen || false ≡ true → mem y seen ≡ true
      drop_empty y h = ground arith

      walk : {a b : ℕ} → Reaches succ a b → mem a seen ≡ true → mem b seen ≡ true
      walk (here a) h = h
      walk (step {x = a} {y = b} e r) h = walk r (drop_empty b (c.closed a b h e))

-- The successors that are still to be pushed: those of the vertices of `hist` that are not seen.
unfoldable pub weight : (ℕ → List ℕ) → List ℕ → List ℕ → ℕ
weight succ [] seen = 0
weight succ (x ∷ hist) seen = (if mem x seen then 0 else length (succ x)) + weight succ hist seen

module _ (succ : ℕ → List ℕ) where
  pub weight_mono :
      (v : ℕ) (hist seen : List ℕ) → weight succ hist (v ∷ seen) ≤ weight succ hist seen
  unfolding weight
  weight_mono v [] seen = omega arith
  weight_mono v (x ∷ hist) seen = ground (arith, weight_mono v hist seen)

  -- Seeing a vertex pays for pushing its successors.
  pub weight-visit :
      (v : ℕ) (hist seen : List ℕ)
      → mem v seen ≡ false
      → mem v hist ≡ true
      → weight succ hist (v ∷ seen) + length (succ v) ≤ weight succ hist seen
  unfolding weight
  weight-visit v [] seen h m = cc
  weight-visit v (x ∷ hist) seen h m = elim (Bool-cases (v == x)) [
    | inl e ↦
        let e' : x ≡ v = ground arith in rw e' (ground (arith, ==_refl v, weight_mono v hist seen))
    | inr e ↦ ground (arith, weight-visit v hist seen h)
  ]

  -- Visiting a vertex for the first time leaves less to do, when only the vertices of `hist` have
  -- successors.
  pub visit_pays :
      (hist : List ℕ)
      → ((x : ℕ) → mem x hist ≡ false → succ x ≡ [])
      → (v : ℕ) (queue seen : List ℕ) → mem v seen ≡ false
      → length (rev_append (succ v) queue) + weight succ hist (v ∷ seen)
        < length (v ∷ queue) + weight succ hist seen
  visit_pays hist listed v queue seen new = elim (Bool-cases (mem v hist)) [
    | inl m ↦ omega (arith, length-rev_append {0} (succ v) queue, weight-visit v hist seen new m)
    | inr m ↦ omega (
      arith,
      length-rev_append {0} (succ v) queue,
      ap length (listed v m),
      weight_mono v hist seen,
    )
  ]

  -- The same where the successors join the end of a queue.
  pub visit_pays_behind :
      (hist : List ℕ)
      → ((x : ℕ) → mem x hist ≡ false → succ x ≡ [])
      → (v : ℕ) (queue seen : List ℕ) → mem v seen ≡ false
      → length (queue ++ succ v) + weight succ hist (v ∷ seen)
        < length (v ∷ queue) + weight succ hist seen
  visit_pays_behind hist listed v queue seen new = omega (
    arith,
    visit_pays hist listed v queue seen new,
    length-rev_append {0} (succ v) queue,
    length-append {0} queue (succ v),
  )
