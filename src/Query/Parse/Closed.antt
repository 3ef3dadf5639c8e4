-- ===== src/Query/Parse/Closed.antt =====
-- The parentheses of a text, seen by `take_balanced`: trimming does not change them.
use git_ents.Base.{
  ℕ, Bytes, Bool, true, false, ◌||◌, ◌&&◌, [], ◌∷◌, ◌++◌, append_assoc, Option, none, some, ◌==◌,
  ◌≡◌, refl, sym, ap, subst, ◌∙◌, inl, inr, Bool-cases, arith,
}
use git_ents.Query.Space.Kept.{Free}
use git_ents.Query.Rev.Expr.{put_before}
use git_ents.Query.Parse.{next_depth, take_inner}
use git_ents.Query.Parse.Printed.{Closed}

abbrev pub is_parenthesis : ℕ → Bool
is_parenthesis b = b == b'(' || b == b')'

abbrev pub Inner : Type 0
Inner = Option (Bytes × Bytes)

abbrev closes : ℕ → ℕ → Bool
closes b depth = b == b')' && next_depth b depth == 0

pub put_before-some :
    (b : ℕ) (o : Inner) {inner rest : Bytes}
    → put_before b o ≡ some (inner, rest)
    → (s : Bytes) × (inner ≡ b ∷ s) × (o ≡ some (s, rest))
put_before-some b none h = cc
put_before-some b (some (s, r)) {inner} {rest} h =
    (s, ground arith, let e : r ≡ rest = ground arith in ap (λ t. some (s, t)) e)

-- What is taken is taken again before another rest.
pub take_inner-Again :
    (s : Bytes) (depth : ℕ) {inner rest : Bytes} (other : Bytes)
    → take_inner s depth ≡ some (inner, rest)
    → take_inner (inner ++ b')' ∷ other) depth ≡ some (inner, other)
unfolding take_inner
take_inner-Again [] depth other h = cc
take_inner-Again (b ∷ s) depth {inner} {rest} other h = elim (Bool-cases (closes b depth)) [
  | inl e ↦
      let here : some ([], s) ≡ some (inner, rest) = rw e at h in
      let nothing : inner ≡ [] = ground arith in
      let byte : b ≡ 41 = ground arith in
      let shut : closes 41 depth ≡ true = subst (λ c. closes c depth ≡ true) byte e in
      rw nothing (rw (shut, take_inner) refl)
  | inr e ↦
      let (t, f, g) = put_before-some b (take_inner s (next_depth b depth)) (rw e at h) in
      let again = take_inner-Again s (next_depth b depth) other g in rw f (rw (e, again) refl)
]

-- A byte that is no parenthesis is passed over.
pass :
    (b : ℕ) (s : Bytes) (depth : ℕ)
    → is_parenthesis b ≡ false
    → take_inner (b ∷ s) depth ≡ put_before b (take_inner s depth)
unfolding take_inner
pass b s depth h =
    let same : next_depth b depth ≡ depth = ground arith in
    let open_ : closes b depth ≡ false = ground arith in rw (open_, take_inner, same) refl

-- Bytes without parentheses before the text, and behind it.
drop_front :
    (w t rest : Bytes) (depth : ℕ)
    → Free is_parenthesis w
    → take_inner (w ++ t ++ b')' ∷ rest) depth ≡ some (w ++ t, rest)
    → take_inner (t ++ b')' ∷ rest) depth ≡ some (t, rest)
drop_front [] t rest depth f h = h
drop_front (b ∷ w) t rest depth f h =
    let (s, e, g) =
      put_before-some b (take_inner (w ++ t ++ b')' ∷ rest) depth)
        (sym (pass b (w ++ t ++ b')' ∷ rest) depth (ground arith)) ∙ h) in
    let same : s ≡ w ++ t = ground arith in
    drop_front w t rest depth (ground arith) (g ∙ ap (λ x. some (x, rest)) same)

pub Closed-front : (w t : Bytes) → Free is_parenthesis w → Closed (w ++ t) → Closed t
Closed-front w t f c rest = drop_front w t rest 1 f (c rest)

shut_after :
    (w rest : Bytes) (depth : ℕ)
    → Free is_parenthesis w
    → take_inner (w ++ b')' ∷ rest) depth ≡ some (w, rest)
    → closes 41 depth ≡ true
unfolding take_inner
shut_after [] rest depth f h = elim (Bool-cases (closes 41 depth)) [
  | inl e ↦ e
  | inr e ↦
      let (s, wrong, _) = put_before-some 41 (take_inner rest (next_depth 41 depth)) (rw e at h) in
      cc
]
shut_after (b ∷ w) rest depth f h =
    let (s, e, g) =
      put_before-some b (take_inner (w ++ b')' ∷ rest) depth)
        (sym (pass b (w ++ b')' ∷ rest) depth (ground arith)) ∙ h) in
    let same : s ≡ w = ground arith in
    shut_after w rest depth (ground arith) (g ∙ ap (λ x. some (x, rest)) same)

drop_back :
    (t w rest : Bytes) (depth : ℕ)
    → Free is_parenthesis w
    → take_inner (t ++ (w ++ b')' ∷ rest)) depth ≡ some (t ++ w, rest)
    → take_inner (t ++ b')' ∷ rest) depth ≡ some (t, rest)
unfolding take_inner
drop_back [] w rest depth f h = let shut = shut_after w rest depth f h in rw (shut, take_inner) refl
drop_back (b ∷ t) w rest depth f h = elim (Bool-cases (closes b depth)) [
  | inl e ↦
      let wrong : some ([], t ++ (w ++ b')' ∷ rest)) ≡ some (b ∷ t ++ w, rest) = rw e at h in cc
  | inr e ↦
      let (s, q, g) =
        put_before-some b (take_inner (t ++ (w ++ b')' ∷ rest)) (next_depth b depth)) (rw e at h) in
      let same : s ≡ t ++ w = ground arith in
      let again = drop_back t w rest (next_depth b depth) f (g ∙ ap (λ x. some (x, rest)) same) in
      rw (e, take_inner, again) refl
]

pub Closed-back : (t w : Bytes) → Free is_parenthesis w → Closed (t ++ w) → Closed t
Closed-back t w f c rest =
    drop_back t w rest 1 f
      (ap (λ x. take_inner x 1) (sym (append_assoc t w (b')' ∷ rest))) ∙ c rest)

-- A parenthesis that closes leaves nothing inside.
closes-nothing :
    (b : ℕ) (t s rest : Bytes) (depth : ℕ)
    → closes b depth ≡ true
    → take_inner (b ∷ s) depth ≡ some (b ∷ t, rest)
    → ⊥
unfolding take_inner
closes-nothing b t s rest depth e h =
    let found : Inner = some ([], s) in let wrong : found ≡ some (b ∷ t, rest) = rw e at h in cc

-- And they may be put there.
add_back :
    (t w rest : Bytes) (depth : ℕ)
    → Free is_parenthesis w
    → ((other : Bytes) → take_inner (t ++ b')' ∷ other) depth ≡ some (t, other))
    → take_inner (t ++ (w ++ b')' ∷ rest)) depth ≡ some (t ++ w, rest)
unfolding take_inner
add_back [] [] rest depth f h = h rest
add_back [] (b ∷ w) rest depth f h =
    pass b (w ++ b')' ∷ rest) depth (ground arith)
    ∙ ap (put_before b) (add_back [] w rest depth (ground arith) h)
add_back (b ∷ t) w rest depth f h = elim (Bool-cases (closes b depth)) [
  | inl e ↦ absurd (closes-nothing b t (t ++ b')' ∷ rest) rest depth e (h rest))
  | inr e ↦
      let again = add_back t w rest (next_depth b depth) f (λ other.
        let (s, q, g) =
          put_before-some b (take_inner (t ++ b')' ∷ other) (next_depth b depth))
            (rw e at (h other)) in
        let same : s ≡ t = ground arith in g ∙ ap (λ x. some (x, other)) same) in
      rw (e, take_inner, again) refl
]

pub Closed-append : (t w : Bytes) → Free is_parenthesis w → Closed t → Closed (t ++ w)
Closed-append t w f c rest =
    ap (λ x. take_inner x 1) (append_assoc t w (b')' ∷ rest)) ∙ add_back t w rest 1 f c
