-- ===== src/Receive/Sample.antt =====
-- A ref store for the tests: it compares the tips of all edits before it sets any.
use git_ents.Base.{
  Bytes, bytes_eq, Bool, true, false, List, [], ◌∷◌, Option, none, some, Result, ok, err, ◌≡◌, refl,
  ◌&&◌, arith, if◌then◌else◌, ◌==◌,
}
use git_ents.Substrate.Refs.{
  Oid, Expected, any, must_not_exist, must_exist_and_match, RefEdit, TxOutcome, StoreError,
  RefStoreRead,
}
use git_ents.Gate.Sample.{issue_name}
use git_ents.Receive.Judgments.{HoldsAt, AllHold, holds, no_edit}

abbrev pub is_tip : Result StoreError (Option Oid) → Option Oid → Bool
is_tip (ok none) none = true
is_tip (ok (some x)) (some y) = x == y
is_tip _ _ = false

abbrev pub is_held : RefStoreRead → RefEdit → Bool
is_held store e = elim e.expected [
  | any ↦ true
  | must_not_exist ↦ is_tip (store.get e.name) none
  | must_exist_and_match x ↦ is_tip (store.get e.name) (some x)
]

abbrev pub all_held : RefStoreRead → List RefEdit → Bool
all_held store [] = true
all_held store (e ∷ es) = is_held store e && all_held store es

abbrev pub set_all : List RefEdit → RefStoreRead → RefStoreRead
set_all [] store = store
set_all (e ∷ es) store = record {
  get = λ name. if bytes_eq name e.name then ok e.new else (set_all es store).get name;
  iter_prefix = store.iter_prefix;
}

-- A store that compares the tips of all edits before it sets any.
abbrev pub compare_and_swap :
    RefStoreRead → List RefEdit → Result StoreError TxOutcome × RefStoreRead
compare_and_swap store edits =
    if all_held store edits
    then (ok TxOutcome.applied, set_all edits store)
    else (ok (TxOutcome.rejected issue_name), store)

pub is_tip_sound :
    (r : Result StoreError (Option Oid)) (o : Option Oid) → is_tip r o ≡ true → r ≡ ok o
is_tip_sound (ok none) none h = refl
is_tip_sound (ok none) (some y) h = cc
is_tip_sound (ok (some x)) none h = cc
is_tip_sound (ok (some x)) (some y) h = ground arith
is_tip_sound (err e) o h = cc

pub is_held_sound :
    (store : RefStoreRead) (name : Bytes) (expected : Expected) (new : Option Oid)
    → is_held store (record { name = name; expected = expected; new = new }) ≡ true
    → HoldsAt store name expected
is_held_sound store name any new h = tt
is_held_sound store name must_not_exist new h = is_tip_sound _ none h
is_held_sound store name (must_exist_and_match x) new h = is_tip_sound _ (some x) h

pub all_held_sound :
    (store : RefStoreRead) (edits : List RefEdit)
    → all_held store edits ≡ true
    → AllHold store edits
all_held_sound store [] h = no_edit
all_held_sound store (e ∷ es) h =
    holds (is_held_sound store e.name e.expected e.new (ground arith))
      (all_held_sound store es (ground arith))
