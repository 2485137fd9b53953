-- ===== src/Shared/Keys.antt =====
-- Keys that can be compared, and dictionaries keyed by them. A `std::map` or `std::unordered_map`
-- whose order does not matter is an association list.
use Prim.Native.Nat.{ℕ}
use Prim.Native.String.{String}
use mathlib.Core.Path.{◌≡◌, refl}
use mathlib.Core.Logic.{◌↔◌}
use mathlib.Core.Bool.{Bool, true, false}
use mathlib.Core.Option.{Option, none, some}
use mathlib.Core.List.{List, [], ◌∷◌}
use native.Mathlib.Omega.{arith}
use text.Mathlib.Text.{◌==◌ as str_eq}
use text.Mathlib.TextEquality.{eq_iff}
use graft_ng.Shared.Tests.{if◌then◌else◌, nat_eqb, nat_eqb_iff, is_some}

pub record Key {ℓ} (K : Type ℓ) : Type ℓ where
  pub same : K → K → Bool
  pub same_iff : (j k : K) → (same j k ≡ true) ↔ (j ≡ k)

instance abbrev pub string_eq : Key String
string_eq = record { same_iff = eq_iff; same = str_eq }

instance abbrev pub nat_eq : Key ℕ
nat_eq = record { same_iff = nat_eqb_iff; same = nat_eqb }

infix 50 ◌==◌
abbrev pub ◌==◌ {ℓ} : {K : Type ℓ} ⦃key : Key K⦄ → K → K → Bool
◌==◌ ⦃key⦄ = key.same

module _ {ℓ κ} {K : Type ℓ} {V : Type κ} ⦃e : Key K⦄ where
  -- `find`.
  abbrev pub lookup : K → List (K × V) → Option V
  lookup k [] = none
  lookup k ((j, v) ∷ m) = if j == k then some v else lookup k m

  abbrev pub has_key : K → List (K × V) → Bool
  has_key k m = is_some (lookup k m)

  -- `m[k] = v`: an entry is overwritten.
  abbrev pub assign : K → V → List (K × V) → List (K × V)
  assign k v [] = (k, v) ∷ []
  assign k v ((j, w) ∷ m) = if j == k then (j, v) ∷ m else (j, w) ∷ assign k v m

  -- `insert` and `emplace`: an entry that is there stays as it is.
  abbrev pub emplace : K → V → List (K × V) → List (K × V)
  emplace k v [] = (k, v) ∷ []
  emplace k v ((j, w) ∷ m) = if j == k then (j, w) ∷ m else (j, w) ∷ emplace k v m

  abbrev pub erase : K → List (K × V) → List (K × V)
  erase k [] = []
  erase k ((j, w) ∷ m) = if j == k then erase k m else (j, w) ∷ erase k m

  -- The loop that erases the entries whose key fails a test.
  abbrev pub keep_keys : (K → Bool) → List (K × V) → List (K × V)
  keep_keys p [] = []
  keep_keys p ((j, w) ∷ m) = if p j then (j, w) ∷ keep_keys p m else keep_keys p m

  pub lookup-assign :
      (k j : K) (v : V) (m : List (K × V))
      → lookup j (assign k v m) ≡ (if k == j then some v else lookup j m)
  lookup-assign k j v [] = refl
  lookup-assign k j v ((i, w) ∷ m) =
      ground (arith, e.same_iff k j, e.same_iff i k, e.same_iff i j, lookup-assign k j v m)

  pub lookup-emplace :
      (k j : K) (v : V) (m : List (K × V))
      → lookup k m ≡ none
      → lookup j (emplace k v m) ≡ (if k == j then some v else lookup j m)
  lookup-emplace k j v [] h = refl
  lookup-emplace k j v ((i, w) ∷ m) h =
      ground (arith, e.same_iff k j, e.same_iff i k, e.same_iff i j, lookup-emplace k j v m)

  pub lookup-erase :
      (k j : K) (m : List (K × V)) → lookup j (erase k m) ≡ (if k == j then none else lookup j m)
  lookup-erase k j [] = ground arith
  lookup-erase k j ((i, w) ∷ m) =
      ground (arith, e.same_iff k j, e.same_iff i k, e.same_iff i j, lookup-erase k j m)

  pub lookup-keep_keys :
      (p : K → Bool) (j : K) (m : List (K × V))
      → lookup j (keep_keys p m) ≡ (if p j then lookup j m else none)
  lookup-keep_keys p j [] = ground arith
  lookup-keep_keys p j ((i, w) ∷ m) = ground (arith, e.same_iff i j, lookup-keep_keys p j m)

module _ {ℓ} {K : Type ℓ} ⦃e : Key K⦄ where
  pub ==-refl : (k : K) → (k == k) ≡ true
  ==-refl k = (e.same_iff k k).1 refl

module _ {ℓ κ} {K : Type ℓ} {V : Type κ} ⦃e : Key K⦄ where
  -- What has been stored under a key is read there.
  pub lookup-assign_same : (k : K) (v : V) (m : List (K × V)) → lookup k (assign k v m) ≡ some v
  lookup-assign_same k v m = rw (lookup-assign k k v m, ==-refl k) refl

  -- A write under another key is not seen.
  pub lookup-assign_other :
      (k j : K) (v : V) (m : List (K × V)) → (k == j) ≡ false → lookup j (assign k v m) ≡ lookup j m
  lookup-assign_other k j v m h = rw (lookup-assign k j v m, h) refl
