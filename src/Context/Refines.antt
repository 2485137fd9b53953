-- ===== src/Context/Refines.antt =====
-- The table as a function from keys to values: what a caller of the global context sees.
use native.Mathlib.Nat.{mod-lt}
use graft_ng.Shared.{
  ℕ, zero, suc, ◌%◌, ◌<◌, ◌≡◌, refl, String, Bool, Option, none, some, List, [], ◌∷◌, arith,
  if◌then◌else◌, nat_eqb, ◌==◌, string_eq, length, ap,
}
use text.Mathlib.TextEquality.{eq_iff}
use graft_ng.Context.{
  Node, Table, nth, put_nth, bucket_index, get_bucket, put_bucket, value_for, has_key,
  add_or_update, remove, apply, or_default, is_found, find_entry_for, bucket_add_or_update,
  bucket_remove, bucket_apply,
}
use graft_ng.Context.Entries.{
  view, found, view-find, view-add, view-remove, view-apply, answer-apply, changed, answered,
}

pub length-put_nth {ℓ} :
    {A : Type ℓ} → (i : ℕ) (v : A) (bs : List A) → length (put_nth i v bs) ≡ length bs
length-put_nth i v [] = refl
length-put_nth zero v (b ∷ bs) = refl
length-put_nth (suc i) v (b ∷ bs) = ground (arith, length-put_nth i v bs)

nth-put_nth {ℓ} :
    {A : Type ℓ}
    → (i j : ℕ) (v : List A) (bs : List (List A)) → i < length bs
    → nth j (put_nth i v bs) ≡ (if nat_eqb i j then v else nth j bs)
nth-put_nth i j v [] h = ground arith
nth-put_nth zero zero v (b ∷ bs) h = refl
nth-put_nth zero (suc j) v (b ∷ bs) h = ground arith
nth-put_nth (suc i) zero v (b ∷ bs) h = ground arith
nth-put_nth (suc i) (suc j) v (b ∷ bs) h = ground (arith, nth-put_nth i j v bs)

same_index : (hasher : String → ℕ) (n : ℕ) (k j : String) → k ≡ j → hasher k % n ≡ hasher j % n
same_index hasher n k j e = ap (λ x. hasher x % n) e

module _ {V : Type 0} (hasher : String → ℕ) where
  -- What the table holds for a key.
  abbrev pub sees : Table V → String → Option V
  sees t k = view k (get_bucket hasher k t)

  -- A bucket that is put back where its key hashes to.
  sees-put_bucket :
      (k j : String) (b : List (Node V)) (o : Option V) (t : Table V)
      → 0 < length t.buckets
      → view j b ≡ (if k == j then o else view j (get_bucket hasher k t))
      → sees (put_bucket hasher k b t) j ≡ (if k == j then o else sees t j)
  unfolding bucket_index
  sees-put_bucket k j b o t h e =
      let n = length t.buckets in
      ground (
        arith,
        length-put_nth (hasher k % n) b t.buckets,
        nth-put_nth (hasher k % n) (hasher j % n) b t.buckets (mod-lt (hasher k) h),
        eq_iff k j,
        same_index hasher n k j,
      )

  sees-touched :
      (k j : String) (b : List (Node V)) (t : Table V)
      → 0 < length t.buckets
      → view j b ≡ view j (get_bucket hasher k t)
      → sees (put_bucket hasher k b t) j ≡ sees t j
  unfolding bucket_index
  sees-touched k j b t h e =
      let n = length t.buckets in
      ground (
        arith,
        length-put_nth (hasher k % n) b t.buckets,
        nth-put_nth (hasher k % n) (hasher j % n) b t.buckets (mod-lt (hasher k) h),
      )

  -- On a table with at least one bucket each call does what it would do on a function from keys to
  -- values, whatever the hash function is and however old the entries are: reads give what the
  -- function holds, and change nothing that is held for any key; an update and a removal change
  -- one key; `apply` changes a value that is there and passes on the answer.
  pub calls_refine_map :
      (now ttl : ℕ) (k j : String) (v : V) (on_expired : Option ℕ) (f : V → Bool × V) (t : Table V)
      → 0 < length t.buckets
      → ((value_for hasher now k v t).0 ≡ or_default v (sees t k))
        × (sees (value_for hasher now k v t).1 j ≡ sees t j)
        × ((has_key hasher now k t).0 ≡ is_found (sees t k))
        × (sees (has_key hasher now k t).1 j ≡ sees t j)
        × (sees (add_or_update hasher now k v ttl on_expired t) j
            ≡ (if k == j then some v else sees t j))
        × (sees (remove hasher k t) j ≡ (if k == j then none else sees t j))
        × ((apply hasher now k f t).0 ≡ answered f (sees t k))
        × (sees (apply hasher now k f t).1 j ≡ (if k == j then changed f (sees t k) else sees t j))
  unfolding value_for has_key add_or_update remove apply
  calls_refine_map now ttl k j v on_expired f t h =
      let b = get_bucket hasher k t in
      let read = sees-touched k j (find_entry_for now k b).1 t h (view-find now k j b) in
      (
        ap (or_default v) (found now k b),
        read,
        ap is_found (found now k b),
        read,
        sees-put_bucket k j (bucket_add_or_update now k v ttl on_expired b) (some v) t h
            (view-add now k j v ttl on_expired b),
        sees-put_bucket k j (bucket_remove k b) none t h (view-remove k j b),
        answer-apply now k f b,
        sees-put_bucket k j (bucket_apply now k f b).1 (changed f (view k b)) t h (at_key now b),
      )
    where
      at_key :
          (now : ℕ) (b : List (Node V))
          → view j (bucket_apply now k f b).1 ≡ (if k == j then changed f (view k b) else view j b)
      at_key now b = ground (arith, view-apply now k j f b, eq_iff k j, ap (λ x. view x b))
