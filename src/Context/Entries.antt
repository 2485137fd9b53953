-- ===== src/Context/Entries.antt =====
-- One bucket of the table, as a function from keys to entries.
use graft_ng.Shared.{
  ℕ, ◌≡◌, refl, String, Bool, false, Option, none, some, List, [], ◌∷◌, arith, if◌then◌else◌, ◌&&◌,
  ◌==◌, string_eq,
}
use text.Mathlib.TextEquality.{eq_iff}
use graft_ng.Context.{
  Node, update_time, push_front, find_entry_for, set_found, is_found, bucket_add_or_update,
  bucket_remove, bucket_apply,
}

module _ {V : Type 0} where
  -- The first entry with the key.
  abbrev pub entry_of : String → List (Node V) → Option (Node V)
  entry_of k [] = none
  entry_of k (n ∷ b) = if n.key == k then some n else entry_of k b

  abbrev pub value_of : Option (Node V) → Option V
  value_of none = none
  value_of (some n) = some n.value

  abbrev pub view : String → List (Node V) → Option V
  view k b = value_of (entry_of k b)

  pub found : (now : ℕ) (k : String) (b : List (Node V)) → (find_entry_for now k b).0 ≡ view k b
  unfolding find_entry_for
  found now k [] = refl
  found now k (n ∷ b) = ground (arith, found now k b)

  -- Touching an entry does not show.
  pub view-find :
      (now : ℕ) (k j : String) (b : List (Node V)) → view j (find_entry_for now k b).1 ≡ view j b
  unfolding find_entry_for update_time
  view-find now k j [] = refl
  view-find now k j (n ∷ b) = ground (arith, view-find now k j b)

  view-set_found :
      (k j : String) (v : V) (b : List (Node V))
      → view j (set_found k v b) ≡ (if (k == j) && is_found (view k b) then some v else view j b)
  unfolding set_found
  view-set_found k j v [] = ground arith
  view-set_found k j v (n ∷ b) =
      ground (arith, eq_iff k j, eq_iff n.key k, eq_iff n.key j, view-set_found k j v b)

  view-push_front :
      (now : ℕ) (k j : String) (v : V) (ttl : ℕ) (f : Option ℕ) (b : List (Node V))
      → view j (push_front now k v ttl f b) ≡ (if k == j then some v else view j b)
  unfolding push_front update_time
  view-push_front now k j v ttl f b = ground arith

  pub view-add :
      (now : ℕ) (k j : String) (v : V) (ttl : ℕ) (f : Option ℕ) (b : List (Node V))
      → view j (bucket_add_or_update now k v ttl f b) ≡ (if k == j then some v else view j b)
  unfolding bucket_add_or_update
  view-add now k j v ttl f b =
      let b' = (find_entry_for now k b).1 in
      ground (
        arith,
        found now k b,
        view-find now k j b,
        view-find now k k b,
        view-set_found k j v b',
        view-push_front now k j v ttl f b',
      )

  pub view-remove :
      (k j : String) (b : List (Node V))
      → view j (bucket_remove k b) ≡ (if k == j then none else view j b)
  unfolding bucket_remove
  view-remove k j [] = ground arith
  view-remove k j (n ∷ b) =
      ground (arith, eq_iff k j, eq_iff n.key k, eq_iff n.key j, view-remove k j b)

  -- What a function makes of a value that is there.
  abbrev pub changed : (V → Bool × V) → Option V → Option V
  changed f none = none
  changed f (some v) = some (f v).1

  abbrev pub answered : (V → Bool × V) → Option V → Bool
  answered f none = false
  answered f (some v) = (f v).0

  pub view-apply :
      (now : ℕ) (k j : String) (f : V → Bool × V) (b : List (Node V))
      → view j (bucket_apply now k f b).1 ≡ (if k == j then changed f (view j b) else view j b)
  unfolding bucket_apply update_time
  view-apply now k j f [] = ground arith
  view-apply now k j f (n ∷ b) =
      ground (arith, eq_iff k j, eq_iff n.key k, eq_iff n.key j, view-apply now k j f b)

  pub answer-apply :
      (now : ℕ) (k : String) (f : V → Bool × V) (b : List (Node V))
      → (bucket_apply now k f b).0 ≡ answered f (view k b)
  unfolding bucket_apply
  answer-apply now k f [] = refl
  answer-apply now k f (n ∷ b) = ground (arith, answer-apply now k f b)
