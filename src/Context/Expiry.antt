-- ===== src/Context/Expiry.antt =====
-- How long an entry of a bucket lives.
use graft_ng.Shared.{
  ℕ, ◌+◌, ◌≡◌, refl, String, Bool, false, Option, none, some, List, [], ◌∷◌, arith, if◌then◌else◌,
  ltb, nat_eqb, ◌==◌, ◌||◌, string_eq, ==-refl, ap,
}
use text.Mathlib.TextEquality.{eq_iff}
use graft_ng.Context.{
  Node, update_time, expired, push_front, find_entry_for, set_found, is_found, bucket_add_or_update,
  bucket_remove, bucket_apply, bucket_cleanup,
}
use graft_ng.Context.Entries.{entry_of, view, found}

module _ {V : Type 0} where
  -- No key has two entries.
  abbrev pub HasKeysOnce : List (Node V) → Type 0
  HasKeysOnce [] = Unit {0}
  HasKeysOnce (n ∷ b) = (entry_of n.key b ≡ none) × HasKeysOnce b

  abbrev touched : ℕ → Option (Node V) → Option (Node V)
  touched now none = none
  touched now (some n) = some (update_time now n)

  abbrev valued : V → Option (Node V) → Option (Node V)
  valued v none = none
  valued v (some n) = some (record n { value = v })

  abbrev kept : ℕ → Option (Node V) → Option (Node V)
  kept now none = none
  kept now (some n) = if expired now n then none else some n

  entry_of-find :
      (now : ℕ) (k j : String) (b : List (Node V))
      → entry_of j (find_entry_for now k b).1
        ≡ (if k == j then touched now (entry_of j b) else entry_of j b)
  unfolding find_entry_for update_time
  entry_of-find now k j [] = ground arith
  entry_of-find now k j (n ∷ b) =
      ground (arith, eq_iff k j, eq_iff n.key k, eq_iff n.key j, entry_of-find now k j b)

  entry_of-set_found :
      (k j : String) (v : V) (b : List (Node V))
      → entry_of j (set_found k v b) ≡ (if k == j then valued v (entry_of j b) else entry_of j b)
  unfolding set_found
  entry_of-set_found k j v [] = ground arith
  entry_of-set_found k j v (n ∷ b) =
      ground (arith, eq_iff k j, eq_iff n.key k, eq_iff n.key j, entry_of-set_found k j v b)

  missing-cleanup :
      (now : ℕ) (k : String) (b : List (Node V))
      → entry_of k b ≡ none
      → entry_of k (bucket_cleanup now b).1 ≡ none
  unfolding bucket_cleanup
  missing-cleanup now k [] h = refl
  missing-cleanup now k (n ∷ b) h = ground (arith, missing-cleanup now k b)

  entry_of-cleanup :
      (now : ℕ) (k : String) (b : List (Node V))
      → HasKeysOnce b
      → entry_of k (bucket_cleanup now b).1 ≡ kept now (entry_of k b)
  unfolding bucket_cleanup
  entry_of-cleanup now k [] h = refl
  entry_of-cleanup now k (n ∷ b) h = ground (
    arith,
    eq_iff n.key k,
    h.0,
    entry_of-cleanup now k b h.1,
    missing-cleanup now n.key b h.0,
    same n.key k b,
  )
    where
      same : (i k : String) (b : List (Node V)) → i ≡ k → entry_of i b ≡ entry_of k b
      same i k b e = ap (λ x. entry_of x b) e

  find-HasKeysOnce :
      (now : ℕ) (k : String) (b : List (Node V))
      → HasKeysOnce b
      → HasKeysOnce (find_entry_for now k b).1
  unfolding find_entry_for update_time
  find-HasKeysOnce now k [] h = tt
  find-HasKeysOnce now k (n ∷ b) h =
      ground (arith, find-HasKeysOnce now k b h.1, entry_of-find now k n.key b)

  set_found-HasKeysOnce :
      (k : String) (v : V) (b : List (Node V)) → HasKeysOnce b → HasKeysOnce (set_found k v b)
  unfolding set_found
  set_found-HasKeysOnce k v [] h = tt
  set_found-HasKeysOnce k v (n ∷ b) h =
      ground (arith, set_found-HasKeysOnce k v b h.1, entry_of-set_found k n.key v b)

  missing-apply :
      (now : ℕ) (k j : String) (f : V → Bool × V) (b : List (Node V))
      → entry_of j b ≡ none
      → entry_of j (bucket_apply now k f b).1 ≡ none
  unfolding bucket_apply update_time
  missing-apply now k j f [] h = refl
  missing-apply now k j f (n ∷ b) h = ground (arith, missing-apply now k j f b)

  missing-remove :
      (k j : String) (b : List (Node V))
      → entry_of j b ≡ none
      → entry_of j (bucket_remove k b) ≡ none
  unfolding bucket_remove
  missing-remove k j [] h = refl
  missing-remove k j (n ∷ b) h = ground (arith, missing-remove k j b)

  apply-HasKeysOnce :
      (now : ℕ) (k : String) (f : V → Bool × V) (b : List (Node V))
      → HasKeysOnce b
      → HasKeysOnce (bucket_apply now k f b).1
  unfolding bucket_apply update_time
  apply-HasKeysOnce now k f [] h = tt
  apply-HasKeysOnce now k f (n ∷ b) h =
      ground (arith, apply-HasKeysOnce now k f b h.1, missing-apply now k n.key f b h.0)

  remove-HasKeysOnce :
      (k : String) (b : List (Node V)) → HasKeysOnce b → HasKeysOnce (bucket_remove k b)
  unfolding bucket_remove
  remove-HasKeysOnce k [] h = tt
  remove-HasKeysOnce k (n ∷ b) h =
      ground (arith, remove-HasKeysOnce k b h.1, missing-remove k n.key b h.0)

  cleanup-HasKeysOnce :
      (now : ℕ) (b : List (Node V)) → HasKeysOnce b → HasKeysOnce (bucket_cleanup now b).1
  unfolding bucket_cleanup
  cleanup-HasKeysOnce now [] h = tt
  cleanup-HasKeysOnce now (n ∷ b) h =
      ground (arith, cleanup-HasKeysOnce now b h.1, missing-cleanup now n.key b h.0)

  not_found : (k : String) (b : List (Node V)) → is_found (view k b) ≡ false → entry_of k b ≡ none
  not_found k b h = ground arith

  add-HasKeysOnce :
      (now : ℕ) (k : String) (v : V) (ttl : ℕ) (f : Option ℕ) (b : List (Node V))
      → HasKeysOnce b
      → HasKeysOnce (bucket_add_or_update now k v ttl f b)
  unfolding bucket_add_or_update push_front update_time
  add-HasKeysOnce now k v ttl f b h =
      let b' = (find_entry_for now k b).1 in
      let once = find-HasKeysOnce now k b h in
      ground (
        arith,
        found now k b,
        once,
        set_found-HasKeysOnce k v b' once,
        entry_of-find now k k b,
        not_found k b,
      )

  -- Every operation of a bucket, the cleanup included, keeps the keys of its entries different.
  pub bucket-HasKeysOnce :
      (now ttl : ℕ) (k : String) (v : V) (on_expired : Option ℕ) (f : V → Bool × V)
      (b : List (Node V))
      → HasKeysOnce b
      → HasKeysOnce (find_entry_for now k b).1
        × HasKeysOnce (bucket_add_or_update now k v ttl on_expired b)
        × HasKeysOnce (bucket_remove k b)
        × HasKeysOnce (bucket_apply now k f b).1
        × HasKeysOnce (bucket_cleanup now b).1
  bucket-HasKeysOnce now ttl k v on_expired f b h = (
    find-HasKeysOnce now k b h,
    add-HasKeysOnce now k v ttl on_expired b h,
    remove-HasKeysOnce k b h,
    apply-HasKeysOnce now k f b h,
    cleanup-HasKeysOnce now b h,
  )

  entry_of-add_new :
      (now : ℕ) (k : String) (v : V) (ttl : ℕ) (f : Option ℕ) (b : List (Node V))
      → entry_of k b ≡ none
      → entry_of k (bucket_add_or_update now k v ttl f b)
        ≡ some (
            update_time now
              (record { key = k; value = v; ttl = ttl; expires = none; on_expired = f }))
  unfolding bucket_add_or_update push_front update_time
  entry_of-add_new now k v ttl f b h = ground (arith, found now k b, ==-refl k)

  entry_of-add_old :
      (now : ℕ) (k : String) (v : V) (ttl : ℕ) (f : Option ℕ) (b : List (Node V)) (n : Node V)
      → entry_of k b ≡ some n
      → entry_of k (bucket_add_or_update now k v ttl f b)
        ≡ some (record (update_time now n) { value = v })
  unfolding bucket_add_or_update
  entry_of-add_old now k v ttl f b n h =
      let b' = (find_entry_for now k b).1 in
      ground (arith, found now k b, ==-refl k, entry_of-find now k k b, entry_of-set_found k k v b')

  -- What a cleanup of a bucket leaves of an entry that was stored and read.
  pub bucket_read :
      (stored read cleaned ttl : ℕ) (k : String) (v : V) (f : Option ℕ) (b : List (Node V))
      → HasKeysOnce b
      → entry_of k b ≡ none
      → let after = (find_entry_for read k (bucket_add_or_update stored k v ttl f b)).1 in
        (view k after ≡ some v)
        × (view k (bucket_cleanup cleaned after).1
            ≡ (if nat_eqb ttl 0 || ltb cleaned (read + ttl) then some v else none))
  unfolding update_time expired
  bucket_read stored read cleaned ttl k v f b h new =
      let b1 = bucket_add_or_update stored k v ttl f b in
      let b2 = (find_entry_for read k b1).1 in
      let once = find-HasKeysOnce read k b1 (add-HasKeysOnce stored k v ttl f b h) in
      ground (
        arith,
        entry_of-add_new stored k v ttl f b new,
        entry_of-find read k k b1,
        ==-refl k,
        entry_of-cleanup cleaned k b2 once,
      )

  -- An entry that is stored again, and what a cleanup of the bucket leaves of it.
  pub bucket_update :
      (now cleaned ttl : ℕ) (k : String) (v : V) (f : Option ℕ) (b : List (Node V)) (n : Node V)
      → HasKeysOnce b
      → entry_of k b ≡ some n
      → let after = bucket_add_or_update now k v ttl f b in
        (entry_of k after
          ≡ some (record n {
            value = v;
            expires = if nat_eqb n.ttl 0 then none else some (now + n.ttl);
          }))
        × (view k (bucket_cleanup cleaned after).1
            ≡ (if nat_eqb n.ttl 0 || ltb cleaned (now + n.ttl) then some v else none))
  unfolding update_time expired
  bucket_update now cleaned ttl k v f b n h old =
      let b1 = bucket_add_or_update now k v ttl f b in
      (
        entry_of-add_old now k v ttl f b n old,
        ground (
          arith,
          entry_of-add_old now k v ttl f b n old,
          entry_of-cleanup cleaned k b1 (add-HasKeysOnce now k v ttl f b h),
        ),
      )
