-- ===== src/Context/Lives.antt =====
-- How long an entry of the table lives.
use native.Mathlib.Nat.{mod-lt}
use graft_ng.Shared.{
  ℕ, zero, suc, ◌+◌, ◌%◌, ◌<◌, ◌≡◌, refl, sym, ◌∙◌, ap, String, Option, none, some, List, [], ◌∷◌,
  arith, if◌then◌else◌, ltb, nat_eqb, ◌||◌, string_eq, length,
}
use graft_ng.Context.{
  Node, Table, nth, put_nth, bucket_index, get_bucket, put_bucket, value_for, add_or_update,
  cleanup, or_default, find_entry_for, bucket_add_or_update, bucket_cleanup,
}
use graft_ng.Context.Entries.{entry_of, value_of, view, view-find, found}
use graft_ng.Context.Expiry.{HasKeysOnce, bucket_read, bucket_update}
use graft_ng.Context.Refines.{sees, length-put_nth}

nth-put_nth_within {ℓ} :
    {A : Type ℓ}
    → (i j : ℕ) (v : List A) (bs : List (List A)) → j < length bs
    → nth j (put_nth i v bs) ≡ (if nat_eqb i j then v else nth j bs)
nth-put_nth_within i j v [] h = ground arith
nth-put_nth_within zero zero v (b ∷ bs) h = refl
nth-put_nth_within zero (suc j) v (b ∷ bs) h = ground arith
nth-put_nth_within (suc i) zero v (b ∷ bs) h = ground arith
nth-put_nth_within (suc i) (suc j) v (b ∷ bs) h = ground (arith, nth-put_nth_within i j v bs)

module _ {V : Type 0} (hasher : String → ℕ) where
  -- A bucket that is put back is the one that is looked up next.
  get-put_bucket :
      (k : String) (b : List (Node V)) (t : Table V)
      → 0 < length t.buckets
      → get_bucket hasher k (put_bucket hasher k b t) ≡ b
  unfolding bucket_index
  get-put_bucket k b t h =
      let n = length t.buckets in
      ground (
        arith,
        length-put_nth (hasher k % n) b t.buckets,
        nth-put_nth_within (hasher k % n) (hasher k % n) b t.buckets (mod-lt (hasher k) h),
      )

  index-put_bucket :
      (k : String) (b : List (Node V)) (t : Table V)
      → bucket_index hasher k (put_bucket hasher k b t) ≡ bucket_index hasher k t
  unfolding bucket_index
  index-put_bucket k b t =
      ap (λ n. hasher k % n) (length-put_nth (hasher k % length t.buckets) b t.buckets)

  -- What a cleanup leaves for a key: its bucket is cleaned if its turn has come.
  sees-cleanup :
      (now : ℕ) (k : String) (t : Table V)
      → 0 < length t.buckets
      → sees hasher (cleanup hasher now t).1 k ≡ (
          if nat_eqb t.bit (bucket_index hasher k t)
          then view k (bucket_cleanup now (get_bucket hasher k t)).1
          else sees hasher t k)
  unfolding bucket_index cleanup
  sees-cleanup now k t h =
      let n = length t.buckets in
      let left = (bucket_cleanup now (nth t.bit t.buckets)).1 in
      ground (
        arith,
        length-put_nth t.bit left t.buckets,
        nth-put_nth_within t.bit (hasher k % n) left t.buckets (mod-lt (hasher k) h),
      )

  sees-cleanup_put :
      (now : ℕ) (k : String) (b : List (Node V)) (t : Table V)
      → 0 < length t.buckets
      → sees hasher (cleanup hasher now (put_bucket hasher k b t)).1 k ≡ (
          if nat_eqb t.bit (bucket_index hasher k t)
          then view k (bucket_cleanup now b).1
          else view k b)
  sees-cleanup_put now k b t h =
      let i = bucket_index hasher k t in
      rw
        (
          sees-cleanup now k (put_bucket hasher k b t)
              (ground (arith, h, length-put_nth i b t.buckets)),
          get-put_bucket k b t h,
          index-put_bucket k b t,
        )
        refl

  -- A value that is stored under a new key of the table and read later, before a cleanup comes by, is
  -- what the reader gets, however much later that is. The next cleanup removes it exactly when it is
  -- the turn of the bucket of the key, the value has a life time, and that has passed since it was
  -- read: reading keeps an entry alive.
  pub read_extends_life :
      (stored read cleaned ttl : ℕ) (k : String) (v default_value : V) (f : Option ℕ) (t : Table V)
      → 0 < length t.buckets
      → HasKeysOnce (get_bucket hasher k t)
      → entry_of k (get_bucket hasher k t) ≡ none
      → let after =
          value_for hasher read k default_value (add_or_update hasher stored k v ttl f t) in
        (after.0 ≡ v)
        × (sees hasher (cleanup hasher cleaned after.1).1 k ≡ (
            if nat_eqb t.bit (bucket_index hasher k t)
            then (if nat_eqb ttl 0 || ltb cleaned (read + ttl) then some v else none)
            else some v))
  unfolding value_for add_or_update
  read_extends_life stored read cleaned ttl k v default_value f t h once new =
      let b1 = bucket_add_or_update stored k v ttl f (get_bucket hasher k t) in
      let t1 = put_bucket hasher k b1 t in
      let b2 = (find_entry_for read k b1).1 in
      let (there, left) =
        bucket_read stored read cleaned ttl k v f (get_bucket hasher k t) once new in
      let i = bucket_index hasher k t in
      let h1 : 0 < length t1.buckets = ground (arith, h, length-put_nth i b1 t.buckets) in
      (
        rw (get-put_bucket k b1 t h) (
            ap (or_default default_value)
              (found read k b1 ∙ (sym (view-find read k k b1) ∙ there))),
        rw (get-put_bucket k b1 t h)
            (rw (sees-cleanup_put cleaned k b2 t1 h1, index-put_bucket k b1 t, left, there) refl),
      )

  -- Storing a value under a key that is there keeps the life time and the callback with which the
  -- key was first stored, and starts that life time anew: the next cleanup removes the new value
  -- exactly when it is the turn of the bucket of the key, the first life time is not none, and it
  -- has passed since. The life time and the callback that come with the new value have no effect.
  pub first_ttl_stays :
      (now cleaned ttl : ℕ) (k : String) (v : V) (f : Option ℕ) (t : Table V) (n : Node V)
      → 0 < length t.buckets
      → HasKeysOnce (get_bucket hasher k t)
      → entry_of k (get_bucket hasher k t) ≡ some n
      → let after = add_or_update hasher now k v ttl f t in
        (entry_of k (get_bucket hasher k after)
          ≡ some (record n {
            value = v;
            expires = if nat_eqb n.ttl 0 then none else some (now + n.ttl);
          }))
        × (sees hasher (cleanup hasher cleaned after).1 k ≡ (
            if nat_eqb t.bit (bucket_index hasher k t)
            then (if nat_eqb n.ttl 0 || ltb cleaned (now + n.ttl) then some v else none)
            else some v))
  unfolding add_or_update
  first_ttl_stays now cleaned ttl k v f t n h once old =
      let b1 = bucket_add_or_update now k v ttl f (get_bucket hasher k t) in
      let (entry, left) = bucket_update now cleaned ttl k v f (get_bucket hasher k t) n once old in
      (
        rw (get-put_bucket k b1 t h) entry,
        rw (sees-cleanup_put cleaned k b1 t h, left, ap value_of entry) refl,
      )
