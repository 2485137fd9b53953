-- ===== src/Context.antt =====
-- `TSHashtable` and `TSList` of include/lib/graft/graft_utility.hpp, which hold the global context of
-- include/lib/graft/context.h. A call is one step: the locks are left out. The steady clock is an
-- argument, in whole seconds. A callback for an expired entry is a number, and the calls are listed.
-- The groups of keys, which are weak pointers to entries, are left out.
pub mod Entries
pub mod Refines
pub mod Expiry
pub mod Lives
mod Examples
use graft_ng.Shared.{
  ℕ, zero, suc, ◌+◌, ◌%◌, String, Bool, true, false, Option, none, some, List, [], ◌∷◌, ◌++◌,
  if◌then◌else◌, leb, nat_eqb, ◌==◌, string_eq, length,
}

-- `TSList::node`: `none` is `seconds::max()`.
pub record Node (V : Type 0) : Type 0 where
  pub key : String
  pub value : V
  pub ttl : ℕ
  pub expires : Option ℕ
  pub on_expired : Option ℕ

abbrev pub passed : ℕ → Option ℕ → Bool
passed now none = false
passed now (some e) = leb e now

module _ {V : Type 0} where
  unfoldable pub update_time : ℕ → Node V → Node V
  update_time now n = record n { expires = if nat_eqb n.ttl 0 then none else some (now + n.ttl) }

  unfoldable pub expired : ℕ → Node V → Bool
  expired now n = passed now n.expires

  unfoldable pub push_front : ℕ → String → V → ℕ → Option ℕ → List (Node V) → List (Node V)
  unfolding update_time
  push_front now key value ttl on_expired b =
      update_time now
        (record { key = key; value = value; ttl = ttl; expires = none; on_expired = on_expired })
      ∷ b

  -- `findFirstOf` for a key: the entry that is found is touched.
  unfoldable pub find_entry_for : ℕ → String → List (Node V) → Option V × List (Node V)
  unfolding update_time
  find_entry_for now key [] = (none, [])
  find_entry_for now key (n ∷ b) =
      let rest = find_entry_for now key b in
      if n.key == key then (some n.value, update_time now n ∷ b) else (rest.0, n ∷ rest.1)

  -- What is written through the pointer that `findFirstOf` returns.
  unfoldable pub set_found : String → V → List (Node V) → List (Node V)
  set_found key value [] = []
  set_found key value (n ∷ b) =
      if n.key == key then record n { value = value } ∷ b else n ∷ set_found key value b

  abbrev pub or_default : V → Option V → V
  or_default d none = d
  or_default d (some v) = v

  abbrev pub is_found : Option V → Bool
  is_found none = false
  is_found (some v) = true

  -- The operations of a bucket.
  unfoldable pub bucket_add_or_update :
      ℕ → String → V → ℕ → Option ℕ → List (Node V) → List (Node V)
  unfolding find_entry_for set_found push_front
  bucket_add_or_update now key value ttl on_expired b =
      let res = find_entry_for now key b in
      if is_found res.0
      then set_found key value res.1
      else push_front now key value ttl on_expired res.1

  -- `removeIf`: every entry with the key.
  unfoldable pub bucket_remove : String → List (Node V) → List (Node V)
  bucket_remove key [] = []
  bucket_remove key (n ∷ b) =
      let rest = bucket_remove key b in if n.key == key then rest else n ∷ rest

  -- The value is changed in place, and the answer of the function is passed on.
  unfoldable pub bucket_apply : ℕ → String → (V → Bool × V) → List (Node V) → Bool × List (Node V)
  unfolding update_time
  bucket_apply now key f [] = (false, [])
  bucket_apply now key f (n ∷ b) =
      let rest = bucket_apply now key f b in
      if n.key == key
      then ((f n.value).0, record (update_time now n) { value = (f n.value).1 } ∷ b)
      else (rest.0, n ∷ rest.1)

  abbrev pub called : Node V → List (ℕ × String × V)
  called n = elim n.on_expired [ none ↦ [] | some f ↦ (f, n.key, n.value) ∷ [] ]

  -- `safe_cleanup`: the calls, and the entries that are left.
  unfoldable pub bucket_cleanup : ℕ → List (Node V) → List (ℕ × String × V) × List (Node V)
  unfolding expired
  bucket_cleanup now [] = ([], [])
  bucket_cleanup now (n ∷ b) =
      let rest = bucket_cleanup now b in
      if expired now n then (called n ++ rest.0, rest.1) else (rest.0, n ∷ rest.1)

-- The buckets, and the index of the one that is cleaned next.
pub record Table (V : Type 0) : Type 0 where
  pub buckets : List (List (Node V))
  pub bit : ℕ

abbrev pub nth {ℓ} : {A : Type ℓ} → ℕ → List (List A) → List A
nth i [] = []
nth zero (b ∷ bs) = b
nth (suc i) (b ∷ bs) = nth i bs

abbrev pub put_nth {ℓ} : {A : Type ℓ} → ℕ → A → List A → List A
put_nth i v [] = []
put_nth zero v (b ∷ bs) = v ∷ bs
put_nth (suc i) v (b ∷ bs) = b ∷ put_nth i v bs

module _ {V : Type 0} (hasher : String → ℕ) where
  unfoldable pub bucket_index : String → Table V → ℕ
  bucket_index key t = hasher key % length t.buckets

  abbrev pub get_bucket : String → Table V → List (Node V)
  get_bucket key t = nth (bucket_index key t) t.buckets

  abbrev pub put_bucket : String → List (Node V) → Table V → Table V
  put_bucket key b t = record t { buckets = put_nth (bucket_index key t) b t.buckets }

  unfoldable pub value_for : ℕ → String → V → Table V → V × Table V
  unfolding find_entry_for
  value_for now key default_value t =
      let res = find_entry_for now key (get_bucket key t) in
      (or_default default_value res.0, put_bucket key res.1 t)

  unfoldable pub has_key : ℕ → String → Table V → Bool × Table V
  unfolding find_entry_for
  has_key now key t =
      let res = find_entry_for now key (get_bucket key t) in
      (is_found res.0, put_bucket key res.1 t)

  unfoldable pub add_or_update : ℕ → String → V → ℕ → Option ℕ → Table V → Table V
  unfolding bucket_add_or_update
  add_or_update now key value ttl on_expired t =
      put_bucket key (bucket_add_or_update now key value ttl on_expired (get_bucket key t)) t

  unfoldable pub remove : String → Table V → Table V
  unfolding bucket_remove
  remove key t = put_bucket key (bucket_remove key (get_bucket key t)) t

  unfoldable pub apply : ℕ → String → (V → Bool × V) → Table V → Bool × Table V
  unfolding bucket_apply
  apply now key f t =
      let res = bucket_apply now key f (get_bucket key t) in (res.0, put_bucket key res.1 t)

  -- `cleanup(false)`: one bucket, and the iterator goes on to the next.
  unfoldable pub cleanup : ℕ → Table V → List (ℕ × String × V) × Table V
  unfolding bucket_cleanup
  cleanup now t =
      let res = bucket_cleanup now (nth t.bit t.buckets) in
      (
        res.0,
        record {
          buckets = put_nth t.bit res.1 t.buckets;
          bit = if nat_eqb (t.bit + 1) (length t.buckets) then 0 else t.bit + 1;
        },
      )

-- The constructor.
unfoldable pub new_table : {V : Type 0} → ℕ → Table V
new_table num_buckets = record { buckets = empty num_buckets; bit = 0 }
  where
    empty : {V : Type 0} → ℕ → List (List (Node V))
    empty zero = []
    empty (suc n) = [] ∷ empty n
