-- ===== src/Context/Examples.antt =====
-- The theorems on the global context at concrete inputs.
use text.Mathlib.Text.{◌==◌ as str_eq}
use graft_ng.Shared.{
  ℕ, ◌+◌, ◌≡◌, refl, String, Bool, true, none, some, [], ◌∷◌, arith, if◌then◌else◌, ◌||◌, string_eq,
  nat_eqb, ltb,
}
use graft_ng.Context.{
  Node, Table, value_for, has_key, add_or_update, remove, apply, or_default, is_found, cleanup,
  bucket_index, get_bucket,
}
use graft_ng.Context.Entries.{entry_of, answered}
use graft_ng.Context.Refines.{sees, calls_refine_map}
use graft_ng.Context.Lives.{read_extends_life, first_ttl_stays}

abbrev waiting : Node ℕ
waiting = record { key = "p:status"; value = 1; ttl = 60; expires = some 160; on_expired = none }

abbrev for_ever : Node ℕ
for_ever = record { key = "q:status"; value = 2; ttl = 0; expires = none; on_expired = some 4 }

abbrev two_buckets : Table ℕ
two_buckets = record { buckets = (waiting ∷ for_ever ∷ []) ∷ [] ∷ []; bit = 0 }

-- The second bucket is cleaned next.
abbrev spread : Table ℕ
spread = record { buckets = (waiting ∷ for_ever ∷ []) ∷ [] ∷ []; bit = 1 }

abbrev to_first : String → ℕ
to_first s = if str_eq s "r:status" then 7 else 4

abbrev count_down : ℕ → Bool × ℕ
count_down n = (true, n + 5)

calls_refine_map_example :
    ((value_for to_first 100 "p:status" 3 two_buckets).0
      ≡ or_default 3 (sees to_first two_buckets "p:status"))
    × (sees to_first (value_for to_first 100 "p:status" 3 two_buckets).1 "r:status"
        ≡ sees to_first two_buckets "r:status")
    × ((has_key to_first 100 "p:status" two_buckets).0
        ≡ is_found (sees to_first two_buckets "p:status"))
    × (sees to_first (has_key to_first 100 "p:status" two_buckets).1 "r:status"
        ≡ sees to_first two_buckets "r:status")
    × (sees to_first (add_or_update to_first 100 "p:status" 3 60 none two_buckets) "r:status"
        ≡ sees to_first two_buckets "r:status")
    × (sees to_first (remove to_first "p:status" two_buckets) "r:status"
        ≡ sees to_first two_buckets "r:status")
    × ((apply to_first 100 "p:status" count_down two_buckets).0
        ≡ answered count_down (sees to_first two_buckets "p:status"))
    × (sees to_first (apply to_first 100 "p:status" count_down two_buckets).1 "r:status"
        ≡ sees to_first two_buckets "r:status")
calls_refine_map_example =
    calls_refine_map to_first 100 60 "p:status" "r:status" 3 none count_down two_buckets
      (omega arith)

read_extends_life_example :
    let after =
      value_for to_first 150 "r:status" 0
        (add_or_update to_first 100 "r:status" 3 60 none spread) in
    (after.0 ≡ 3)
    × (sees to_first (cleanup to_first 200 after.1).1 "r:status" ≡ (
        if nat_eqb 1 (bucket_index to_first "r:status" spread)
        then (if nat_eqb 60 0 || ltb 200 (150 + 60) then some 3 else none)
        else some 3))
unfolding bucket_index
read_extends_life_example =
    read_extends_life to_first 100 150 200 60 "r:status" 3 0 none spread (omega arith) tt refl

first_ttl_stays_example :
    let after = add_or_update to_first 100 "q:status" 3 60 (some 9) two_buckets in
    (entry_of "q:status" (get_bucket to_first "q:status" after)
      ≡ some
          (record for_ever { value = 3; expires = if nat_eqb 0 0 then none else some (100 + 0) }))
    × (sees to_first (cleanup to_first 900 after).1 "q:status" ≡ (
        if nat_eqb 0 (bucket_index to_first "q:status" two_buckets)
        then (if nat_eqb 0 0 || ltb 900 (100 + 0) then some 3 else none)
        else some 3))
unfolding bucket_index
first_ttl_stays_example =
    first_ttl_stays to_first 100 900 60 "q:status" 3 (some 9) two_buckets for_ever (omega arith)
      (refl, (refl, tt)) refl
