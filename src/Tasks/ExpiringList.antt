-- ===== src/Tasks/ExpiringList.antt =====
-- `detail::ExpiringListT` of include/lib/graft/expiring_list.h, over the keys and values of
-- `Uuid_Input` of src/lib/graft/task.cpp. The steady clock is an argument, in milliseconds.
pub mod Lifetime
use graft_ng.Shared.{
  ℕ, ◌+◌, Bool, true, false, Option, none, some, List, [], ◌∷◌, ◌++◌, if◌then◌else◌, ltb, nat_eqb,
}

-- An entry of the deque: when it expires, its uuid, and the value that is kept with it.
pub record Entry (V : Type 0) : Type 0 where
  pub expires : ℕ
  pub uuid : ℕ
  pub value : V

module _ {V : Type 0} where
  -- From the first entry that is not before `now`: on entries in the order of their times, which
  -- is what the binary search of `std::lower_bound` gives.
  unfoldable pub lower_bound : ℕ → List (Entry V) → List (Entry V)
  lower_bound now [] = []
  lower_bound now (e ∷ es) = if ltb e.expires now then lower_bound now es else e ∷ es

  unfoldable pub chop : ℕ → List (Entry V) → List (Entry V)
  unfolding lower_bound
  chop now [] = []
  chop now (e ∷ es) = if ltb now e.expires then e ∷ es else lower_bound now es

  unfoldable pub add : ℕ → ℕ → ℕ → V → List (Entry V) → List (Entry V)
  unfolding chop
  add delta now uuid value es =
      chop now es ++ record { expires = now + delta; uuid = uuid; value = value } ∷ []

  -- The first entry with the uuid, and the entries without it.
  unfoldable pub find_and_erase : ℕ → List (Entry V) → Option V × List (Entry V)
  find_and_erase uuid [] = (none, [])
  find_and_erase uuid (e ∷ es) =
      let rest = find_and_erase uuid es in
      if nat_eqb e.uuid uuid then (some e.value, es) else (rest.0, e ∷ rest.1)

  -- `false` is `none`.
  unfoldable pub extract : ℕ → ℕ → List (Entry V) → Option V × List (Entry V)
  unfolding find_and_erase chop
  extract now uuid es = find_and_erase uuid (chop now es)
