-- ===== src/Rta/SupernodeList/Blocks.antt =====
-- The blockchain based lists: how long they are kept, and the tier of a supernode.
use graft_ng.Shared.{
  ℕ, zero, suc, ◌-◌, ◌^◌, ◌≤◌, ◌<◌, ◌≡◌, String, true, false, not, none, some, [], ◌∷◌, arith,
  if◌then◌else◌, ltb, nat_eqb, nat_eq, has_key, assign, lookup-assign, lookup-keep_keys,
}
use graft_ng.Rta.Crypto.{Crypto}
use graft_ng.Rta.SupernodeList.{
  Rng, BlockchainBasedList, FullSupernodeList, sub_u64, set_blockchain_based_list,
  find_blockchain_based_list, in_tier,
}

-- The newest block once a list for `block_number` has come.
abbrev pub newest : ℕ → ℕ → ℕ
newest old block_number = if ltb old block_number then block_number else old

module _ (c : Crypto) (g : Rng) where
  new_block_lookup :
      (history b j now : ℕ) (bbl : BlockchainBasedList) (l : FullSupernodeList c g)
      → has_key b l.blockchain_based_lists ≡ false
      → find_blockchain_based_list c g j (set_blockchain_based_list c g history b bbl now l) ≡ (
          if ltb j (sub_u64 (newest l.blockchain_based_list_max_block_number b) history)
          then none
          else if nat_eqb b j
          then some bbl
          else find_blockchain_based_list c g j l)
  unfolding set_blockchain_based_list find_blockchain_based_list
  new_block_lookup history b j now bbl l h =
      let max = newest l.blockchain_based_list_max_block_number b in
      let keep = λ (k : ℕ). not (ltb k (sub_u64 max history)) in
      ground (
        arith,
        lookup-keep_keys keep j (assign b bbl l.blockchain_based_lists),
        lookup-assign b j bbl l.blockchain_based_lists,
      )

  -- A list for a block that has none yet, where the newest block is not below the history size:
  -- afterwards exactly the blocks from the newest less the history size on are found, each with
  -- its list, the given block with the new one.
  pub set_blockchain_based_list_window :
      (history b j now : ℕ) (bbl : BlockchainBasedList) (l : FullSupernodeList c g)
      → has_key b l.blockchain_based_lists ≡ false
      → l.blockchain_based_list_max_block_number < 2 ^ 64
      → b < 2 ^ 64
      → history ≤ newest l.blockchain_based_list_max_block_number b
      → find_blockchain_based_list c g j (set_blockchain_based_list c g history b bbl now l) ≡ (
          if ltb j (newest l.blockchain_based_list_max_block_number b - history)
          then none
          else if nat_eqb b j
          then some bbl
          else find_blockchain_based_list c g j l)
  set_blockchain_based_list_window history b j now bbl l h hm hb hh =
      rw (new_block_lookup history b j now bbl l h)
        (rw (window (newest l.blockchain_based_list_max_block_number b) history (ground arith) hh))
    where
      window : (m k : ℕ) → m < 2 ^ 64 → k ≤ m → sub_u64 m k ≡ m - k
      window m k hm hk = omega arith

  -- Where the newest block is below the history size, the oldest block to keep wraps around: a
  -- list for a block that has none yet is dropped as soon as it is stored, and so is every other
  -- list for a block below 2 ^ 64 less the history size.
  pub set_blockchain_based_list_early :
      (history b j now : ℕ) (bbl : BlockchainBasedList) (l : FullSupernodeList c g)
      → has_key b l.blockchain_based_lists ≡ false
      → history ≤ 2 ^ 64
      → newest l.blockchain_based_list_max_block_number b < history
      → j < 2 ^ 64 - history
      → find_blockchain_based_list c g j (set_blockchain_based_list c g history b bbl now l) ≡ none
  set_blockchain_based_list_early history b j now bbl l h hs hh hj =
      rw (new_block_lookup history b j now bbl l h)
        (rw (wrapped (newest l.blockchain_based_list_max_block_number b) history j hs hh hj))
    where
      wrapped : (m k i : ℕ) → k ≤ 2 ^ 64 → m < k → i < 2 ^ 64 - k → ltb i (sub_u64 m k) ≡ true
      wrapped m k i hk hm hi = ground arith

-- The list at a position of the tiers, counted from 1, names the supernode.
abbrev pub NamedAt : String → ℕ → BlockchainBasedList → Type 0
NamedAt id n [] = ⊥
NamedAt id zero (t ∷ ts) = ⊥
NamedAt id (suc zero) (t ∷ ts) = in_tier id t ≡ true
NamedAt id (suc (suc n)) (t ∷ ts) = (in_tier id t ≡ false) × NamedAt id (suc n) ts

-- No tier names it.
abbrev pub Unnamed : String → BlockchainBasedList → Type 0
Unnamed id [] = Unit {0}
Unnamed id (t ∷ ts) = (in_tier id t ≡ false) × Unnamed id ts
