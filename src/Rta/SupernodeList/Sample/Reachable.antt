-- ===== src/Rta/SupernodeList/Sample/Reachable.antt =====
-- The tiers that a sample is drawn from name only known supernodes.
use graft_ng.Shared.{ℕ, String, List, [], ◌∷◌, map, arith, string_eq, All, filter_by}
use graft_ng.Rta.Crypto.{Crypto}
use graft_ng.Rta.Supernode.{Supernode}
use graft_ng.Rta.SupernodeList.{Rng, BlockchainBasedListTier, BlockchainBasedList}
use graft_ng.Rta.SupernodeList.Select.Count.{AllKnown}
use graft_ng.Rta.SupernodeList.Sample.{is_reachable}

module _ (c : Crypto) (g : Rng) where
  filter_by-AllKnown :
      (known : List (String × Supernode c)) (now : ℕ) (es : BlockchainBasedListTier)
      → AllKnown c g known (filter_by (is_reachable c known now) es)
  unfolding is_reachable
  filter_by-AllKnown known now [] = tt
  filter_by-AllKnown known now (e ∷ es) = ground (arith, filter_by-AllKnown known now es)

  abbrev pub reachable : List (String × Supernode c) → ℕ → BlockchainBasedList → BlockchainBasedList
  reachable known now bbl = map (filter_by (is_reachable c known now)) bbl

  pub reachable-AllKnown :
      (known : List (String × Supernode c)) (now : ℕ) (bbl : BlockchainBasedList)
      → All (AllKnown c g known) (reachable known now bbl)
  reachable-AllKnown known now [] = tt
  reachable-AllKnown known now (t ∷ ts) =
      (filter_by-AllKnown known now t, reachable-AllKnown known now ts)
