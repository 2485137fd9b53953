-- ===== src/Rta/SupernodeList/Select.antt =====
-- `FullSupernodeList::selectSupernodes`: a random choice of supernodes from one tier, in order.
pub mod Count
use graft_ng.Shared.{
  ℕ, suc, ◌-◌, ◌%◌, min, String, Bool, true, false, Option, none, some, List, [], ◌∷◌, ◌++◌,
  if◌then◌else◌, ltb, leb, string_eq, lookup, length,
}
use graft_ng.Rta.Crypto.{Crypto}
use graft_ng.Rta.Supernode.{Supernode}
use graft_ng.Rta.SupernodeList.{Rng, BlockchainBasedListTier, FullSupernodeList}

module _ (c : Crypto) (g : Rng) where
  -- The state of the generator, and the array that is filled, come back in every case.
  pub record Selection : Type 0 where
    pub ok : Bool
    pub rng : g.State
    pub dst : List (Supernode c)

  -- The loop. The entries that are left stand for `src_array_size - i`.
  unfoldable pub select_from :
      List (String × Supernode c)
      → BlockchainBasedListTier
      → ℕ
      → g.State
      → List (Supernode c)
      → Selection
  select_from known [] items_count rng dst = record { ok = true; rng = rng; dst = dst }
  select_from known (e ∷ es) items_count rng dst = elim (lookup e.supernode_public_id known) [
    | none ↦ record { ok = false; rng = rng; dst = dst }
    | some supernode ↦
        let random_value = (g.next rng).0 % length (e ∷ es) in
        let skipped = leb items_count random_value in
        select_from known es (if skipped then items_count else items_count - 1) (g.next rng).1
          (if skipped then dst else dst ++ supernode ∷ [])
  ]

  unfoldable pub select_supernodes :
      ℕ → BlockchainBasedListTier → List (Supernode c) → FullSupernodeList c g → Selection
  unfolding select_from
  select_supernodes items_count src_array dst l =
      select_from l.list src_array
        (if ltb (length src_array) items_count then length src_array else items_count) l.rng dst
