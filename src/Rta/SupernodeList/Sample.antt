-- ===== src/Rta/SupernodeList/Sample.antt =====
-- `FullSupernodeList::buildAuthSample` and `getBlockchainBasedListForAuthSample`. The lock is
-- released between the two, so that a caller may see other calls in between: here there are none.
pub mod Reachable
pub mod Size
pub mod Fresh
use graft_ng.Shared.{
  ℕ, suc, ◌+◌, ◌-◌, ◌%◌, ◌^◌, String, Bool, true, false, Option, none, some, List, [], ◌∷◌, ◌++◌,
  map, if◌then◌else◌, not, ltb, nat_eqb, nat_eq, string_eq, lookup, length, take, filter_by,
}
use graft_ng.Rta.Crypto.{Crypto}
use graft_ng.Rta.Supernode.{Supernode}
use graft_ng.Rta.SupernodeList.{
  Rng, BlockchainBasedListTier, BlockchainBasedListEntry, BlockchainBasedList, FullSupernodeList,
  sub_u64, blockchain_based_list_delay_block_count, announce_ttl_seconds, auth_sample_size,
}
use graft_ng.Rta.SupernodeList.Select.{Selection, select_supernodes}
use graft_ng.Rta.SupernodeList.Balance.{Four, balance, set4}

module _ (c : Crypto) where
  -- The clock goes through 32 unsigned bits, and the age through 64.
  unfoldable pub last_update_age : ℕ → Supernode c → ℕ
  last_update_age now sn = sub_u64 (now % 2 ^ 32) sn.last_update_time

  unfoldable pub is_reachable : List (String × Supernode c) → ℕ → BlockchainBasedListEntry → Bool
  unfolding last_update_age
  is_reachable known now entry = elim (lookup entry.supernode_public_id known) [
    | none ↦ false
    | some sn ↦ if ltb announce_ttl_seconds (last_update_age now sn) then false else true
  ]

module _ (c : Crypto) (g : Rng) where
  -- The list that is passed by reference is replaced unless the answer is 0 for a missing block.
  unfoldable pub get_blockchain_based_list_for_auth_sample :
      ℕ → ℕ → BlockchainBasedList → FullSupernodeList c g → ℕ × BlockchainBasedList
  unfolding is_reachable
  get_blockchain_based_list_for_auth_sample block_number now list l =
      elim (lookup block_number l.blockchain_based_lists) [
        | none ↦ (0, list)
        | some bbl ↦ (
          sub_u64 block_number blockchain_based_list_delay_block_count,
          map (filter_by (is_reachable c l.list now)) bbl,
        )
      ]

  pub record TierSelection : Type 0 where
    pub ok : Bool
    pub rng : g.State
    pub tier_supernodes : Four (List (Supernode c))

  -- The loop over the tiers, at most `rounds` of them, from tier i on.
  unfoldable pub select_tiers :
      ℕ
      → ℕ
      → BlockchainBasedList
      → FullSupernodeList c g
      → Four (List (Supernode c))
      → TierSelection
  unfolding select_supernodes
  select_tiers rounds i [] l acc = record { ok = true; rng = l.rng; tier_supernodes = acc }
  select_tiers ℕ.zero i (t ∷ ts) l acc = record { ok = true; rng = l.rng; tier_supernodes = acc }
  select_tiers (suc rounds) i (t ∷ ts) l acc =
      let s = select_supernodes c g auth_sample_size t [] l in
      let rest = select_tiers rounds (i + 1) ts (record l { rng = s.rng }) (set4 acc i s.dst) in
      if not s.ok then record { ok = false; rng = s.rng; tier_supernodes = acc } else rest

  -- What a call leaves: the generator's state in the list, the two outputs, and the answer.
  pub record Sample : Type 0 where
    pub list : FullSupernodeList c g
    pub out : List (Supernode c)
    pub out_auth_block_number : ℕ
    pub answer : Bool

  abbrev pub no_supernodes : Four (List (Supernode c))
  no_supernodes = record { at0 = []; at1 = []; at2 = []; at3 = [] }

  abbrev pub sizes : Four (List (Supernode c)) → Four ℕ
  sizes t = record {
    at0 = length t.at0;
    at1 = length t.at1;
    at2 = length t.at2;
    at3 = length t.at3;
  }

  -- `std::copy` of the first `select[i]` supernodes of each tier.
  unfoldable pub chosen : Four (List (Supernode c)) → List (Supernode c)
  chosen t =
      let select = balance (sizes t) in
      take select.at0 t.at0
      ++ (take select.at1 t.at1 ++ (take select.at2 t.at2 ++ take select.at3 t.at3))

  -- The second half, with the block number and the list that the first half found.
  unfoldable pub draw_sample :
      String → ℕ → BlockchainBasedList → List (Supernode c) → FullSupernodeList c g → Sample
  draw_sample payment_id auth_block_number bbl out l =
      let selected = select_tiers 4 0 bbl (record l { rng = g.seed payment_id }) no_supernodes in
      let sample = take auth_sample_size (chosen selected.tier_supernodes) in
      if nat_eqb auth_block_number 0
      then record { list = l; out = out; out_auth_block_number = auth_block_number; answer = false }
      else if not selected.ok
      then record {
        list = record l { rng = selected.rng };
        out = out;
        out_auth_block_number = auth_block_number;
        answer = false;
      }
      else record {
        list = record l { rng = selected.rng };
        out = sample;
        out_auth_block_number = auth_block_number;
        answer = nat_eqb (length sample) auth_sample_size;
      }

  unfoldable pub build_auth_sample :
      ℕ → String → ℕ → List (Supernode c) → FullSupernodeList c g → Sample
  unfolding get_blockchain_based_list_for_auth_sample draw_sample
  build_auth_sample height payment_id now out l =
      let found = get_blockchain_based_list_for_auth_sample height now [] l in
      draw_sample payment_id found.0 found.1 out l

  unfoldable pub build_latest_auth_sample :
      String → ℕ → List (Supernode c) → FullSupernodeList c g → Sample
  unfolding build_auth_sample
  build_latest_auth_sample payment_id now out l =
      build_auth_sample l.blockchain_based_list_max_block_number payment_id now out l
