-- ===== src/Rta/SupernodeList/Sample/Size.antt =====
-- The size of a sample.
use graft_ng.Shared.{
  ℕ, zero, suc, ◌+◌, ◌≤◌, ◌<◌, min, ◌≡◌, ◌≢◌, refl, ◌↔◌, String, true, none, some, List, [], ◌∷◌,
  ◌++◌, arith, length, length-append, length-take, All, take, lookup, nat_eq, nat_eqb,
}
use graft_ng.Rta.Crypto.{Crypto}
use graft_ng.Rta.Supernode.{Supernode}
use graft_ng.Rta.SupernodeList.{
  Rng, BlockchainBasedList, FullSupernodeList, sub_u64, blockchain_based_list_delay_block_count,
}
use graft_ng.Rta.SupernodeList.Balance.{Four, set4, total, balance}
use graft_ng.Rta.SupernodeList.Balance.Inv.{balance_fills}
use graft_ng.Rta.SupernodeList.Select.{select_supernodes}
use graft_ng.Rta.SupernodeList.Select.Count.{AllKnown, select_supernodes_count}
use graft_ng.Rta.SupernodeList.Sample.{
  select_tiers, draw_sample, no_supernodes, sizes, chosen, build_auth_sample,
  get_blockchain_based_list_for_auth_sample,
}
use graft_ng.Rta.SupernodeList.Sample.Reachable.{reachable, reachable-AllKnown}

-- How many supernodes the first tiers of a list name together.
abbrev pub in_first_tiers : ℕ → BlockchainBasedList → ℕ
in_first_tiers rounds [] = 0
in_first_tiers zero (t ∷ ts) = 0
in_first_tiers (suc rounds) (t ∷ ts) = length t + in_first_tiers rounds ts

-- The same with at most eight of each tier.
abbrev drawn : ℕ → BlockchainBasedList → ℕ
drawn rounds [] = 0
drawn zero (t ∷ ts) = 0
drawn (suc rounds) (t ∷ ts) = min 8 (length t) + drawn rounds ts

min-drawn :
    (rounds : ℕ) (bbl : BlockchainBasedList)
    → min 8 (drawn rounds bbl) ≡ min 8 (in_first_tiers rounds bbl)
min-drawn rounds [] = omega arith
min-drawn zero (t ∷ ts) = omega arith
min-drawn (suc rounds) (t ∷ ts) = omega (arith, min-drawn rounds ts)

module _ (c : Crypto) (g : Rng) where
  abbrev EmptyFrom : ℕ → Four (List (Supernode c)) → Type 0
  EmptyFrom i acc =
      (i ≤ 0 → length acc.at0 ≡ 0)
      × (i ≤ 1 → length acc.at1 ≡ 0)
      × (i ≤ 2 → length acc.at2 ≡ 0)
      × (i ≤ 3 → length acc.at3 ≡ 0)

  EmptyFrom-set4 :
      (i : ℕ) (acc : Four (List (Supernode c))) (d : List (Supernode c))
      → EmptyFrom i acc
      → EmptyFrom (i + 1) (set4 acc i d)
  EmptyFrom-set4 zero acc d h = omega (arith, h.1, h.2, h.3)
  EmptyFrom-set4 (suc zero) acc d h = omega (arith, h.1, h.2, h.3)
  EmptyFrom-set4 (suc (suc zero)) acc d h = omega (arith, h.1, h.2, h.3)
  EmptyFrom-set4 (suc (suc (suc i))) acc d h = omega (arith, h.1, h.2, h.3)

  total-set4 :
      (i : ℕ) (acc : Four (List (Supernode c))) (d : List (Supernode c))
      → i < 4
      → EmptyFrom i acc
      → total (sizes c g (set4 acc i d)) ≡ total (sizes c g acc) + length d
  total-set4 zero acc d lt h = omega (arith, h.0)
  total-set4 (suc zero) acc d lt h = omega (arith, h.1)
  total-set4 (suc (suc zero)) acc d lt h = omega (arith, h.2)
  total-set4 (suc (suc (suc i))) acc d lt h = omega (arith, h.3)

  select_tiers-total :
      (rounds i : ℕ) (bbl : BlockchainBasedList) (l : FullSupernodeList c g)
      (acc : Four (List (Supernode c)))
      → rounds + i ≡ 4
      → EmptyFrom i acc
      → All (AllKnown c g l.list) bbl
      → ((select_tiers c g rounds i bbl l acc).ok ≡ true)
        × (total (sizes c g (select_tiers c g rounds i bbl l acc).tier_supernodes)
            ≡ total (sizes c g acc) + drawn rounds bbl)
  unfolding select_tiers
  select_tiers-total rounds i [] l acc e h k = (refl, omega arith)
  select_tiers-total zero i (t ∷ ts) l acc e h k = (refl, omega arith)
  select_tiers-total (suc rounds) i (t ∷ ts) l acc e h k =
      let s = select_supernodes c g 8 t [] l in
      let count = select_supernodes_count c g 8 t [] l k.0 in
      let ih =
        select_tiers-total rounds (i + 1) ts (record l { rng = s.rng }) (set4 acc i s.dst)
          (omega arith) (EmptyFrom-set4 i acc s.dst h) k.1 in
      let sum = total-set4 i acc s.dst (omega arith) h in
      rw (count.0) (ih.0, omega (arith, ih.1, sum, count.1))

  length-chosen :
      (t : Four (List (Supernode c))) → length (chosen c g t) ≡ min 8 (total (sizes c g t))
  unfolding chosen
  length-chosen t =
      let s = balance (sizes c g t) in
      let a = take s.at0 t.at0 in
      let b = take s.at1 t.at1 in
      let d = take s.at2 t.at2 in
      let e = take s.at3 t.at3 in
      omega (
        arith,
        balance_fills (sizes c g t),
        length-append a (b ++ (d ++ e)),
        length-append b (d ++ e),
        length-append d e,
        length-take s.at0 t.at0,
        length-take s.at1 t.at1,
        length-take s.at2 t.at2,
        length-take s.at3 t.at3,
      )

  -- The outcome of the second half when the selection succeeds.
  draw_sample_ok :
      (payment_id : String) (n : ℕ) (bbl : BlockchainBasedList) (out : List (Supernode c))
      (l : FullSupernodeList c g)
      → n ≢ 0
      → let st =
          select_tiers c g 4 0 bbl (record l { rng = g.seed payment_id }) (no_supernodes c g) in
        st.ok ≡ true
        → draw_sample c g payment_id n bbl out l ≡ record {
          list = record l { rng = st.rng };
          out = take 8 (chosen c g st.tier_supernodes);
          out_auth_block_number = n;
          answer = nat_eqb (length (take 8 (chosen c g st.tier_supernodes))) 8;
        }
  unfolding draw_sample
  draw_sample_ok payment_id n bbl out l h e = ground arith

  pub found_list :
      (height now : ℕ) (l : FullSupernodeList c g) (bbl : BlockchainBasedList)
      → lookup height l.blockchain_based_lists ≡ some bbl
      → get_blockchain_based_list_for_auth_sample c g height now [] l
        ≡ (sub_u64 height blockchain_based_list_delay_block_count, reachable c g l.list now bbl)
  unfolding get_blockchain_based_list_for_auth_sample
  found_list height now l bbl found = rw (found, get_blockchain_based_list_for_auth_sample)

  pub missing_list :
      (height now : ℕ) (l : FullSupernodeList c g)
      → lookup height l.blockchain_based_lists ≡ none
      → get_blockchain_based_list_for_auth_sample c g height now [] l ≡ (0, [])
  unfolding get_blockchain_based_list_for_auth_sample
  missing_list height now l missing = rw (missing, get_blockchain_based_list_for_auth_sample)

  -- When a blockchain based list is known for the height, and the height is not 10, the sample
  -- holds as many supernodes as its first four tiers have that are known and announced in time,
  -- but at most eight; the answer is `true` exactly when there are eight. The block number that
  -- is reported is the height less 10, modulo 2 ^ 64.
  pub build_auth_sample_size :
      (height : ℕ) (payment_id : String) (now : ℕ) (out : List (Supernode c))
      (l : FullSupernodeList c g) (bbl : BlockchainBasedList)
      → lookup height l.blockchain_based_lists ≡ some bbl
      → sub_u64 height blockchain_based_list_delay_block_count ≢ 0
      → let r = build_auth_sample c g height payment_id now out l in
        let candidates = in_first_tiers 4 (reachable c g l.list now bbl) in
        (length r.out ≡ min 8 candidates)
        × (r.answer ≡ true ↔ 8 ≤ candidates)
        × (r.out_auth_block_number ≡ sub_u64 height blockchain_based_list_delay_block_count)
  unfolding build_auth_sample
  build_auth_sample_size height payment_id now out l bbl found h =
      let near = reachable c g l.list now bbl in
      let seeded = record l { rng = g.seed payment_id } in
      let st = select_tiers c g 4 0 near seeded (no_supernodes c g) in
      let tot =
        select_tiers-total 4 0 near seeded (no_supernodes c g) refl
          (λ _. refl, λ _. refl, λ _. refl, λ _. refl) (reachable-AllKnown c g l.list now bbl) in
      rw (found_list height now l bbl found) (
        rw (draw_sample_ok payment_id _ near out l h tot.0) (
          ground (
            arith,
            tot.1,
            length-take 8 (chosen c g st.tier_supernodes),
            length-chosen st.tier_supernodes,
            min-drawn 4 near,
          )))
