-- ===== src/Rta/SupernodeList/Sample/Fresh.antt =====
-- Who can be in a sample, and on what it depends.
use graft_ng.Shared.{
  ℕ, zero, suc, ◌+◌, ◌≤◌, ◌≡◌, String, true, some, List, [], ◌∷◌, ◌++◌, arith, inl, inr, All,
  All-append, All-take, lookup, nat_eq, string_eq, Option-cases, Bool-cases, leb, filter_by, length,
  ◌-◌, ◌%◌,
}
use graft_ng.Rta.Crypto.{Crypto}
use graft_ng.Rta.Supernode.{Supernode}
use graft_ng.Rta.SupernodeList.{
  Rng, BlockchainBasedListTier, BlockchainBasedList, FullSupernodeList, announce_ttl_seconds,
}
use graft_ng.Rta.SupernodeList.Balance.{Four, set4, balance}
use graft_ng.Rta.SupernodeList.Select.{select_from, select_supernodes}
use graft_ng.Rta.SupernodeList.Sample.{
  select_tiers, draw_sample, get_blockchain_based_list_for_auth_sample, no_supernodes, sizes,
  chosen, build_auth_sample, is_reachable, last_update_age,
}
use graft_ng.Rta.SupernodeList.Sample.Reachable.{reachable}
use graft_ng.Rta.SupernodeList.Sample.Size.{found_list, missing_list}

module _ (c : Crypto) (g : Rng) (P : Supernode c → Type 0) where
  -- What the tier's names lead to satisfies P.
  abbrev Leads : List (String × Supernode c) → BlockchainBasedListTier → Type 0
  Leads known es =
      All (λ e. (sn : Supernode c) → lookup e.supernode_public_id known ≡ some sn → P sn) es

  All-select_from :
      (known : List (String × Supernode c)) (es : BlockchainBasedListTier) (n : ℕ) (r : g.State)
      (dst : List (Supernode c))
      → Leads known es
      → All P dst
      → All P (select_from c g known es n r dst).dst
  unfolding select_from
  All-select_from known [] n r dst k h = h
  All-select_from known (e ∷ es) n r dst k h =
      let v = (g.next r).0 % length (e ∷ es) in
      elim (Option-cases (lookup e.supernode_public_id known)) [
        | inl unknown ↦ rw (unknown, select_from) h
        | inr (sn, found) ↦ elim (Bool-cases (leb n v)) [
          | inl skip ↦
              rw (found, select_from) (rw skip (All-select_from known es n (g.next r).1 dst k.1 h))
          | inr chosen ↦
              rw (found, select_from)
                (rw chosen (
                  All-select_from known es (n - 1) (g.next r).1 (dst ++ sn ∷ []) k.1
                    (All-append P dst (sn ∷ []) h (k.0 sn found, tt))))
        ]
      ]

  abbrev All4 : Four (List (Supernode c)) → Type 0
  All4 t = All P t.at0 × All P t.at1 × All P t.at2 × All P t.at3

  All4-set4 :
      (i : ℕ) (t : Four (List (Supernode c))) (d : List (Supernode c))
      → All4 t
      → All P d
      → All4 (set4 t i d)
  All4-set4 zero t d h k = (k, h.1, h.2, h.3)
  All4-set4 (suc zero) t d h k = (h.0, k, h.2, h.3)
  All4-set4 (suc (suc zero)) t d h k = (h.0, h.1, k, h.3)
  All4-set4 (suc (suc (suc i))) t d h k = (h.0, h.1, h.2, k)

  All-select_tiers :
      (rounds i : ℕ) (bbl : BlockchainBasedList) (l : FullSupernodeList c g)
      (acc : Four (List (Supernode c)))
      → All (Leads l.list) bbl
      → All4 acc
      → All4 (select_tiers c g rounds i bbl l acc).tier_supernodes
  unfolding select_tiers
  All-select_tiers rounds i [] l acc k h = h
  All-select_tiers zero i (t ∷ ts) l acc k h = h
  All-select_tiers (suc rounds) i (t ∷ ts) l acc k h =
      let s = select_supernodes c g 8 t [] l in
      let got = All-select_from l.list t _ l.rng [] k.0 tt in
      elim (Bool-cases s.ok) [
        | inl done ↦ rw done (
            All-select_tiers rounds (i + 1) ts (record l { rng = s.rng }) (set4 acc i s.dst) k.1
              (All4-set4 i acc s.dst h got))
        | inr failed ↦ rw failed h
      ]

  All-chosen : (t : Four (List (Supernode c))) → All4 t → All P (chosen c g t)
  unfolding chosen
  All-chosen t h =
      let s = balance (sizes c g t) in
      All-append P _ _ (All-take P s.at0 t.at0 h.0) (
        All-append P _ _ (All-take P s.at1 t.at1 h.1)
          (All-append P _ _ (All-take P s.at2 t.at2 h.2) (All-take P s.at3 t.at3 h.3)))

  pub All-draw_sample :
      (payment_id : String) (n : ℕ) (bbl : BlockchainBasedList) (l : FullSupernodeList c g)
      → All (Leads l.list) bbl
      → All P (draw_sample c g payment_id n bbl [] l).out
  unfolding draw_sample
  All-draw_sample payment_id n bbl l k =
      let seeded = record l { rng = g.seed payment_id } in
      let st = select_tiers c g 4 0 bbl seeded (no_supernodes c g) in
      let all = All-select_tiers 4 0 bbl seeded (no_supernodes c g) k (tt, tt, tt, tt) in
      ground
        (arith, All-take P 8 (chosen c g st.tier_supernodes) (All-chosen st.tier_supernodes all))

  pub Leads-reachable :
      (known : List (String × Supernode c)) (now : ℕ) (es : BlockchainBasedListTier)
      → ((id : String) (sn : Supernode c)
          → lookup id known ≡ some sn
          → last_update_age c now sn ≤ announce_ttl_seconds
          → P sn)
      → Leads known (filter_by (is_reachable c known now) es)
  unfolding is_reachable
  Leads-reachable known now [] h = tt
  Leads-reachable known now (e ∷ es) h = elim (Bool-cases (is_reachable c known now e)) [
    | inl near ↦ rw near (
      (λ sn found. h e.supernode_public_id sn found (young sn found near)),
      Leads-reachable known now es h,
    )
    | inr far ↦ rw far (Leads-reachable known now es h)
  ]
    where
      young :
          (sn : Supernode c)
          → lookup e.supernode_public_id known ≡ some sn
          → is_reachable c known now e ≡ true
          → last_update_age c now sn ≤ announce_ttl_seconds
      young sn found near = ground arith

module _ (c : Crypto) (g : Rng) where
  All-reachable :
      (P : Supernode c → Type 0) (known : List (String × Supernode c)) (now : ℕ)
      (bbl : BlockchainBasedList)
      → ((id : String) (sn : Supernode c)
          → lookup id known ≡ some sn
          → last_update_age c now sn ≤ announce_ttl_seconds
          → P sn)
      → All (Leads c g P known) (reachable c g known now bbl)
  All-reachable P known now [] h = tt
  All-reachable P known now (t ∷ ts) h =
      (Leads-reachable c g P known now t h, All-reachable P known now ts h)

  -- In the list, and updated at most an hour ago by the clock's 32 bits.
  abbrev pub IsFresh : FullSupernodeList c g → ℕ → Supernode c → Type 0
  IsFresh l now sn =
      ((id : String) × (lookup id l.list ≡ some sn))
      × (last_update_age c now sn ≤ announce_ttl_seconds)

  -- Every supernode in a sample that is drawn into an empty array is in the list, and its last
  -- update is at most an hour old by the clock's 32 bits.
  pub build_auth_sample-IsFresh :
      (height : ℕ) (payment_id : String) (now : ℕ) (l : FullSupernodeList c g)
      → All (IsFresh l now) (build_auth_sample c g height payment_id now [] l).out
  unfolding build_auth_sample
  build_auth_sample-IsFresh height payment_id now l =
      elim (Option-cases (lookup height l.blockchain_based_lists)) [
        | inl missing ↦
            rw (missing_list c g height now l missing)
              (All-draw_sample c g (IsFresh l now) payment_id 0 [] l tt)
        | inr (bbl, found) ↦ rw (found_list c g height now l bbl found) (
            All-draw_sample c g (IsFresh l now) payment_id _ _ l
              (All-reachable (IsFresh l now) l.list now bbl (λ id sn e young. ((id, e), young))))
      ]

  draw_sample_agrees :
      (payment_id : String) (n : ℕ) (bbl : BlockchainBasedList) (out : List (Supernode c))
      (r : g.State) (l : FullSupernodeList c g)
      → let a = draw_sample c g payment_id n bbl out l in
        let b = draw_sample c g payment_id n bbl out (record l { rng = r }) in
        (a.out ≡ b.out)
        × (a.answer ≡ b.answer)
        × (a.out_auth_block_number ≡ b.out_auth_block_number)
  unfolding draw_sample
  draw_sample_agrees payment_id n bbl out r l = ground arith

  -- The state in which earlier calls left the generator does not matter: the sample, the answer
  -- and the block number follow from the payment id, the height, the clock and the rest of the
  -- list. So supernodes that agree on these agree on the sample.
  pub build_auth_sample_agrees :
      (height : ℕ) (payment_id : String) (now : ℕ) (out : List (Supernode c)) (r : g.State)
      (l : FullSupernodeList c g)
      → let a = build_auth_sample c g height payment_id now out l in
        let b = build_auth_sample c g height payment_id now out (record l { rng = r }) in
        (a.out ≡ b.out)
        × (a.answer ≡ b.answer)
        × (a.out_auth_block_number ≡ b.out_auth_block_number)
  unfolding build_auth_sample get_blockchain_based_list_for_auth_sample
  build_auth_sample_agrees height payment_id now out r l =
      draw_sample_agrees payment_id found.0 found.1 out r l
    where
      found : ℕ × BlockchainBasedList
      found = get_blockchain_based_list_for_auth_sample c g height now [] l
