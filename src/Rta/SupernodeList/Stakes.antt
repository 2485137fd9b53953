-- ===== src/Rta/SupernodeList/Stakes.antt =====
-- What an update of the stakes does to the supernodes that are known.
use graft_ng.Shared.{
  ℕ, ◌≤◌, ◌<◌, ◌≡◌, sym, ap, ◌∙◌, String, Bool, Option, none, some, List, [], ◌∷◌, arith,
  if◌then◌else◌, ◌==◌, string_eq, lookup, lookup-assign, Option-cases, inl, inr, ◌⊎◌, leb,
  Bool-cases, emplace,
}
use text.Mathlib.TextEquality.{eq_iff}
use graft_ng.Rta.Crypto.{Crypto}
use graft_ng.Rta.Supernode.{Supernode, SupernodeStake, create_from_stake}
use graft_ng.Rta.SupernodeList.{
  Rng, FullSupernodeList, apply_stake, apply_stakes, clear_stakes, update_stakes,
}

-- The last of the stakes for an id, or `acc`.
abbrev pub last_stake : String → Option SupernodeStake → List SupernodeStake → Option SupernodeStake
last_stake id acc [] = acc
last_stake id acc (s ∷ ss) = last_stake id (if s.supernode_public_id == id then some s else acc) ss

module _ (c : Crypto) where
  -- A supernode with the stake it is given, or with none.
  abbrev pub with_stake : Supernode c → Option SupernodeStake → Supernode c
  with_stake sn none = record sn { stake_amount = 0; stake_block_height = 0; stake_unlock_time = 0 }
  with_stake sn (some s) = record sn {
    stake_amount = s.amount;
    stake_block_height = s.block_height;
    stake_unlock_time = s.unlock_time;
    wallet_address = s.supernode_public_address;
  }

  lookup-emplace_kept :
      (k id : String) (v w : Supernode c) (m : List (String × Supernode c))
      → lookup id m ≡ some w
      → lookup id (emplace k v m) ≡ some w
  lookup-emplace_kept k id v w [] h = cc
  lookup-emplace_kept k id v w ((j, x) ∷ m) h =
      ground (arith, eq_iff k id, eq_iff j k, eq_iff j id, lookup-emplace_kept k id v w m)

  value_of : (a b : Supernode c) → some a ≡ some b → a ≡ b
  value_of a b e = cc

  restaked :
      (old sn : Supernode c) (acc : Option SupernodeStake) (s : SupernodeStake)
      → old ≡ with_stake sn acc
      → some (with_stake old (some s)) ≡ some (with_stake sn (some s))
  restaked old sn none s e = ap (λ x. some (with_stake x (some s))) e
  restaked old sn (some t) s e = ap (λ x. some (with_stake x (some s))) e

  module _ (g : Rng) where
    lookup-clear_stakes :
        (id : String) (sn : Supernode c) (m : List (String × Supernode c))
        → lookup id m ≡ some sn
        → lookup id (clear_stakes c g m) ≡ some (with_stake sn none)
    unfolding clear_stakes
    lookup-clear_stakes id sn [] h = cc
    lookup-clear_stakes id sn ((j, x) ∷ m) h = ground (arith, lookup-clear_stakes id sn m)

    lookup-apply_stake :
        (id : String) (s : SupernodeStake) (made : Option (Supernode c)) (sn : Supernode c)
        (acc : Option SupernodeStake) (m : List (String × Supernode c))
        → lookup id m ≡ some (with_stake sn acc)
        → lookup id (apply_stake c g s made m)
          ≡ some (with_stake sn (if s.supernode_public_id == id then some s else acc))
    unfolding apply_stake
    lookup-apply_stake id s made sn acc m h = elim (Option-cases (lookup s.supernode_public_id m)) [
      | inl fresh ↦ elim (Option-cases made) [
        | inl unreadable ↦ ground (arith, eq_iff s.supernode_public_id id)
        | inr (new, e) ↦ ground (
          arith,
          eq_iff s.supernode_public_id id,
          lookup-emplace_kept (c.key_to_hex new.id_key) id new (with_stake sn acc) m h,
        )
      ]
      | inr (old, found) ↦
          rw (found, apply_stake)
            (rw (lookup-assign s.supernode_public_id id (with_stake old (some s)) m)
              (elim (Bool-cases (s.supernode_public_id == id)) [
                | inl same ↦ rw same (
                    restaked old sn acc s (
                      value_of old (with_stake sn acc)
                        (sym found ∙ (ap (λ k. lookup k m) ((eq_iff _ _).0 same) ∙ h))))
                | inr other ↦ rw other h
              ]))
    ]

    lookup-apply_stakes :
        (id : String) (ss : List SupernodeStake) (testnet : Bool) (now : ℕ) (sn : Supernode c)
        (acc : Option SupernodeStake) (m : List (String × Supernode c))
        → lookup id m ≡ some (with_stake sn acc)
        → lookup id (apply_stakes c g ss testnet now m)
          ≡ some (with_stake sn (last_stake id acc ss))
    unfolding apply_stakes
    lookup-apply_stakes id [] testnet now sn acc m h = h
    lookup-apply_stakes id (s ∷ ss) testnet now sn acc m h =
        lookup-apply_stakes id ss testnet now sn
          (if s.supernode_public_id == id then some s else acc) _
          (lookup-apply_stake id s (create_from_stake c s testnet now) sn acc m h)

    -- Stakes for a block that is not newer than the last are ignored. Otherwise every supernode
    -- that was known stays known and carries exactly the last stake that the message has for its
    -- id, or no stake if it has none; nothing else about it changes but the wallet address, which
    -- comes with the stake.
    pub update_stakes_known :
        (block_number : ℕ) (stakes : List SupernodeStake) (testnet : Bool) (now : ℕ)
        (l : FullSupernodeList c g) (id : String) (sn : Supernode c)
        → lookup id l.list ≡ some sn
        → ((block_number ≤ l.stakes_max_block_number)
            × (update_stakes c g block_number stakes testnet now l ≡ l))
          ⊎ ((l.stakes_max_block_number < block_number)
              × (lookup id (update_stakes c g block_number stakes testnet now l).list
                  ≡ some (with_stake sn (last_stake id none stakes)))
              × ((update_stakes c g block_number stakes testnet now l).stakes_max_block_number
                  ≡ block_number))
    unfolding update_stakes
    update_stakes_known block_number stakes testnet now l id sn found =
        let after =
          lookup-apply_stakes id stakes testnet now sn none (clear_stakes c g l.list)
            (lookup-clear_stakes id sn l.list found) in
        elim (Bool-cases (leb block_number l.stakes_max_block_number)) [
          | inl old ↦ inl (ground arith, ground arith)
          | inr newer ↦ inr (ground arith, ground (arith, after), ground arith)
        ]
