-- ===== src/Rta/SupernodeList/Select/Count.antt =====
-- How many supernodes a selection takes.
use graft_ng.Shared.{
  ℕ, ◌+◌, ◌-◌, ◌≤◌, ◌%◌, min, ◌≡◌, String, true, List, [], ◌∷◌, ◌++◌, arith, inl, inr,
  if◌then◌else◌, ltb, leb, string_eq, lookup, has_key, length, length-append, All, Option-cases,
  Bool-cases,
}
use graft_ng.Rta.Crypto.{Crypto}
use graft_ng.Rta.Supernode.{Supernode}
use graft_ng.Rta.SupernodeList.{Rng, BlockchainBasedListTier, FullSupernodeList}
use graft_ng.Rta.SupernodeList.Select.{select_from, select_supernodes}

module _ (c : Crypto) (g : Rng) where
  -- Every entry of the tier names a known supernode.
  abbrev pub AllKnown : List (String × Supernode c) → BlockchainBasedListTier → Type 0
  AllKnown known es = All (λ e. has_key e.supernode_public_id known ≡ true) es

  select_from_count :
      (known : List (String × Supernode c)) (es : BlockchainBasedListTier) (n : ℕ) (r : g.State)
      (dst : List (Supernode c))
      → n ≤ length es
      → AllKnown known es
      → ((select_from c g known es n r dst).ok ≡ true)
        × (length (select_from c g known es n r dst).dst ≡ length dst + n)
  unfolding select_from
  select_from_count known [] n r dst h k = ground arith
  select_from_count known (e ∷ es) n r dst h k =
      let v = (g.next r).0 % length (e ∷ es) in
      let rest = λ (m : ℕ) (d : List (Supernode c)). select_from_count known es m (g.next r).1 d in
      elim (Option-cases (lookup e.supernode_public_id known)) [
        | inl unknown ↦ ground arith
        | inr (sn, found) ↦ elim (Bool-cases (leb n v)) [
          | inl skip ↦ rw (found, select_from) (rw skip (rest n dst (ground arith) k.1))
          | inr take ↦
              rw (found, select_from)
                (rw take (
                  let ih = rest (n - 1) (dst ++ sn ∷ []) (ground arith) k.1 in
                  ground (arith, ih, length-append dst (sn ∷ []))))
        ]
      ]

  -- A tier whose supernodes are all known gives a selection, and as many supernodes as are asked
  -- for, or all of them if they are fewer: whatever numbers the generator draws, none is missed.
  pub select_supernodes_count :
      (n : ℕ) (src : BlockchainBasedListTier) (dst : List (Supernode c)) (l : FullSupernodeList c g)
      → AllKnown l.list src
      → ((select_supernodes c g n src dst l).ok ≡ true)
        × (length (select_supernodes c g n src dst l).dst ≡ length dst + min n (length src))
  unfolding select_supernodes
  select_supernodes_count n src dst l k =
      ground (
        arith,
        select_from_count l.list src (if ltb (length src) n then length src else n) l.rng dst,
      )
