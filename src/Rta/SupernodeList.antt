-- ===== src/Rta/SupernodeList.antt =====
-- src/rta/fullsupernodelist.cpp and include/rta/fullsupernodelist.h: the list of known supernodes,
-- the blockchain based lists by block, the stakes and the times of the next requests. A method
-- is a function of the state: each holds the lock of the object while it runs, but for `add`, which
-- asks under one lock whether the supernode is there and inserts it under another; here that is
-- one step. Times are
-- seconds of the clock and are arguments; unsigned 64-bit arithmetic wraps where it can.
pub mod Balance
pub mod Select
pub mod Sample
pub mod Blocks
pub mod Stakes
pub mod Entries
use graft_ng.Shared.{
  ℕ, zero, suc, ◌+◌, ◌-◌, ◌%◌, ◌^◌, String, Bool, true, false, not, ◌&&◌, Option, none, some, List,
  [], ◌∷◌, ◌++◌, map, if◌then◌else◌, ltb, leb, ◌==◌, nat_eq, string_eq, lookup, has_key, assign,
  emplace, erase, keep_keys, length, is_some,
}
use graft_ng.Rta.Crypto.{Crypto}
use graft_ng.Rta.Supernode.{
  Supernode, SupernodeStake, id_key_as_string, set_stake, set_wallet_address, create_from_stake,
}

abbrev pub stakes_recv_timeout_seconds : ℕ
stakes_recv_timeout_seconds = 600

abbrev pub blockchain_based_list_recv_timeout_seconds : ℕ
blockchain_based_list_recv_timeout_seconds = 180

abbrev pub blockchain_based_list_delay_block_count : ℕ
blockchain_based_list_delay_block_count = 10

abbrev pub repeated_request_delay_seconds : ℕ
repeated_request_delay_seconds = 10

abbrev pub tiers : ℕ
tiers = 4

abbrev pub items_per_tier : ℕ
items_per_tier = 2

abbrev pub auth_sample_size : ℕ
auth_sample_size = 8

abbrev pub announce_ttl_seconds : ℕ
announce_ttl_seconds = 3600

abbrev pub u64 : ℕ → ℕ
u64 n = n % 2 ^ 64

-- a - b in 64 bits, for a and b in range.
abbrev pub sub_u64 : ℕ → ℕ → ℕ
sub_u64 a b = u64 (a + 2 ^ 64 - b)

-- `std::mt19937_64`, of which only the interface is used.
pub record Rng : Type 1 where
  pub State : Type 0
  pub seed : String → State
  pub next : State → ℕ × State

pub record BlockchainBasedListEntry : Type 0 where
  pub supernode_public_id : String
  pub supernode_public_address : String
  pub amount : ℕ

abbrev pub BlockchainBasedListTier : Type 0
BlockchainBasedListTier = List BlockchainBasedListEntry

abbrev pub BlockchainBasedList : Type 0
BlockchainBasedList = List BlockchainBasedListTier

-- A time of the next request that is not set is `not_a_date_time`.
pub record FullSupernodeList (c : Crypto) (g : Rng) : Type 0 where
  pub list : List (String × Supernode c)
  pub refresh_counter : ℕ
  pub blockchain_based_list_max_block_number : ℕ
  pub stakes_max_block_number : ℕ
  pub blockchain_based_lists : List (ℕ × BlockchainBasedList)
  pub rng : g.State
  pub next_recv_stakes : Option ℕ
  pub next_recv_blockchain_based_list : Option ℕ

-- The request is due: then the next one waits for the delay, unless an answer moves it.
unfoldable pub check_timeout_expired : Option ℕ → ℕ → Option ℕ × Bool
check_timeout_expired none now = (some (now + repeated_request_delay_seconds), true)
check_timeout_expired (some t) now =
    if ltb now t then (some t, false) else (some (now + repeated_request_delay_seconds), true)

-- What `synchronizeWithCryptonode` sends.
pub data Request : Type 0 where
  send_supernode_stakes : Request
  send_supernode_blockchain_based_list : ℕ → Request

-- The position of the first tier that names the supernode, counted from 1, or 0.
unfoldable pub in_tier : String → BlockchainBasedListTier → Bool
in_tier id [] = false
in_tier id (e ∷ es) = if e.supernode_public_id == id then true else in_tier id es

unfoldable pub tier_from : ℕ → String → BlockchainBasedList → ℕ
tier_from n id [] = 0
tier_from n id (t ∷ ts) = if in_tier id t then n else tier_from (n + 1) id ts

module _ (c : Crypto) (g : Rng) where
  unfoldable pub add_impl : Supernode c → FullSupernodeList c g → FullSupernodeList c g
  unfolding id_key_as_string
  add_impl item l = record l { list = emplace (id_key_as_string c item) item l.list }

  unfoldable pub exists : String → FullSupernodeList c g → Bool
  exists id l = has_key id l.list

  unfoldable pub add : Supernode c → FullSupernodeList c g → FullSupernodeList c g × Bool
  unfolding exists add_impl
  add item l = if exists (id_key_as_string c item) l then (l, false) else (add_impl item l, true)

  unfoldable pub remove : String → FullSupernodeList c g → FullSupernodeList c g × Bool
  remove id l = (record l { list = erase id l.list }, has_key id l.list)

  unfoldable pub size : FullSupernodeList c g → ℕ
  size l = length l.list

  unfoldable pub get : String → FullSupernodeList c g → Option (Supernode c)
  get address l = lookup address l.list

  unfoldable pub items : FullSupernodeList c g → List String
  items l = map (λ r. r.0) l.list

  -- The body of the loop over the stakes: `made` is what `createFromStake` gives.
  unfoldable pub apply_stake :
      SupernodeStake
      → Option (Supernode c)
      → List (String × Supernode c)
      → List (String × Supernode c)
  unfolding id_key_as_string set_stake set_wallet_address
  apply_stake s made m = elim (lookup s.supernode_public_id m) [
    | none ↦ elim made [ none ↦ m | some sn ↦ emplace (id_key_as_string c sn) sn m ]
    | some sn ↦
        assign s.supernode_public_id
          (set_wallet_address c s.supernode_public_address
            (set_stake c s.amount s.block_height s.unlock_time sn))
          m
  ]

  unfoldable pub apply_stakes :
      List SupernodeStake → Bool → ℕ → List (String × Supernode c) → List (String × Supernode c)
  unfolding apply_stake create_from_stake
  apply_stakes [] testnet now m = m
  apply_stakes (s ∷ ss) testnet now m =
      apply_stakes ss testnet now (apply_stake s (create_from_stake c s testnet now) m)

  unfoldable pub clear_stakes : List (String × Supernode c) → List (String × Supernode c)
  unfolding set_stake
  clear_stakes [] = []
  clear_stakes ((id, sn) ∷ m) = (id, set_stake c 0 0 0 sn) ∷ clear_stakes m

  unfoldable pub update_stakes :
      ℕ → List SupernodeStake → Bool → ℕ → FullSupernodeList c g → FullSupernodeList c g
  unfolding apply_stakes clear_stakes
  update_stakes block_number stakes testnet now l =
      if leb block_number l.stakes_max_block_number then l else record l {
        list = apply_stakes stakes testnet now (clear_stakes l.list);
        stakes_max_block_number = block_number;
        next_recv_stakes = some (now + stakes_recv_timeout_seconds);
      }

  -- The two requests, in the order in which they are sent.
  unfoldable pub synchronize_with_cryptonode :
      ℕ → FullSupernodeList c g → FullSupernodeList c g × List Request
  unfolding check_timeout_expired
  synchronize_with_cryptonode now l =
      let (stakes_at, stakes_due) = check_timeout_expired l.next_recv_stakes now in
      let (list_at, list_due) = check_timeout_expired l.next_recv_blockchain_based_list now in
      (
        record l { next_recv_stakes = stakes_at; next_recv_blockchain_based_list = list_at },
        (if stakes_due then send_supernode_stakes ∷ [] else [])
            ++ (if list_due
                then send_supernode_blockchain_based_list l.blockchain_based_list_max_block_number
                  ∷ []
                else []),
      )

  -- `history_size` is `config::graft::SUPERNODE_HISTORY_SIZE`.
  unfoldable pub set_blockchain_based_list :
      ℕ → ℕ → BlockchainBasedList → ℕ → FullSupernodeList c g → FullSupernodeList c g
  set_blockchain_based_list history_size block_number new_list now l =
      if has_key block_number l.blockchain_based_lists
      then record l {
        blockchain_based_lists = assign block_number new_list l.blockchain_based_lists;
      }
      else (let newest =
            if ltb l.blockchain_based_list_max_block_number block_number
            then block_number
            else l.blockchain_based_list_max_block_number in
          let oldest_block_number = sub_u64 newest history_size in
          record l {
            next_recv_blockchain_based_list =
                some (now + blockchain_based_list_recv_timeout_seconds);
            blockchain_based_list_max_block_number = newest;
            blockchain_based_lists =
                keep_keys (λ b. not (ltb b oldest_block_number))
                  (assign block_number new_list l.blockchain_based_lists);
          })

  unfoldable pub find_blockchain_based_list : ℕ → FullSupernodeList c g → Option BlockchainBasedList
  find_blockchain_based_list block_number l = lookup block_number l.blockchain_based_lists

  unfoldable pub has_blockchain_based_list : ℕ → FullSupernodeList c g → Bool
  unfolding find_blockchain_based_list
  has_blockchain_based_list block_number l = is_some (find_blockchain_based_list block_number l)

  unfoldable pub get_supernode_blockchain_based_list_tier : String → ℕ → FullSupernodeList c g → ℕ
  unfolding find_blockchain_based_list tier_from in_tier
  get_supernode_blockchain_based_list_tier id block_number l =
      elim (find_blockchain_based_list block_number l) [ none ↦ 0 | some bbl ↦ tier_from 1 id bbl ]

  unfoldable pub get_blockchain_based_list_max_block_number : FullSupernodeList c g → ℕ
  get_blockchain_based_list_max_block_number l = l.blockchain_based_list_max_block_number
