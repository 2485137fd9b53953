-- ===== src/Rta/Supernode.antt =====
-- src/rta/supernode.cpp and include/rta/supernode.h: one supernode, its stake, its keys and its
-- announces. A method that writes the object returns the new record; a failure is `none` or
-- `false`. `std::time(nullptr)` is an argument, in seconds; the log calls are left out.
pub mod Keys
pub mod Announces
pub mod Tiers
use Prim.Native.String.{◌++◌}
use graft_ng.Shared.{
  ℕ, ◌+◌, String, Bool, true, false, not, ◌&&◌, Option, none, some, if◌then◌else◌, leb, ◌==◌,
  string_eq, to_string,
}
use graft_ng.Rta.Crypto.{Crypto, Files}

-- include/rta/supernode.h takes the four amounts from `config::graft`.
pub record TierAmounts : Type 0 where
  pub tier1 : ℕ
  pub tier2 : ℕ
  pub tier3 : ℕ
  pub tier4 : ℕ

pub record SupernodeStake : Type 0 where
  pub amount : ℕ
  pub block_height : ℕ
  pub unlock_time : ℕ
  pub supernode_public_id : String
  pub supernode_public_address : String

pub record SupernodeAnnounce : Type 0 where
  pub supernode_public_id : String
  pub height : ℕ
  pub signature : String
  pub network_address : String

pub record Supernode (c : Crypto) : Type 0 where
  pub wallet_address : String
  pub id_key : c.PublicKey
  pub secret_key : c.SecretKey
  pub has_secret_key : Bool
  pub network_address : String
  pub last_update_time : ℕ
  pub stake_amount : ℕ
  pub stake_block_height : ℕ
  pub stake_unlock_time : ℕ
  pub testnet : Bool

abbrev to_ℕ : Bool → ℕ
to_ℕ true = 1
to_ℕ false = 0

unfoldable pub tier_of_stake : TierAmounts → ℕ → ℕ
tier_of_stake t stake =
    0
    + to_ℕ (leb t.tier1 stake)
    + to_ℕ (leb t.tier2 stake)
    + to_ℕ (leb t.tier3 stake)
    + to_ℕ (leb t.tier4 stake)

module _ (c : Crypto) where
  open c use {
    PublicKey, SecretKey, Hash, Signature, blank_secret, key_to_hex, hex_to_key, secret_to_hex,
    hex_to_secret, signature_to_hex, hex_to_signature, hash_to_hex, cn_fast_hash,
    generate_signature, check_signature, secret_key_to_public_key,
  }

  -- The constructor.
  unfoldable pub new : String → PublicKey → Bool → Supernode c
  new address id_key testnet = record {
    wallet_address = address;
    id_key = id_key;
    secret_key = blank_secret;
    has_secret_key = false;
    network_address = "";
    last_update_time = 0;
    stake_amount = 0;
    stake_block_height = 0;
    stake_unlock_time = 0;
    testnet = testnet;
  }

  unfoldable pub tier : TierAmounts → Supernode c → ℕ
  unfolding tier_of_stake
  tier t s = tier_of_stake t s.stake_amount

  unfoldable pub id_key_as_string : Supernode c → String
  id_key_as_string s = key_to_hex s.id_key

  unfoldable pub set_wallet_address : String → Supernode c → Supernode c
  set_wallet_address address s = record s { wallet_address = address }

  unfoldable pub set_network_address : String → Supernode c → Supernode c
  set_network_address address s =
      if not (s.network_address == address) then record s { network_address = address } else s

  unfoldable pub set_last_update_time : ℕ → Supernode c → Supernode c
  set_last_update_time time s = record s { last_update_time = time }

  unfoldable pub set_stake : ℕ → ℕ → ℕ → Supernode c → Supernode c
  set_stake amount height unlock s = record s {
    stake_amount = amount;
    stake_block_height = height;
    stake_unlock_time = unlock;
  }

  unfoldable pub sign_hash : ℕ → Hash → Supernode c → Option Signature
  sign_hash r hash s =
      if not s.has_secret_key then none else some (generate_signature r hash s.id_key s.secret_key)

  unfoldable pub sign_message : ℕ → String → Supernode c → Option Signature
  unfolding sign_hash
  sign_message r msg s = sign_hash r (cn_fast_hash msg) s

  unfoldable pub verify_hash : Hash → PublicKey → Signature → Bool
  verify_hash hash pkey signature = check_signature hash pkey signature

  unfoldable pub verify_signature : String → PublicKey → Signature → Bool
  unfolding verify_hash
  verify_signature msg pkey signature = verify_hash (cn_fast_hash msg) pkey signature

  -- The hash by which supernodes were ranked.
  unfoldable pub get_score_hash : Hash → Supernode c → Hash
  get_score_hash block_hash s = cn_fast_hash (key_to_hex s.id_key ++ hash_to_hex block_hash)

  check_announce : SupernodeAnnounce → PublicKey → Option Signature → Option PublicKey
  unfolding verify_signature
  check_announce a id_key none = none
  check_announce a id_key (some sign) =
      if not (verify_signature (a.supernode_public_id ++ to_string a.height) id_key sign)
      then none
      else some id_key

  parse_announce : SupernodeAnnounce → Option PublicKey → Option PublicKey
  unfolding check_announce
  parse_announce a none = none
  parse_announce a (some id_key) = check_announce a id_key (hex_to_signature a.signature)

  -- `false` is `none`; `true` comes with the key that is passed by reference.
  unfoldable pub validate_announce : SupernodeAnnounce → Option PublicKey
  unfolding parse_announce
  validate_announce a =
      if a.supernode_public_id == ""
      then none
      else parse_announce a (hex_to_key a.supernode_public_id)

  unfoldable pub update_from_announce : SupernodeAnnounce → ℕ → Supernode c → Supernode c × Bool
  unfolding set_last_update_time
  update_from_announce a now s = elim (validate_announce a) [
    | none ↦ (s, false)
    | some _ ↦ (set_last_update_time now s, true)
  ]

  unfoldable pub create_from_announce : SupernodeAnnounce → Bool → ℕ → Option (Supernode c)
  unfolding new set_last_update_time
  create_from_announce a testnet now = elim (validate_announce a) [
    | none ↦ none
    | some id_key ↦ some (set_last_update_time now (new "" id_key testnet))
  ]

  -- The announce is passed by reference: it is changed in part when signing fails.
  unfoldable pub prepare_announce : ℕ → SupernodeAnnounce → Supernode c → SupernodeAnnounce × Bool
  unfolding id_key_as_string sign_message
  prepare_announce r announce s =
      let a = record announce {
        supernode_public_id = id_key_as_string s;
        height = s.stake_block_height;
      } in
      elim (sign_message r (a.supernode_public_id ++ to_string a.height) s) [
        | none ↦ (a, false)
        | some sign ↦ (
          record a { signature = signature_to_hex sign; network_address = s.network_address },
          true,
        )
      ]

  unfoldable pub create_from_stake : SupernodeStake → Bool → ℕ → Option (Supernode c)
  unfolding new set_last_update_time set_stake
  create_from_stake stake testnet now = elim (hex_to_key stake.supernode_public_id) [
    | none ↦ none
    | some id_key ↦
        let fresh = new stake.supernode_public_address id_key testnet in
        some (
          set_stake stake.amount stake.block_height stake.unlock_time
            (set_last_update_time now fresh))
  ]

  -- `crypto::generate_keys` hands in the pair.
  unfoldable pub init_keys : PublicKey → SecretKey → Supernode c → Supernode c
  init_keys pkey skey s = record s { id_key = pkey; secret_key = skey; has_secret_key = true }

  -- The secret key is written before the public key is derived, also where that fails.
  load_secret : Option SecretKey → Supernode c → Supernode c × Bool
  load_secret none s = (s, false)
  load_secret (some skey) s = elim (secret_key_to_public_key skey) [
    | none ↦ (record s { secret_key = skey }, false)
    | some pkey ↦ (record s { secret_key = skey; id_key = pkey; has_secret_key = true }, true)
  ]

  module _ (f : Files) where
    open f use {Disk, exists, load_file_to_string, save_string_to_file, rename}

    unfoldable pub load_keys : String → Disk → Supernode c → Supernode c × Bool
    unfolding load_secret
    load_keys filename disk s =
        if not (exists filename disk)
        then (s, false)
        else elim (load_file_to_string filename disk) [
          | none ↦ (s, false)
          | some key_data ↦ load_secret (hex_to_secret key_data) s
        ]

    -- The key goes to a temporary file first, which then takes the name.
    unfoldable pub save_keys : String → Bool → Disk → Supernode c → Disk × Bool
    save_keys filename force disk s =
        if exists filename disk && not force
        then (disk, false)
        else elim (save_string_to_file (filename ++ ".tmp") (secret_to_hex s.secret_key) disk) [
          | none ↦ (disk, false)
          | some written ↦ elim (rename (filename ++ ".tmp") filename written) [
            | none ↦ (written, false)
            | some renamed ↦ (renamed, true)
          ]
        ]
