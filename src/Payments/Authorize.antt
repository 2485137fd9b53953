-- ===== src/Payments/Authorize.antt =====
-- The authorization of a transaction by an auth sample: src/supernode/requests/authorize_rta_tx.cpp
-- with include/supernode/requests/authorize_rta_tx.h. Here the messages, their signatures and the
-- votes; the two handlers are in the child modules. Transactions belong to the CryptoNote library,
-- and what is left of a variable that a failed reader did not write is a parameter.
pub mod Request
pub mod Response
pub mod Signed
use Prim.Native.String.{◌++◌}
use graft_ng.Shared.{
  ℕ, ◌+◌, ◌/◌, String, Bool, true, false, not, ◌&&◌, ◌||◌, Option, none, some, List, [], ◌∷◌,
  ◌++◌ as append, if◌then◌else◌, ltb, ℤ, pos, int_eqb, int_to_string, ◌==◌, string_eq,
}
use graft_ng.Rta.Crypto.{Crypto}
use graft_ng.Rta.Supernode.{
  Supernode, sign_message, sign_hash, verify_signature, verify_hash, id_key_as_string,
}
use graft_ng.Payments.{
  SupernodeSignature, RtaAuthResult, MulticastRequest, CryptonodeReply, or_unwritten,
}

abbrev pub rta_votes_to_reject : ℕ
rta_votes_to_reject = 1

-- `RTAAuthResult`, as the integers under which it travels.
abbrev pub auth_approved : ℤ
auth_approved = pos 0

abbrev pub auth_rejected : ℤ
auth_rejected = pos 1

pub record AuthorizeRtaTxRequest : Type 0 where
  pub tx_hex : String
  pub payment_id : String
  pub amount : ℕ

pub record AuthorizeRtaTxResponse : Type 0 where
  pub tx_id : String
  pub result : ℤ
  pub signature : SupernodeSignature

-- The answer of the cryptonode to a pushed transaction: what is read of it.
pub record SendRawTxResponse : Type 0 where
  pub status : String
  pub double_spend : Bool

-- What is taken of the CryptoNote library, and its `COIN`. A blob that is parsed comes with the
-- hash of the transaction.
pub record Transactions (Tx : Type 0) (c : Crypto) : Type 0 where
  pub coin : ℕ
  pub parse_hexstr_to_binbuff : String → Option String
  pub parse_and_validate_tx_from_blob : String → Option (Tx × c.Hash)
  pub is_rta : Tx → Bool
  pub tx_to_hex : Tx → String
  pub blank_tx : Tx

-- How the messages are written and read; what an exception says.
pub record AuthMessages : Type 0 where
  pub read_multicast : String → Option MulticastRequest
  pub read_auth_request : String → Option AuthorizeRtaTxRequest
  pub read_auth_response : String → Option AuthorizeRtaTxResponse
  pub write_auth_response : AuthorizeRtaTxResponse → String
  pub read_reply : String → Option CryptonodeReply
  pub read_push_reply : String → Option SendRawTxResponse
  pub what : String

-- What the variables hold that are declared without a value.
pub record Unwritten (c : Crypto) : Type 0 where
  pub signature : c.Signature
  pub hash : c.Hash
  pub id_key : c.PublicKey

-- `RtaAuthResult::contains`.
unfoldable pub contains : List SupernodeSignature → String → Bool
contains [] id = false
contains (item ∷ v) id = item.id_key == id || contains v id

unfoldable pub already_approved : String → RtaAuthResult → Bool
unfolding contains
already_approved id r = contains r.approved id

unfoldable pub already_rejected : String → RtaAuthResult → Bool
unfolding contains
already_rejected id r = contains r.rejected id

abbrev pub no_votes : RtaAuthResult
no_votes = record { approved = []; rejected = [] }

-- The vote is pushed back on the list of its kind.
unfoldable pub add_vote : AuthorizeRtaTxResponse → RtaAuthResult → RtaAuthResult
add_vote resp r =
    if int_eqb resp.result auth_approved
    then record r { approved = append r.approved (resp.signature ∷ []) }
    else record r { rejected = append r.rejected (resp.signature ∷ []) }

-- A transaction of more than 100 coins needs four votes.
unfoldable pub votes_to_approve : ℕ → ℕ → ℕ
votes_to_approve coin tx_amount = if ltb 100 (tx_amount / coin) then 4 else 2

module _ (c : Crypto) (u : Unwritten c) where
  -- The numbers stand for the random scalars of the two signatures. Where nothing is signed for the
  -- second time, the first signature is still in the variable.
  unfoldable pub sign_auth_response :
      ℕ → ℕ → AuthorizeRtaTxResponse → Supernode c → AuthorizeRtaTxResponse
  unfolding id_key_as_string
  sign_auth_response r1 r2 arg supernode =
      let first =
        or_unwritten c u.signature
          (sign_message c r1 (arg.tx_id ++ (":" ++ int_to_string arg.result)) supernode) in
      let tx_id = or_unwritten c u.hash (c.hex_to_hash arg.tx_id) in
      let second = or_unwritten c first (sign_hash c r2 tx_id supernode) in
      record arg {
        signature = record {
          id_key = id_key_as_string c supernode;
          result_signature = c.signature_to_hex first;
          tx_signature = c.signature_to_hex second;
        };
      }

  unfoldable pub validate_auth_response : AuthorizeRtaTxResponse → Bool
  validate_auth_response arg = elim (c.hex_to_signature arg.signature.result_signature) [
    | none ↦ false
    | some sign_result ↦ elim (c.hex_to_signature arg.signature.tx_signature) [
      | none ↦ false
      | some sign_tx_id ↦ elim (c.hex_to_hash arg.tx_id) [
        | none ↦ false
        | some tx_id ↦
            let msg = arg.tx_id ++ (":" ++ int_to_string arg.result) in
            let id_key = or_unwritten c u.id_key (c.hex_to_key arg.signature.id_key) in
            verify_signature c msg id_key sign_result && verify_hash c tx_id id_key sign_tx_id
      ]
    ]
  ]
