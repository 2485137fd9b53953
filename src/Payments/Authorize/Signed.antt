-- ===== src/Payments/Authorize/Signed.antt =====
-- The signatures of a vote.
use Prim.Native.String.{◌++◌}
use graft_ng.Shared.{ℕ, ◌≡◌, refl, true, ◌&&◌, some, int_to_string, if◌then◌else◌, not}
use graft_ng.Rta.Crypto.{Crypto, CryptoLaws}
use graft_ng.Rta.Supernode.{
  Supernode, sign_message, sign_hash, verify_signature, verify_hash, id_key_as_string,
}
use graft_ng.Payments.{or_unwritten}
use graft_ng.Payments.Authorize.{
  AuthorizeRtaTxResponse, Unwritten, sign_auth_response, validate_auth_response,
}

module _ (c : Crypto) (cl : CryptoLaws c) (u : Unwritten c) where
  -- A vote that a supernode with a matching key pair signs is valid, if its transaction id is read
  -- as a hash. It names the key of the signer, and its id and result are as before.
  pub validate-sign :
      (r1 r2 : ℕ) (arg : AuthorizeRtaTxResponse) (h : c.Hash) (s : Supernode c)
      → s.has_secret_key ≡ true
      → c.secret_key_to_public_key s.secret_key ≡ some s.id_key
      → c.hex_to_hash arg.tx_id ≡ some h
      → (validate_auth_response c u (sign_auth_response c u r1 r2 arg s) ≡ true)
        × ((sign_auth_response c u r1 r2 arg s).signature.id_key ≡ id_key_as_string c s)
        × ((sign_auth_response c u r1 r2 arg s).tx_id ≡ arg.tx_id)
        × ((sign_auth_response c u r1 r2 arg s).result ≡ arg.result)
  unfolding validate_auth_response sign_auth_response sign_message sign_hash verify_signature
      verify_hash id_key_as_string
  validate-sign r1 r2 arg h s hk hp read =
      let hash = c.cn_fast_hash (arg.tx_id ++ (":" ++ int_to_string arg.result)) in
      let sign = c.generate_signature r1 hash s.id_key s.secret_key in
      let sign_tx = c.generate_signature r2 h s.id_key s.secret_key in
      (
        simp
            (
              hk,
              read,
              cl.signature_hex sign,
              cl.signature_hex sign_tx,
              cl.key_hex s.id_key,
              cl.signature_checks r1 hash s.id_key s.secret_key hp,
              cl.signature_checks r2 h s.id_key s.secret_key hp,
              validate_auth_response,
              if◌then◌else◌,
              or_unwritten,
              not,
              verify_signature,
              verify_hash,
              ◌&&◌,
            )
            refl,
        refl,
        refl,
        refl,
      )
