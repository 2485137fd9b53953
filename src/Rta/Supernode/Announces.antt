-- ===== src/Rta/Supernode/Announces.antt =====
-- Announces: who can make one, and what one changes.
use Prim.Native.String.{◌++◌}
use graft_ng.Shared.{
  ℕ, ◌≡◌, ◌≢◌, String, true, false, none, some, arith, to_string, ◌==◌, string_eq, Bool-cases, inl,
  inr, ◌⊎◌,
}
use text.Mathlib.TextEquality.{eq_iff}
use graft_ng.Rta.Crypto.{Crypto, CryptoLaws}
use graft_ng.Rta.Supernode.{Supernode, SupernodeAnnounce, validate_announce, prepare_announce}

module _ (c : Crypto) (cl : CryptoLaws c) where
  nonempty_test : (s : String) → s ≢ "" → (s == "") ≡ false
  nonempty_test s h = elim (Bool-cases (s == "")) [
    | inl e ↦ absurd (h ((eq_iff s "").0 e))
    | inr e ↦ e
  ]

  -- An announce that a supernode with a matching key pair prepares validates at every receiver,
  -- under its own public key, whatever the announce held before.
  pub validate_announce-prepare_announce :
      (r : ℕ) (a : SupernodeAnnounce) (s : Supernode c)
      → s.has_secret_key ≡ true
      → c.secret_key_to_public_key s.secret_key ≡ some s.id_key
      → ((prepare_announce c r a s).1 ≡ true)
        × (validate_announce c (prepare_announce c r a s).0 ≡ some s.id_key)
  unfolding validate_announce prepare_announce
  validate_announce-prepare_announce r a s hk hp =
      let text = c.key_to_hex s.id_key in
      let hash = c.cn_fast_hash (text ++ to_string s.stake_block_height) in
      let sign = c.generate_signature r hash s.id_key s.secret_key in
      ground (
        arith,
        nonempty_test text (cl.key_hex_nonempty s.id_key),
        cl.key_hex s.id_key,
        cl.signature_hex sign,
        cl.signature_checks r hash s.id_key s.secret_key hp,
      )

module _ (c : Crypto) where
  -- What a receiver accepts is signed: the public id is not empty and reads as the key that is
  -- returned, the signature reads, and it checks, under that key, for the hash of the public id
  -- followed by the height.
  pub validate_announce-IsSigned :
      (a : SupernodeAnnounce) (k : c.PublicKey)
      → validate_announce c a ≡ some k
      → (a.supernode_public_id ≢ "")
        × (c.hex_to_key a.supernode_public_id ≡ some k)
        × ((sg : c.Signature) × (c.hex_to_signature a.signature ≡ some sg)
            × (c.check_signature (c.cn_fast_hash (a.supernode_public_id ++ to_string a.height)) k sg
                ≡ true))
  unfolding validate_announce
  validate_announce-IsSigned a k h = ground (arith, eq_iff a.supernode_public_id "")

module _ (c : Crypto) where
  -- The public id is not empty and reads as the key, the signature reads, and it checks under that
  -- key for the hash of the public id followed by the height.
  unfoldable pub IsAccepted : SupernodeAnnounce → c.PublicKey → Type 0
  IsAccepted a k =
      (a.supernode_public_id ≢ "")
      × (c.hex_to_key a.supernode_public_id ≡ some k)
      × ((sg : c.Signature) × (c.hex_to_signature a.signature ≡ some sg)
          × (c.check_signature (c.cn_fast_hash (a.supernode_public_id ++ to_string a.height)) k sg
              ≡ true))

  -- The public id is empty or no key, the signature is none, or it does not check.
  unfoldable pub IsRefused : SupernodeAnnounce → Type 0
  IsRefused a =
      (a.supernode_public_id ≡ "")
      ⊎ (c.hex_to_key a.supernode_public_id ≡ none)
      ⊎ (c.hex_to_signature a.signature ≡ none)
      ⊎ ((k : c.PublicKey) × (sg : c.Signature) × (c.hex_to_key a.supernode_public_id ≡ some k)
          × (c.hex_to_signature a.signature ≡ some sg)
          × (c.check_signature (c.cn_fast_hash (a.supernode_public_id ++ to_string a.height)) k sg
              ≡ false))
