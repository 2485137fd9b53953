-- ===== src/Rta/Supernode/Keys.antt =====
-- The secret key's file.
use Prim.Native.String.{◌++◌}
use graft_ng.Shared.{◌≡◌, String, Bool, true, some, arith, Option-cases, inl, inr}
use graft_ng.Rta.Crypto.{Crypto, CryptoLaws, Files, FilesLaws}
use graft_ng.Rta.Supernode.{Supernode, load_keys, load_secret, save_keys}

module _ (c : Crypto) (cl : CryptoLaws c) (f : Files) (fl : FilesLaws f) where
  -- A successful `save_keys` leaves the secret key, in hexadecimal, in the file.
  saved_text :
      (name : String) (force : Bool) (d e : f.Disk) (s : Supernode c)
      → save_keys c f name force d s ≡ (e, true)
      → f.load_file_to_string name e ≡ some (c.secret_to_hex s.secret_key)
  unfolding save_keys
  saved_text name force d e s h =
      let tmp = name ++ ".tmp" in
      let text = c.secret_to_hex s.secret_key in
      elim (Option-cases (f.save_string_to_file tmp text d)) [
        | inl no_file ↦ ground arith
        | inr (w, written) ↦ elim (Option-cases (f.rename tmp name w)) [
          | inl no_rename ↦ ground arith
          | inr (v, renamed) ↦
              ground (
                arith,
                fl.rename-load tmp name text w v (fl.save-load tmp text d w written) renamed,
              )
        ]
      ]

  -- When `save_keys` succeeds and the secret key has a public key, any supernode that loads the
  -- file afterwards succeeds, and holds that secret key and its public key.
  pub load_keys-save_keys :
      (name : String) (force : Bool) (d e : f.Disk) (s t : Supernode c) (pkey : c.PublicKey)
      → c.secret_key_to_public_key s.secret_key ≡ some pkey
      → save_keys c f name force d s ≡ (e, true)
      → load_keys c f name e t
        ≡ (record t { secret_key = s.secret_key; id_key = pkey; has_secret_key = true }, true)
  unfolding load_keys
  load_keys-save_keys name force d e s t pkey hp h =
      let there = saved_text name force d e s h in
      rw (fl.load-exists name _ e there, there, cl.secret_hex s.secret_key, hp, load_secret)
