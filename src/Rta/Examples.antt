-- ===== src/Rta/Examples.antt =====
-- The theorems of src/rta at concrete inputs, over a toy of the libraries: keys are texts, whose
-- hexadecimal form has one character more, a signature is the hash followed by the key, and a disk
-- is a list of files.
use Prim.Native.String.{◌∷◌ as str_cons, ◌++◌ as str_append}
use text.Mathlib.TextPositions.{eq_refl}
use graft_ng.Shared.{
  ◌≡◌, ◌≢◌, refl, String, true, Option, none, some, List, [], ◌∷◌, arith, ◌==◌, string_eq, nat_eq,
  lookup, assign, has_key, lookup-assign, to_string,
}
use graft_ng.Rta.Crypto.{Crypto, CryptoLaws, Files, FilesLaws}
use graft_ng.Rta.Supernode.{Supernode, SupernodeAnnounce, validate_announce, load_keys, save_keys}
use graft_ng.Rta.Supernode.Keys.{load_keys-save_keys}
use graft_ng.Rta.Supernode.Announces.{validate_announce-IsSigned}

unfoldable pub chop : String → Option String
chop String.[] = none
chop (String.◌∷◌ ch s) = some s

abbrev pub mark : String → String
mark s = str_cons "K" s

abbrev pub toy : Crypto
toy = record {
  PublicKey = String;
  SecretKey = String;
  Hash = String;
  Signature = String;
  blank_secret = "";
  key_to_hex = mark;
  hex_to_key = chop;
  secret_to_hex = mark;
  hex_to_secret = chop;
  signature_to_hex = mark;
  hex_to_signature = chop;
  hash_to_hex = mark;
  hex_to_hash = chop;
  cn_fast_hash = λ s. s;
  generate_signature = λ r h k s. str_append h k;
  check_signature = λ h k s. s == str_append h k;
  secret_key_to_public_key = λ s. some s;
}

pub toy-laws : CryptoLaws toy
unfolding chop
toy-laws = record {
  key_hex = λ k. refl;
  key_hex_nonempty = λ k e. cc;
  secret_hex = λ k. refl;
  signature_hex = λ k. refl;
  signature_checks = λ r h k s e. eq_refl (str_append h k);
}

abbrev disks : Files
disks = record {
  Disk = List (String × String);
  exists = has_key;
  load_file_to_string = lookup;
  save_string_to_file = λ p t d. some (assign p t d);
  rename = λ p q d. elim (lookup p d) [ none ↦ none | some t ↦ some (assign q t d) ];
}

assigned :
    (p t : String) (d e : List (String × String))
    → some (assign p t d) ≡ some e
    → lookup p e ≡ some t
assigned p t d e h = ground (arith, lookup-assign p p t d, eq_refl p, value (assign p t d) e h)
  where
    value : (a b : List (String × String)) → some a ≡ some b → a ≡ b
    value a b h = cc

renamed :
    (p q t : String) (d e : List (String × String))
    → lookup p d ≡ some t
    → disks.rename p q d ≡ some e
    → lookup q e ≡ some t
renamed p q t d e h r = assigned q t d e (moved (lookup p d) h r)
  where
    moved :
        (o : Option String)
        → o ≡ some t
        → elim o as (λ _. Option (List (String × String))) [
          | none ↦ none
          | some u ↦ some (assign q u d)
        ]
          ≡ some e
        → some (assign q t d) ≡ some e
    moved none h r = cc
    moved (some u) h r = cc

disks-laws : FilesLaws disks
disks-laws = record {
  load-exists = λ p t d h. ground arith;
  save-load = assigned;
  rename-load = renamed;
}

abbrev pub node : String → Supernode toy
node key = record {
  wallet_address = "w";
  id_key = key;
  secret_key = key;
  has_secret_key = true;
  network_address = "n";
  last_update_time = 1000;
  stake_amount = 100;
  stake_block_height = 20;
  stake_unlock_time = 30;
  testnet = true;
}

abbrev blank : SupernodeAnnounce
blank = record { supernode_public_id = ""; height = 0; signature = ""; network_address = "" }

load_keys-save_keys_example :
    load_keys toy disks "f" (("f", "Ka") ∷ ("f.tmp", "Ka") ∷ []) (node "b")
    ≡ (record (node "b") { secret_key = "a"; id_key = "a" }, true)
unfolding save_keys
load_keys-save_keys_example =
    load_keys-save_keys toy toy-laws disks disks-laws "f" true (("f", "Kz") ∷ []) _ (node "a")
      (node "b") "a" refl refl

abbrev pub signed : SupernodeAnnounce
signed = record {
  supernode_public_id = "Ka";
  height = 20;
  signature = "KKa20a";
  network_address = "n";
}

signed_validates : validate_announce toy signed ≡ some "a"
unfolding validate_announce chop to_string
signed_validates = refl

validate_announce-IsSigned_example : signed.supernode_public_id ≢ ""
validate_announce-IsSigned_example = (validate_announce-IsSigned toy signed "a" signed_validates).0
