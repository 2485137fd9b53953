-- ===== src/Rta/Crypto.antt =====
-- What src/rta/supernode.cpp calls of the CryptoNote and epee libraries, which are not part of the
-- repository: keys, hashes and signatures, their hexadecimal form, and the files that hold them.
use graft_ng.Shared.{ℕ, String, ◌≡◌, ◌≢◌, Bool, true, Option, some}

pub record Crypto : Type 1 where
  pub PublicKey : Type 0
  pub SecretKey : Type 0
  pub Hash : Type 0
  pub Signature : Type 0
  -- A default constructed secret key.
  pub blank_secret : SecretKey
  -- `epee::string_tools::pod_to_hex` and `hex_to_pod`, at each type.
  pub key_to_hex : PublicKey → String
  pub hex_to_key : String → Option PublicKey
  pub secret_to_hex : SecretKey → String
  pub hex_to_secret : String → Option SecretKey
  pub signature_to_hex : Signature → String
  pub hex_to_signature : String → Option Signature
  pub hash_to_hex : Hash → String
  pub hex_to_hash : String → Option Hash
  pub cn_fast_hash : String → Hash
  -- The number stands for the random scalar that the library draws.
  pub generate_signature : ℕ → Hash → PublicKey → SecretKey → Signature
  pub check_signature : Hash → PublicKey → Signature → Bool
  pub secret_key_to_public_key : SecretKey → Option PublicKey

-- Documented behaviour: hexadecimal text is read back, and a signature checks under the key pair
-- that made it.
pub record CryptoLaws (c : Crypto) : Type 0 where
  pub key_hex : (k : c.PublicKey) → c.hex_to_key (c.key_to_hex k) ≡ some k
  pub key_hex_nonempty : (k : c.PublicKey) → c.key_to_hex k ≢ ""
  pub secret_hex : (k : c.SecretKey) → c.hex_to_secret (c.secret_to_hex k) ≡ some k
  pub signature_hex : (s : c.Signature) → c.hex_to_signature (c.signature_to_hex s) ≡ some s
  pub signature_checks :
      (r : ℕ) (h : c.Hash) (k : c.PublicKey) (s : c.SecretKey)
      → c.secret_key_to_public_key s ≡ some k
      → c.check_signature h k (c.generate_signature r h k s) ≡ true

-- `boost::filesystem` and `epee::file_io_utils` over a disk.
pub record Files : Type 1 where
  pub Disk : Type 0
  pub exists : String → Disk → Bool
  pub load_file_to_string : String → Disk → Option String
  pub save_string_to_file : String → String → Disk → Option Disk
  pub rename : String → String → Disk → Option Disk

pub record FilesLaws (f : Files) : Type 0 where
  pub load-exists :
      (p t : String) (d : f.Disk) → f.load_file_to_string p d ≡ some t → f.exists p d ≡ true
  pub save-load :
      (p t : String) (d d' : f.Disk)
      → f.save_string_to_file p t d ≡ some d'
      → f.load_file_to_string p d' ≡ some t
  pub rename-load :
      (p q t : String) (d d' : f.Disk)
      → f.load_file_to_string p d ≡ some t
      → f.rename p q d ≡ some d'
      → f.load_file_to_string q d' ≡ some t
