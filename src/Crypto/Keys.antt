-- ===== src/Crypto/Keys.antt =====
-- internal/crypto/crypto.go: the reading of key files. `os.ReadFile`, `pem.Decode` and the parsers of
-- `crypto/x509` are parameters.
use gometrics.Prelude.{String, Option, none, some, Bytes, ◌==◌, if◌then◌else◌}
use gometrics.Handler.{trim_space}

-- the errors, without their texts
pub data KeyError : Type 0 where
  no_path : KeyError
  unreadable : KeyError
  no_pem_block : KeyError
  not_rsa : KeyError
  unparsable : KeyError

pub data Loaded (K : Type 0) : Type 0 where
  loaded : K → Loaded K
  key_error : KeyError → Loaded K

-- what a parser that takes keys of several kinds gives
pub data AnyKey (K : Type 0) : Type 0 where
  rsa_key : K → AnyKey K
  other_key : AnyKey K

-- `pem_decode` gives the bytes of the first block
pub record KeyFiles (Public Private : Type 0) : Type 0 where
  pub read_file : String → Option Bytes
  pub pem_decode : Bytes → Option Bytes
  pub parse_pkix_public : Bytes → Option (AnyKey Public)
  pub parse_pkcs1_public : Bytes → Option Public
  pub parse_pkcs1_private : Bytes → Option Private
  pub parse_pkcs8_private : Bytes → Option (AnyKey Private)

abbrev pub checked_key : {K : Type 0} → AnyKey K → Loaded K
checked_key (rsa_key k) = loaded k
checked_key other_key = key_error not_rsa

module _ {Public Private : Type 0} (files : KeyFiles Public Private) where
  decode_block : Option Bytes → Loaded Bytes
  decode_block none = key_error unreadable
  decode_block (some data_read) = elim (files.pem_decode data_read) [
    | none ↦ key_error no_pem_block
    | some block ↦ loaded block
  ]

  -- `readPEMBlock`
  unfoldable pub read_pem_block : String → Loaded Bytes
  unfolding decode_block
  read_pem_block path =
      if trim_space path == "" then key_error no_path else decode_block (files.read_file path)

  -- PKIX first, then PKCS#1
  parse_public : Bytes → Loaded Public
  parse_public block = elim (files.parse_pkix_public block) [
    | some k ↦ checked_key k
    | none ↦ elim (files.parse_pkcs1_public block) [
      | some k ↦ loaded k
      | none ↦ key_error unparsable
    ]
  ]

  unfoldable pub load_public_key : String → Loaded Public
  unfolding read_pem_block parse_public
  load_public_key path = elim (read_pem_block path) [
    | key_error e ↦ key_error e
    | loaded block ↦ parse_public block
  ]

  -- PKCS#1 first, then PKCS#8
  parse_private : Bytes → Loaded Private
  parse_private block = elim (files.parse_pkcs1_private block) [
    | some k ↦ loaded k
    | none ↦ elim (files.parse_pkcs8_private block) [
      | some k ↦ checked_key k
      | none ↦ key_error unparsable
    ]
  ]

  unfoldable pub load_private_key : String → Loaded Private
  unfolding read_pem_block parse_private
  load_private_key path = elim (read_pem_block path) [
    | key_error e ↦ key_error e
    | loaded block ↦ parse_private block
  ]

  -- `SetCryptoKey` of the handler and of the agent: the key after it, and its error
  abbrev pub set_key :
      {K : Type 0} → (String → Loaded K) → String → Option K → Option KeyError × Option K
  set_key load path old =
      if path == ""
      then (none, none)
      else elim (load path) [ loaded k ↦ (none, some k) | key_error e ↦ (some e, old) ]
