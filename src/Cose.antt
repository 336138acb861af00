-- ===== src/Cose.antt =====
-- The structures of cose_signer.go that are encoded as CBOR.
use ubirch_cose_client_go.Prelude.{ℕ, Bytes}
use ubirch_cose_client_go.Dict.{Dict}
use ubirch_cose_client_go.Errors.{codes}

-- `negsuc n` is -(n + 1).
pub data ℤ : Type 0 where
  pos : ℕ → ℤ
  negsuc : ℕ → ℤ

abbrev pub cose_alg_label : ℕ
cose_alg_label = 1

abbrev pub cose_es256_id : ℤ
cose_es256_id = negsuc 6

abbrev pub cose_kid_label : ℕ
cose_kid_label = 4

abbrev pub cose_sign1_tag : ℕ
cose_sign1_tag = 18

abbrev pub cose_sign1_context : Bytes
cose_sign1_context = codes "Signature1"

-- `COSE_Sign1`; the only values of its unprotected header are byte strings.
pub record CoseSign1 : Type 0 where
  pub protected : Bytes
  pub unprotected : Dict ℕ Bytes
  pub payload : Bytes
  pub signature : Bytes

-- `Sig_structure`
pub record SigStructure : Type 0 where
  pub context : Bytes
  pub protected_header : Bytes
  pub external : Bytes
  pub payload : Bytes

-- The Go values that the program hands to `encMode.Marshal`: the map[uint8]int8 of the protected
-- header, a `cbor.Tag` around a `COSE_Sign1`, a `Sig_structure`, and a map[string]string.
pub data Value : Type 0 where
  int_map : Dict ℕ ℤ → Value
  tag : ℕ → CoseSign1 → Value
  sig_structure : SigStructure → Value
  string_map : Dict Bytes Bytes → Value
