-- ===== src/Libs.antt =====
-- The libraries that nopfs calls: go-cid, go-multihash, go-multibase and boxo/path. Each is a
-- parameter of the model. A `cid.Cid` is a Go string that holds the binary form of the CID, and a
-- `multihash.Multihash` is a byte slice, so both are byte lists here; what is read from them, and
-- how they are made from text, is the libraries' alone. A `Cid` stands for a defined one; where the
-- code may hold `cid.Undef` the model has an `Option`. A `path.Path` is an interface, used through
-- its methods `String` and `Segments`.
use nopfs.Prelude.{ℕ, List, Bytes, Result}

abbrev pub Cid : Type 0
Cid = Bytes

abbrev pub Multihash : Type 0
Multihash = Bytes

pub record IpfsPath : Type 0 where
  pub text : Bytes
  pub segments : List Bytes

pub record DecodedMultihash : Type 0 where
  pub code : ℕ
  pub size : ℕ

pub record Libs : Type 0 where
  -- `cid.Decode`, `Cid.Hash`, `Cid.Prefix().Codec`, `cid.NewCidV1`, `Cid.StringOfBase(Base32)`
  pub decode_cid : Bytes → Result Cid
  pub hash : Cid → Multihash
  pub codec : Cid → ℕ
  pub new_cid_v1 : ℕ → Multihash → Cid
  pub base32 : Cid → Result Bytes
  -- `Multihash.B58String`, `multihash.FromB58String`, `Decode`, `Encode`, `Sum(data, code, -1)`
  pub b58 : Multihash → Bytes
  pub from_b58 : Bytes → Result Multihash
  pub decode_multihash : Multihash → Result DecodedMultihash
  pub encode_multihash : Bytes → ℕ → Result Multihash
  pub sum : Bytes → ℕ → Result Multihash
  -- `mhreg.GetVariableHasher(code, length)`, and the constant `multihash.SHA2_256`
  pub variable_hasher : ℕ → ℕ → Result (Unit {0})
  pub sha2_256 : ℕ
  -- `path.NewPath`
  pub new_path : Bytes → Result IpfsPath
  -- `Cid.String`
  pub cid_string : Cid → Bytes
