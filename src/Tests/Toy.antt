-- ===== src/Tests/Toy.antt =====
-- A toy version of the libraries, with which the code runs: a CID is its own multihash, the first byte
-- `b` of a text stands for another base of the same CID, and a hash puts its code before the data.
use nopfs.Prelude.{
  ℕ, List, [], ◌∷◌, Bytes, codes, nat_eqb, if◌then◌else◌, Error, external, Result, ok, err, arith,
}
use nopfs.Libs.{Libs, IpfsPath}
use nopfs.Text.{has_prefix, strip_prefix}
use nopfs.Denylist.Lookup.{is_cid_v0}
use nopfs.Denylist.Blocking.{CidV0Law}

abbrev pub no_cid : Error
no_cid = external (codes "no cid")

abbrev pub toy_decode : Bytes → Result Bytes
toy_decode [] = err no_cid
toy_decode (c ∷ s) =
    if nat_eqb c b'b' then ok (b'Q' ∷ s) else if nat_eqb c b'Q' then ok (c ∷ s) else err no_cid

-- The parts of a path between slashes.
abbrev add_byte : ℕ → List Bytes → List Bytes
add_byte c [] = (c ∷ []) ∷ []
add_byte c (part ∷ parts) = (c ∷ part) ∷ parts

abbrev split : Bytes → List Bytes
split [] = [] ∷ []
split (c ∷ s) = let rest = split s in if nat_eqb c b'/' then [] ∷ rest else add_byte c rest

abbrev drop_empty : List Bytes → List Bytes
drop_empty [] = []
drop_empty ([] ∷ parts) = drop_empty parts
drop_empty ((c ∷ part) ∷ parts) = (c ∷ part) ∷ drop_empty parts

abbrev pub path_of : Bytes → IpfsPath
path_of text = record { text = text; segments = drop_empty (split text) }

abbrev pub toy : Libs
toy = record {
  decode_cid = toy_decode;
  hash = λ c. c;
  codec = λ c. 0x70;
  new_cid_v1 = λ codec mh. mh;
  base32 = λ c. ok (b'b' ∷ c);
  b58 = λ mh. mh;
  from_b58 = toy_decode;
  decode_multihash = λ mh. ok (record { code = 0x41; size = 32 });
  encode_multihash = λ bytes code. ok (code ∷ bytes);
  sum = λ bytes code. ok (b'Q' ∷ code ∷ bytes);
  variable_hasher = λ code size. ok tt;
  sha2_256 = 0x12;
  new_path = λ text. ok (path_of text);
  cid_string = λ c. c;
}

pub toy-CidV0Law : CidV0Law toy
unfolding is_cid_v0 has_prefix strip_prefix
toy-CidV0Law [] c v0 d = absurd (ground arith)
toy-CidV0Law (x ∷ text) c v0 d = ground arith
