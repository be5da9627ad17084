-- ===== src/Denylist/Rules.antt =====
-- The parts of `parseLine` that need no library: the results, the hints, the mark of an allow rule,
-- and what a rule adds to the denylist.
use nopfs.Prelude.{
  ℕ, Bool, true, false, List, [], ◌∷◌, ◌++◌, Option, none, some, Bytes, codes, nat_eq, bytes_eq,
  nat_eqb, bytes_eqb, if◌then◌else◌, Error, double_hash_unparsable, Result, ok, err,
}
use nopfs.Prelude.GoMap.{GoMap, put}
use nopfs.Libs.{Cid, Multihash}
use nopfs.Text.{cut_prefix, cut}
use nopfs.Entry.{Entry, BlockedPath, new_blocked_path, zero_path}
use nopfs.BlocksDb.{BlocksDb, store}
use nopfs.Denylist.{Denylist}

-- What `parseLine` does: it returns, having changed the denylist or not, with an error or not, or
-- it panics.
pub data Outcome : Type 0 where
  returned : Denylist → Option Error → Outcome
  panics : Outcome

-- What a case of the switch does: it returns from `parseLine`, or the entry goes on to be appended
-- to the entries.
pub data Case : Type 0 where
  returns : Denylist → Option Error → Case
  falls_out : Denylist → Entry → Case

abbrev pub add_hint : GoMap Bytes Bytes → Bytes × Bytes × Bool → GoMap Bytes Bytes
add_hint hints (key, value, true) = put hints key value
add_hint hints (key, value, false) = hints

-- The hints of the rule, onto those of the header.
unfoldable pub add_hints : GoMap Bytes Bytes → List Bytes → GoMap Bytes Bytes
add_hints hints [] = hints
add_hints hints (kv ∷ slice) = add_hints (add_hint hints (cut kv b'=')) slice

-- The rule without its mark, and whether it is an allow rule.
unfoldable pub strip_allow : Bytes → Bytes × Bool
strip_allow rule =
    let (minus, is_minus) = cut_prefix rule (codes "-") in
    let (plus, is_plus) = cut_prefix rule (codes "+") in
    let (bang, is_bang) = cut_prefix rule (codes "!") in
    if is_minus
    then (minus, true)
    else if is_plus
    then (plus, true)
    else if is_bang
    then (bang, true)
    else (rule, false)

-- `strings.TrimSuffix(line, "\n")`, and the test that passes over empty lines and comments.
unfoldable pub is_ignored : Bytes → Bool
is_ignored [] = true
is_ignored (c ∷ line) = nat_eqb c b'#'

abbrev pub blocks_of : Option BlocksDb → BlocksDb
blocks_of none = []
blocks_of (some blocks) = blocks

abbrev pub both_failed : Result (ℕ × Multihash) → Result (ℕ × Multihash) → Bytes → ℕ → Option Error
both_failed (err err1) (err err2) file number = some (double_hash_unparsable err1 err2 file number)
both_failed _ _ file number = none

abbrev pub fall_or_return : Denylist → Entry → Option Error → Case
fall_or_return dl e none = falls_out dl e
fall_or_return dl e (some error) = returns dl (some error)

-- The CIDs of `SafeCids`.
abbrev pub safe_cids : List Bytes
safe_cids =
    codes "QmUNLLsPACCz1vLxQVkXqqLX5R1X345qqfHbsf67hvA3Nn"
    ∷ codes "bafyaabakaieac"
    ∷ codes "bafkreihdwdcefgh4dqkjv67uzcmw7ojee6xedzdetojuzjevtenxquvyku"
    ∷ codes "bafkqaaa"
    ∷ codes "QmbFMke1KXqnYyBBWxB74N4c5SBnJMVAiMNRcGu6x1AwQH"
    ∷ codes "bafyreigbtj4x7ip5legnfznufuopl4sg4knzc2cof6duas4b3q2fy6swua"
    ∷ codes "baguqeeraiqjw7i2vwntyuekgvulpp2det2kpwt6cd7tx5ayqybqpmhfk76fa"
    ∷ []

abbrev pub decodes_to : Result Cid → Cid → Bool
decodes_to (ok d) c = bytes_eqb d c
decodes_to (err _) c = false

abbrev pub store_ipns : Denylist → Entry → Bytes → Result BlockedPath → Case
store_ipns dl e key (err error) = returns dl (some error)
store_ipns dl e key (ok path) =
    let e' = record e { path = path } in
    falls_out (record dl { ipns_blocks_db = store dl.ipns_blocks_db key e' }) e'

abbrev pub store_path : Denylist → Entry → Bytes → Result BlockedPath → Case
store_path dl e rule (err error) = returns dl (some error)
store_path dl e rule (ok path) =
    let e' = record e { path = path } in
    if path.prefix
    then falls_out (record dl { path_prefix_blocks = dl.path_prefix_blocks ++ e' ∷ [] }) e'
    else falls_out (record dl { path_blocks_db = store dl.path_blocks_db rule e' }) e'

-- `default`: a rule for a path alone.
unfoldable pub path_case : Denylist → Entry → Bytes → Case
path_case dl e rule = store_path dl e rule (new_blocked_path rule)

-- The end of `parseLine`.
abbrev pub append_entry : Case → Outcome
append_entry (returns dl error) = returned dl error
append_entry (falls_out dl e) = returned (record dl { entries = dl.entries ++ e ∷ [] }) none

-- The entry as it stands before the switch.
abbrev pub line_entry : Denylist → Bytes → ℕ → List Bytes → Bool → Entry
line_entry dl line number hint_slice allow = record {
  line = number;
  allow_rule = allow;
  hints = add_hints dl.header.hints hint_slice;
  raw_value = line;
  multihash = [];
  path = zero_path;
}
