-- ===== src/Entry.antt =====
-- entry.go: the rules of a denylist, and the path part of a rule.
pub mod Matching
pub mod Deciding
pub mod Wildcards
use nopfs.Prelude.{
  ℕ, Bool, true, false, ◌&&◌, List, [], ◌∷◌, Bytes, codes, bytes_eqb, if◌then◌else◌, Result, ok,
  err, ◌>>=◌,
}
use mathlib.Core.List.{reverse}
use nopfs.Prelude.GoMap.{GoMap}
use nopfs.Libs.{Multihash}
use nopfs.Text.{has_prefix, has_suffix, trim_prefix, trim_suffix, query_unescape}

pub record BlockedPath : Type 0 where
  pub path : Bytes
  pub prefix : Bool

pub record Entry : Type 0 where
  pub line : ℕ
  pub allow_rule : Bool
  pub hints : GoMap Bytes Bytes
  pub raw_value : Bytes
  pub multihash : Multihash
  pub path : BlockedPath

abbrev pub Entries : Type 0
Entries = List Entry

-- `BlockedPath{}` and `Entry{}`.
abbrev pub zero_path : BlockedPath
zero_path = record { path = []; prefix = false }

abbrev pub zero_entry : Entry
zero_entry = record {
  line = 0;
  allow_rule = false;
  hints = [];
  raw_value = [];
  multihash = [];
  path = zero_path;
}

-- `Entry.Clone`: a value has no aliases here, so a copied map is the map.
unfoldable pub clone : Entry → Entry
clone e = record {
  line = e.line;
  allow_rule = e.allow_rule;
  hints = e.hints;
  raw_value = e.raw_value;
  multihash = e.multihash;
  path = e.path;
}

-- The wildcard at the end of a raw path, dealt with before unescaping.
unfoldable pub split_wildcard : Bytes → BlockedPath
split_wildcard raw =
    if has_suffix raw (codes "/*")
    then record { path = trim_suffix raw (codes "/*"); prefix = true }
    else if has_suffix raw (codes "*")
    then record { path = trim_suffix raw (codes "*"); prefix = true }
    else record { path = raw; prefix = false }

-- One slash goes at each end.
unfoldable pub trim_slashes : Bytes → Bytes
trim_slashes path = trim_suffix (trim_prefix path (codes "/")) (codes "/")

unfoldable pub new_blocked_path : Bytes → Result BlockedPath
new_blocked_path raw = if bytes_eqb raw [] then ok zero_path else do
  let split = split_wildcard raw
  path ← query_unescape split.path
  ok (record { path = trim_slashes path; prefix = split.prefix })

-- `Matches` trims in the other order.
unfoldable pub sanitize : Bytes → Bytes
sanitize path = trim_prefix (trim_suffix path (codes "/")) (codes "/")

unfoldable pub matches : BlockedPath → Bytes → Bool
matches b p =
    let path = sanitize p in
    if bytes_eqb b.path (codes "*")
    then true
    else if bytes_eqb b.path [] && bytes_eqb path []
    then true
    else if b.prefix && has_prefix path b.path
    then true
    else if bytes_eqb b.path path
    then true
    else false

pub data Status : Type 0 where
  not_found blocked allowed errored : Status

-- The loop over the entries, the last one first.
unfoldable pub scan : Entries → Bytes → Status × Entry
scan [] p = (not_found, zero_entry)
scan (e ∷ es) p =
    if matches e.path p then (if e.allow_rule then (allowed, e) else (blocked, e)) else scan es p

unfoldable pub check_path_status : Entries → Bytes → Status × Entry
check_path_status entries p = scan (reverse entries) p
