-- ===== src/Denylist/PathRules.antt =====
-- What a rule for a path alone does to the denylist, and what the queries answer then.
use nopfs.Prelude.{
  ℕ, ◌≡◌, ◌≢◌, refl, ◌∙◌, true, false, List, [], ◌∷◌, ◌++◌, none, Bytes, codes, ok, arith,
  bytes_eqb-ne,
}
use nopfs.Libs.{Libs, IpfsPath}
use nopfs.Text.{has_prefix, strip_prefix, join}
use nopfs.Text.Fields.{IsVisible}
use nopfs.Entry.{Entry, BlockedPath, new_blocked_path, matches, check_path_status, not_found}
use nopfs.Entry.Deciding.{check_path_status-concat}
use nopfs.BlocksDb.{load, store, load-store}
use nopfs.Denylist.{Denylist}
use nopfs.Denylist.Rules.{returned, line_entry, append_entry, store_path, path_case}
use nopfs.Denylist.Parsing.{parse_rule, parse_line}
use nopfs.Denylist.RuleText.{Mark, mark_text, allows, parse_line-mark}
use nopfs.Denylist.Blocking.{mark_status, is_hit-rule}
use nopfs.Denylist.Lookup.{is_segments_blocked, is_path_blocked, is_subpath_blocked}
use nopfs.Denylist.SameNames.{subpath_of, is_segments_blocked-SameNames}

-- A rule for a path alone that begins with a slash, with its newline.
abbrev pub path_line : Mark → Bytes → Bytes
path_line m r = (mark_text m ++ b'/' ∷ r) ++ codes "\n"

-- It is no rule of another kind.
abbrev pub IsPathRule : Bytes → Type 0
IsPathRule rule =
    (has_prefix rule (codes "//") ≡ false)
    × (has_prefix rule (codes "/ipfs/") ≡ false)
    × (has_prefix rule (codes "/ipld/") ≡ false)
    × (has_prefix rule (codes "/ipns/") ≡ false)

slash-ne : {r : Bytes} (sub : Bytes) → has_prefix sub (codes "/") ≡ false → b'/' ∷ r ≢ sub
unfolding has_prefix strip_prefix
slash-ne [] h e = absurd (ground arith)
slash-ne (c ∷ []) h e = ground arith
slash-ne (c ∷ d ∷ sub) h e = ground arith

module _ (L : Libs) (dl : Denylist) (m : Mark) (r : Bytes) (number : ℕ) (b : BlockedPath)
    (v : IsVisible r) (kind : IsPathRule (b'/' ∷ r))
    (path : new_blocked_path (b'/' ∷ r) ≡ ok b) where
  abbrev path_entry : Entry
  path_entry = record (line_entry dl (mark_text m ++ b'/' ∷ r) number [] (allows m)) { path = b }

  parse_line-path_line :
      parse_line L dl (path_line m r) number
      ≡ append_entry (
          store_path dl
            (line_entry dl (mark_text m ++ b'/' ∷ r) number [] (allows m))
            (b'/' ∷ r)
            (ok b))
  parse_line-path_line =
      parse_line-mark L dl m r number v
      ∙ (unfold parse_rule path_case in rw (kind.0, kind.1, kind.2, kind.3, path))

  -- The denylist with the rule among the wildcards, or under its text.
  abbrev with_wildcard : Denylist
  with_wildcard = record dl {
    path_prefix_blocks = dl.path_prefix_blocks ++ path_entry ∷ [];
    entries = dl.entries ++ path_entry ∷ [];
  }

  abbrev with_exact : Denylist
  with_exact = record dl {
    path_blocks_db = store dl.path_blocks_db (b'/' ∷ r) path_entry;
    entries = dl.entries ++ path_entry ∷ [];
  }

  is_subpath_blocked-with_exact :
      (sub : Bytes)
      → has_prefix sub (codes "/") ≡ false
      → is_subpath_blocked with_exact sub ≡ is_subpath_blocked dl sub
  unfolding is_subpath_blocked
  is_subpath_blocked-with_exact sub h = rw (
    load-store dl.path_blocks_db (b'/' ∷ r) path_entry sub,
    bytes_eqb-ne (b'/' ∷ r) sub (slash-ne sub h),
  )

  -- A line that is a rule for a path alone, which begins with a slash and has no wildcard, is read
  -- with no error when it is printable and makes a rule path; and it changes the response to no path
  -- whose subpath does not begin with a slash.
  pub exact_path_rule_misses :
      b.prefix ≡ false
      → (order : List ℕ) (p : IpfsPath) → has_prefix (subpath_of p.segments) (codes "/") ≡ false
      → (dl' : Denylist) × (parse_line L dl (path_line m r) number ≡ returned dl' none)
        × (is_path_blocked L dl' order p ≡ is_path_blocked L dl order p)
  unfolding is_path_blocked
  exact_path_rule_misses exact order p h = (
    with_exact,
    parse_line-path_line ∙ rw exact,
    is_segments_blocked-SameNames L
        (record {
          hashes = record { hashes = λ code k. refl; names = refl };
          ipfs = λ k. refl;
          ipns = λ k. refl;
        })
        order p p.segments (is_subpath_blocked-with_exact (subpath_of p.segments) h),
  )

  is_subpath_blocked-with_wildcard :
      (sub : Bytes)
      → (check_path_status (load dl.path_blocks_db sub).0 sub).0 ≡ not_found
      → matches b sub ≡ true
      → (is_subpath_blocked with_wildcard sub).status ≡ mark_status m
  unfolding is_subpath_blocked
  is_subpath_blocked-with_wildcard sub none_exact covered =
      rw (none_exact, check_path_status-concat dl.path_prefix_blocks path_entry sub, covered)

  -- A line that is a rule for a path alone, which begins with a slash and ends with a wildcard, is
  -- read with no error when it is printable and makes a rule path; and then each path whose subpath
  -- is not empty, matches the rule path and is decided by no rule without a wildcard is blocked, or
  -- allowed if the rule has a mark, whatever its protocol and its name.
  pub wildcard_path_rule_decides :
      b.prefix ≡ true
      → (order : List ℕ) (p : IpfsPath) (proto key : Bytes) (rest : List Bytes)
      → p.segments ≡ proto ∷ key ∷ rest
      → join rest (codes "/") ≢ []
      → (check_path_status
          (load dl.path_blocks_db (join rest (codes "/"))).0
          (join rest (codes "/"))).0
        ≡ not_found
      → matches b (join rest (codes "/")) ≡ true
      → (dl' : Denylist) × (parse_line L dl (path_line m r) number ≡ returned dl' none)
        × ((is_path_blocked L dl' order p).status ≡ mark_status m)
  unfolding is_path_blocked is_segments_blocked
  wildcard_path_rule_decides wild order p proto key rest segs some_path none_exact covered =
      let word = is_subpath_blocked-with_wildcard (join rest (codes "/")) none_exact covered in
      (
        with_wildcard,
        parse_line-path_line ∙ rw wild,
        rw (segs, bytes_eqb-ne (join rest (codes "/")) [] some_path, word, is_hit-rule path_entry),
      )
