-- ===== src/Tests/Paths.antt =====
-- Rule paths and names: the theorems at concrete inputs.
use nopfs.Prelude.{
  ◌≡◌, ◌≢◌, refl, ◌↔◌, ◌⊎◌, true, false, [], ◌∷◌, ◌++◌, Bytes, codes, bytes_eqb, ok, arith,
  if◌then◌else◌,
}
use nopfs.Text.{
  query_unescape, trim_prefix, trim_suffix, strip_prefix, strip_suffix, has_prefix, has_suffix,
  contains_byte,
}
use nopfs.Text.Affixes.{Extends}
use nopfs.Entry.{
  split_wildcard, trim_slashes, Entry, BlockedPath, matches, sanitize, new_blocked_path,
  check_path_status, zero_entry, blocked,
}
use nopfs.Entry.Deciding.{Verdict, rule_status, check_path_status_iff}
use nopfs.Entry.Matching.{Covers, IsBare, Trimmed, matches_iff}
use nopfs.Entry.Wildcards.{wildcard_rules, new_blocked_path-matches}
use nopfs.BlocksDb.{load, store, check_path_status-store}
use nopfs.Denylist.Dnslink.{to_dnslink_fqdn, inline, to_dnslink_fqdn-inline, to_dnslink_fqdn-ne}

abbrev below_a : BlockedPath
below_a = record { path = codes "a"; prefix = true }

abbrev rule_a : Entry
rule_a = record zero_entry { path = below_a }

abbrev allow_ab : Entry
allow_ab = record zero_entry {
  path = record { path = codes "ab"; prefix = false };
  allow_rule = true;
}

matches_iff_test :
    (matches below_a (codes "/ab/") ≡ true) ↔ Covers below_a (sanitize (codes "/ab/"))
matches_iff_test = matches_iff below_a (codes "/ab/")

check_path_status_iff_example :
    (check_path_status (allow_ab ∷ rule_a ∷ []) (codes "ab") ≡ (blocked, rule_a))
    ↔ Verdict (allow_ab ∷ rule_a ∷ []) (codes "ab") (blocked, rule_a)
check_path_status_iff_example =
    check_path_status_iff (allow_ab ∷ rule_a ∷ []) (codes "ab") (blocked, rule_a)

check_path_status-store_test :
    check_path_status (load (store [] (codes "k") allow_ab) (codes "k")).0 (codes "ab") ≡ (
      if bytes_eqb (codes "k") (codes "k")
      then (if matches allow_ab.path (codes "ab")
          then (rule_status allow_ab, allow_ab)
          else check_path_status (load [] (codes "k")).0 (codes "ab"))
      else check_path_status (load [] (codes "k")).0 (codes "ab"))
check_path_status-store_test =
    check_path_status-store [] (codes "k") allow_ab (codes "k") (codes "ab")

a-IsBare : IsBare (codes "a")
unfolding has_prefix has_suffix strip_prefix strip_suffix bytes_eqb
a-IsBare = record { head = refl; last = refl }

wildcard_rules_test :
    (b : BlockedPath) × (new_blocked_path (codes "a*") ≡ ok b)
    × (new_blocked_path (codes "a/*") ≡ ok b)
    × ((matches b (codes "/ab") ≡ true)
        ↔ ((codes "a" ≡ codes "*") ⊎ Extends (sanitize (codes "/ab")) (codes "a")))
wildcard_rules_test = wildcard_rules (codes "a") (codes "/ab") (omega arith) a-IsBare

a-no_star : has_suffix (codes "a") (codes "*") ≡ false
unfolding has_suffix strip_suffix bytes_eqb
a-no_star = refl

new_blocked_path-matches_example :
    (exact wild : BlockedPath) × (new_blocked_path (codes "a") ≡ ok exact)
    × (new_blocked_path (codes "a*") ≡ ok wild)
    × (new_blocked_path (codes "a/*") ≡ ok wild)
    × ((matches exact (codes "/ab/") ≡ true) ↔ Trimmed (codes "/ab/") (codes "a"))
    × ((matches wild (codes "/ab/") ≡ true)
        ↔ ((t : Bytes) × Trimmed (codes "/ab/") (codes "a" ++ t)))
new_blocked_path-matches_example =
    new_blocked_path-matches (codes "a") (codes "/ab/") (omega arith) a-IsBare a-no_star

-- An escaped star, which was to be taken as a name, matches every path.
escaped_star :
    (b : BlockedPath) × (new_blocked_path (codes "%2A") ≡ ok b)
    × (matches b (codes "any/path") ≡ true)
unfolding new_blocked_path split_wildcard has_suffix strip_suffix bytes_eqb query_unescape
    trim_slashes trim_prefix strip_prefix trim_suffix matches
escaped_star = (record { path = codes "*"; prefix = false }, refl, refl)

to_dnslink_fqdn-inline_example : to_dnslink_fqdn (inline (codes "a-b.c")) ≡ codes "a-b.c"
to_dnslink_fqdn-inline_example = to_dnslink_fqdn-inline (codes "a-b.c") (ground arith)

has_dash : contains_byte (codes "my-key") b'-' ≡ true
unfolding contains_byte
has_dash = refl

to_dnslink_fqdn-ne_test : to_dnslink_fqdn (codes "my-key") ≢ codes "my-key"
to_dnslink_fqdn-ne_test = to_dnslink_fqdn-ne (codes "my-key") (ground arith) has_dash
