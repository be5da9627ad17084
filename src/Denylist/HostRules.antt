-- ===== src/Denylist/HostRules.antt =====
-- Rules for DNSLink names, and the labels that gateways make of them.
use nopfs.Prelude.{inl, ℕ, ◌≡◌, sym, ◌∙◌, true, false, List, [], none, Bytes, codes, Error, ok, err}
use nopfs.Libs.{Libs, IpfsPath}
use nopfs.Text.{trim_prefix, strip_prefix, contains_byte}
use nopfs.Text.Fields.{IsVisible}
use nopfs.Entry.{matches, zero_path}
use nopfs.Denylist.{Denylist}
use nopfs.Denylist.Rules.{returned}
use nopfs.Denylist.Parsing.{parse_line, ipns_key}
use nopfs.Denylist.RuleText.{Mark}
use nopfs.Denylist.Blocking.{mark_status, matches_empty, empty_path}
use nopfs.Denylist.Dnslink.{inline, IsHostName, inline-no_dot, to_dnslink_fqdn-inline}
use nopfs.Denylist.Lookup.{full_path, decoded, ipns_lookup_key, is_ipns_path_blocked}
use nopfs.Denylist.IpnsRules.{ipns_line, ipns_rule_decides}
use nopfs.Denylist.Dnslink.{IsAscii, to_dnslink_fqdn-ne}

empty-matches : matches zero_path (trim_prefix [] (codes "/")) ≡ true
empty-matches = unfold trim_prefix strip_prefix in matches_empty zero_path empty_path

module _ (L : Libs) where
  lookup_key-dotted :
      (name : Bytes) {x : Error}
      → L.decode_cid name ≡ err x
      → contains_byte name b'.' ≡ true
      → ipns_lookup_key L name (decoded (L.decode_cid name)) ≡ name
  lookup_key-dotted name d dot = rw (d, dot)

  lookup_key-inline :
      (name : Bytes) {x : Error}
      → L.decode_cid (inline name) ≡ err x
      → IsHostName name
      → ipns_lookup_key L (inline name) (decoded (L.decode_cid (inline name))) ≡ name
  lookup_key-inline name d host = rw (d, inline-no_dot name) (to_dnslink_fqdn-inline name host)

  -- A rule for the DNSLink name of a host, which has a dot and is no CID, is read with no error, and
  -- then decides the name itself and the label that gateways inline it to, which is no CID either:
  -- each is blocked, or allowed if the rule has a mark. The name is printable ASCII with no slash, no
  -- label after a dot is empty or begins with a dash, and both names make paths.
  pub host_rule_decides :
      (dl : Denylist) (order : List ℕ) (m : Mark) (name : Bytes) (number : ℕ) (x y : Error)
      (p p' : IpfsPath)
      → IsVisible name
      → contains_byte name b'/' ≡ false
      → contains_byte name b'.' ≡ true
      → IsHostName name
      → L.decode_cid name ≡ err x
      → L.decode_cid (inline name) ≡ err y
      → L.new_path (full_path (codes "ipns") name (trim_prefix [] (codes "/"))) ≡ ok p
      → L.new_path (full_path (codes "ipns") (inline name) (trim_prefix [] (codes "/"))) ≡ ok p'
      → (dl' : Denylist) × (parse_line L dl (ipns_line m name none) number ≡ returned dl' none)
        × ((is_ipns_path_blocked L dl' order name []).status ≡ mark_status m)
        × ((is_ipns_path_blocked L dl' order (inline name) []).status ≡ mark_status m)
  host_rule_decides dl order m name number x y p p' seen one dot host d d' n n' =
      let (dl', read, hit, rest) =
        ipns_rule_decides L dl order m name none number zero_path seen one tt empty_path in
      let key : ipns_key L name (L.decode_cid name) ≡ name = rw d in
      (
        dl',
        read,
        hit name [] p n (lookup_key-dotted name d dot ∙ sym key) empty-matches,
        hit (inline name) [] p' n' (lookup_key-inline name d' host ∙ sym key) empty-matches,
      )

  -- A rule for an IPNS name that is no CID and has a dash and no dot is read with no error, and then
  -- the name itself gets the response that it got before, with every subpath: it is looked up as the
  -- host name that it would be the label of. The name is printable ASCII with no slash, and makes a
  -- path.
  pub dashed_rule_misses :
      (dl : Denylist) (order : List ℕ) (m : Mark) (name subpath : Bytes) (number : ℕ) (x : Error)
      (p : IpfsPath)
      → IsVisible name
      → contains_byte name b'/' ≡ false
      → contains_byte name b'.' ≡ false
      → contains_byte name b'-' ≡ true
      → IsAscii name
      → L.decode_cid name ≡ err x
      → L.new_path (full_path (codes "ipns") name (trim_prefix subpath (codes "/"))) ≡ ok p
      → (dl' : Denylist) × (parse_line L dl (ipns_line m name none) number ≡ returned dl' none)
        × (is_ipns_path_blocked L dl' order name subpath
            ≡ is_ipns_path_blocked L dl order name subpath)
  dashed_rule_misses dl order m name subpath number x p seen one no_dot dash ascii d n =
      let (dl', read, hit, rest) =
        ipns_rule_decides L dl order m name none number zero_path seen one tt empty_path in
      (dl', read, rest name subpath p n (inl (rw (d, no_dot) (to_dnslink_fqdn-ne name ascii dash))))
