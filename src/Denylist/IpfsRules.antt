-- ===== src/Denylist/IpfsRules.antt =====
-- What a CID rule does to the denylist.
use nopfs.Prelude.{
  ℕ, ◌≡◌, ◌≢◌, refl, ap, ◌∙◌, true, false, [], ◌∷◌, ◌++◌, Option, none, some, Bytes, codes, arith,
  ok,
}
use nopfs.Libs.{Libs, Cid}
use nopfs.Text.{has_prefix, trim_prefix, strip_prefix, contains_byte}
use nopfs.Text.Affixes.{trim_prefix-append}
use nopfs.Text.Fields.{IsVisible, IsVisible-append}
use nopfs.Entry.{Entry, BlockedPath, new_blocked_path}
use nopfs.BlocksDb.{store}
use nopfs.Denylist.{Denylist}
use nopfs.Denylist.Rules.{returned, line_entry, append_entry}
use nopfs.Denylist.Parsing.{parse_rule, parse_line, ipfs_case, ipfs_rule, is_safe}
use nopfs.Denylist.RuleText.{
  Mark, mark_text, allows, tail_text, sub_text, cut-tail_text, parse_line-mark,
}

-- A rule's text for a CID under `/ipfs/`, with its newline.
abbrev pub ipfs_line : Mark → Bytes → Option Bytes → Bytes
ipfs_line m cid sub = (mark_text m ++ (codes "/ipfs/" ++ (cid ++ tail_text sub))) ++ codes "\n"

-- The name of a CID in a rule: printable, not empty, with no slash.
pub record IsName (name : Bytes) : Type 0 where
  pub visible : IsVisible name
  pub one_segment : contains_byte name b'/' ≡ false
  pub not_empty : name ≢ []

pub IsVisible-tail : (sub : Option Bytes) → IsVisible (sub_text sub) → IsVisible (tail_text sub)
IsVisible-tail none h = tt
IsVisible-tail (some sub) h = (omega arith, omega arith, h)

no_ipld :
    (name r : Bytes)
    → contains_byte name b'/' ≡ false
    → name ≢ []
    → trim_prefix (name ++ r) (codes "/ipld/") ≡ name ++ r
unfolding trim_prefix strip_prefix contains_byte
no_ipld [] r h n = absurd (n refl)
no_ipld (c ∷ name) r h n = ground arith

module _ (L : Libs) where
  parse_rule-ipfs :
      (dl : Denylist) (e : Entry) (r : Bytes) (number : ℕ)
      → parse_rule L dl e (codes "/ipfs/" ++ r) number
        ≡ ipfs_case L dl e (codes "/ipfs/" ++ r) number
  unfolding parse_rule has_prefix strip_prefix
  parse_rule-ipfs dl e [] number = refl
  parse_rule-ipfs dl e (c ∷ r) number = refl

  ipfs_case-name :
      (dl : Denylist) (e : Entry) (name : Bytes) (sub : Option Bytes) (number : ℕ)
      → IsName name
      → ipfs_case L dl e (codes "/ipfs/" ++ (name ++ tail_text sub)) number
        ≡ ipfs_rule L dl e name (sub_text sub) number (L.decode_cid name)
  unfolding ipfs_case
  ipfs_case-name dl e name sub number n =
      let (cid_str, sub_path) = cut-tail_text name sub n.one_segment in
      rw (
        trim_prefix-append (codes "/ipfs/") (name ++ tail_text sub),
        no_ipld name (tail_text sub) n.one_segment n.not_empty,
        cid_str,
        sub_path,
      )

  -- The entry before the CID is known.
  abbrev pub open_entry : Denylist → Mark → Bytes → Option Bytes → ℕ → Entry
  open_entry dl m name sub number =
      line_entry dl (mark_text m ++ (codes "/ipfs/" ++ (name ++ tail_text sub))) number []
        (allows m)

  parse_line-ipfs_rule :
      (dl : Denylist) (m : Mark) (name : Bytes) (sub : Option Bytes) (number : ℕ)
      → IsName name
      → IsVisible (sub_text sub)
      → parse_line L dl (ipfs_line m name sub) number
        ≡ append_entry (
            ipfs_rule L dl
              (open_entry dl m name sub number)
              name
              (sub_text sub)
              number
              (L.decode_cid name))
  parse_line-ipfs_rule dl m name sub number n v =
      parse_line-mark L dl m (codes "ipfs/" ++ (name ++ tail_text sub)) number (
        IsVisible-append (codes "ipfs/") _ (omega arith)
          (IsVisible-append name _ n.visible (IsVisible-tail sub v)))
      ∙ ap append_entry (
          parse_rule-ipfs dl _ (name ++ tail_text sub) number
          ∙ ipfs_case-name dl _ name sub number n)

  -- The entry that a rule for the CID `c` stores.
  abbrev pub ipfs_entry : Denylist → Mark → Bytes → Option Bytes → ℕ → Cid → BlockedPath → Entry
  ipfs_entry dl m name sub number c b = record (open_entry dl m name sub number) {
    multihash = L.hash c;
    path = b;
  }

  -- The denylist with an entry for the multihash of `c`.
  abbrev pub add_ipfs_entry : Denylist → Cid → Entry → Denylist
  add_ipfs_entry dl c e = record dl {
    entries = dl.entries ++ e ∷ [];
    ipfs_blocks_db = store dl.ipfs_blocks_db (L.b58 (L.hash c)) e;
  }

  -- A rule for a CID, marked or not, with or without a subpath, adds one entry: to the entries, and
  -- under the base58 multihash of the CID. The CID must parse and be none of the safe ones, and the
  -- subpath must unescape.
  pub parse_line-ipfs_line :
      (dl : Denylist) (m : Mark) (name : Bytes) (sub : Option Bytes) (number : ℕ) (c : Cid)
      (b : BlockedPath)
      → IsName name
      → IsVisible (sub_text sub)
      → L.decode_cid name ≡ ok c
      → is_safe L c ≡ false
      → new_blocked_path (sub_text sub) ≡ ok b
      → parse_line L dl (ipfs_line m name sub) number
        ≡ returned (add_ipfs_entry dl c (ipfs_entry dl m name sub number c b)) none
  parse_line-ipfs_line dl m name sub number c b n v decodes other path =
      parse_line-ipfs_rule dl m name sub number n v ∙ rw (decodes, other, path)

  -- A line that is a rule for a CID, with or without a mark and a printable subpath, changes nothing
  -- and is no error when the CID parses and is one of the safe ones.
  pub parse_line_safe :
      (dl : Denylist) (m : Mark) (name : Bytes) (sub : Option Bytes) (number : ℕ) (c : Cid)
      → IsName name
      → IsVisible (sub_text sub)
      → L.decode_cid name ≡ ok c
      → is_safe L c ≡ true
      → parse_line L dl (ipfs_line m name sub) number ≡ returned dl none
  parse_line_safe dl m name sub number c n v decodes safe =
      parse_line-ipfs_rule dl m name sub number n v ∙ rw (decodes, safe)
