-- ===== src/Denylist/Log/Fitting.antt =====
-- The entries fit the keys under which they stand.
use nopfs.Prelude.{
  ℕ, ◌≡◌, refl, sym, ap, ◌∙◌, Bool, true, false, ◌||◌, List, [], ◌∷◌, ◌++◌, Bytes, codes, nat_eqb,
  bytes_eqb, bytes_eqb_iff, if◌then◌else◌, if_cases, Result, ok, err, subst,
}
use nopfs.Prelude.GoMap.{GoMap}
use nopfs.Libs.{Libs, Cid, Multihash}
use nopfs.Text.{cut, cut_prefix, has_prefix, trim_suffix, trim_prefix}
use nopfs.Entry.{Entry, Entries, BlockedPath, new_blocked_path, zero_path}
use nopfs.Denylist.{Denylist}
use nopfs.Denylist.Rules.{Outcome, returned, panics, is_ignored}
use nopfs.Denylist.Parsing.{parse_multihash, parse_hex_string, ipns_key, is_safe, parse_line}
use nopfs.Denylist.Log.{
  Rule, of_cid, of_name, of_hash, of_path, of_paths, Reader, by_cid, by_name, by_hash, by_path,
  by_paths, if_key, pick, with_path, path_or_paths, hash_rules, cid_rules, text_rule, words_rules,
  line_rules,
}
use nopfs.Denylist.Log.Adds.{index, pick-append}
use nopfs.Denylist.Log.Lines.{Reads, Reads-parse_line}

-- An entry fits the reader that finds it: a CID rule or a double hash stands under the base58 text
-- of its multihash, and a double hash has no path; a rule for one path stands under the text that
-- its path is made of, and a rule with a wildcard among those for paths below one.
abbrev pub Fits : Libs → Reader → Entry → Type 0
Fits L (by_cid k) e = L.b58 e.multihash ≡ k
Fits L (by_name k) e = Unit {0}
Fits L (by_hash code k) e = (L.b58 e.multihash ≡ k) × (e.path ≡ zero_path)
Fits L (by_path k) e = (new_blocked_path k ≡ ok e.path) × (e.path.prefix ≡ false)
Fits L by_paths e = e.path.prefix ≡ true

abbrev pub AllFit : Libs → Reader → Entries → Type 0
AllFit L r [] = Unit {0}
AllFit L r (e ∷ es) = Fits L r e × AllFit L r es

module _ (L : Libs) where
  AllFit-append :
      (r : Reader) (es fs : Entries) → AllFit L r es → AllFit L r fs → AllFit L r (es ++ fs)
  AllFit-append r [] fs h k = k
  AllFit-append r (e ∷ es) fs h k = (h.0, AllFit-append r es fs h.1 k)

  -- Each reader finds entries that fit.
  abbrev FitRules : List Rule → Type 0
  FitRules rules = (r : Reader) → AllFit L r (pick r rules)

  FitRules-append : (rs qs : List Rule) → FitRules rs → FitRules qs → FitRules (rs ++ qs)
  FitRules-append rs qs h k r =
      subst (AllFit L r) (sym (pick-append r rs qs))
        (AllFit-append r (pick r rs) (pick r qs) (h r) (k r))

  AllFit-if_key :
      (r : Reader) (b : Bool) (e : Entry) → (b ≡ true → Fits L r e) → AllFit L r (if_key b e ++ [])
  AllFit-if_key r true e h = (h refl, tt)
  AllFit-if_key r false e h = tt

  AllFit-if :
      (r : Reader) (b : Bool) (es : Entries)
      → AllFit L r (es ++ [])
      → AllFit L r ((if b then es else []) ++ [])
  AllFit-if r true es h = h
  AllFit-if r false es h = tt

  of_cid-FitRules :
      (key : Bytes) (e : Entry) → L.b58 e.multihash ≡ key → FitRules (of_cid key e ∷ [])
  of_cid-FitRules key e h (by_cid k) =
      AllFit-if_key (by_cid k) (bytes_eqb key k) e (λ same. h ∙ (bytes_eqb_iff key k).0 same)
  of_cid-FitRules key e h _ = tt

  of_name-FitRules : (key : Bytes) (e : Entry) → FitRules (of_name key e ∷ [])
  of_name-FitRules key e (by_name k) = AllFit-if_key (by_name k) (bytes_eqb key k) e (λ same. tt)
  of_name-FitRules key e _ = tt

  of_hash-FitRules :
      (code : ℕ) (key : Bytes) (e : Entry)
      → L.b58 e.multihash ≡ key
      → e.path ≡ zero_path
      → FitRules (of_hash code key e ∷ [])
  of_hash-FitRules code key e h p (by_hash c k) =
      AllFit-if (by_hash c k) (nat_eqb code c) (if_key (bytes_eqb key k) e) (
        AllFit-if_key (by_hash c k) (bytes_eqb key k) e
          (λ same. (h ∙ (bytes_eqb_iff key k).0 same, p)))
  of_hash-FitRules code key e h p _ = tt

  of_path-FitRules :
      (key : Bytes) (e : Entry)
      → new_blocked_path key ≡ ok e.path
      → e.path.prefix ≡ false
      → FitRules (of_path key e ∷ [])
  of_path-FitRules key e h p (by_path k) =
      AllFit-if_key (by_path k) (bytes_eqb key k) e
        (λ same. (ap new_blocked_path (sym ((bytes_eqb_iff key k).0 same)) ∙ h, p))
  of_path-FitRules key e h p _ = tt

  of_paths-FitRules : (e : Entry) → e.path.prefix ≡ true → FitRules (of_paths e ∷ [])
  of_paths-FitRules e h by_paths = (h, tt)
  of_paths-FitRules e h _ = tt

  if_fits :
      (b : Bool) (rs qs : List Rule) → FitRules rs → FitRules qs → FitRules (if b then rs else qs)
  if_fits b rs qs h k = if_cases FitRules b {x = rs} {y = qs} h k

  hash_rules-FitRules : (e : Entry) (r : Result (ℕ × Multihash)) → FitRules (hash_rules L e r)
  hash_rules-FitRules e (err x) r = tt
  hash_rules-FitRules e (ok (code, mh)) r = of_hash-FitRules code _ _ refl refl r

  with_path-FitRules :
      (e : Entry) (rule : Entry → Rule) (path : Result BlockedPath)
      → ((p : BlockedPath) → path ≡ ok p → FitRules (rule (record e { path = p }) ∷ []))
      → FitRules (with_path e rule path)
  with_path-FitRules e rule (err x) h r = tt
  with_path-FitRules e rule (ok p) h r = h p refl r

  cid_rules-FitRules : (e : Entry) (sub : Bytes) (c : Result Cid) → FitRules (cid_rules L e sub c)
  cid_rules-FitRules e sub (err x) r = tt
  cid_rules-FitRules e sub (ok c) r =
      if_fits (is_safe L c) [] _ (λ r. tt)
        (with_path-FitRules (record e { multihash = L.hash c }) (of_cid (L.b58 (L.hash c)))
          (new_blocked_path sub)
          (λ p h.
            of_cid-FitRules (L.b58 (L.hash c)) (record e { multihash = L.hash c; path = p }) refl))
        r

  path_or_paths-FitRules :
      (text : Bytes) (e : Entry) (b : Bool)
      → new_blocked_path text ≡ ok e.path
      → e.path.prefix ≡ b
      → FitRules ((if b then of_paths e else of_path text e) ∷ [])
  path_or_paths-FitRules text e true h p = of_paths-FitRules e p
  path_or_paths-FitRules text e false h p = of_path-FitRules text e h p

  text_rule-FitRules : (e : Entry) (text : Bytes) → FitRules (text_rule L e text)
  unfolding text_rule
  text_rule-FitRules e text =
      let hash = trim_prefix text (codes "//") in
      let (name, name_sub, _) = cut (cut_prefix text (codes "/ipns/")).0 b'/' in
      let key = ipns_key L name (L.decode_cid name) in
      if_fits (has_prefix text (codes "//")) _ _
        (FitRules-append (hash_rules L e (parse_multihash L hash))
          (hash_rules L e (parse_hex_string L hash))
          (hash_rules-FitRules e (parse_multihash L hash))
          (hash_rules-FitRules e (parse_hex_string L hash)))
        (if_fits (has_prefix text (codes "/ipfs/") || has_prefix text (codes "/ipld/")) _ _
          (cid_rules-FitRules e _ _)
          (if_fits (has_prefix text (codes "/ipns/")) _ _
            (with_path-FitRules e (of_name key) (new_blocked_path name_sub)
              (λ p h. of_name-FitRules key (record e { path = p })))
            (with_path-FitRules e (path_or_paths text) (new_blocked_path text)
              (λ p h. path_or_paths-FitRules text (record e { path = p }) p.prefix h refl))))

  words_rules-FitRules :
      (hints : GoMap Bytes Bytes) (line : Bytes) (number : ℕ) (words : List Bytes)
      → FitRules (words_rules L hints line number words)
  words_rules-FitRules hints line number [] r = tt
  words_rules-FitRules hints line number (word ∷ words) r = text_rule-FitRules _ _ r

  line_rules-FitRules :
      (hints : GoMap Bytes Bytes) (line : Bytes) (number : ℕ)
      → FitRules (line_rules L hints line number)
  unfolding line_rules
  line_rules-FitRules hints line number =
      if_fits (is_ignored (trim_suffix line (codes "\n"))) [] _ (λ r. tt)
        (words_rules-FitRules hints _ number _)

  -- Every reader of the denylist finds entries that fit.
  abbrev pub IsWellFormed : Denylist → Type 0
  IsWellFormed dl = (r : Reader) → AllFit L r (index r dl)

  abbrev pub StaysWellFormed : Outcome → Type 0
  StaysWellFormed (returned dl error) = IsWellFormed dl
  StaysWellFormed panics = Unit {0}

  Reads-StaysWellFormed :
      (dl : Denylist) (o : Outcome) (rules : List Rule)
      → IsWellFormed dl
      → FitRules rules
      → Reads dl o rules
      → StaysWellFormed o
  Reads-StaysWellFormed dl panics rules w f h = tt
  Reads-StaysWellFormed dl (returned dl' error) rules w f h = λ r.
      subst (AllFit L r) (sym (h.0 r)) (AllFit-append r (index r dl) (pick r rules) (w r) (f r))

  -- A line that is read, with or without an error, keeps the indexes in order: each entry for a
  -- CID and each double hash stands under the base58 text of its multihash, a double hash has no
  -- path, an entry for one path stands under the text of a rule that makes its path and has no
  -- wildcard, and those for paths below one have a wildcard.
  pub parse_line-IsWellFormed :
      (dl : Denylist) (line : Bytes) (number : ℕ)
      → IsWellFormed dl
      → StaysWellFormed (parse_line L dl line number)
  parse_line-IsWellFormed dl line number w =
      Reads-StaysWellFormed dl (parse_line L dl line number) _ w
        (line_rules-FitRules dl.header.hints line number) (Reads-parse_line L dl line number)
