-- ===== src/Denylist/Citing.antt =====
-- The rule that a response cites.
pub mod Hashes
pub mod Cids
pub mod Asking
pub mod Paths
pub mod Files
use nopfs.Prelude.{
  ◌≡◌, refl, ap, ◌∙◌, subst, sym, Bool, true, false, [], Option, none, some, Bytes, Error, arith,
  Result, ok, err, if_cases,
}
use nopfs.Entry.{
  Entry, Entries, Status, not_found, blocked, allowed, errored, zero_entry, check_path_status,
}
use nopfs.Entry.Deciding.{Verdict, rule, silent, rule_status, check_path_status_iff}
use nopfs.Status.{StatusResponse}
use nopfs.Denylist.Lookup.{Checked, nothing}
use nopfs.Denylist.Log.{Reader}

-- A list of rules that the query asks says this.
pub record Cited (found : Reader → Entries) (Asks : Reader → Bytes → Type 0) (s : Status)
    (e : Entry) : Type 0 where
  pub reader : Reader
  pub path : Bytes
  pub asked : Asks reader path
  pub verdict : Verdict (found reader) path (s, e)

-- A word comes from the rules that are asked, with the rule and with no error; an error comes with
-- no rule, and nothing with neither.
abbrev pub Cites : (Reader → Entries) → (Reader → Bytes → Type 0) → Checked → Type 0
Cites found Asks (not_found, e, error) = (e ≡ zero_entry) × (error ≡ none)
Cites found Asks (blocked, e, error) = Cited found Asks blocked e × (error ≡ none)
Cites found Asks (allowed, e, error) = Cited found Asks allowed e × (error ≡ none)
Cites found Asks (errored, e, error) = (e ≡ zero_entry) × ((x : Error) × (error ≡ some x))

-- The part of a response that was checked.
abbrev pub checked : StatusResponse → Checked
checked r = (r.status, r.entry, r.error)

module _ (found : Reader → Entries) (Asks : Reader → Bytes → Type 0) (r : Reader) (p : Bytes)
    (asked : Asks r p) where
  Cites-Verdict :
      (s : Status) (e : Entry) → Verdict (found r) p (s, e) → Cites found Asks (s, e, none)
  Cites-Verdict not_found e (rule before f after a m n q) = absurd (ground arith)
  Cites-Verdict not_found e (silent n q) = (ap (λ t. t.1) q, refl)
  Cites-Verdict blocked e v = (record { reader = r; path = p; asked = asked; verdict = v }, refl)
  Cites-Verdict allowed e v = (record { reader = r; path = p; asked = asked; verdict = v }, refl)
  Cites-Verdict errored e (rule before f after a m n q) = absurd (ground arith)
  Cites-Verdict errored e (silent n q) = absurd (ground arith)

  pub Cites-check_path_status :
      Cites found Asks ((check_path_status (found r) p).0, (check_path_status (found r) p).1, none)
  Cites-check_path_status =
      Cites-Verdict (check_path_status (found r) p).0 (check_path_status (found r) p).1
        ((check_path_status_iff (found r) p (check_path_status (found r) p)).0 refl)

module _ (found found' : Reader → Entries) (same : (r : Reader) → found r ≡ found' r)
    (Asks Asks' : Reader → Bytes → Type 0)
    (more : (r : Reader) (p : Bytes) → Asks r p → Asks' r p) where
  Cited-map : (s : Status) (e : Entry) → Cited found Asks s e → Cited found' Asks' s e
  Cited-map s e c = record {
    reader = c.reader;
    path = c.path;
    asked = more c.reader c.path c.asked;
    verdict = subst (λ (es : Entries). Verdict es c.path (s, e)) (same c.reader) c.verdict;
  }

  -- Another index with the same rules, and more that is asked.
  pub Cites-map : (t : Checked) → Cites found Asks t → Cites found' Asks' t
  Cites-map (not_found, e, error) h = h
  Cites-map (blocked, e, error) (c, none_met) = (Cited-map blocked e c, none_met)
  Cites-map (allowed, e, error) (c, none_met) = (Cited-map allowed e c, none_met)
  Cites-map (errored, e, error) h = h
