-- ===== src/Denylist/Citing/Files.antt =====
-- A denylist that holds the rules of a file cites them.
use nopfs.Prelude.{ℕ, List}
use nopfs.Libs.{Libs, Cid, IpfsPath}
use nopfs.Denylist.{Denylist}
use nopfs.Denylist.Lookup.{is_cid_blocked, is_path_blocked}
use nopfs.Denylist.Log.{Rule, pick}
use nopfs.Denylist.Log.Adds.{index}
use nopfs.Denylist.Log.Holding.{Holds}
use nopfs.Denylist.Citing.{Cites, checked, Cites-map}
use nopfs.Denylist.Citing.Asking.{AsksPath}
use nopfs.Denylist.Citing.Cids.{AsksCid, is_cid_blocked-Cites}
use nopfs.Denylist.Citing.Paths.{is_path_blocked-Cites}

-- What the denylist says of CIDs and paths comes from these rules.
abbrev pub CitesRules : Libs → Denylist → List Rule → Type 0
CitesRules L dl rules =
    (order : List ℕ)
    → ((c : Cid) → Cites (λ r. pick r rules) (AsksCid L c) (checked (is_cid_blocked L dl order c)))
      × ((p : IpfsPath)
          → Cites (λ r. pick r rules) (AsksPath L p) (checked (is_path_blocked L dl order p)))

pub Holds-CitesRules :
    (L : Libs) (dl : Denylist) (rules : List Rule) → Holds dl rules → CitesRules L dl rules
Holds-CitesRules L dl rules holds order = (
  λ c.
      Cites-map (λ r. index r dl) (λ r. pick r rules) holds (AsksCid L c) (AsksCid L c)
        (λ r q asked. asked) (checked (is_cid_blocked L dl order c))
        (is_cid_blocked-Cites L dl order c),
  λ p.
      Cites-map (λ r. index r dl) (λ r. pick r rules) holds (AsksPath L p) (AsksPath L p)
        (λ r q asked. asked) (checked (is_path_blocked L dl order p))
        (is_path_blocked-Cites L dl order p),
)
