-- ===== src/Tests/Cites.antt =====
-- What responses cite, and when they overlap with a line: the theorems at concrete inputs.
use nopfs.Denylist.Rules.{returned}
use nopfs.Denylist.Parsing.{parse_line}
use nopfs.Denylist.Overlap.{Field, ipfs_blocks, same_field, torn}
use nopfs.Denylist.Overlap.Answering.{AnswersAs, parse_line-AnswersAs}
use nopfs.Tests.Rules.{runs}
use nopfs.Prelude.{Bytes, inl, inr, refl, none, Bool, ◌≡◌, ◌⊎◌, ◌++◌, [], ◌∷◌, codes}
use nopfs.Text.Affixes.{Extends}
use nopfs.Denylist.Lookup.{is_path_blocked}
use nopfs.Denylist.Log.{by_cid, rules_of_text, line_rules, text_rule}
use nopfs.Denylist.Citing.Asking.{AsksPath, CitesIn}
use nopfs.Denylist.Citing.Paths.{is_path_blocked-Cites}
use nopfs.Denylist.Citing.Files.{CitesRules}
use nopfs.Ipfs.BlockService.{wrap_block_service}
use nopfs.Ipfs.Citing.{IsRefused, wrap_block_service_decides}
use nopfs.Ipfs.CitingPaths.{IsPassed, IsPathRefused, wrap_paths_decides}
use nopfs.Subscription.Node.Citing.{Steps-CitesRules}
use nopfs.Tests.Files.{unmarshal, seek, seeks, lines, read_as, a-IsHeader}
use nopfs.Tests.Followers.{first}
use nopfs.Tests.Nodes.{head, remote, grown, grown-Steps, first-Extends, before}
use nopfs.Tests.Toy.{toy, path_of}
use nopfs.Denylist.Abstract.Swapping.{Apart, swapped_lines-AnswersAs}
use nopfs.Prelude.GoMap.{GoMap}
use nopfs.Denylist.{Denylist}
use nopfs.Tests.World.{left, start, blocks_x, world, blocks, service, names, name_system, resolver}

is_path_blocked-Cites_example :
    CitesIn blocks_x
      (AsksPath toy (path_of (codes "/ipfs/Qx/y")))
      (is_path_blocked toy blocks_x (0x12 ∷ []) (path_of (codes "/ipfs/Qx/y")))
is_path_blocked-Cites_example =
    is_path_blocked-Cites toy blocks_x (0x12 ∷ []) (path_of (codes "/ipfs/Qx/y"))

wrap_block_service_decides_example :
    (((wrap_block_service toy world blocks service).get_block (codes "Qx") 0
        ≡ service.get_block (codes "Qx") 0)
      × ((wrap_block_service toy world blocks service).add_block (codes "Qx") 0
          ≡ service.add_block (codes "Qx") 0))
    ⊎ IsRefused toy world blocks service 0 (codes "Qx")
wrap_block_service_decides_example =
    wrap_block_service_decides toy world blocks service 0 (codes "Qx")

wrap_paths_decides_example :
    IsPassed toy world names name_system resolver 0 (path_of (codes "/ipfs/Qx/y"))
    ⊎ IsPathRefused toy world names name_system resolver 0 (path_of (codes "/ipfs/Qx/y"))
wrap_paths_decides_example =
    wrap_paths_decides toy world names name_system resolver 0 (path_of (codes "/ipfs/Qx/y"))

Steps-CitesRules_example :
    Extends grown.remote (head ++ first) × CitesRules toy before.0 (rules_of_text toy [] [] 2 first)
Steps-CitesRules_example =
    Steps-CitesRules toy unmarshal seek seeks (codes "a.deny") lines first read_as a-IsHeader remote
      before.0 before.1 before.2 first-Extends grown-Steps before.3

x_line : parse_line toy start (codes "/ipfs/Qx/*\n") 1 ≡ returned blocks_x none
unfolding runs
x_line = refl

-- The rule is seen in the index of CIDs, and nothing else of the line.
abbrev seen : Field → Bool
seen f = same_field f ipfs_blocks

parse_line-AnswersAs_example :
    AnswersAs toy (torn seen start blocks_x) start
    ⊎ AnswersAs toy (torn seen start blocks_x) blocks_x
parse_line-AnswersAs_example =
    parse_line-AnswersAs toy start blocks_x (codes "/ipfs/Qx/*\n") 1 none seen x_line

abbrev name_line : Bytes
name_line = codes "/ipns/x.org\n"

abbrev cid_line : Bytes
cid_line = codes "/ipfs/Qx/*\n"

abbrev cid_first : Denylist
cid_first = left (parse_line toy blocks_x name_line 2)

abbrev name_first : Denylist
name_first = left (parse_line toy start name_line 2)

abbrev name_then_cid : Denylist
name_then_cid = left (parse_line toy name_first cid_line 1)

line-Apart :
    (hints : GoMap Bytes Bytes)
    → Apart (line_rules toy hints cid_line 1) (line_rules toy hints name_line 2)
unfolding line_rules text_rule runs
line-Apart hints (by_cid k) = inr refl
line-Apart hints _ = inl refl

name_line_on_x : parse_line toy blocks_x name_line 2 ≡ returned cid_first none
unfolding runs
name_line_on_x = refl

name_line_first : parse_line toy start name_line 2 ≡ returned name_first none
unfolding runs
name_line_first = refl

cid_line_behind : parse_line toy name_first cid_line 1 ≡ returned name_then_cid none
unfolding runs
cid_line_behind = refl

swapped_lines-AnswersAs_example : AnswersAs toy cid_first name_then_cid
swapped_lines-AnswersAs_example =
    swapped_lines-AnswersAs toy cid_line name_line 1 2 start blocks_x name_first cid_first
      name_then_cid none none none none line-Apart x_line name_line_on_x name_line_first
      cid_line_behind
