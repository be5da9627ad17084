-- ===== src/Tests/Logs.antt =====
-- The rules of texts: runs, and the theorems at concrete inputs.
use nopfs.Prelude.{
  bytes_eq, nat_eq, ◌≡◌, refl, false, List, [], ◌∷◌, ◌++◌, none, Bytes, codes, arith, bytes_eqb,
}
use nopfs.Libs.{Cid, IpfsPath}
use nopfs.Text.{space_width, contains_byte, trim_suffix, strip_suffix}
use nopfs.Entry.{Entry}
use nopfs.Denylist.{Denylist}
use nopfs.Denylist.Parsing.{parse_line}
use nopfs.Denylist.Following.{Read, at_eof, at_newline, finished, max_line_size, next_number}
use nopfs.Denylist.Tailing.{text_of, EndsWell}
use nopfs.Denylist.Header.{read_header, decode, limited, find_separator}
use nopfs.Denylist.HeaderEnd.{skip}
use nopfs.Denylist.Reading.{parse_and_follow}
use nopfs.Denylist.WholeFile.{file_of, from_offset}
use nopfs.Denylist.Lookup.{is_cid_blocked, is_path_blocked}
use nopfs.Denylist.Log.{Rule, Reader, by_cid, pick, rules_of_text, line_rules, text_rule}
use nopfs.Denylist.Log.Adds.{index}
use nopfs.BlocksDb.{load}
use nopfs.Prelude.GoMap.{get}
use nopfs.Denylist.Log.Answers.{SameRules, SameRules-answer}
use nopfs.Denylist.Log.Holding.{Holds}
use nopfs.Denylist.Log.Deciding.{parse_and_follow-Holds}
use nopfs.Denylist.Log.Fitting.{IsWellFormed, StaysWellFormed, parse_line-IsWellFormed}
use nopfs.Denylist.Log.Readable.{Readable, IsSound, IsSound-start, Readable-line}
use nopfs.Tests.Files.{unmarshal, seek, seeks, lines, read_as, a-IsHeader}
use nopfs.Tests.Rules.{runs}
use nopfs.Tests.Toy.{toy}
use nopfs.Tests.World.{start, blocks_x}

-- A rule and its opposite behind it.
abbrev pub text : Bytes
text = codes "/ipfs/Qx\n!/ipfs/Qx\n"

abbrev pub call : Read
call = record { text = codes "/ipfs/Qx\n"; end = at_newline; taken = 9 }

abbrev pub call2 : Read
call2 = record { text = codes "!/ipfs/Qx\n"; end = at_newline; taken = 10 }

abbrev pub last : Read
last = record { text = []; end = at_eof none; taken = 0 }

-- How many rules the text has for the CID.
two_rules :
    pick (by_cid (codes "Qx")) (rules_of_text toy [] [] 2 text)
    ≡ pick (by_cid (codes "Qx")) (line_rules toy [] (codes "/ipfs/Qx\n") 3)
      ++ pick (by_cid (codes "Qx")) (line_rules toy [] (codes "!/ipfs/Qx\n") 4)
unfolding rules_of_text line_rules text_rule next_number runs
two_rules = refl

pub calls_text :
    text_of (call ∷ call2 ∷ last ∷ [])
    ≡ from_offset toy unmarshal seek seeks start lines text none read_as a-IsHeader
unfolding skip read_header decode limited find_separator bytes_eqb
calls_text = refl

pub calls-EndsWell : EndsWell max_line_size (call ∷ call2 ∷ last ∷ [])
unfolding contains_byte
calls-EndsWell =
    ((codes "/ipfs/Qx", refl, refl), ((codes "!/ipfs/Qx", refl, refl), (refl, omega arith, refl)))

pub line-IsSound : IsSound (codes "/ipfs/Qx\n")
unfolding trim_suffix strip_suffix bytes_eqb space_width
line-IsSound = IsSound-start (codes "/ipfs/Qx\n") b'/' (codes "ipfs/Qx") refl refl

line2-IsSound : IsSound (codes "!/ipfs/Qx\n")
unfolding trim_suffix strip_suffix bytes_eqb space_width
line2-IsSound = IsSound-start (codes "!/ipfs/Qx\n") b'!' (codes "/ipfs/Qx") refl refl

pub text-Readable : Readable [] text
unfolding contains_byte
text-Readable =
    Readable-line [] (codes "/ipfs/Qx") (codes "!/ipfs/Qx\n") refl line-IsSound
      (Readable-line [] (codes "!/ipfs/Qx") [] refl line2-IsSound tt)

parse_and_follow-Holds_test :
    (dl : Denylist) × (parse_and_follow toy unmarshal seek none false start
        (file_of lines text none)
        (call ∷ call2 ∷ last ∷ [])
      ≡ finished dl)
    × (dl.header ≡ read_as)
    × (dl.filename ≡ codes "a.deny")
    × Holds dl (rules_of_text toy [] [] 2 text)
parse_and_follow-Holds_test =
    parse_and_follow-Holds toy unmarshal seek seeks (codes "a.deny") lines text none read_as
      a-IsHeader (call ∷ call2 ∷ last ∷ []) calls_text calls-EndsWell text-Readable

abbrev text_rules : List Rule
text_rules = rules_of_text toy [] [] 2 text

-- The same rules, with another header and no list of entries.
abbrev also_blocks_x : Denylist
also_blocks_x = record blocks_x { header = read_as; entries = [] }

also-SameRules : SameRules blocks_x also_blocks_x
also-SameRules = record { rules = same; names = refl }
  where
    same : (r : Reader) → index r also_blocks_x ≡ index r blocks_x
    same (by_cid k) = refl
    same _ = refl

SameRules-answer_test :
    ((c : Cid) → is_cid_blocked toy also_blocks_x [] c ≡ is_cid_blocked toy blocks_x [] c)
    × ((p : IpfsPath) → is_path_blocked toy also_blocks_x [] p ≡ is_path_blocked toy blocks_x [] p)
SameRules-answer_test = SameRules-answer toy blocks_x also_blocks_x also-SameRules []

start-IsWellFormed : IsWellFormed toy start
unfolding load get
start-IsWellFormed (by_cid k) = tt
start-IsWellFormed _ = tt

parse_line-IsWellFormed_example : StaysWellFormed toy (parse_line toy start (codes "/ipfs/Qx\n") 1)
parse_line-IsWellFormed_example =
    parse_line-IsWellFormed toy start (codes "/ipfs/Qx\n") 1 start-IsWellFormed
