-- ===== src/Tests/Answers.antt =====
-- Blockers and wrapped services: the theorems at concrete inputs.
use nopfs.Prelude.{
  ◌≡◌, ◌≢◌, ◌⊎◌, inl, refl, ◌↔◌, true, [], ◌∷◌, none, some, Bytes, codes, bytes_eq, bytes_eqb,
  if◌then◌else◌, external, Result, ok, err,
}
use nopfs.Prelude.GoMap.{get}
use nopfs.Libs.{Cid, IpfsPath}
use nopfs.Text.{join}
use nopfs.Entry.{Status, blocked, allowed, not_found}
use nopfs.Status.{StatusResponse}
use nopfs.Denylist.{Denylist}
use nopfs.Denylist.Lookup
use nopfs.Denylist.Lookup.{
  is_hit, is_path_blocked, is_segments_blocked, is_protocol_blocked, is_ipfs_path_blocked,
  is_subpath_blocked,
}
use nopfs.Denylist.Rules.{returned}
use nopfs.Denylist.Parsing.{parse_line}
use nopfs.Denylist.RuleText.{block}
use nopfs.Denylist.IpfsRules.{ipfs_line}
use nopfs.Blocker
use nopfs.Blocker.{Blocker, first_response, ask_cid, ask_path, new_blocker}
use nopfs.Blocker.Opening.{AllFail, in_files, opened, new_blocker_lem}
use nopfs.Blocker.Answers.{
  AllSay, SomeSays, is_cid_blocked-agree, is_path_blocked-agree, first_list_decides,
}
use nopfs.Ipfs.{World, failure, status_error}
use nopfs.Ipfs.BlockService.{wrap_block_service}
use nopfs.Ipfs.Paths.{wrap_name_system, wrap_resolver}
use nopfs.Ipfs.Filtering.{
  Denies, Permits, response, wrap_block_service_denied, wrap_block_service_permitted,
}
use nopfs.Ipfs.Guarding.{rule_line_denies_block, wrap_paths_denied}
use nopfs.Tests.Toy.{toy, path_of}
use nopfs.Tests.Rules.{runs, x-IsName, x_not_safe}
use nopfs.Tests.World.{
  left, both, in_order, blocks_x, allows_x, world, blocks, service, names, name_system, resolver,
  start,
}

-- What a run of a blocker computes with besides.
abbrev blocker_runs : Unit {0}
unfolding join first_response Lookup.is_path_blocked is_segments_blocked is_protocol_blocked
    is_ipfs_path_blocked is_subpath_blocked Blocker.is_cid_blocked Blocker.is_path_blocked
blocker_runs = tt

is_cid_blocked-agree_example :
    (((Blocker.is_cid_blocked toy both (in_order (codes "a" ∷ [])) (codes "Qx")).status ≡ not_found)
      ↔ AllSay
          (ask_cid toy both (in_order (codes "a" ∷ [])) (codes "Qx"))
          (λ s. s ≡ not_found)
          (codes "a" ∷ []))
    × ((s : Status)
        → is_hit s ≡ true
        → AllSay
            (ask_cid toy both (in_order (codes "a" ∷ [])) (codes "Qx"))
            (λ t. (t ≡ s) ⊎ (t ≡ not_found))
            (codes "a" ∷ [])
        → SomeSays
            (ask_cid toy both (in_order (codes "a" ∷ [])) (codes "Qx"))
            (λ t. t ≡ s)
            (codes "a" ∷ [])
        → (Blocker.is_cid_blocked toy both (in_order (codes "a" ∷ [])) (codes "Qx")).status ≡ s)
is_cid_blocked-agree_example =
    is_cid_blocked-agree toy both (in_order (codes "a" ∷ [])) (codes "Qx")

abbrev x_path : IpfsPath
x_path = path_of (codes "/ipfs/Qx/y")

is_path_blocked-agree_test :
    (((Blocker.is_path_blocked toy both (in_order (codes "a" ∷ [])) x_path).status ≡ not_found)
      ↔ AllSay
          (ask_path toy both (in_order (codes "a" ∷ [])) x_path)
          (λ s. s ≡ not_found)
          (codes "a" ∷ []))
    × ((s : Status)
        → is_hit s ≡ true
        → AllSay
            (ask_path toy both (in_order (codes "a" ∷ [])) x_path)
            (λ t. (t ≡ s) ⊎ (t ≡ not_found))
            (codes "a" ∷ [])
        → SomeSays
            (ask_path toy both (in_order (codes "a" ∷ [])) x_path)
            (λ t. t ≡ s)
            (codes "a" ∷ [])
        → (Blocker.is_path_blocked toy both (in_order (codes "a" ∷ [])) x_path).status ≡ s)
is_path_blocked-agree_test = is_path_blocked-agree toy both (in_order (codes "a" ∷ [])) x_path

held_a : get both.denylists (codes "a") ≡ some blocks_x
unfolding runs blocker_runs
held_a = refl

held_b : get both.denylists (codes "b") ≡ some allows_x
unfolding runs blocker_runs
held_b = refl

x_blocked : (Lookup.is_cid_blocked toy blocks_x (0x12 ∷ []) (codes "Qx")).status ≡ blocked
unfolding runs blocker_runs
x_blocked = refl

x_allowed : (Lookup.is_cid_blocked toy allows_x (0x12 ∷ []) (codes "Qx")).status ≡ allowed
unfolding runs blocker_runs
x_allowed = refl

-- The same two denylists in either order.
blocked_first :
    Blocker.is_cid_blocked toy both (in_order (codes "a" ∷ codes "b" ∷ [])) (codes "Qx")
    ≡ Lookup.is_cid_blocked toy blocks_x (0x12 ∷ []) (codes "Qx")
blocked_first =
    (first_list_decides toy both (in_order (codes "a" ∷ codes "b" ∷ [])) [] (codes "b" ∷ [])
        (codes "a") blocks_x refl held_a).0
      (codes "Qx") tt (rw x_blocked)

first_list_decides_example :
    ((c : Cid)
      → AllSay
          (ask_cid toy both (in_order (codes "b" ∷ codes "a" ∷ [])) c)
          (λ s. s ≡ not_found)
          (codes "b" ∷ [])
      → is_hit (Lookup.is_cid_blocked toy blocks_x (0x12 ∷ []) c).status ≡ true
      → Blocker.is_cid_blocked toy both (in_order (codes "b" ∷ codes "a" ∷ [])) c
        ≡ Lookup.is_cid_blocked toy blocks_x (0x12 ∷ []) c)
    × ((p : IpfsPath)
        → AllSay
            (ask_path toy both (in_order (codes "b" ∷ codes "a" ∷ [])) p)
            (λ s. s ≡ not_found)
            (codes "b" ∷ [])
        → is_hit (Lookup.is_path_blocked toy blocks_x (0x12 ∷ []) p).status ≡ true
        → Blocker.is_path_blocked toy both (in_order (codes "b" ∷ codes "a" ∷ [])) p
          ≡ Lookup.is_path_blocked toy blocks_x (0x12 ∷ []) p)
first_list_decides_example =
    first_list_decides toy both (in_order (codes "b" ∷ codes "a" ∷ [])) (codes "b" ∷ []) []
      (codes "a") blocks_x refl held_a

-- One file opens, every other one fails.
abbrev load_file : Bytes → Result Denylist
load_file name =
    if bytes_eqb name (codes "a") then ok blocks_x else err (external (codes "no file"))

new_blocker_lem_test :
    (((new_blocker load_file (codes "a" ∷ codes "z" ∷ [])).0 ≡ none)
      ↔ ((codes "a" ∷ codes "z" ∷ [] ≢ []) × AllFail load_file (codes "a" ∷ codes "z" ∷ [])))
    × ((b : Blocker) (k : Bytes)
        → (new_blocker load_file (codes "a" ∷ codes "z" ∷ [])).0 ≡ some b
        → get b.denylists k
          ≡ (if in_files k (codes "a" ∷ codes "z" ∷ []) then opened (load_file k) else none))
new_blocker_lem_test = new_blocker_lem load_file (codes "a" ∷ codes "z" ∷ [])

-- What the guards of the wrapped services see.
x_denied : Denies (response toy world blocks 0 (codes "Qx"))
unfolding runs blocker_runs
x_denied = inl refl

y_permitted : Permits (response toy world blocks 0 (codes "Qy"))
unfolding runs blocker_runs
y_permitted = inl refl

wrap_block_service_denied_example :
    ((wrap_block_service toy world blocks service).get_block (codes "Qx") 0 ≡ (
      failure (status_error (record { response = response toy world blocks 0 (codes "Qx") })),
      0,
    ))
    × ((wrap_block_service toy world blocks service).add_block (codes "Qx") 0 ≡ (
      failure (status_error (record { response = response toy world blocks 0 (codes "Qx") })),
      0,
    ))
    × ((wrap_block_service toy world blocks service).get_blocks (codes "Qy" ∷ codes "Qx" ∷ []) 0
        ≡ (wrap_block_service toy world blocks service).get_blocks (codes "Qy" ∷ []) 0)
    × ((wrap_block_service toy world blocks service).add_blocks (codes "Qx" ∷ codes "Qy" ∷ []) 0
        ≡ (wrap_block_service toy world blocks service).add_blocks (codes "Qy" ∷ []) 0)
wrap_block_service_denied_example =
    wrap_block_service_denied toy world blocks 0 service (codes "Qx") (codes "Qx") (codes "Qy" ∷ [])
      [] [] (codes "Qy" ∷ []) refl x_denied

wrap_block_service_permitted_example :
    ((wrap_block_service toy world blocks service).get_block (codes "Qy") 0
      ≡ service.get_block (codes "Qy") 0)
    × ((wrap_block_service toy world blocks service).add_block (codes "Qy") 0
        ≡ service.add_block (codes "Qy") 0)
    × ((wrap_block_service toy world blocks service).get_blocks (codes "Qy" ∷ codes "Qy" ∷ []) 0
        ≡ service.get_blocks (codes "Qy" ∷ codes "Qy" ∷ []) 0)
    × ((wrap_block_service toy world blocks service).add_blocks (codes "Qy" ∷ codes "Qy" ∷ []) 0
        ≡ service.add_blocks (codes "Qy" ∷ codes "Qy" ∷ []) 0)
wrap_block_service_permitted_example =
    wrap_block_service_permitted toy world blocks 0 service (codes "Qy") (codes "Qy")
      (codes "Qy" ∷ codes "Qy" ∷ []) (codes "Qy" ∷ codes "Qy" ∷ []) refl y_permitted
      (y_permitted, (y_permitted, tt)) (y_permitted, (y_permitted, tt))

x_rule :
    parse_line toy start (ipfs_line block (codes "bx") none) 1
    ≡ returned (left (parse_line toy start (ipfs_line block (codes "bx") none) 1)) none
unfolding runs blocker_runs
x_rule = refl

-- The world whose blocker has the denylist with the rule for `bx`.
abbrev x_list : Denylist
x_list = left (parse_line toy start (ipfs_line block (codes "bx") none) 1)

abbrev x_world : World
x_world = record world { blocker = λ s. record { denylists = (codes "a", x_list) ∷ [] } }

x_held : get (x_world.blocker 0).denylists (codes "a") ≡ some x_list
unfolding runs blocker_runs
x_held = refl

x_asked : (Lookup.is_cid_blocked toy x_list (0x12 ∷ []) (codes "Qx")).status ≡ blocked
unfolding runs blocker_runs
x_asked = refl

only_x :
    AllSay
      (ask_cid toy (x_world.blocker 0) (x_world.cid_order 0 (codes "Qx")) (codes "Qx"))
      (λ t. (t ≡ blocked) ⊎ (t ≡ not_found))
      (x_world.cid_order 0 (codes "Qx")).lists
only_x = (inl (rw x_held x_asked), tt)

rule_line_denies_block_example :
    (wrap_block_service toy x_world blocks service).get_block (codes "Qx") 0
    ≡ (failure (status_error (record { response = response toy x_world blocks 0 (codes "Qx") })), 0)
rule_line_denies_block_example =
    rule_line_denies_block toy x_world blocks service 0 start x_list (codes "a") (codes "bx") 1
      (codes "Qx") (codes "Qx") x-IsName refl x_not_safe refl x_rule x_held (inl refl) only_x

x_path_denied : Denies (Blocker.is_path_blocked toy both (in_order (codes "a" ∷ [])) x_path)
unfolding runs blocker_runs
x_path_denied = inl refl

abbrev x_path_response : StatusResponse
x_path_response = Blocker.is_path_blocked toy both (in_order (codes "a" ∷ [])) x_path

wrap_paths_denied_test :
    ((wrap_name_system toy world names name_system).resolve x_path 0
      ≡ (failure (status_error (record { response = x_path_response })), 0))
    × ((wrap_name_system toy world names name_system).resolve_async x_path 0 ≡ (
      names.async_error x_path_response.path (status_error (record { response = x_path_response })),
      0,
    ))
    × ((wrap_resolver toy world names resolver).resolve_to_last_node x_path 0
        ≡ (failure (status_error (record { response = x_path_response })), 0))
    × ((wrap_resolver toy world names resolver).resolve_path x_path 0
        ≡ (failure (status_error (record { response = x_path_response })), 0))
    × ((wrap_resolver toy world names resolver).resolve_path_components x_path 0
        ≡ (failure (status_error (record { response = x_path_response })), 0))
wrap_paths_denied_test =
    wrap_paths_denied toy world names 0 x_path name_system resolver x_path_response refl
      x_path_denied
