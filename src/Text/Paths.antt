-- ===== src/Text/Paths.antt =====
-- Go's `path/filepath` functions that nopfs calls, on a system with slashes.
use nopfs.Prelude.{
  ℕ, Bool, not, ◌&&◌, ◌||◌, List, [], ◌∷◌, ◌++◌, Bytes, codes, nat_eqb, bytes_eqb, if◌then◌else◌,
}
use nopfs.Text.{contains_byte, join, has_prefix}

-- What the extension of a path that begins with `c` is, where `rest` is that of the path behind `c`.
abbrev pub ext_from : ℕ → Bytes → Bytes → Bytes
ext_from c s (d ∷ rest) = d ∷ rest
ext_from c s [] = if not (contains_byte s b'/') && nat_eqb c b'.' then c ∷ s else []

-- `filepath.Ext`: from the last dot of the last element.
unfoldable pub ext : Bytes → Bytes
ext [] = []
ext (c ∷ s) = ext_from c s (ext s)

abbrev pub add_byte : ℕ → List Bytes → List Bytes
add_byte c [] = (c ∷ []) ∷ []
add_byte c (part ∷ parts) = (c ∷ part) ∷ parts

-- The parts of a path between its slashes.
unfoldable pub parts : Bytes → List Bytes
parts [] = [] ∷ []
parts (c ∷ s) = let rest = parts s in if nat_eqb c b'/' then [] ∷ rest else add_byte c rest

-- `..` takes back the part before it; at the root it is dropped, and where there is none it stays.
abbrev pub step_back : Bool → List Bytes → List Bytes
step_back rooted [] = if rooted then [] else codes ".." ∷ []
step_back rooted (part ∷ stack) =
    if bytes_eqb part (codes "..") then codes ".." ∷ part ∷ stack else stack

abbrev pub add_part : Bool → List Bytes → Bytes → List Bytes
add_part rooted stack part =
    if bytes_eqb part [] || bytes_eqb part (codes ".")
    then stack
    else if bytes_eqb part (codes "..")
    then step_back rooted stack
    else part ∷ stack

-- The parts that stay, the last one first.
unfoldable pub add_parts : Bool → List Bytes → List Bytes → List Bytes
add_parts rooted stack [] = stack
add_parts rooted stack (part ∷ rest) = add_parts rooted (add_part rooted stack part) rest

unfoldable pub reversed : List Bytes → List Bytes → List Bytes
reversed [] out = out
reversed (part ∷ stack) out = reversed stack (part ∷ out)

-- `filepath.Clean`.
unfoldable pub clean : Bytes → Bytes
clean path =
    let rooted = has_prefix path (codes "/") in
    let text = join (reversed (add_parts rooted [] (parts path)) []) (codes "/") in
    if rooted then codes "/" ++ text else if bytes_eqb text [] then codes "." else text

unfoldable pub drop_empty : List Bytes → List Bytes
drop_empty [] = []
drop_empty (part ∷ rest) =
    let kept = drop_empty rest in if bytes_eqb part [] then kept else part ∷ kept

abbrev pub join_parts : List Bytes → Bytes
join_parts [] = []
join_parts (part ∷ rest) = clean (join (part ∷ rest) (codes "/"))

-- `filepath.Join`: the elements that are not empty, cleaned.
unfoldable pub join_path : List Bytes → Bytes
join_path elements = join_parts (drop_empty elements)
