-- ===== src/Tests/Bounds.antt =====
-- Bounds: the theorems at concrete inputs.
use nopfs.Prelude.{refl, none, codes, length}
use nopfs.Denylist.Header.{Content, max_header_size, read_header}
use nopfs.Denylist.HeaderBound.{SetWithin, read_header-SetWithin}
use nopfs.Tests.Files.{unmarshal, seek}
use nopfs.Tests.World.{start}

abbrev file : Content
file = record { bytes = codes "a\n---\n/x\n"; read_error = none }

read_header-SetWithin_example :
    SetWithin max_header_size (read_header unmarshal seek start file)
    × SetWithin (length file.bytes) (read_header unmarshal seek start file)
read_header-SetWithin_example = read_header-SetWithin unmarshal (λ text h. refl) seek start file
