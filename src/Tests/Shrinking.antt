-- ===== src/Tests/Shrinking.antt =====
-- The remaps of a shrinking device on concrete ranges.
use thin_provisioning_tools.Prelude.{◌≡◌, List, [], ◌∷◌, some, Result, arith}
use thin_provisioning_tools.Shrink.{BlockRange, RemapError, Remap, build_remaps}
use thin_provisioning_tools.Shrink.Remaps.{Remapped, blocks_of, build_remaps-Remapped}

abbrev moving : List BlockRange
moving = record { start = 100; end = 107 } ∷ record { start = 120; end = 122 } ∷ []

abbrev chunks : List BlockRange
chunks = record { start = 3; end = 8 } ∷ record { start = 10; end = 20 } ∷ []

build_remaps-Remapped_example :
    (r : Result RemapError (List Remap)) × (build_remaps moving chunks ≡ some r)
    × Remapped (blocks_of moving) (blocks_of chunks) r
build_remaps-Remapped_example =
    build_remaps-Remapped moving chunks (omega arith, (omega arith, tt))
      (omega arith, (omega arith, tt))
