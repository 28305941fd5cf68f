-- ===== src/Workspace/Tests.antt =====
-- The workspace at concrete inputs: runs, and the theorems where their hypotheses hold.
use raftinfer.Base.{
  ℕ, ◌≡◌, refl, List, [], ◌∷◌, arith, ok, err, bytes, length_error, invalid_argument,
}
use raftinfer.Workspace.{WorkspaceLayout, IsValid, allocate, allocate_all}
use raftinfer.Workspace.Bounds.{Placement, allocate-Placement}
use raftinfer.Workspace.Regions.{Regions, allocate_all-Regions}
use raftinfer.Workspace.Arena
use raftinfer.Workspace.Arena.{Pointer, allocate-Pointer}

abbrev half_full : WorkspaceLayout
half_full = record { capacity = 1024; used = 300 }

half_full-IsValid : IsValid half_full
half_full-IsValid = record { within = omega arith; fits = omega arith }

runs :
    (allocate half_full 100 256 ≡ ok (512, record { capacity = 1024; used = 612 }))
    × (allocate half_full 0 256 ≡ ok (512, half_full))
    × (allocate half_full 513 256 ≡ err (length_error (bytes "workspace capacity exceeded")))
    × (allocate half_full 8 24
        ≡ err (invalid_argument (bytes "workspace alignment must be a non-zero power of two")))
unfolding allocate
runs = (refl, refl, refl, refl)

allocate_runs : allocate half_full 100 256 ≡ ok (512, record { capacity = 1024; used = 612 })
allocate_runs = runs.0

allocate-Placement_example :
    Placement half_full 100 256 512 (record { capacity = 1024; used = 612 })
allocate-Placement_example =
    allocate-Placement half_full 100 256 512 _ half_full-IsValid (omega arith) (omega arith)
      allocate_runs

abbrev requests : List (ℕ × ℕ)
requests = (100, 256) ∷ (0, 512) ∷ (17, 16) ∷ []

abbrev regions : List (ℕ × ℕ)
regions = (512, 100) ∷ (1024, 0) ∷ (624, 17) ∷ []

history : allocate_all half_full requests ≡ ok (regions, record { capacity = 1024; used = 641 })
unfolding allocate_all allocate
history = refl

allocate_all-Regions_example : Regions half_full regions (record { capacity = 1024; used = 641 })
allocate_all-Regions_example =
    allocate_all-Regions half_full requests regions _ half_full-IsValid (omega arith) history

abbrev arena : Arena.WorkspaceArena
arena = record { base = 4096; layout = half_full }

arena_runs :
    Arena.allocate arena 100 256
    ≡ ok (4608, record { base = 4096; layout = record { capacity = 1024; used = 612 } })
unfolding Arena.allocate allocate
arena_runs = refl

allocate-Pointer_example :
    Pointer arena 100 256 4608
      (record { base = 4096; layout = record { capacity = 1024; used = 612 } })
allocate-Pointer_example =
    allocate-Pointer arena 100 256 4608 _ half_full-IsValid (omega arith) (omega arith) arena_runs
