-- ===== src/Workspace.antt =====
-- cpp/execution/workspace_layout.hpp: the bump allocator that places buffers in one workspace.
pub mod Place
pub mod Bounds
pub mod Regions
pub mod Arena
pub mod Tests
use raftinfer.Base.{
  size_max, ℕ, ◌+◌, ◌-◌, ◌%◌, ◌^◌, ◌≤◌, bit_and, ◌||◌, not, List, [], ◌∷◌, bytes, Result, ok, err,
  length_error, invalid_argument, throw_if, ◌>>=◌, ◌>>◌, ltb, leb, ◌==◌, if◌then◌else◌,
}

pub record WorkspaceLayout : Type 0 where
  pub capacity : ℕ
  pub used : ℕ

-- The constructor.
abbrev pub create : ℕ → WorkspaceLayout
create capacity = record { capacity = capacity; used = 0 }

-- WorkspaceLayout::allocate. `size_max - mask` is `~mask`.
unfoldable pub allocate : WorkspaceLayout → ℕ → ℕ → Result (ℕ × WorkspaceLayout)
allocate w n alignment = do
  throw_if (alignment == 0 || not (bit_and alignment (alignment - 1) == 0))
      (invalid_argument (bytes "workspace alignment must be a non-zero power of two"))
  let mask = alignment - 1
  throw_if (ltb (size_max - mask) w.used) (length_error (bytes "workspace offset overflow"))
  let aligned = bit_and ((w.used + mask) % 2 ^ 64) (size_max - mask)
  throw_if (ltb (size_max - n) aligned) (length_error (bytes "workspace allocation overflow"))
  let next = (aligned + n) % 2 ^ 64
  throw_if (ltb w.capacity next) (length_error (bytes "workspace capacity exceeded"))
  ok (aligned, if n == 0 then w else record w { used = next })

pub reset : WorkspaceLayout → WorkspaceLayout
reset w = record w { used = 0 }

-- A history of requests (size, alignment), up to the first that throws.
unfoldable pub allocate_all :
    WorkspaceLayout → List (ℕ × ℕ) → Result (List (ℕ × ℕ) × WorkspaceLayout)
allocate_all w [] = ok ([], w)
allocate_all w ((n, alignment) ∷ rest) = do
  (offset, w') ← allocate w n alignment
  (regions, w'') ← allocate_all w' rest
  ok ((offset, n) ∷ regions, w'')

-- The size and the offset fit `std::size_t`, and no more is used than there is.
pub record IsValid (w : WorkspaceLayout) : Type 0 where
  pub within : w.used ≤ w.capacity
  pub fits : w.capacity ≤ size_max
