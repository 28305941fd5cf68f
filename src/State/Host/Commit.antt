-- ===== src/State/Host/Commit.antt =====
-- cpp/execution/qwen35_state.cpp: the invariant of a host state, under commit_tokens and reset.
use native.Mathlib.Nat.{mod-eq_of_lt}
use raftinfer.Base.{
  ℕ, zero, suc, ◌+◌, ◌*◌, ◌%◌, ◌^◌, ◌≤◌, ◌≡◌, refl, ap, List, [], ◌∷◌, map, true, arith, length,
  replicate, length-replicate, size_max, u32_max, ok, err, bytes, length_error, leb, if◌then◌else◌,
}
use raftinfer.State.Validate.Sound.{SlotMaps}
use raftinfer.State.Host.{Qwen35HostState, has_tensor_storage, require_room, commit_tokens, reset}

-- A buffer has room for all layers, if the state keeps tensors.
abbrev pub Holds : Qwen35HostState → List ℕ → ℕ → ℕ → Type 0
Holds s buffer layers floats =
    has_tensor_storage s ≡ true → (length buffer ≡ layers * floats) × (layers * floats ≤ size_max)

pub record IsValid (s : Qwen35HostState) : Type 0 where
  pub maps : SlotMaps s.layout
  pub within : s.position ≤ s.layout.max_context_tokens
  pub lengths : s.full_kv_lengths ≡ replicate s.layout.full_layer_count s.position
  pub convolution :
      Holds s s.linear_convolution s.layout.linear_layer_count
        s.layout.linear_convolution_floats_per_layer
  pub recurrent :
      Holds s s.linear_recurrent s.layout.linear_layer_count
        s.layout.linear_recurrent_floats_per_layer
  pub kv : Holds s s.full_kv s.layout.full_layer_count s.layout.full_kv_floats_per_layer

-- The state as a session at `position` has it.
abbrev pub advance : Qwen35HostState → ℕ → Qwen35HostState
advance s position = record s {
  position = position;
  full_kv_lengths = replicate s.layout.full_layer_count position;
}

require_room-replicate :
    (layers limit count n : ℕ)
    → count ≤ limit
    → n + count ≤ limit
    → require_room limit count (replicate layers n) ≡ ok tt
unfolding require_room
require_room-replicate zero limit count n h k = refl
require_room-replicate (suc layers) limit count n h k =
    ground (arith, require_room-replicate layers limit count n h k)

map-replicate :
    (layers count n : ℕ)
    → n + count ≤ u32_max
    → map (λ m. (m + count) % 2 ^ 32) (replicate layers n) ≡ replicate layers (n + count)
map-replicate zero count n h = refl
map-replicate (suc layers) count n h =
    ground (arith, map-replicate layers count n h, mod-eq_of_lt {n = n + count} {m = 2 ^ 32})

-- `commit_tokens` moves the position and every cache length on by `count` if the context has room for
-- that, and otherwise throws and changes nothing; the second test, on the lengths, never fails alone.
pub commit_tokens-advance :
    (s : Qwen35HostState) (count : ℕ)
    → IsValid s
    → s.layout.max_context_tokens ≤ u32_max
    → commit_tokens s count ≡ (
        if leb (s.position + count) s.layout.max_context_tokens
        then ok (advance s (s.position + count))
        else err (length_error (bytes "Qwen3.5 state commit exceeds max context")))
unfolding commit_tokens
commit_tokens-advance s count v word = ground (
  arith,
  v.within,
  v.lengths,
  require_room-replicate s.layout.full_layer_count s.layout.max_context_tokens count s.position,
  map-replicate s.layout.full_layer_count count s.position,
  mod-eq_of_lt {n = s.position + count} {m = 2 ^ 32},
)

pub advance-IsValid :
    (s : Qwen35HostState) (p : ℕ)
    → IsValid s
    → p ≤ s.layout.max_context_tokens
    → IsValid (advance s p)
unfolding has_tensor_storage
advance-IsValid s p v h = record {
  maps = v.maps;
  within = h;
  lengths = refl;
  convolution = v.convolution;
  recurrent = v.recurrent;
  kv = v.kv;
}

length-map {ℓ κ} :
    {A : Type ℓ} {B : Type κ} (f : A → B) (xs : List A) → length (map f xs) ≡ length xs
length-map f [] = refl
length-map f (x ∷ xs) = ap suc (length-map f xs)

zero_fill-replicate : (xs : List ℕ) → map (λ (m : ℕ). zero) xs ≡ replicate (length xs) 0
zero_fill-replicate [] = refl
zero_fill-replicate (x ∷ xs) = ap (λ t. 0 ∷ t) (zero_fill-replicate xs)

-- `reset` takes the state back to position 0 with all caches empty, keeps its layout and the sizes of
-- its buffers, and every float in them is zero.
pub reset-IsValid :
    (s : Qwen35HostState)
    → IsValid s
    → IsValid (reset s)
      × ((reset s).position ≡ 0)
      × ((reset s).layout ≡ s.layout)
      × ((reset s).linear_convolution ≡ replicate (length s.linear_convolution) 0)
      × ((reset s).linear_recurrent ≡ replicate (length s.linear_recurrent) 0)
      × ((reset s).full_kv ≡ replicate (length s.full_kv) 0)
unfolding reset has_tensor_storage
reset-IsValid s v = (
  record {
    maps = v.maps;
    within = omega arith;
    lengths =
        rw (v.lengths, zero_fill-replicate, length-replicate s.layout.full_layer_count s.position);
    convolution = λ t. rw (length-map {B = ℕ} (λ x. 0) s.linear_convolution) (v.convolution t);
    recurrent = λ t. rw (length-map {B = ℕ} (λ x. 0) s.linear_recurrent) (v.recurrent t);
    kv = λ t. rw (length-map {B = ℕ} (λ x. 0) s.full_kv) (v.kv t);
  },
  refl,
  refl,
  zero_fill-replicate s.linear_convolution,
  zero_fill-replicate s.linear_recurrent,
  zero_fill-replicate s.full_kv,
)
