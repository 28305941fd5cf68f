-- ===== src/State/Validate/Accepts.antt =====
-- cpp/execution/qwen35_state.cpp: require_valid_layout on the layouts that `create` returns.
use raftinfer.Base.{
  ℕ, suc, ◌+◌, ◌*◌, ◌≤◌, ◌<◌, ◌≡◌, refl, List, [], ◌∷◌, false, arith, length, u32_max, ok,
  Bool-cases, inl, inr, ◌⊎◌,
}
use raftinfer.State.Checked.{checked_add-exact}
use raftinfer.State.Layout.Sizes.{layer_bytes-eq}
use raftinfer.State.Layout.Created.{Created, create-Created}
use raftinfer.Model.Config.{Qwen35Config, Qwen35BlockPlan}
use raftinfer.State.Layout.{
  Qwen35StateLayout, no_slot, inc32, is_empty, is_linear, create, assign_slots,
}
use raftinfer.State.Layout.Slots.{linears, fulls, length-assign_slots, linears-add-fulls}
use raftinfer.State.Validate.{
  require_shape, require_sizes, require_bytes, require_vector_capacity, require_valid_layout,
  contains, validate_block, validate_slots,
}

-- The slots seen so far are below the next one, or none.
abbrev pub Earlier : ℕ → List ℕ → Type 0
Earlier next [] = Unit
Earlier next (s ∷ seen) = ((s < next) ⊎ (s ≡ no_slot)) × Earlier next seen

Earlier-mono : (m n : ℕ) (seen : List ℕ) → m ≤ n → Earlier m seen → Earlier n seen
Earlier-mono m n [] h e = tt
Earlier-mono m n (s ∷ seen) h e = ground (arith, e.0, Earlier-mono m n seen h e.1)

contains-Earlier :
    (next : ℕ) (seen : List ℕ) → next < no_slot → Earlier next seen → contains next seen ≡ false
contains-Earlier next [] h e = refl
contains-Earlier next (s ∷ seen) h e = ground (arith, e.0, contains-Earlier next seen h e.1)

module _ (layout : Qwen35StateLayout) (seen_l seen_f : List ℕ) (l f : ℕ) where
  validate_block_linear :
      l < layout.linear_layer_count
      → layout.linear_layer_count ≤ u32_max
      → Earlier l seen_l
      → validate_block layout seen_l seen_f l no_slot (l, f) ≡ ok (suc l, f)
  unfolding validate_block
  validate_block_linear below small e = ground (arith, contains-Earlier l seen_l)

  validate_block_full :
      f < layout.full_layer_count
      → layout.full_layer_count ≤ u32_max
      → Earlier f seen_f
      → validate_block layout seen_l seen_f no_slot f (l, f) ≡ ok (l, suc f)
  unfolding validate_block
  validate_block_full below small e = ground (arith, contains-Earlier f seen_f)

-- The loop over the slots that `create` assigns ends with the counters at the two layer counts.
pub validate_slots-assign_slots :
    (layout : Qwen35StateLayout) (bs : List Qwen35BlockPlan) (l f : ℕ) (seen_l seen_f : List ℕ)
    → l + linears bs ≡ layout.linear_layer_count
    → f + fulls bs ≡ layout.full_layer_count
    → layout.linear_layer_count ≤ u32_max
    → layout.full_layer_count ≤ u32_max
    → Earlier l seen_l
    → Earlier f seen_f
    → validate_slots layout seen_l seen_f (assign_slots bs l f).0 (assign_slots bs l f).1 (l, f)
      ≡ ok (layout.linear_layer_count, layout.full_layer_count)
unfolding validate_slots assign_slots
validate_slots-assign_slots layout [] l f seen_l seen_f hl hf bl bf el ef = ground arith
validate_slots-assign_slots layout (b ∷ bs) l f seen_l seen_f hl hf bl bf el ef =
    elim (Bool-cases (is_linear b.kind)) [
      | inl e ↦
          let hl' : suc l + linears bs ≡ layout.linear_layer_count = ground arith in
          let hf' : f + fulls bs ≡ layout.full_layer_count = ground arith in
          let next : inc32 l ≡ suc l = omega arith in
          let seen : Earlier (suc l) (l ∷ seen_l) =
            (inl (omega arith), Earlier-mono l (suc l) seen_l (omega arith) el) in
          rw (e, next, validate_block_linear layout seen_l seen_f l f (omega arith) bl el)
            (validate_slots-assign_slots layout bs (suc l) f (l ∷ seen_l) (no_slot ∷ seen_f) hl' hf'
              bl bf seen (inr refl, ef))
      | inr e ↦
          let hl' : l + linears bs ≡ layout.linear_layer_count = ground arith in
          let hf' : suc f + fulls bs ≡ layout.full_layer_count = ground arith in
          let next : inc32 f ≡ suc f = omega arith in
          let seen : Earlier (suc f) (f ∷ seen_f) =
            (inl (omega arith), Earlier-mono f (suc f) seen_f (omega arith) ef) in
          rw (e, next, validate_block_full layout seen_l seen_f l f (omega arith) bf ef)
            (validate_slots-assign_slots layout bs l (suc f) (no_slot ∷ seen_l) (f ∷ seen_f) hl' hf'
              bl bf (inr refl, el) seen)
    ]

is_empty-length : (xs : List ℕ) → 0 < length xs → is_empty xs ≡ false
is_empty-length [] h = absurd (omega arith)
is_empty-length (x ∷ xs) h = refl

module _ (config : Qwen35Config) (context : ℕ) (layout : Qwen35StateLayout)
    (c : Created config context layout) where
  require_shape-Created : require_shape layout ≡ ok tt
  unfolding require_shape
  require_shape-Created = ground (
    arith,
    c.dimensions,
    c.some_block,
    c.blocks,
    c.linear_slots,
    c.full_slots,
    length-assign_slots config.blocks 0 0,
    is_empty-length layout.linear_slots_by_block,
    is_empty-length layout.full_slots_by_block,
  )

  require_sizes-Created : require_sizes layout ≡ ok tt
  unfolding require_sizes
  require_sizes-Created = ground (arith, c.qkv, c.convolution, c.recurrent, c.full_kv)

  require_bytes-Created :
      (u32_max_size float_max_size : ℕ)
      → layout.full_layer_count ≤ u32_max_size
      → layout.linear_layer_count * layout.linear_convolution_floats_per_layer ≤ float_max_size
      → layout.linear_layer_count * layout.linear_recurrent_floats_per_layer ≤ float_max_size
      → layout.full_layer_count * layout.full_kv_floats_per_layer ≤ float_max_size
      → require_bytes u32_max_size float_max_size layout ≡ ok tt
  unfolding require_bytes require_vector_capacity
  require_bytes-Created u32_max_size float_max_size a b d e = ground (
    arith,
    c.total,
    layer_bytes-eq layout.linear_layer_count layout.linear_convolution_floats_per_layer
        c.convolution_bytes,
    layer_bytes-eq layout.linear_layer_count layout.linear_recurrent_floats_per_layer
        c.recurrent_bytes,
    layer_bytes-eq layout.full_layer_count layout.full_kv_floats_per_layer c.full_kv_bytes,
    checked_add-exact layout.linear_convolution_bytes layout.linear_recurrent_bytes,
    checked_add-exact (layout.linear_convolution_bytes + layout.linear_recurrent_bytes)
        layout.full_kv_bytes,
  )

-- The check in front of every host state accepts each layout that `create` returns, and returns it
-- unchanged, provided that its buffers are no longer than a `std::vector` can be.
pub require_valid_layout-create :
    (config : Qwen35Config) (context u32_max_size float_max_size : ℕ) (layout : Qwen35StateLayout)
    → create config context ≡ ok layout
    → layout.full_layer_count ≤ u32_max_size
    → layout.linear_layer_count * layout.linear_convolution_floats_per_layer ≤ float_max_size
    → layout.linear_layer_count * layout.linear_recurrent_floats_per_layer ≤ float_max_size
    → layout.full_layer_count * layout.full_kv_floats_per_layer ≤ float_max_size
    → require_valid_layout u32_max_size float_max_size layout ≡ ok layout
unfolding require_valid_layout
require_valid_layout-create config context u32_max_size float_max_size layout h a b d e =
    let c = create-Created config context h in
    let counts = linears-add-fulls config.blocks in
    let slots =
      validate_slots-assign_slots layout config.blocks 0 0 [] [] (omega (arith, c.linear))
        (omega (arith, c.full)) (omega (arith, c.linear, c.few)) (omega (arith, c.full, c.few)) tt
        tt in
    rw
      (
        require_shape-Created config context layout c,
        require_sizes-Created config context layout c,
        c.linear_slots,
        c.full_slots,
        slots,
        require_bytes-Created config context layout c u32_max_size float_max_size a b d e,
      )
      (ground arith)
