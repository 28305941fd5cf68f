-- ===== src/Executor/Blocks.antt =====
-- cpp/execution/qwen35_executor.cu: the buffers of the blocks are covered by their estimates.
use raftinfer.Base.{
  ℕ, ◌-◌, ◌*◌, ◌≤◌, ◌<◌, List, [], ◌∷◌, Result, ok, ok-injective, >>=-eq-ok, size_max, ◌≡◌, inl,
  inr, refl, arith,
}
use native.Mathlib.Nat.{mul-pos}
use raftinfer.Base.Sizes.{checked_mul}
use raftinfer.Model.Config.{
  Qwen35BlockKind, Qwen35BlockPlan, Qwen35Config, linear_attention, full_attention,
}
use raftinfer.Executor.Estimate.{
  Widths, convolution_estimate, recurrent_estimate, block_estimate, block_estimates,
}
use raftinfer.Executor.Buffers.{
  BufferStep, count_overflow, convolution_bytes, recurrent_elements, recurrent_bytes, block_step,
  block_steps,
}
use raftinfer.Executor.Widths.{Tested, Bounded}
use raftinfer.Executor.Covered.{product_is, product_fits, product_returns, rows-Covers}
use raftinfer.Executor.Room.{IsAlignment}
use raftinfer.Executor.Served.{Covers, Returns, Served}

pub aligned_4 : IsAlignment 4
aligned_4 = (2, refl, inl refl)

pub aligned_16 : IsAlignment 16
aligned_16 = (4, refl, inr (inl refl))

pub aligned_256 : IsAlignment 256
aligned_256 = (8, refl, inr (inr refl))

-- A buffer whose size is that of its estimate.
Covers-Returns : (s r : Result ℕ) → Covers s r → Returns s → Returns r
Covers-Returns s r covered (v, h) = let (n, is_n, _, _) = covered v h in (n, is_n)

module _ (c : Qwen35Config) (m : ℕ) (w : Widths) (t : Tested c m) (b : Bounded w)
    (width : 2 ≤ c.linear_convolution_width) where
  convolution-Covers : Covers (convolution_estimate c w) (convolution_bytes c w)
  unfolding convolution_estimate convolution_bytes
  convolution-Covers =
      rows-Covers (c.linear_convolution_width - 1) w.qkv _ _ _ (omega (arith, width)) b.qkv.0
        (omega (arith, b.qkv.1))

  recurrent-parts :
      (v : ℕ)
      → recurrent_estimate c ≡ ok v
      → (rec : ℕ) × (recurrent_elements c ≡ ok rec)
        × (0 < rec)
        × (v ≡ rec * 4)
        × (rec * 4 ≤ size_max)
  unfolding recurrent_estimate recurrent_elements
  recurrent-parts v h =
      let d = c.linear_head_dimension in
      let heads = c.linear_value_head_count in
      let (square, square_is, h₁) = >>=-eq-ok (checked_mul d d _) _ h in
      let (rec, rec_is, last) = >>=-eq-ok (checked_mul heads square _) _ h₁ in
      let square_eq = product_is d d _ square_is in
      let rec_eq = product_is heads square _ rec_is in
      let some : 0 < d * d = mul-pos t.dimension t.dimension in
      let some_rec : 0 < heads * square = mul-pos t.value_heads (omega (arith, some, square_eq)) in
      let first = product_returns d d count_overflow (product_fits d d _ square_is) in
      let second =
        product_returns heads square count_overflow (product_fits heads square _ rec_is) in
      (
        heads * square,
        rw (first, ← square_eq, second) refl,
        some_rec,
        omega (arith, product_is rec 4 _ last, rec_eq),
        omega (arith, product_fits rec 4 _ last, rec_eq),
      )

  recurrent-Covers : Covers (recurrent_estimate c) (recurrent_bytes c)
  unfolding recurrent_bytes
  recurrent-Covers v h =
      let (rec, is_rec, some, is_v, fits) = recurrent-parts v h in
      (rec * 4, rw is_rec (product_returns rec 4 _ fits), omega (arith, some), omega (arith, is_v))

  block_step-Served :
      (kind : Qwen35BlockKind) (kv : ℕ) (kv_bytes : Result ℕ) (ss : List (Result ℕ))
      (bs : List BufferStep)
      → kv_bytes ≡ ok kv
      → 0 < kv
      → Served ss bs
      → Served (block_estimate kind c w kv ss) (block_step kind c w kv_bytes bs)
  block_step-Served full_attention kv kv_bytes ss bs same some served =
      (λ v h. (kv, same, some, omega (arith, ok-injective h)), aligned_4, served)
  block_step-Served linear_attention kv kv_bytes ss bs same some served =
      let convolved = λ (here : Returns (convolution_estimate c w)).
        Covers-Returns (convolution_estimate c w) (convolution_bytes c w) convolution-Covers here in
      let recurred = λ (later : Returns (recurrent_estimate c)).
        Covers-Returns (recurrent_estimate c) (recurrent_bytes c) recurrent-Covers later in
      (
        λ here later.
            let (rec, is_rec, _, _, _) = recurrent-parts later.0.0 later.0.1 in (rec, is_rec),
        (
          λ here later. convolved here,
          (
            λ here later. recurred later.0,
            (convolution-Covers, aligned_4, (recurrent-Covers, aligned_4, served)),
          ),
        ),
      )

  pub block_steps-Served :
      (kv : ℕ) (kv_bytes : Result ℕ) (blocks : List Qwen35BlockPlan)
      → kv_bytes ≡ ok kv
      → 0 < kv
      → Served (block_estimates c w kv blocks) (block_steps c w kv_bytes blocks)
  unfolding block_estimates block_steps
  block_steps-Served kv kv_bytes [] same some = tt
  block_steps-Served kv kv_bytes (block ∷ blocks) same some =
      block_step-Served block.kind kv kv_bytes _ _ same some
        (block_steps-Served kv kv_bytes blocks same some)
