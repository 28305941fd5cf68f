-- ===== src/Executor/Chunks.antt =====
-- cpp/execution/qwen35_executor.cu: how prefill divides a prompt into chunks.
use raftinfer.Base.{
  ℕ, zero, suc, ◌+◌, ◌-◌, ◌≤◌, ◌<◌, ◌≡◌, refl, ap, subst, sym, ◌∙◌, List, [], ◌∷◌, ◌++◌, length,
  take, drop, length-take, length-drop, Bool, true, arith, Result, ok, err, ◌==◌,
}
use raftinfer.Base.Int.{ℤ}
use raftinfer.Session.Executor.{Qwen35ExecutorResult}
use raftinfer.Executor.{
  DeviceSteps, Executor, and_then, on_device, run_chunk, run_chunks, chunk_size, has_bucket,
  buckets,
}

pub record Chunk : Type 0 where
  pub tokens : List ℤ
  pub last : Bool
  pub position : ℕ

-- The chunks are the prompt in order, each of the size of a bucket and at the position behind the one before,
-- and the last one, only, is marked.
abbrev pub Covers : List ℤ → ℕ → List Chunk → Type 0
Covers prompt at [] = prompt ≡ []
Covers prompt at (c ∷ cs) =
    (rest : List ℤ) × (prompt ≡ c.tokens ++ rest)
    × (has_bucket buckets (length c.tokens) ≡ true)
    × (c.position ≡ at)
    × (c.last ≡ (length rest == 0))
    × Covers rest (at + length c.tokens) cs

chunk_size-bounds : (n : ℕ) → 0 < n → (0 < chunk_size n) × (chunk_size n ≤ n)
unfolding chunk_size
chunk_size-bounds n h = ground arith

chunk_size-bucket : (n : ℕ) → has_bucket buckets (chunk_size n) ≡ true
unfolding chunk_size
chunk_size-bucket n = ground arith

take-append-drop {ℓ} : {A : Type ℓ} (n : ℕ) (xs : List A) → take n xs ++ drop n xs ≡ xs
take-append-drop zero xs = refl
take-append-drop (suc n) [] = refl
take-append-drop (suc n) (x ∷ xs) = ap (λ t. x ∷ t) (take-append-drop n xs)

-- The chunks of a prompt.
pub plan : ℕ → List ℤ → ℕ → List Chunk
plan fuel [] at = []
plan zero (t ∷ rest) at = []
plan (suc fuel) (t ∷ rest) at =
    let prompt = t ∷ rest in
    let chunk = chunk_size (length prompt) in
    record { tokens = take chunk prompt; last = chunk == length prompt; position = at }
    ∷ plan fuel (drop chunk prompt) (at + chunk)

plan-Covers :
    (fuel : ℕ) (prompt : List ℤ) (at : ℕ)
    → length prompt ≤ fuel
    → Covers prompt at (plan fuel prompt at)
unfolding plan
plan-Covers fuel [] at h = refl
plan-Covers zero (t ∷ rest) at h = absurd (omega (arith, h))
plan-Covers (suc fuel) (t ∷ rest) at h =
    let prompt = t ∷ rest in
    let chunk = chunk_size (length prompt) in
    let (some_tokens, within) = chunk_size-bounds (length prompt) (omega arith) in
    let size : length (take chunk prompt) ≡ chunk = length-take chunk prompt within in
    let left : length (drop chunk prompt) ≡ length prompt - chunk = length-drop chunk prompt in
    (
      drop chunk prompt,
      sym (take-append-drop chunk prompt),
      rw size (chunk_size-bucket (length prompt)),
      refl,
      ground (arith, left, within),
      subst (λ p. Covers (drop chunk prompt) (at + p) (plan fuel (drop chunk prompt) (at + chunk)))
          (sym size)
          (plan-Covers fuel (drop chunk prompt) (at + chunk) (omega (arith, left, some_tokens, h))),
    )

module _ {K : Type 0} (steps : DeviceSteps K) where
  -- The device runs chunk after chunk, and what it throws ends the run.
  abbrev pub launch_all :
      Executor K → Qwen35ExecutorResult → List Chunk → Result Qwen35ExecutorResult × Executor K
  launch_all s result [] = (ok result, s)
  launch_all s result (c ∷ cs) =
      and_then (on_device s (steps.launch s.device c.tokens c.last c.position))
        λ result' s'. launch_all s' result' cs

  run_chunk-launch :
      (s : Executor K) (tokens : List ℤ) (last : Bool) (at : ℕ)
      → has_bucket buckets (length tokens) ≡ true
      → run_chunk steps s tokens last at ≡ on_device s (steps.launch s.device tokens last at)
  unfolding run_chunk
  run_chunk-launch s tokens last at h = rw (run_chunk, h) refl

  and_then-cong :
      (x : Result Qwen35ExecutorResult × Executor K)
      (f g : Qwen35ExecutorResult → Executor K → Result Qwen35ExecutorResult × Executor K)
      → ((r : Qwen35ExecutorResult) (s : Executor K) → f r s ≡ g r s)
      → and_then x f ≡ and_then x g
  and_then-cong (ok r, s) f g h = h r s
  and_then-cong (err e, s) f g h = refl

  run_chunks-launch_all :
      (fuel : ℕ) (s : Executor K) (r : Qwen35ExecutorResult) (prompt : List ℤ) (at : ℕ)
      → length prompt ≤ fuel
      → run_chunks steps fuel s r prompt at ≡ launch_all s r (plan fuel prompt at)
  unfolding run_chunks plan
  run_chunks-launch_all fuel s r [] at h = refl
  run_chunks-launch_all zero s r (t ∷ rest) at h = absurd (omega (arith, h))
  run_chunks-launch_all (suc fuel) s r (t ∷ rest) at h =
      let prompt = t ∷ rest in
      let chunk = chunk_size (length prompt) in
      let (some_tokens, within) = chunk_size-bounds (length prompt) (omega arith) in
      let size : length (take chunk prompt) ≡ chunk = length-take chunk prompt within in
      let left : length (drop chunk prompt) ≡ length prompt - chunk = length-drop chunk prompt in
      ap (λ x. and_then x (λ r' s'. run_chunks steps fuel s' r' (drop chunk prompt) (at + chunk)))
        (run_chunk-launch s (take chunk prompt) (chunk == length prompt) at
          (rw size (chunk_size-bucket (length prompt))))
      ∙ and_then-cong _ _ _ λ r' s'.
        run_chunks-launch_all fuel s' r' (drop chunk prompt) (at + chunk)
          (omega (arith, left, some_tokens, h))

  -- The loop of `prefill` over a prompt is a run of the device over chunks that are the prompt in order, each of the
  -- size of one of the buckets and at the position behind the one before, with logits for the last
  -- one only; so the loop ends with its fuel, the number of tokens, and never asks for a bucket that
  -- does not exist.
  pub run_chunks-Covers :
      (s : Executor K) (r : Qwen35ExecutorResult) (prompt : List ℤ) (at : ℕ)
      → (cs : List Chunk) × Covers prompt at cs
        × (run_chunks steps (length prompt) s r prompt at ≡ launch_all s r cs)
  run_chunks-Covers s r prompt at = (
    plan (length prompt) prompt at,
    plan-Covers (length prompt) prompt at (omega arith),
    run_chunks-launch_all (length prompt) s r prompt at (omega arith),
  )
