-- ===== src/Executor.antt =====
-- The host's part of Qwen35Executor::Impl (cpp/execution/qwen35_executor.cu): the position, the poison,
-- the checks of a request and the division of a prompt into chunks. What runs on the device, and the
-- decode graphs, are operations on a device state `K`, a parameter; each may throw, and may have changed
-- the device even then. `replay_greedy` gives what the span of output tokens holds afterwards.
pub mod Decode
pub mod Positions
pub mod Greedy
pub mod Chunks
pub mod Law
pub mod Graph
pub mod Captures
pub mod Resolve
pub mod Policies
pub mod Estimate
pub mod Buffers
pub mod Room
pub mod Served
pub mod Widths
pub mod Blocks
pub mod Parts
pub mod Covered
pub mod Enough
pub mod BufferTests
pub mod Tests
use raftinfer.Base.{
  ℕ, zero, suc, ◌+◌, ◌-◌, ◌%◌, ◌^◌, List, [], ◌∷◌, length, take, drop, Bool, true, false, not, ◌||◌,
  Result, ok, err, Error, executor_error, bytes, throw_if, ◌>>=◌, ◌>>◌, ltb, leb, ◌==◌,
  if◌then◌else◌,
}
use raftinfer.Base.Int.{ℤ, pos, negsuc}
use raftinfer.Model.Config.{Qwen35Config}
use raftinfer.Session.Executor.{Qwen35ExecutorResult}

pub record DeviceSteps (K : Type 0) : Type 0 where
  pub guard : K → Result (Unit {0}) × K
  pub launch : K → List ℤ → Bool → ℕ → Result Qwen35ExecutorResult × K
  pub sync_position : K → ℕ → Result (Unit {0}) × K
  pub can_replay : K → ℕ → Result Bool × K
  pub replay : K → ℤ → ℕ → Result ℤ × K
  pub prepare : K → ℕ → Result (Unit {0}) × K
  pub replay_greedy : K → ℤ → List ℤ → ℕ → Result (Unit {0}) × List ℤ × K
  pub clear : K → Result (Unit {0}) × K

pub record Executor (K : Type 0) : Type 0 where
  pub config : Qwen35Config
  pub max_context : ℕ
  pub position : ℕ
  pub poisoned : Bool
  pub device : K

-- kBuckets
abbrev pub buckets : List ℕ
buckets = 1 ∷ 2 ∷ 4 ∷ 17 ∷ 128 ∷ 512 ∷ []

abbrev pub has_bucket : List ℕ → ℕ → Bool
has_bucket [] tokens = false
has_bucket (b ∷ bs) tokens = b == tokens || has_bucket bs tokens

-- The chunk that is taken of what remains of a prompt.
unfoldable pub chunk_size : ℕ → ℕ
chunk_size remaining =
    if leb 512 remaining
    then 512
    else if leb 128 remaining
    then 128
    else if leb 17 remaining
    then 17
    else if leb 4 remaining
    then 4
    else if leb 2 remaining
    then 2
    else 1

abbrev require_known : ℕ → List ℤ → Result (Unit {0})
require_known vocabulary [] = ok tt
require_known vocabulary (negsuc n ∷ tokens) =
    err (executor_error (bytes "Qwen3.5 token id is negative"))
require_known vocabulary (pos n ∷ tokens) = do
  throw_if (not (ltb n vocabulary)) (executor_error (bytes "Qwen3.5 token id is out of range"))
  require_known vocabulary tokens

-- Qwen35Executor::validate_request
unfoldable pub validate_request : Qwen35Config → ℕ → List ℤ → Result (Unit {0})
validate_request config past_tokens tokens = do
  throw_if (length tokens == 0)
      (executor_error (bytes "Qwen3.5 executor token span must not be empty"))
  throw_if (not (ltb 0 config.vocabulary_size))
      (executor_error (bytes "vocabulary_size must be positive"))
  throw_if (not (ltb 0 config.context_length))
      (executor_error (bytes "context_length must be positive"))
  throw_if (not (leb past_tokens config.context_length))
      (executor_error (bytes "past token count exceeds context length"))
  throw_if (not (leb (length tokens) (config.context_length - past_tokens)))
      (executor_error (bytes "Qwen3.5 request exceeds context length"))
  require_known config.vocabulary_size tokens

module _ {K : Type 0} where
  -- A step that has returned goes on; one that has thrown ends the block.
  abbrev pub and_then {ℓ κ} :
      {A : Type ℓ} {B : Type κ}
      → Result A × Executor K
      → (A → Executor K → Result B × Executor K)
      → Result B × Executor K
  and_then (err thrown, s) rest = (err thrown, s)
  and_then (ok value, s) rest = rest value s

  -- `catch (...) { poisoned_ = true; throw; }`
  abbrev pub poison_on_throw {ℓ} : {A : Type ℓ} → Result A × Executor K → Result A × Executor K
  poison_on_throw (ok value, s) = (ok value, s)
  poison_on_throw (err thrown, s) = (err thrown, record s { poisoned = true })

  -- A step of the device.
  abbrev pub on_device {ℓ} : {A : Type ℓ} → Executor K → Result A × K → Result A × Executor K
  on_device s called = (called.0, record s { device = called.1 })

  abbrev pub check {ℓ} : {A : Type ℓ} → Executor K → Result A → Result A × Executor K
  check s result = (result, s)

  unfoldable pub ensure_healthy : Executor K → Result (Unit {0})
  ensure_healthy s =
      throw_if s.poisoned
        (executor_error (bytes "Qwen3.5 executor is poisoned; call reset before reuse"))

module _ {K : Type 0} (steps : DeviceSteps K) where
  -- run_chunk, whose first step is to look for the plans of its size (bucket_for).
  unfoldable pub run_chunk :
      Executor K → List ℤ → Bool → ℕ → Result Qwen35ExecutorResult × Executor K
  run_chunk s tokens produce_logits chunk_position =
      if has_bucket buckets (length tokens)
      then on_device s (steps.launch s.device tokens produce_logits chunk_position)
      else (err (executor_error (bytes "unsupported Qwen3.5 executor token bucket")), s)

  -- The loop of prefill. `rest` are the tokens from `offset` on, `result` is that of the chunk before.
  unfoldable pub run_chunks :
      ℕ → Executor K → Qwen35ExecutorResult → List ℤ → ℕ → Result Qwen35ExecutorResult × Executor K
  run_chunks fuel s result [] chunk_position = (ok result, s)
  run_chunks zero s result (t ∷ rest) chunk_position = (ok result, s)
  run_chunks (suc fuel) s result (t ∷ rest) chunk_position =
      let tokens = t ∷ rest in
      let chunk = chunk_size (length tokens) in
      and_then (run_chunk s (take chunk tokens) (chunk == length tokens) chunk_position)
        (λ result' s'. run_chunks fuel s' result' (drop chunk tokens) (chunk_position + chunk))

  -- What a call does in front of its `try`.
  unfoldable pub enter :
      Executor K → (Executor K → Result (Unit {0})) → Result (Unit {0}) × Executor K
  enter s validate =
      and_then (on_device s (steps.guard s.device))
        λ done s₁. and_then (check s₁ (validate s₁)) λ done s₂. check s₂ (ensure_healthy s₂)

  -- `Qwen35ExecutorResult result{}`
  abbrev no_result : Qwen35ExecutorResult
  no_result = record { token = pos 0; position = 0 }

  unfoldable pub prefill : Executor K → List ℤ → Result Qwen35ExecutorResult × Executor K
  unfolding run_chunks
  prefill s tokens =
      and_then (enter s (λ t. validate_request t.config t.position tokens)) λ done s₁.
        poison_on_throw (
          and_then (run_chunks (length tokens) s₁ no_result tokens s₁.position) λ result s₂.
            let s₃ = record s₂ { position = s₁.position + length tokens } in
            and_then (on_device s₃ (steps.sync_position s₃.device s₃.position))
              λ done s₄. (ok result, s₄))

  unfoldable pub reset : Executor K → Result (Unit {0}) × Executor K
  reset s = and_then (on_device s (steps.guard s.device)) λ done s₁.
      and_then (on_device s₁ (steps.clear s₁.device))
        λ done s₂. (ok tt, record s₂ { position = 0; poisoned = false })
