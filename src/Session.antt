-- ===== src/Session.antt =====
-- cpp/execution/session.cpp: the class Session, over the executor's operations. `executor` is none where
-- the build has no CUDA or the model was loaded without.
pub mod What
pub mod Policy
pub mod Executor
pub mod Calls
pub mod Steps
pub mod Moves
pub mod History
pub mod Outcomes
pub mod Created
pub mod Agree
pub mod Tests
use raftinfer.Base.{
  ℕ, ◌+◌, ◌-◌, ◌%◌, ◌^◌, List, [], ◌∷◌, Bool, true, false, ◌&&◌, ◌||◌, not, Option, none, some,
  length, Result, ok, err, Error, bytes, Text, invalid_argument, logic_error, bad_alloc,
  session_cuda, session_unavailable, throw_if, ◌>>=◌, ◌>>◌, ltb, leb, ◌==◌, if◌then◌else◌,
}
use raftinfer.Base.Int.{ℤ, pos, negsuc, ltb_ℤ}
use raftinfer.Model.Config.{Qwen35Config}
use raftinfer.State.Layout
use raftinfer.State.Layout.{Qwen35StateLayout}
use raftinfer.State.Host
use raftinfer.State.Host.{Qwen35HostState, logical_only, commit_tokens}
use raftinfer.Session.What.{LibraryTexts, what}
use raftinfer.Session.Policy.{
  Qwen35AttentionImplementation, Qwen35DecodeAttentionMode, Qwen35KvCacheDType, Qwen35KvCacheLayout,
  Qwen35ExecutionPolicy, qwen35_execution_policy_from_environment,
}
use raftinfer.Session.Executor.{
  Qwen35ExecutorResult, Qwen35DecodeAttentionImplementation, Qwen35DecodeAttentionDiagnostic,
  Qwen35ExecutionDiagnostics, ExecutorOps, DeviceOps,
}

pub record SessionTokenResult : Type 0 where
  pub token_id : ℤ
  pub position : ℕ

-- What the session reads of its model: cuda_ready() and the two parts of its attachment.
pub record SessionModel (D W : Type 0) : Type 0 where
  pub qwen35_config : Qwen35Config
  pub cuda_ready : Bool
  pub device_context : Option D
  pub cuda_weights : Option W

pub record Session (E : Type 0) : Type 0 where
  pub config : Qwen35Config
  pub policy : Qwen35ExecutionPolicy
  pub state : Qwen35HostState
  pub executor : Option E

unfoldable pub create_session_layout :
    {D W : Type 0} → Option (SessionModel D W) → ℕ → Result Qwen35StateLayout
create_session_layout none max_context = err (invalid_argument (bytes "model is required"))
create_session_layout (some model) max_context = do
  throw_if (ltb model.qwen35_config.context_length max_context)
      (invalid_argument (bytes "max_context_tokens exceeds model context length"))
  Layout.create model.qwen35_config max_context

-- The loop over the tokens.
unfoldable pub require_tokens : ℕ → List ℤ → Result (Unit {0})
require_tokens vocabulary [] = ok tt
require_tokens vocabulary (negsuc n ∷ tokens) =
    err (invalid_argument (bytes "Qwen3.5 token id is negative"))
require_tokens vocabulary (pos n ∷ tokens) = do
  throw_if (leb vocabulary n) (invalid_argument (bytes "Qwen3.5 token id is out of range"))
  require_tokens vocabulary tokens

abbrev pub is_empty {ℓ} : {A : Type ℓ} → List A → Bool
is_empty [] = true
is_empty (x ∷ xs) = false

-- `max_context - position`, of 32 bits.
unfoldable pub room : Qwen35HostState → ℕ
room s = (s.layout.max_context_tokens + 2 ^ 32 - s.position) % 2 ^ 32

unfoldable pub validate_request : Qwen35Config → Qwen35HostState → List ℤ → Result (Unit {0})
validate_request config s tokens = do
  throw_if (is_empty tokens) (invalid_argument (bytes "Qwen3.5 token span must not be empty"))
  throw_if (ltb (room s) (length tokens))
      (invalid_argument (bytes "Qwen3.5 request exceeds session context"))
  require_tokens config.vocabulary_size tokens

-- `catch (const std::bad_alloc &) { throw; } catch (const std::exception &error) { throw
-- SessionCudaError(error.what()); }`
unfoldable pub rethrow : LibraryTexts → Error → Error
rethrow texts bad_alloc = bad_alloc
rethrow texts e = session_cuda (what texts e)

abbrev pub guarded {ℓ} : {A : Type ℓ} → LibraryTexts → Result A → Result A
guarded texts (ok value) = ok value
guarded texts (err e) = err (rethrow texts e)

module _ {D W O E : Type 0} (texts : LibraryTexts) (device : DeviceOps D W O E) where
  -- The part of the constructor in its `try`.
  unfoldable pub attach : SessionModel D W → ℕ → Qwen35ExecutionPolicy → Result E
  attach model max_context policy = elim model.device_context [
    | none ↦ err (logic_error (bytes "CUDA model attachment is incomplete"))
    | some context ↦ elim model.cuda_weights [
      | none ↦ err (logic_error (bytes "CUDA model attachment is incomplete"))
      | some weights ↦
          device.workspace_bytes model.qwen35_config max_context policy >>= λ workspace_bytes.
          device.create_execution_owner context workspace_bytes >>= λ owner.
          device.create_executor owner model.qwen35_config weights max_context policy
    ]
  ]

  abbrev pub attach_if_ready : SessionModel D W → ℕ → Qwen35ExecutionPolicy → Result (Option E)
  attach_if_ready model max_context policy =
      if model.cuda_ready
      then (guarded texts (attach model max_context policy) >>= λ executor. ok (some executor))
      else ok none

  -- The constructor, in a build with CUDA. `setting` is the environment's, `u32_max_size` and
  -- `float_max_size` are max_size() of the host state's vectors.
  unfoldable pub create :
      Option Text
      → ℕ
      → ℕ
      → Option (SessionModel D W)
      → ℕ
      → Qwen35ExecutionPolicy
      → Result (Session E)
  create setting u32_max_size float_max_size model max_context policy = do
    policy' ← qwen35_execution_policy_from_environment setting policy
    layout ← create_session_layout model max_context
    state ← Host.create u32_max_size float_max_size layout logical_only
    elim model [
      | none ↦ err (invalid_argument (bytes "model is required"))
      | some m ↦ attach_if_ready m max_context policy' >>= λ executor. ok (record {
        config = m.qwen35_config;
        policy = policy';
        state = state;
        executor = executor;
      })
    ]
