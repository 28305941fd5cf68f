-- ===== src/Api/Create.antt =====
-- raftinfer_session_create of cpp/src/c_api.cpp. A null pointer is none.
use raftinfer.Base.{
  ℕ, List, Bool, true, false, ◌&&◌, ◌||◌, Option, none, some, ltb, leb, ◌==◌, if◌then◌else◌, Text,
  bytes, Result, ok, err, Error, ◌>>=◌,
}
use raftinfer.Session.{Session, SessionModel}
use raftinfer.Session
use raftinfer.Session.What.{LibraryTexts, what}
use raftinfer.Session.Executor.{DeviceOps}
use raftinfer.Api.LastError.{
  RaftInferStatusCode, invalid_argument, cuda_error, internal, resource_exhausted, RaftInferStatus,
  fail, clear_last_error,
}
use raftinfer.Api.Policies.{PolicyStruct, AbiSizes, to_execution_policy}
use raftinfer.Api.Sessions.{success}

unfoldable pub create_catch : LibraryTexts → Error → RaftInferStatusCode × Text
create_catch texts Error.bad_alloc =
    (resource_exhausted, bytes "session allocation exhausted host memory")
create_catch texts (Error.invalid_argument t) = (invalid_argument, t)
create_catch texts (Error.length_error t) = (resource_exhausted, t)
create_catch texts (Error.session_cuda t) = (cuda_error, t)
create_catch texts e = (internal, what texts e)

-- RaftInferSessionConfig
pub record SessionConfig : Type 0 where
  pub struct_size : ℕ
  pub max_context_tokens : ℕ
  pub qwen35_policy : Option PolicyStruct

-- The session that `*out_session` points to afterwards: none, where `out_session` itself is null.
pub record Created (E : Type 0) : Type 0 where
  pub status : RaftInferStatus
  pub last_error : List ℕ
  pub out_session : Option (Option (Session E))

abbrev not_created : {E : Type 0} → List ℕ → RaftInferStatusCode × Text → Created E
not_created buffer (code, message) =
    let f = fail code message buffer in
    record { status = f.0; last_error = f.1; out_session = some none }

unfoldable pub size_mismatch : AbiSizes → ℕ → Bool
size_mismatch sizes size =
    ltb size sizes.legacy_session_config
    || (ltb sizes.legacy_session_config size && ltb size sizes.policy_pointer_end)

-- The policy pointer, where the structure is long enough to have one.
abbrev pub policy_config : AbiSizes → SessionConfig → Option PolicyStruct
policy_config sizes config =
    if leb sizes.policy_pointer_end config.struct_size then config.qwen35_policy else none

module _ {D W O E : Type 0} (texts : LibraryTexts) (device : DeviceOps D W O E)
    (sizes : AbiSizes) where
  unfoldable pub answer_create : List ℕ → Result (Session E) → Created E
  answer_create buffer (ok s) = record {
    status = success;
    last_error = buffer;
    out_session = some (some s);
  }
  answer_create buffer (err e) = not_created buffer (create_catch texts e)

  -- `model` is the handle, and the shared pointer in it; `out` says whether `out_session` is not null.
  unfoldable pub raftinfer_session_create :
      Option Text
      → ℕ
      → ℕ
      → List ℕ
      → Option (Option (SessionModel D W))
      → Option SessionConfig
      → Bool
      → Created E
  raftinfer_session_create setting u32_max_size float_max_size last model config false =
      let f = fail invalid_argument (bytes "out_session is required") (clear_last_error last) in
      record { status = f.0; last_error = f.1; out_session = none }
  raftinfer_session_create setting u32_max_size float_max_size last model config true =
      let buffer = clear_last_error last in
      let missing =
        not_created buffer
          (invalid_argument, bytes "model, config, and out_session are required") in
      elim model [
        | none ↦ missing
        | some m ↦ elim config [
          | none ↦ missing
          | some c ↦
              if size_mismatch sizes c.struct_size
              then not_created buffer
                  (invalid_argument, bytes "RaftInferSessionConfig size mismatch")
              else if c.max_context_tokens == 0
              then not_created buffer
                  (invalid_argument, bytes "max_context_tokens must be non-zero")
              else elim m [
                | none ↦ not_created buffer (invalid_argument, bytes "model is invalid")
                | some qwen ↦ answer_create buffer (
                    to_execution_policy sizes (policy_config sizes c) >>= λ policy.
                    Session.create texts device setting u32_max_size float_max_size (some qwen)
                      c.max_context_tokens policy)
              ]
        ]
      ]
