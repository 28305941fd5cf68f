-- ===== src/Session/Calls.antt =====
-- cpp/execution/session.cpp: the member functions of Session. Each gives its result, or what it throws,
-- and the session after it.
use raftinfer.Base.{
  ℕ, ◌%◌, ◌^◌, List, [], ◌∷◌, Bool, true, false, ◌&&◌, none, some, length, Result, ok, err, Error,
  bytes, invalid_argument, session_cuda, session_unavailable, ltb, ◌==◌, if◌then◌else◌,
}
use raftinfer.Base.Int.{ℤ}
use raftinfer.State.Host
use raftinfer.State.Host.{Qwen35HostState, commit_tokens}
use raftinfer.Session.What.{LibraryTexts, what}
use raftinfer.Session.Policy.{
  Qwen35AttentionImplementation, online_tiled, Qwen35DecodeAttentionMode, Qwen35KvCacheDType,
  Qwen35KvCacheLayout,
}
use raftinfer.Session.Executor.{
  Qwen35ExecutorResult, split_k, Qwen35DecodeAttentionDiagnostic, ExecutorOps,
}
use raftinfer.Session.{Session, SessionTokenResult, validate_request, rethrow, room, is_empty}

pub record SessionDiagnostics : Type 0 where
  pub attention : Qwen35AttentionImplementation
  pub kv_cache : Qwen35KvCacheDType
  pub kv_cache_layout : Qwen35KvCacheLayout
  pub decode_graph_enabled : Bool
  pub decode_graph_captured : Bool
  pub decode_graph_replayed : Bool
  pub attention_workspace_bytes : ℕ
  pub decode_attention : Qwen35DecodeAttentionMode
  pub decode_attention_partition_tokens : ℕ
  pub decode_attention_threshold_tokens : ℕ
  pub decode_attention_context_bucket_tokens : ℕ
  pub decode_attention_split_k_graph_captured : Bool

abbrev pub token_result : Qwen35ExecutorResult → SessionTokenResult
token_result result = record { token_id = result.token; position = result.position }

abbrev is_online : Qwen35AttentionImplementation → Bool
is_online online_tiled = true
is_online _ = false

abbrev pub decode_mode : Qwen35DecodeAttentionDiagnostic → Qwen35DecodeAttentionMode
decode_mode d = elim d.implementation [
  | split_k ↦
      if d.partition_tokens == 256
      then Qwen35DecodeAttentionMode.split_k_256
      else Qwen35DecodeAttentionMode.split_k_512
  | _ ↦ Qwen35DecodeAttentionMode.single_block
]

module _ {E : Type 0} (texts : LibraryTexts) where
  -- The rest of a `try` behind the executor's call: commit the tokens and return.
  unfoldable pub commit {ℓ} : {A : Type ℓ} → Session E → ℕ → E → Result A → Result A × Session E
  commit s count e (err thrown) = (err (rethrow texts thrown), record s { executor = some e })
  commit s count e (ok value) = elim (commit_tokens s.state (count % 2 ^ 32)) [
    | err thrown ↦ (err (rethrow texts thrown), record s { executor = some e })
    | ok state ↦ (ok value, record s { state = state; executor = some e })
  ]

  abbrev pub finish :
      Result Qwen35ExecutorResult × Session E → Result SessionTokenResult × Session E
  finish (ok result, s) = (ok (token_result result), s)
  finish (err thrown, s) = (err thrown, s)

  module _ (ops : ExecutorOps E) where
    unfoldable pub prefill : Session E → List ℤ → Result SessionTokenResult × Session E
    prefill s tokens = elim (validate_request s.config s.state tokens) [
      | err thrown ↦ (err thrown, s)
      | ok done ↦ elim s.executor [
        | none ↦ (
          err (session_unavailable (bytes "Qwen3.5 prefill backend requires a CUDA-loaded model")),
          s,
        )
        | some e ↦
            let called = ops.prefill e tokens in finish (commit s (length tokens) called.1 called.0)
      ]
    ]

    unfoldable pub decode : Session E → ℤ → Result SessionTokenResult × Session E
    decode s token = elim (validate_request s.config s.state (token ∷ [])) [
      | err thrown ↦ (err thrown, s)
      | ok done ↦ elim s.executor [
        | none ↦ (
          err (session_unavailable (bytes "Qwen3.5 decode backend requires a CUDA-loaded model")),
          s,
        )
        | some e ↦ let called = ops.decode e token in finish (commit s 1 called.1 called.0)
      ]
    ]

    abbrev refuse : Session E → List ℤ → Error → Result SessionTokenResult × List ℤ × Session E
    refuse s output_tokens thrown = (err thrown, output_tokens, s)

    unfoldable pub decode_greedy :
        Session E → ℤ → List ℤ → Result SessionTokenResult × List ℤ × Session E
    decode_greedy s first_token output_tokens =
        if is_empty output_tokens
        then refuse s output_tokens
            (invalid_argument (bytes "Qwen3.5 greedy decode output span is empty"))
        else if ltb (room s.state) (length output_tokens)
        then refuse s output_tokens
            (invalid_argument (bytes "Qwen3.5 request exceeds session context"))
        else elim (validate_request s.config s.state (first_token ∷ [])) [
          | err thrown ↦ refuse s output_tokens thrown
          | ok done ↦ elim s.executor [
            | none ↦
                refuse s output_tokens (
                  session_unavailable (bytes "Qwen3.5 decode backend requires a CUDA-loaded model"))
            | some e ↦
                let called = ops.decode_greedy e first_token output_tokens in
                let done = finish (commit s (length output_tokens) called.2 called.0) in
                (done.0, called.1, done.1)
          ]
        ]

    unfoldable pub diagnostics : Session E → Result SessionDiagnostics
    diagnostics s = elim s.executor [
      | none ↦
          err (
            session_unavailable (bytes "Qwen3.5 execution diagnostics require a CUDA-loaded model"))
      | some e ↦
          let d = ops.diagnostics e in
          ok (record {
            attention = d.attention;
            kv_cache = d.kv_cache_dtype;
            kv_cache_layout = d.kv_cache_layout;
            decode_graph_enabled = s.policy.decode_graph && is_online d.attention;
            decode_graph_captured = d.decode_graph_captured;
            decode_graph_replayed = d.decode_graph_replayed;
            attention_workspace_bytes = d.attention_workspace_bytes;
            decode_attention = decode_mode d.decode_attention;
            decode_attention_partition_tokens = d.decode_attention.partition_tokens;
            decode_attention_threshold_tokens = d.decode_attention.threshold_tokens;
            decode_attention_context_bucket_tokens = d.decode_attention.last_context_bucket_tokens;
            decode_attention_split_k_graph_captured = d.decode_attention.split_k_graph_captured;
          })
    ]

    -- Here std::bad_alloc becomes a SessionCudaError as well.
    unfoldable pub reset : Session E → Result (Unit {0}) × Session E
    reset s = elim s.executor [
      | none ↦ (ok tt, record s { state = Host.reset s.state })
      | some e ↦
          let called = ops.reset e in
          elim called.0 [
            | err thrown ↦
                (err (session_cuda (what texts thrown)), record s { executor = some called.1 })
            | ok done ↦ (ok tt, record s { state = Host.reset s.state; executor = some called.1 })
          ]
    ]
