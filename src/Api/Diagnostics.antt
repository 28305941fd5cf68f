-- ===== src/Api/Diagnostics.antt =====
-- raftinfer_session_diagnostics of cpp/src/c_api.cpp, which writes the fields of its structure one by
-- one, between conversions that may throw.
use raftinfer.Base.{
  ℕ, List, not, Option, none, some, ◌==◌, if◌then◌else◌, Text, bytes, Result, ok, err, Error,
}
use raftinfer.Base.Int.{ℤ}
use raftinfer.Session.{Session}
use raftinfer.Session.What.{LibraryTexts, what}
use raftinfer.Session.Executor.{ExecutorOps}
use raftinfer.Session.Calls.{SessionDiagnostics, diagnostics}
use raftinfer.Api.LastError.{
  RaftInferStatusCode, invalid_argument, unavailable, internal, RaftInferStatus, fail,
  clear_last_error,
}
use raftinfer.Api.Policies.{
  AbiSizes, from_attention_implementation, from_kv_cache_dtype, from_kv_cache_layout,
  from_decode_attention,
}
use raftinfer.Api.RoundTrip.{bool_code}
use raftinfer.Api.Sessions.{success}

-- RaftInferSessionDiagnostics
pub record DiagnosticsStruct : Type 0 where
  pub struct_size : ℕ
  pub attention : ℕ
  pub kv_cache_dtype : ℕ
  pub kv_cache_layout : ℕ
  pub decode_graph_enabled : ℤ
  pub decode_graph_captured : ℤ
  pub decode_graph_replayed : ℤ
  pub attention_workspace_bytes : ℕ
  pub decode_attention : ℕ
  pub decode_attention_partition_tokens : ℕ
  pub decode_attention_threshold_tokens : ℕ
  pub decode_attention_context_bucket_tokens : ℕ
  pub decode_attention_split_k_graph_captured : ℤ

-- A conversion that throws ends the writes; the structure keeps those before.
abbrev convert :
    Result ℕ
    → DiagnosticsStruct
    → (ℕ → Result (Unit {0}) × DiagnosticsStruct)
    → Result (Unit {0}) × DiagnosticsStruct
convert (ok value) out rest = rest value
convert (err thrown) out rest = (err thrown, out)

abbrev write_decode : SessionDiagnostics → DiagnosticsStruct → Result (Unit {0}) × DiagnosticsStruct
write_decode d out = convert (from_decode_attention d.decode_attention) out λ mode. (
  ok tt,
  record out {
    decode_attention = mode;
    decode_attention_partition_tokens = d.decode_attention_partition_tokens;
    decode_attention_threshold_tokens = d.decode_attention_threshold_tokens;
    decode_attention_context_bucket_tokens = d.decode_attention_context_bucket_tokens;
    decode_attention_split_k_graph_captured = bool_code d.decode_attention_split_k_graph_captured;
  },
)

abbrev write_flags : SessionDiagnostics → DiagnosticsStruct → Result (Unit {0}) × DiagnosticsStruct
write_flags d out = write_decode d (record out {
  decode_graph_enabled = bool_code d.decode_graph_enabled;
  decode_graph_captured = bool_code d.decode_graph_captured;
  decode_graph_replayed = bool_code d.decode_graph_replayed;
  attention_workspace_bytes = d.attention_workspace_bytes;
})

abbrev pub write_diagnostics :
    SessionDiagnostics → DiagnosticsStruct → Result (Unit {0}) × DiagnosticsStruct
write_diagnostics d out = convert (from_attention_implementation d.attention) out λ attention.
    let out₁ = record out { attention = attention } in
    convert (from_kv_cache_dtype d.kv_cache) out₁ λ dtype.
      let out₂ = record out₁ { kv_cache_dtype = dtype } in
      convert (from_kv_cache_layout d.kv_cache_layout) out₂
        λ layout. write_flags d (record out₂ { kv_cache_layout = layout })

-- The status, the buffer of the last error, and `*out_diagnostics`, if there is one.
pub record Report : Type 0 where
  pub status : RaftInferStatus
  pub last_error : List ℕ
  pub out_diagnostics : Option DiagnosticsStruct

unfoldable pub diagnostics_catch : LibraryTexts → Error → RaftInferStatusCode × Text
diagnostics_catch texts (Error.session_unavailable t) = (unavailable, t)
diagnostics_catch texts e = (internal, what texts e)

abbrev report_failure : List ℕ → Option DiagnosticsStruct → RaftInferStatusCode × Text → Report
report_failure buffer out (code, message) =
    let f = fail code message buffer in
    record { status = f.0; last_error = f.1; out_diagnostics = out }

abbrev report_written : LibraryTexts → List ℕ → Result (Unit {0}) × DiagnosticsStruct → Report
report_written texts buffer (ok done, out) = record {
  status = success;
  last_error = buffer;
  out_diagnostics = some out;
}
report_written texts buffer (err thrown, out) =
    report_failure buffer (some out) (diagnostics_catch texts thrown)

module _ {E : Type 0} (texts : LibraryTexts) (ops : ExecutorOps E) (sizes : AbiSizes) where
  unfoldable pub report : List ℕ → DiagnosticsStruct → Result SessionDiagnostics → Report
  report buffer out (err thrown) = report_failure buffer (some out) (diagnostics_catch texts thrown)
  report buffer out (ok d) = report_written texts buffer (write_diagnostics d out)

  abbrev diagnostics_missing : Text
  diagnostics_missing = bytes "session and out_diagnostics are required"

  unfoldable pub raftinfer_session_diagnostics :
      List ℕ → Option (Session E) → Option DiagnosticsStruct → Report
  raftinfer_session_diagnostics last none out =
      report_failure (clear_last_error last) out (invalid_argument, diagnostics_missing)
  raftinfer_session_diagnostics last (some s) none =
      report_failure (clear_last_error last) none (invalid_argument, diagnostics_missing)
  raftinfer_session_diagnostics last (some s) (some out) =
      if not (out.struct_size == sizes.diagnostics)
      then report_failure (clear_last_error last) (some out)
          (invalid_argument, bytes "RaftInferSessionDiagnostics size mismatch")
      else report (clear_last_error last) out (diagnostics texts ops s)
