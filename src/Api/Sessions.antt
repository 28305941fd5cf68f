-- ===== src/Api/Sessions.antt =====
-- The functions raftinfer_session_* of cpp/src/c_api.cpp. A null pointer is none; a non-null pointer to
-- tokens has as many of them as the caller says. `catch (...)` takes only what is no std::exception, and
-- the library throws no such thing.
use raftinfer.Base.{
  ℕ, List, length, Bool, not, Option, none, some, ◌==◌, if◌then◌else◌, Text, bytes, Result, ok, err,
  Error,
}
use raftinfer.Base.Int.{ℤ}
use raftinfer.Session.{Session, SessionTokenResult}
use raftinfer.Session.What.{LibraryTexts, what}
use raftinfer.Session.Executor.{ExecutorOps}
use raftinfer.Session.Calls.{prefill, decode, decode_greedy, reset}
use raftinfer.Api.LastError.{
  RaftInferStatusCode, status_ok, invalid_argument, unavailable, cuda_error, internal,
  resource_exhausted, RaftInferStatus, null, fail, clear_last_error,
}

abbrev pub success : RaftInferStatus
success = record { code = status_ok; message = null }

-- What a call leaves: its status, the buffer of the last error, the session behind the handle, and what it
-- has written to `out_result`, if anything.
pub record Reply (E A : Type 0) : Type 0 where
  pub status : RaftInferStatus
  pub last_error : List ℕ
  pub session : Option (Session E)
  pub result : Option A

abbrev pub failed :
    {E A : Type 0} → List ℕ → Option (Session E) → RaftInferStatusCode × Text → Reply E A
failed buffer session (code, message) =
    let f = fail code message buffer in
    record { status = f.0; last_error = f.1; session = session; result = none }

-- The handlers of raftinfer_session_prefill, decode and decode_greedy, which differ in one message.
unfoldable pub call_catch : LibraryTexts → Text → Error → RaftInferStatusCode × Text
call_catch texts memory (Error.invalid_argument t) = (invalid_argument, t)
call_catch texts memory (Error.session_unavailable t) = (unavailable, t)
call_catch texts memory (Error.session_cuda t) = (cuda_error, t)
call_catch texts memory Error.bad_alloc = (resource_exhausted, memory)
call_catch texts memory e = (internal, what texts e)

unfoldable pub reset_catch : LibraryTexts → Error → RaftInferStatusCode × Text
reset_catch texts (Error.session_cuda t) = (cuda_error, t)
reset_catch texts e = (internal, what texts e)

module _ {E A : Type 0} where
  unfoldable pub answer :
      (Error → RaftInferStatusCode × Text) → List ℕ → Result A × Session E → Reply E A
  answer handlers buffer (ok result, s) = record {
    status = success;
    last_error = buffer;
    session = some s;
    result = some result;
  }
  answer handlers buffer (err e, s) = failed buffer (some s) (handlers e)

module _ {E : Type 0} (texts : LibraryTexts) (ops : ExecutorOps E) where
  -- The return statements with `fail`, in front of the session's call.
  abbrev pub invalid : {A : Type 0} → List ℕ → Option (Session E) → Text → Reply E A
  invalid last session message = failed (clear_last_error last) session (invalid_argument, message)

  abbrev prefill_missing : Text
  prefill_missing = bytes "session, tokens, and out_result are required"

  -- `out` says whether `out_result` is not null.
  unfoldable pub raftinfer_session_prefill :
      List ℕ → Option (Session E) → Option (List ℤ) → Bool → Reply E SessionTokenResult
  raftinfer_session_prefill last none tokens out = invalid last none prefill_missing
  raftinfer_session_prefill last (some s) none out = invalid last (some s) prefill_missing
  raftinfer_session_prefill last (some s) (some tokens) out =
      if not out
      then invalid last (some s) prefill_missing
      else if length tokens == 0
      then invalid last (some s) (bytes "prefill token_count must be non-zero")
      else answer (call_catch texts (bytes "prefill exhausted host memory")) (clear_last_error last)
          (prefill texts ops s tokens)

  unfoldable pub raftinfer_session_decode :
      List ℕ → Option (Session E) → ℤ → Bool → Reply E SessionTokenResult
  raftinfer_session_decode last none token out =
      invalid last none (bytes "session and out_result are required")
  raftinfer_session_decode last (some s) token out =
      if not out
      then invalid last (some s) (bytes "session and out_result are required")
      else answer (call_catch texts (bytes "decode exhausted host memory")) (clear_last_error last)
          (decode texts ops s token)

  abbrev greedy_missing : Text
  greedy_missing = bytes "session, out_token_ids, and out_result are required"

  abbrev answer_greedy :
      List ℕ
      → Result SessionTokenResult × List ℤ × Session E
      → Reply E SessionTokenResult × Option (List ℤ)
  answer_greedy buffer (result, tokens, s) = (
    answer (call_catch texts (bytes "decode exhausted host memory")) buffer (result, s),
    some tokens,
  )

  -- Beside the reply stands what `out_token_ids` holds afterwards.
  unfoldable pub raftinfer_session_decode_greedy :
      List ℕ
      → Option (Session E)
      → ℤ
      → Option (List ℤ)
      → Bool
      → Reply E SessionTokenResult × Option (List ℤ)
  raftinfer_session_decode_greedy last none token tokens out =
      (invalid last none greedy_missing, tokens)
  raftinfer_session_decode_greedy last (some s) token none out =
      (invalid last (some s) greedy_missing, none)
  raftinfer_session_decode_greedy last (some s) token (some tokens) out =
      if not out
      then (invalid last (some s) greedy_missing, some tokens)
      else if length tokens == 0
      then (invalid last (some s) (bytes "decode token_count must be non-zero"), some tokens)
      else answer_greedy (clear_last_error last) (decode_greedy texts ops s token tokens)

  unfoldable pub raftinfer_session_reset : List ℕ → Option (Session E) → Reply E (Unit {0})
  raftinfer_session_reset last none = invalid last none (bytes "session is required")
  raftinfer_session_reset last (some s) =
      answer (reset_catch texts) (clear_last_error last) (reset texts ops s)
