-- ===== src/Api/Statuses.antt =====
-- The statuses of raftinfer_session_prefill and raftinfer_session_create in cpp/src/c_api.cpp.
use raftinfer.Base.{
  ℕ, ◌+◌, ◌<◌, ◌≡◌, ◌⊎◌, inl, inr, refl, List, length, true, false, none, some, arith, Text, Error,
  bad_alloc, session_cuda, ok, err, ◌≢◌, ◌==◌, Bool-cases,
}
use raftinfer.Base.Int.{ℤ}
use raftinfer.State.Host.Commit.{advance}
use raftinfer.Session.{Session, SessionTokenResult}
use raftinfer.Session.What.{LibraryTexts, what}
use raftinfer.Session.Executor.{ExecutorOps, Qwen35ExecutorResult}
use raftinfer.Session.Steps.{IsReady, IsAllowed}
use raftinfer.Session.Outcomes.{is_invalid, PassedOn, prefill-branches}
use raftinfer.Api.LastError.{
  RaftInferStatusCode, invalid_argument, unavailable, cuda_error, resource_exhausted, fail,
}
use raftinfer.Api.Sessions.{Reply, success, call_catch, answer, raftinfer_session_prefill}

module _ (texts : LibraryTexts) where
  call_catch-invalid :
      (memory : Text) (e : Error)
      → is_invalid e ≡ true
      → (call_catch texts memory e).0 ≡ invalid_argument
  unfolding call_catch
  call_catch-invalid memory e h = ground (arith, h)

  call_catch-bad_alloc :
      (memory : Text) (e : Error)
      → e ≡ bad_alloc
      → (call_catch texts memory e).0 ≡ resource_exhausted
  unfolding call_catch
  call_catch-bad_alloc memory e h = ground (arith, h)

  call_catch-session_cuda :
      (memory t : Text) (e : Error)
      → e ≡ session_cuda t
      → (call_catch texts memory e).0 ≡ cuda_error
  unfolding call_catch
  call_catch-session_cuda memory t e h = ground (arith, h)

  -- The status of an exception of the executor.
  abbrev pub StatusOf : Error → RaftInferStatusCode → Type 0
  StatusOf thrown code =
      ((thrown ≡ bad_alloc) × (code ≡ resource_exhausted))
      ⊎ ((thrown ≢ bad_alloc) × (code ≡ cuda_error))

  PassedOn-StatusOf :
      {E : Type 0} (ops : ExecutorOps E) (s : Session E) (tokens : List ℤ) (memory : Text)
      (thrown passed : Error)
      → PassedOn texts ops s tokens thrown passed
      → StatusOf thrown (call_catch texts memory passed).0
  PassedOn-StatusOf ops s tokens memory thrown passed (inl (same, is_same)) =
      inl (same, call_catch-bad_alloc memory passed is_same)
  PassedOn-StatusOf ops s tokens memory thrown passed (inr (other, is_cuda)) =
      inr (other, call_catch-session_cuda memory (what texts thrown) passed is_cuda)

module _ {E : Type 0} (texts : LibraryTexts) (ops : ExecutorOps E) (s : Session E) (tokens : List ℤ)
    (r : Reply E SessionTokenResult) where
  abbrev pub Invalid : Type 0
  Invalid =
      ¬ (IsAllowed s.config s.state tokens)
      × (r.status.code ≡ invalid_argument)
      × (r.result ≡ none)
      × (r.session ≡ some s)

  abbrev pub NoExecutor : Type 0
  NoExecutor =
      IsAllowed s.config s.state tokens
      × (s.executor ≡ none)
      × (r.status.code ≡ unavailable)
      × (r.result ≡ none)
      × (r.session ≡ some s)

  -- The session's executor has been called with the tokens, and has thrown.
  abbrev pub Threw : Type 0
  Threw =
      IsAllowed s.config s.state tokens
      × (e : E) × (thrown : Error) × (s.executor ≡ some e)
      × ((ops.prefill e tokens).0 ≡ err thrown)
      × StatusOf texts thrown r.status.code
      × (r.result ≡ none)
      × (r.session ≡ some (record s { executor = some (ops.prefill e tokens).1 }))

  -- The session's executor has been called with the tokens, and has returned.
  abbrev pub Returned : Type 0
  Returned =
      IsAllowed s.config s.state tokens
      × (e : E) × (value : Qwen35ExecutorResult) × (s.executor ≡ some e)
      × ((ops.prefill e tokens).0 ≡ ok value)
      × (r.status ≡ success)
      × (r.result ≡ some (record { token_id = value.token; position = value.position }))
      × (r.session
          ≡ some (record s {
            state = advance s.state (s.state.position + length tokens);
            executor = some (ops.prefill e tokens).1;
          }))

is_zero_length {ℓ} : {A : Type ℓ} (xs : List A) → (length xs == 0) ≡ false → 0 < length xs
is_zero_length xs h = ground (arith, h)

module _ {E : Type 0} (texts : LibraryTexts) (ops : ExecutorOps E) (last : List ℕ) (s : Session E)
    (tokens : List ℤ) where
  -- With all its pointers given, `raftinfer_session_prefill` on a ready session replies in one
  -- of four ways: INVALID_ARGUMENT for a request that is not allowed, with nothing changed;
  -- UNAVAILABLE for a session without an executor, with nothing changed; where its executor throws on these
  -- tokens, RESOURCE_EXHAUSTED for std::bad_alloc and CUDA_ERROR for anything else, with no result and
  -- only the executor changed; or OK where its executor returns, with the token and position that it returns, the
  -- host state moved on by the number of tokens, and the executor as the call has left it.
  pub raftinfer_session_prefill-statuses :
      IsReady s
      → let r = raftinfer_session_prefill texts ops last (some s) (some tokens) true in
        Invalid texts ops s tokens r
        ⊎ (NoExecutor texts ops s tokens r
            ⊎ (Threw texts ops s tokens r ⊎ Returned texts ops s tokens r))
  unfolding raftinfer_session_prefill answer fail call_catch
  raftinfer_session_prefill-statuses ready = elim (Bool-cases (length tokens == 0)) [
    | inl empty ↦ inl (
        rw (raftinfer_session_prefill, empty)
          (λ allowed. ground (arith, empty, allowed.some_tokens), refl, refl, refl))
    | inr filled ↦ elim (prefill-branches texts ops s tokens ready) [
      | inl (refused, e, invalid, same) ↦ inl (
          rw (raftinfer_session_prefill, filled, same)
            (refused, call_catch-invalid texts _ e invalid, refl, refl))
      | inr (inl (allowed, missing, same)) ↦
          inr (
            inl (rw (raftinfer_session_prefill, filled, same) (allowed, missing, refl, refl, refl)))
      | inr (inr (inl (allowed, e, thrown, here, threw, passed, passed_on, same))) ↦ inr (
          inr (
            inl (
              rw (raftinfer_session_prefill, filled, same)
                (
                  allowed,
                  e,
                  thrown,
                  here,
                  threw,
                  PassedOn-StatusOf texts ops s tokens _ thrown passed passed_on,
                  refl,
                  refl,
                ))))
      | inr (inr (inr (allowed, e, value, here, returned, same))) ↦ inr (
          inr (
            inr (
              rw (raftinfer_session_prefill, filled, same)
                (allowed, e, value, here, returned, refl, refl, refl))))
    ]
  ]
