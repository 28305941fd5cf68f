-- ===== src/Session/Outcomes.antt =====
-- cpp/execution/session.cpp: Session::prefill on every branch.
use raftinfer.Base.{
  ℕ, ◌+◌, ◌≡◌, ◌⊎◌, ◌↔◌, Bool, true, false, inl, inr, refl, List, [], ◌∷◌, length, leb, ltb, none,
  some, arith, Text, bytes, Result, ok, err, Error, invalid_argument, session_unavailable,
  session_cuda, bad_alloc, ◌≢◌, Result-cases, Option-cases, throw_if, ◌>>◌,
}
use raftinfer.Base.Int.{ℤ, pos, negsuc}
use raftinfer.Model.Config.{Qwen35Config}
use raftinfer.State.Host.{Qwen35HostState}
use raftinfer.State.Host.Commit.{advance}
use raftinfer.Session.{Session, validate_request, require_tokens, room, is_empty, rethrow}
use raftinfer.Session.What.{LibraryTexts, what}
use raftinfer.Session.Executor.{Qwen35ExecutorResult, ExecutorOps}
use raftinfer.Session.Calls.{commit, prefill}
use raftinfer.Session.Steps.{IsReady, IsAllowed, validate_request-IsAllowed, commit-advance}

-- The exception is std::invalid_argument.
abbrev pub is_invalid : Error → Bool
is_invalid (invalid_argument t) = true
is_invalid _ = false

throws-is_invalid {ℓ} :
    {A : Type ℓ} (b : Bool) (t : Text) (k : Result A) (e : Error)
    → (throw_if b (invalid_argument t) >> k) ≡ err e
    → (k ≡ err e → is_invalid e ≡ true)
    → is_invalid e ≡ true
throws-is_invalid true t k e h rest = ground (arith, h)
throws-is_invalid false t k e h rest = rest h

require_tokens-is_invalid :
    (vocabulary : ℕ) (tokens : List ℤ) (e : Error)
    → require_tokens vocabulary tokens ≡ err e
    → is_invalid e ≡ true
unfolding require_tokens
require_tokens-is_invalid vocabulary [] e h = cc h
require_tokens-is_invalid vocabulary (negsuc n ∷ tokens) e h = ground (arith, h)
require_tokens-is_invalid vocabulary (pos n ∷ tokens) e h =
    throws-is_invalid (leb vocabulary n) _ (require_tokens vocabulary tokens) e h
      (require_tokens-is_invalid vocabulary tokens e)

validate_request-is_invalid :
    (config : Qwen35Config) (s : Qwen35HostState) (tokens : List ℤ) (e : Error)
    → validate_request config s tokens ≡ err e
    → is_invalid e ≡ true
unfolding validate_request
validate_request-is_invalid config s tokens e h = throws-is_invalid (is_empty tokens) _ _ e h λ h₁.
    throws-is_invalid (ltb (room s) (length tokens)) _
      (require_tokens config.vocabulary_size tokens) e h₁
      (require_tokens-is_invalid config.vocabulary_size tokens e)

module _ {E : Type 0} (texts : LibraryTexts) (ops : ExecutorOps E) (s : Session E)
    (tokens : List ℤ) where
  -- The request is refused, and the session is as before.
  abbrev pub Refused : Type 0
  Refused =
      ¬ (IsAllowed s.config s.state tokens)
      × (e : Error) × (is_invalid e ≡ true)
      × (prefill texts ops s tokens ≡ (err e, s))

  -- There is no executor, and the session is as before.
  abbrev pub Unavailable : Type 0
  Unavailable =
      IsAllowed s.config s.state tokens
      × (s.executor ≡ none)
      × (prefill texts ops s tokens ≡ (
        err (session_unavailable (bytes "Qwen3.5 prefill backend requires a CUDA-loaded model")),
        s,
      ))

  -- std::bad_alloc is passed on, and anything else becomes a SessionCudaError with its text.
  abbrev pub PassedOn : Error → Error → Type 0
  PassedOn thrown passed =
      ((thrown ≡ bad_alloc) × (passed ≡ bad_alloc))
      ⊎ ((thrown ≢ bad_alloc) × (passed ≡ session_cuda (what texts thrown)))

  rethrow-PassedOn : (thrown : Error) → PassedOn thrown (rethrow texts thrown)
  unfolding rethrow
  rethrow-PassedOn thrown = ground arith

  -- The executor throws, and only the executor has changed.
  abbrev pub Failed : Type 0
  Failed =
      IsAllowed s.config s.state tokens
      × (e : E) × (thrown : Error) × (s.executor ≡ some e)
      × ((ops.prefill e tokens).0 ≡ err thrown)
      × (passed : Error) × PassedOn thrown passed
      × (prefill texts ops s tokens
          ≡ (err passed, record s { executor = some (ops.prefill e tokens).1 }))

  -- The executor returns, and so does the call; the host state has moved on by all tokens.
  abbrev pub Done : Type 0
  Done =
      IsAllowed s.config s.state tokens
      × (e : E) × (result : Qwen35ExecutorResult) × (s.executor ≡ some e)
      × ((ops.prefill e tokens).0 ≡ ok result)
      × (prefill texts ops s tokens ≡ (
        ok (record { token_id = result.token; position = result.position }),
        record s {
          state = advance s.state (s.state.position + length tokens);
          executor = some (ops.prefill e tokens).1;
        },
      ))

  -- `prefill` on every branch, for a ready session: a request that is not allowed throws
  -- std::invalid_argument and changes nothing; without an executor it throws SessionUnavailableError
  -- and changes nothing; what the executor throws is passed on, std::bad_alloc as it is and
  -- everything else as SessionCudaError with its text, and the host state stays; what the executor returns
  -- is returned, token and position, and the host state has moved on by the number of tokens.
  pub prefill-branches : IsReady s → Refused ⊎ (Unavailable ⊎ (Failed ⊎ Done))
  unfolding prefill commit
  prefill-branches ready = elim (Result-cases (validate_request s.config s.state tokens)) [
    | inl (e, h) ↦ inl (
      λ allowed. cc (iff.1 allowed),
      e,
      validate_request-is_invalid s.config s.state tokens e h,
      rw (prefill, h) refl,
    )
    | inr (u, h) ↦ elim (Option-cases s.executor) [
      | inl h' ↦ inr (inl (iff.0 h, h', simp (prefill, h, h')))
      | inr (e, h') ↦ elim (Result-cases (ops.prefill e tokens).0) [
        | inl (thrown, h'') ↦ inr (
            inr (
              inl (
                iff.0 h,
                e,
                thrown,
                h',
                h'',
                rethrow texts thrown,
                rethrow-PassedOn thrown,
                rw (prefill, h, h', h'') refl,
              )))
        | inr (result, h'') ↦ inr (
            inr (
              inr (
                iff.0 h,
                e,
                result,
                h',
                h'',
                rw
                    (
                      prefill,
                      h,
                      h',
                      h'',
                      commit-advance texts s (length tokens) (ops.prefill e tokens).1 result ready
                          (iff.0 h).fits,
                    )
                    refl,
              )))
      ]
    ]
  ]
    where
      iff : (validate_request s.config s.state tokens ≡ ok tt) ↔ IsAllowed s.config s.state tokens
      iff = validate_request-IsAllowed s.config s.state tokens ready.valid.within ready.word
