-- ===== src/Executor/Decode.antt =====
-- decode and decode_greedy of Qwen35Executor::Impl (cpp/execution/qwen35_executor.cu), and the executor
-- as a session uses it. `can_replay` is decode_graph_variant_for with can_replay_decode_graph; `prepare`
-- captures the next graph or syncs its position.
use raftinfer.Base.{
  ℕ, ◌+◌, ◌-◌, ◌%◌, ◌^◌, List, [], ◌∷◌, length, true, false, not, Result, ok, err, executor_error,
  bytes, throw_if, ◌>>◌, ltb, leb, ◌==◌, if◌then◌else◌,
}
use raftinfer.Base.Int.{ℤ}
use raftinfer.Session.Executor.{Qwen35ExecutorResult, Qwen35ExecutionDiagnostics, ExecutorOps}
use raftinfer.Executor.{
  DeviceSteps, Executor, validate_request, and_then, poison_on_throw, on_device, run_chunk, enter,
  prefill, reset,
}

-- The last token of a span that is not empty.
abbrev last_token : ℤ → List ℤ → ℤ
last_token t [] = t
last_token t (u ∷ us) = last_token u us

-- `max_context_ - position_` is that of 64 bits.
unfoldable pub validate_decode_greedy_request :
    {K : Type 0} → Executor K → ℤ → ℕ → Result (Unit {0})
validate_decode_greedy_request s first_token token_count = do
  throw_if (token_count == 0)
      (executor_error (bytes "Qwen3.5 greedy decode output span must not be empty"))
  throw_if (not (leb token_count ((s.max_context + 2 ^ 64 - s.position) % 2 ^ 64)))
      (executor_error (bytes "Qwen3.5 request exceeds session context"))
  validate_request s.config s.position (first_token ∷ [])

module _ {K : Type 0} (steps : DeviceSteps K) where
  -- The part of decode where a graph is replayed.
  abbrev pub replayed : Executor K → ℤ → Result Qwen35ExecutorResult × Executor K
  replayed s token = and_then (on_device s (steps.replay s.device token s.position)) λ result s'. (
    ok (record { token = result; position = s.position % 2 ^ 32 }),
    record s' { position = s.position + 1 },
  )

  -- The part of decode that runs the kernels, and prepares the next graph while there is room.
  abbrev pub decoded : Executor K → ℤ → Result Qwen35ExecutorResult × Executor K
  decoded s token = and_then (run_chunk steps s (token ∷ []) true s.position) λ result s₁.
      let s₂ = record s₁ { position = s.position + 1 } in
      if ltb s₂.position s₂.max_context
      then (and_then (on_device s₂ (steps.prepare s₂.device s₂.position))
          λ done s₃. (ok result, s₃))
      else (ok result, s₂)

  unfoldable pub decode : Executor K → ℤ → Result Qwen35ExecutorResult × Executor K
  decode s token =
      and_then (enter steps s (λ t. validate_request t.config t.position (token ∷ []))) λ done s₁.
        poison_on_throw (
          and_then (on_device s₁ (steps.can_replay s₁.device s₁.position))
            λ replays s₂. if replays then replayed s₂ token else decoded s₂ token)

  -- A result, the span of output tokens, and the executor.
  abbrev pub GreedyReply : Type 0
  GreedyReply = Result Qwen35ExecutorResult × List ℤ × Executor K

  -- The whole span comes from the device at the end.
  abbrev pub replay_decode_greedy : Executor K → ℤ → List ℤ → ℕ → GreedyReply
  replay_decode_greedy s first_token output_tokens start_position =
      let called = steps.replay_greedy s.device first_token output_tokens start_position in
      let s' = record s { device = called.2 } in
      elim called.0 [
        | err thrown ↦ (err thrown, called.1, s')
        | ok done ↦ (
          ok (record {
            token = last_token first_token called.1;
            position = (start_position + length output_tokens - 1) % 2 ^ 32;
          }),
          called.1,
          record s' { position = start_position + length output_tokens },
        )
      ]

  -- The loop of decode_greedy_sequential, with the result of the token before.
  unfoldable pub decode_greedy_sequential :
      Executor K → Qwen35ExecutorResult → ℤ → List ℤ → GreedyReply
  decode_greedy_sequential s result token [] = (ok result, [], s)
  decode_greedy_sequential s result token (output ∷ outputs) =
      let step = decode s token in
      elim step.0 [
        | err thrown ↦ (err thrown, output ∷ outputs, step.1)
        | ok next ↦
            let rest = decode_greedy_sequential step.1 next next.token outputs in
            (rest.0, next.token ∷ rest.1, rest.2)
      ]

  -- Behind a first token that has been decoded.
  abbrev pub continue_greedy : Executor K → Qwen35ExecutorResult → List ℤ → ℕ → GreedyReply
  continue_greedy s first [] start_position = (ok first, [], s)
  continue_greedy s first (output ∷ outputs) start_position =
      let called = steps.can_replay s.device (start_position + 1) in
      let s' = record s { device = called.1 } in
      elim called.0 [
        | err thrown ↦ (err thrown, output ∷ outputs, s')
        | ok true ↦ replay_decode_greedy s' first.token (output ∷ outputs) (start_position + 1)
        | ok false ↦ decode_greedy_sequential s' first first.token (output ∷ outputs)
      ]

  -- `catch (...) { poisoned_ = true; throw; }`
  abbrev pub poison_greedy : GreedyReply → GreedyReply
  poison_greedy (ok result, tokens, s) = (ok result, tokens, s)
  poison_greedy (err thrown, tokens, s) = (err thrown, tokens, record s { poisoned = true })

  abbrev pub greedy_body : Executor K → ℤ → List ℤ → GreedyReply
  greedy_body s first_token [] = replay_decode_greedy s first_token [] s.position
  greedy_body s first_token (output ∷ outputs) =
      let start_position = s.position in
      let called = steps.can_replay s.device start_position in
      let s₁ = record s { device = called.1 } in
      elim called.0 [
        | err thrown ↦ (err thrown, output ∷ outputs, s₁)
        | ok true ↦ replay_decode_greedy s₁ first_token (output ∷ outputs) start_position
        | ok false ↦
            let first = decode s₁ first_token in
            elim first.0 [
              | err thrown ↦ (err thrown, output ∷ outputs, first.1)
              | ok result ↦
                  let rest = continue_greedy first.1 result outputs start_position in
                  (rest.0, result.token ∷ rest.1, rest.2)
            ]
      ]

  -- The checks refuse an empty span, so the first clause of the body is never reached.
  unfoldable pub decode_greedy : Executor K → ℤ → List ℤ → GreedyReply
  unfolding decode_greedy_sequential
  decode_greedy s first_token output_tokens =
      let entered =
        enter steps s (λ t. validate_decode_greedy_request t first_token (length output_tokens)) in
      elim entered.0 [
        | err thrown ↦ (err thrown, output_tokens, entered.1)
        | ok done ↦ poison_greedy (greedy_body entered.1 first_token output_tokens)
      ]

  -- The executor behind a session.
  unfoldable pub executor_ops : (Executor K → Qwen35ExecutionDiagnostics) → ExecutorOps (Executor K)
  executor_ops diagnostics = record {
    prefill = prefill steps;
    decode = decode;
    decode_greedy = decode_greedy;
    reset = reset steps;
    diagnostics = diagnostics;
  }
