-- ===== src/Executor/Greedy.antt =====
-- cpp/execution/qwen35_executor.cu: the position of an executor under decode and decode_greedy.
use raftinfer.Base.{
  ℕ, ◌+◌, ◌≡◌, inl, inr, refl, ap, subst, ◌∙◌, List, [], ◌∷◌, length, true, false, arith, Result,
  ok, err, Result-cases, Bool-cases, ltb,
}
use raftinfer.Base.Int.{ℤ}
use raftinfer.Session.Executor.{Qwen35ExecutorResult}
use raftinfer.Executor.{DeviceSteps, Executor, validate_request, and_then, run_chunk, enter}
use raftinfer.Executor.Positions.{Ends, Serves, poison-Serves, enter-same, run_chunk-same}
use raftinfer.Executor.Decode.{
  decode, decode_greedy, decode_greedy_sequential, validate_decode_greedy_request, replayed,
  decoded, replay_decode_greedy, continue_greedy, greedy_body, poison_greedy, GreedyReply,
}

module _ {K : Type 0} (steps : DeviceSteps K) where
  replayed-Ends :
      (s : Executor K) (t : ℤ) → s.poisoned ≡ false → Ends (replayed steps s t) (s.position + 1)
  replayed-Ends s t well = elim (Result-cases (steps.replay s.device t s.position).0) [
    | inl (e, h) ↦ rw (replayed, h) tt
    | inr (r, h) ↦ rw (replayed, h) (refl, well)
  ]

  decoded-Ends :
      (s : Executor K) (t : ℤ) → s.poisoned ≡ false → Ends (decoded steps s t) (s.position + 1)
  decoded-Ends s t well =
      let ran = run_chunk steps s (t ∷ []) true s.position in
      elim (Result-cases ran.0) [
        | inl (e, h) ↦ rw (decoded, h) tt
        | inr (r, h) ↦
            let (position, poison, context) =
              run_chunk-same steps s (t ∷ []) true s.position r ran.1
                (ap (λ (x : Result Qwen35ExecutorResult). (x, ran.1)) h) in
            elim (Bool-cases (ltb (s.position + 1) ran.1.max_context)) [
              | inr k ↦ rw (decoded, h, and_then, k) (refl, poison ∙ well)
              | inl k ↦ elim (Result-cases (steps.prepare ran.1.device (s.position + 1)).0) [
                | inl (e, l) ↦ rw (decoded, h, and_then, k, l) tt
                | inr (u, l) ↦ rw (decoded, h, and_then, k, l) (refl, poison ∙ well)
              ]
            ]
      ]

  -- `decode` moves the position on by one if it returns.
  pub decode-Serves : (s : Executor K) (t : ℤ) → Serves s 1 (decode steps s t)
  unfolding decode
  decode-Serves s t =
      let validate : Executor K → Result (Unit {0}) =
        λ x. validate_request x.config x.position (t ∷ []) in
      let (position, poison, healthy) = enter-same steps s validate in
      elim (Result-cases (enter steps s validate).0) [
        | inl (e, h) ↦ rw (decode, h) (inr (position, poison))
        | inr (u, h) ↦
            let s₁ = (enter steps s validate).1 in
            let asked = steps.can_replay s₁.device s₁.position in
            let s₂ : Executor K = record s₁ { device = asked.1 } in
            let well = poison ∙ healthy u h in
            elim (Result-cases asked.0) [
              | inl (e, k) ↦ rw (decode, h, and_then, k) (inl refl)
              | inr (true, k) ↦
                  rw (decode, h, and_then, k)
                    (poison-Serves s 1 (replayed steps s₂ t) (healthy u h) (
                      subst (λ p. Ends (replayed steps s₂ t) (p + 1)) position
                        (replayed-Ends s₂ t well)))
              | inr (false, k) ↦
                  rw (decode, h, and_then, k)
                    (poison-Serves s 1 (decoded steps s₂ t) (healthy u h) (
                      subst (λ p. Ends (decoded steps s₂ t) (p + 1)) position
                        (decoded-Ends s₂ t well)))
            ]
      ]

  -- A call of decode that has returned.
  decode-returned :
      (s : Executor K) (t : ℤ) (r : Qwen35ExecutorResult)
      → (decode steps s t).0 ≡ ok r
      → ((decode steps s t).1.position ≡ s.position + 1) × ((decode steps s t).1.poisoned ≡ false)
  decode-returned s t r h =
      let served =
        subst (λ (x : Result Qwen35ExecutorResult). Serves s 1 (x, (decode steps s t).1)) h
          (decode-Serves s t) in
      (served.0, served.1)

  decode_greedy_sequential-Ends :
      (s : Executor K) (r : Qwen35ExecutorResult) (t : ℤ) (outputs : List ℤ)
      → s.poisoned ≡ false
      → let c = decode_greedy_sequential steps s r t outputs in
        Ends (c.0, c.2) (s.position + length outputs)
  unfolding decode_greedy_sequential
  decode_greedy_sequential-Ends s r t [] well = (omega arith, well)
  decode_greedy_sequential-Ends s r t (o ∷ outputs) well =
      let step = decode steps s t in
      elim (Result-cases step.0) [
        | inl (e, h) ↦ rw (decode_greedy_sequential, h) tt
        | inr (next, h) ↦
            let (position, poison) = decode-returned s t next h in
            let rest = decode_greedy_sequential steps step.1 next next.token outputs in
            let there : step.1.position + length outputs ≡ s.position + length (o ∷ outputs) =
              omega (arith, position) in
            rw (decode_greedy_sequential, h)
              (subst (λ p. Ends (rest.0, rest.2) p) there
                (decode_greedy_sequential-Ends step.1 next next.token outputs poison))
      ]

  replay-Ends :
      (s : Executor K) (t : ℤ) (outputs : List ℤ) (start : ℕ)
      → s.poisoned ≡ false
      → let c = replay_decode_greedy steps s t outputs start in
        Ends (c.0, c.2) (start + length outputs)
  replay-Ends s t outputs start well =
      elim (Result-cases (steps.replay_greedy s.device t outputs start).0) [
        | inl (e, h) ↦ rw (replay_decode_greedy, h) tt
        | inr (u, h) ↦ rw (replay_decode_greedy, h) (refl, well)
      ]

  continue_greedy-Ends :
      (s : Executor K) (r : Qwen35ExecutorResult) (outputs : List ℤ) (start : ℕ)
      → s.poisoned ≡ false
      → s.position ≡ start + 1
      → let c = continue_greedy steps s r outputs start in
        Ends (c.0, c.2) (start + 1 + length outputs)
  continue_greedy-Ends s r [] start well here = (omega (arith, here), well)
  continue_greedy-Ends s r (o ∷ outputs) start well here =
      let asked = steps.can_replay s.device (start + 1) in
      let s' : Executor K = record s { device = asked.1 } in
      elim (Result-cases asked.0) [
        | inl (e, h) ↦ rw (continue_greedy, h) tt
        | inr (true, h) ↦
            rw (continue_greedy, h) (replay-Ends s' r.token (o ∷ outputs) (start + 1) well)
        | inr (false, h) ↦
            let c = decode_greedy_sequential steps s' r r.token (o ∷ outputs) in
            rw (continue_greedy, h)
              (subst (λ p. Ends (c.0, c.2) (p + length (o ∷ outputs))) here
                (decode_greedy_sequential-Ends s' r r.token (o ∷ outputs) well))
      ]

  greedy_body-Ends :
      (s : Executor K) (t : ℤ) (outputs : List ℤ)
      → s.poisoned ≡ false
      → let c = greedy_body steps s t outputs in Ends (c.0, c.2) (s.position + length outputs)
  greedy_body-Ends s t [] well = replay-Ends s t [] s.position well
  greedy_body-Ends s t (o ∷ outputs) well =
      let asked = steps.can_replay s.device s.position in
      let s₁ : Executor K = record s { device = asked.1 } in
      elim (Result-cases asked.0) [
        | inl (e, h) ↦ rw (greedy_body, h) tt
        | inr (true, h) ↦ rw (greedy_body, h) (replay-Ends s₁ t (o ∷ outputs) s.position well)
        | inr (false, h) ↦ elim (Result-cases (decode steps s₁ t).0) [
          | inl (e, k) ↦ rw (greedy_body, h, k) tt
          | inr (r, k) ↦
              let (position, poison) = decode-returned s₁ t r k in
              let c = continue_greedy steps (decode steps s₁ t).1 r outputs s.position in
              let there : s.position + 1 + length outputs ≡ s.position + length (o ∷ outputs) =
                omega arith in
              rw (greedy_body, h, k)
                (subst (λ p. Ends (c.0, c.2) p) there
                  (continue_greedy-Ends (decode steps s₁ t).1 r outputs s.position poison position))
        ]
      ]

  poison_greedy-Serves :
      (s : Executor K) (n : ℕ) (c : GreedyReply steps)
      → s.poisoned ≡ false
      → Ends (c.0, c.2) (s.position + n)
      → Serves s n ((poison_greedy steps c).0, (poison_greedy steps c).2)
  poison_greedy-Serves s n (ok r, outputs, s') healthy h = (h.0, h.1, healthy)
  poison_greedy-Serves s n (err e, outputs, s') healthy h = inl refl

  -- `decode_greedy` moves the position on by the length of the span if it returns.
  pub decode_greedy-Serves :
      (s : Executor K) (t : ℤ) (outputs : List ℤ)
      → let c = decode_greedy steps s t outputs in Serves s (length outputs) (c.0, c.2)
  unfolding decode_greedy
  decode_greedy-Serves s t outputs =
      let validate : Executor K → Result (Unit {0}) =
        λ x. validate_decode_greedy_request x t (length outputs) in
      let (position, poison, healthy) = enter-same steps s validate in
      elim (Result-cases (enter steps s validate).0) [
        | inl (e, h) ↦ rw (decode_greedy, h) (inr (position, poison))
        | inr (u, h) ↦
            let s₁ = (enter steps s validate).1 in
            let c = greedy_body steps s₁ t outputs in
            rw (decode_greedy, h)
              (poison_greedy-Serves s (length outputs) c (healthy u h) (
                subst (λ p. Ends (c.0, c.2) (p + length outputs)) position
                  (greedy_body-Ends s₁ t outputs (poison ∙ healthy u h))))
      ]
