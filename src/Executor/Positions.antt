-- ===== src/Executor/Positions.antt =====
-- cpp/execution/qwen35_executor.cu: the position and the poison of an executor under its calls.
use raftinfer.Base.{
  ℕ, zero, suc, ◌+◌, ◌≡◌, ◌⊎◌, inl, inr, refl, ap, subst, sym, ◌∙◌, List, [], ◌∷◌, length, take,
  drop, Bool, true, false, arith, Result, ok, err, Error, Result-cases, Bool-cases, ◌==◌,
}
use raftinfer.Base.Int.{ℤ, pos}
use raftinfer.Session.Executor.{Qwen35ExecutorResult}
use raftinfer.Executor.{
  DeviceSteps, Executor, validate_request, and_then, poison_on_throw, on_device, ensure_healthy,
  run_chunk, run_chunks, enter, prefill, reset, chunk_size, has_bucket, buckets,
}

module _ {K : Type 0} where
  -- A block that returns does so at position `p`, with no poison.
  abbrev pub Ends {ℓ} : {A : Type ℓ} → Result A × Executor K → ℕ → Type 0
  Ends (ok value, s) p = (s.position ≡ p) × (s.poisoned ≡ false)
  Ends (err thrown, s) p = Unit

  -- A call that returns only without poison, and then has moved the position on by `n`; and that otherwise leaves
  -- the executor poisoned, or its position and poison as they were.
  abbrev pub Serves {ℓ} : {A : Type ℓ} → Executor K → ℕ → Result A × Executor K → Type 0
  Serves s n (ok value, s') =
      (s'.position ≡ s.position + n) × (s'.poisoned ≡ false) × (s.poisoned ≡ false)
  Serves s n (err thrown, s') =
      (s'.poisoned ≡ true) ⊎ ((s'.position ≡ s.position) × (s'.poisoned ≡ s.poisoned))

  pub and_then-Ends {ℓ κ} :
      {A : Type ℓ} {B : Type κ} (x : Result A × Executor K)
      (f : A → Executor K → Result B × Executor K) (p : ℕ)
      → ((a : A) (s : Executor K) → x ≡ (ok a, s) → Ends (f a s) p)
      → Ends (and_then x f) p
  and_then-Ends (ok a, s) f p h = h a s refl
  and_then-Ends (err thrown, s) f p h = tt

  pub poison-Serves {ℓ} :
      {A : Type ℓ} (s : Executor K) (n : ℕ) (x : Result A × Executor K)
      → s.poisoned ≡ false
      → Ends x (s.position + n)
      → Serves s n (poison_on_throw x)
  poison-Serves s n (ok value, s') healthy h = (h.0, h.1, healthy)
  poison-Serves s n (err thrown, s') healthy h = inl refl

  -- A step of the device that has returned has left the rest of the executor.
  pub on_device-same {ℓ} :
      {A : Type ℓ} (s : Executor K) (called : Result A × K) (a : A) (s' : Executor K)
      → on_device s called ≡ (ok a, s')
      → (s'.position ≡ s.position) × (s'.poisoned ≡ s.poisoned) × (s'.max_context ≡ s.max_context)
  on_device-same s called a s' h = (
    ap (λ (y : Result _ × Executor K). y.1.position) (sym h),
    ap (λ (y : Result _ × Executor K). y.1.poisoned) (sym h),
    ap (λ (y : Result _ × Executor K). y.1.max_context) (sym h),
  )

module _ {K : Type 0} (steps : DeviceSteps K) where
  -- The checks in front of a call change nothing but the device, and pass only without poison.
  pub enter-same :
      (s : Executor K) (validate : Executor K → Result (Unit {0}))
      → ((enter steps s validate).1.position ≡ s.position)
        × ((enter steps s validate).1.poisoned ≡ s.poisoned)
        × ((u : Unit {0}) → (enter steps s validate).0 ≡ ok u → s.poisoned ≡ false)
  unfolding enter ensure_healthy
  enter-same s validate = elim (Result-cases (steps.guard s.device).0) [
    | inl (e, h) ↦ rw (enter, h) (refl, refl, λ u k. cc k)
    | inr (u, h) ↦
        let s₁ = record s { device = (steps.guard s.device).1 } in
        elim (Result-cases (validate s₁)) [
          | inl (e, k) ↦ rw (enter, h, k) (refl, refl, λ u l. cc l)
          | inr (u', k) ↦ rw (enter, h, k) (refl, refl, λ u l. ground (arith, l))
        ]
  ]

  pub run_chunk-same :
      (s : Executor K) (tokens : List ℤ) (last : Bool) (at : ℕ) (r : Qwen35ExecutorResult)
      (s' : Executor K)
      → run_chunk steps s tokens last at ≡ (ok r, s')
      → (s'.position ≡ s.position) × (s'.poisoned ≡ s.poisoned) × (s'.max_context ≡ s.max_context)
  unfolding run_chunk
  run_chunk-same s tokens last at r s' h = elim (Bool-cases (has_bucket buckets (length tokens))) [
    | inl k ↦ on_device-same s (steps.launch s.device tokens last at) r s' (by_bucket k h)
    | inr k ↦ absurd (ground (arith, h, k))
  ]
    where
      by_bucket :
          has_bucket buckets (length tokens) ≡ true
          → run_chunk steps s tokens last at ≡ (ok r, s')
          → on_device s (steps.launch s.device tokens last at) ≡ (ok r, s')
      by_bucket k h = rw⁻¹ h (rw (run_chunk, k) refl)

  run_chunks-Ends :
      (fuel : ℕ) (s : Executor K) (r : Qwen35ExecutorResult) (rest : List ℤ) (at p : ℕ)
      → s.position ≡ p
      → s.poisoned ≡ false
      → Ends (run_chunks steps fuel s r rest at) p
  unfolding run_chunks
  run_chunks-Ends fuel s r [] at p stands well = (stands, well)
  run_chunks-Ends zero s r (t ∷ rest) at p stands well = (stands, well)
  run_chunks-Ends (suc fuel) s r (t ∷ rest) at p stands well =
      let tokens = t ∷ rest in
      let chunk = chunk_size (length tokens) in
      let first = run_chunk steps s (take chunk tokens) (chunk == length tokens) at in
      elim (Result-cases first.0) [
        | inl (e, h) ↦ rw (run_chunks, h) tt
        | inr (r', h) ↦
            let (position, poison, context) =
              run_chunk-same s (take chunk tokens) (chunk == length tokens) at r' first.1
                (ap (λ (x : Result Qwen35ExecutorResult). (x, first.1)) h) in
            rw (run_chunks, h)
              (run_chunks-Ends fuel first.1 r' (drop chunk tokens) (at + chunk) p
                (position ∙ stands) (poison ∙ well))
      ]

  -- `prefill` moves the position on by the number of tokens if it returns.
  pub prefill-Serves :
      (s : Executor K) (tokens : List ℤ) → Serves s (length tokens) (prefill steps s tokens)
  unfolding prefill
  prefill-Serves s tokens =
      let validate : Executor K → Result (Unit {0}) =
        λ t. validate_request t.config t.position tokens in
      let (position, poison, healthy) = enter-same s validate in
      elim (Result-cases (enter steps s validate).0) [
        | inl (e, h) ↦ rw (prefill, h) (inr (position, poison))
        | inr (u, h) ↦
            let s₁ = (enter steps s validate).1 in
            let none_yet : Qwen35ExecutorResult = record { token = pos 0; position = 0 } in
            let chunks = run_chunks steps (length tokens) s₁ none_yet tokens s₁.position in
            let at = s₁.position + length tokens in
            elim (Result-cases chunks.0) [
              | inl (e, k) ↦ rw (prefill, h, and_then, k) (inl refl)
              | inr (r, k) ↦
                  let ends =
                    subst (λ (x : Result Qwen35ExecutorResult). Ends (x, chunks.1) s₁.position) k
                      (run_chunks-Ends (length tokens) s₁ none_yet tokens s₁.position s₁.position
                        refl (poison ∙ healthy u h)) in
                  elim (Result-cases (steps.sync_position chunks.1.device at).0) [
                    | inl (e, l) ↦ rw (prefill, h, and_then, k, and_then, l) (inl refl)
                    | inr (v, l) ↦
                        rw (prefill, h, and_then, k, and_then, l)
                          (ap (λ p. p + length tokens) position, ends.1, healthy u h)
                  ]
            ]
      ]

  -- `reset` that returns is at position 0 without poison; one that throws has left both as they were.
  pub reset-position :
      (s : Executor K)
      → let c = reset steps s in
        ((c.0 ≡ ok tt) × (c.1.position ≡ 0) × (c.1.poisoned ≡ false))
        ⊎ ((e : Error) × (c.0 ≡ err e) × (c.1.position ≡ s.position) × (c.1.poisoned ≡ s.poisoned))
  unfolding reset
  reset-position s = elim (Result-cases (steps.guard s.device).0) [
    | inl (e, h) ↦ rw (reset, h) (inr (e, refl, refl, refl))
    | inr (u, h) ↦ elim (Result-cases (steps.clear (steps.guard s.device).1).0) [
      | inl (e, k) ↦ rw (reset, h, k) (inr (e, refl, refl, refl))
      | inr (v, k) ↦ rw (reset, h, k) (inl (refl, refl, refl))
    ]
  ]
