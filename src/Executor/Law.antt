-- ===== src/Executor/Law.antt =====
-- cpp/execution/qwen35_executor.cu behind cpp/execution/session.cpp: the executor keeps the law of positions.
use raftinfer.Base.{
  ℕ, ◌≡◌, ◌⊎◌, inl, inr, List, Bool, true, false, some, Result, ok, err, Error, length,
}
use raftinfer.Session.{Session}
use raftinfer.Session.What.{LibraryTexts}
use raftinfer.Session.Executor.{Qwen35ExecutionDiagnostics}
use raftinfer.Session.Steps.{IsReady}
use raftinfer.Session.History.{Request, serve_all}
use raftinfer.Session.Agree.{PositionLaw, Keeps, Restarts, behind, before, serve_all-Agrees}
use raftinfer.Executor.{DeviceSteps, Executor, reset}
use raftinfer.Executor.Positions.{Serves, prefill-Serves, reset-position}
use raftinfer.Executor.Greedy.{decode-Serves, decode_greedy-Serves}
use raftinfer.Executor.Decode.{executor_ops}

module _ {K : Type 0} where
  abbrev position_of : Executor K → ℕ
  position_of s = s.position

  abbrev poison_of : Executor K → Bool
  poison_of s = s.poisoned

  Serves-Keeps {ℓ} :
      {A : Type ℓ} (s : Executor K) (n : ℕ) (x : Result A × Executor K)
      → Serves s n x
      → Keeps position_of poison_of s n x
  Serves-Keeps s n (ok value, s') h = h
  Serves-Keeps s n (err thrown, s') h = h

module _ {K : Type 0} (steps : DeviceSteps K) where
  reset-Restarts : (s : Executor K) → Restarts position_of poison_of s (reset steps s)
  reset-Restarts s = by_outcome (reset steps s) (reset-position steps s)
    where
      by_outcome :
          (c : Result (Unit {0}) × Executor K)
          → ((c.0 ≡ ok tt) × (c.1.position ≡ 0) × (c.1.poisoned ≡ false))
            ⊎ ((e : Error) × (c.0 ≡ err e)
                × (c.1.position ≡ s.position)
                × (c.1.poisoned ≡ s.poisoned))
          → Restarts position_of poison_of s c
      by_outcome (ok u, s') (inl (h, start, fine)) = (start, fine)
      by_outcome (ok u, s') (inr (e, h, position, same)) = cc h
      by_outcome (err e, s') (inl (h, start, fine)) = cc h
      by_outcome (err e, s') (inr (e', h, position, same)) = (position, same)

  pub executor_law :
      (diagnostics : Executor K → Qwen35ExecutionDiagnostics)
      → PositionLaw (executor_ops steps diagnostics)
  unfolding executor_ops
  executor_law diagnostics = record {
    position = position_of;
    poisoned = poison_of;
    prefill_law = λ e tokens. Serves-Keeps e (length tokens) _ (prefill-Serves steps e tokens);
    decode_law = λ e t. Serves-Keeps e 1 _ (decode-Serves steps e t);
    greedy_law =
        λ e t outputs. Serves-Keeps e (length outputs) _ (decode_greedy-Serves steps e t outputs);
    reset_law = reset-Restarts;
  }

  -- Whatever the device does, after any sequence of requests to a ready session whose host state stands where its
  -- executor stands, the executor is poisoned, or it still stands at the position of the host state.
  pub serve_all-position :
      (texts : LibraryTexts) (diagnostics : Executor K → Qwen35ExecutionDiagnostics)
      (s : Session (Executor K)) (e : Executor K) (rs : List Request)
      → IsReady s
      → s.executor ≡ some e
      → e.position ≡ s.state.position
      → (e' : Executor K)
      → (serve_all texts (executor_ops steps diagnostics) s rs).1.executor ≡ some e'
      → (e'.poisoned ≡ true)
        ⊎ (e'.position ≡ (serve_all texts (executor_ops steps diagnostics) s rs).1.state.position)
  unfolding executor_law
  serve_all-position texts diagnostics s e rs ready here stands e' there =
      let law = executor_law diagnostics in
      behind texts law (serve_all texts (executor_ops steps diagnostics) s rs).1 there
        (serve_all-Agrees texts law s rs ready (before texts law s here (inr stands)))
