-- ===== src/State/Host/History.antt =====
-- cpp/execution/qwen35_state.cpp: histories of commits and resets against a counter with a limit.
use mathlib.Core.Path.{ap₂}
use raftinfer.State.Layout.{Qwen35StateLayout}
use raftinfer.Base.{
  ap, ℕ, ◌+◌, ◌≤◌, ◌≡◌, refl, List, [], ◌∷◌, arith, u32_max, Result, ok, err, leb, if◌then◌else◌,
  Bool-cases, inl, inr, ◌∙◌,
}
use raftinfer.State.Host.{Qwen35HostState, commit_tokens, reset}
use raftinfer.State.Host.Commit.{IsValid, commit_tokens-advance, advance-IsValid, reset-IsValid}

pub data Event : Type 0 where
  commit : ℕ → Event
  restart : Event

-- A commit that throws leaves the state as it was.
pub after : Qwen35HostState → Result Qwen35HostState → Qwen35HostState
after s (ok t) = t
after s (err e) = s

pub step : Qwen35HostState → Event → Qwen35HostState
step s (commit n) = after s (commit_tokens s n)
step s restart = reset s

pub run : Qwen35HostState → List Event → Qwen35HostState
run s [] = s
run s (e ∷ es) = run (step s e) es

-- The specification: a position that never passes the limit.
abbrev pub count_step : ℕ → ℕ → Event → ℕ
count_step limit p (commit n) = if leb (p + n) limit then p + n else p
count_step limit p restart = 0

abbrev pub count : ℕ → ℕ → List Event → ℕ
count limit p [] = p
count limit p (e ∷ es) = count limit (count_step limit p e) es

step-count_step :
    (s : Qwen35HostState) (e : Event)
    → IsValid s
    → s.layout.max_context_tokens ≤ u32_max
    → IsValid (step s e)
      × ((step s e).layout ≡ s.layout)
      × ((step s e).position ≡ count_step s.layout.max_context_tokens s.position e)
unfolding step after
step-count_step s restart v word = let r = reset-IsValid s v in (r.0, r.2, r.1)
step-count_step s (commit n) v word =
    elim (Bool-cases (leb (s.position + n) s.layout.max_context_tokens)) [
      | inl room ↦
          rw (commit_tokens-advance s n v word, room)
            (advance-IsValid s (s.position + n) v (ground arith), refl, refl)
      | inr full ↦ rw (commit_tokens-advance s n v word, full) (v, refl, refl)
    ]

-- After any commits and resets, also commits that throw, the host state is valid on its old layout, and
-- its position is that of the counter.
pub run-count :
    (s : Qwen35HostState) (es : List Event)
    → IsValid s
    → s.layout.max_context_tokens ≤ u32_max
    → IsValid (run s es)
      × ((run s es).layout ≡ s.layout)
      × ((run s es).position ≡ count s.layout.max_context_tokens s.position es)
unfolding run
run-count s [] v word = (v, refl, refl)
run-count s (e ∷ es) v word =
    let (valid, layout, position) = step-count_step s e v word in
    let rest = run-count (step s e) es valid (rw layout word) in
    let limit : (step s e).layout.max_context_tokens ≡ s.layout.max_context_tokens =
      ap (λ (l : Qwen35StateLayout). l.max_context_tokens) layout in
    (rest.0, rest.1 ∙ layout, rest.2 ∙ ap₂ (λ m p. count m p es) limit position)
