-- ===== src/Session/Moves.antt =====
-- cpp/execution/session.cpp: each call of a session moves the host state on or leaves it.
use raftinfer.Base.{
  ℕ, ◌+◌, ◌≤◌, ◌≡◌, inl, inr, refl, List, [], ◌∷◌, length, Bool, true, false, Option, some, arith,
  Result, ok, err, ltb, if◌then◌else◌, Bool-cases, Option-cases, ap, Result-cases,
}
use raftinfer.Base.Int.{ℤ}
use raftinfer.State.Host
use raftinfer.State.Host.{Qwen35HostState}
use raftinfer.State.Host.Commit.{advance, advance-IsValid, reset-IsValid}
use raftinfer.Session.{Session, validate_request, room, is_empty}
use raftinfer.Session.What.{LibraryTexts}
use raftinfer.Session.Executor.{Qwen35ExecutorResult, ExecutorOps}
use raftinfer.Session.Calls.{commit, finish, prefill, decode, decode_greedy, reset}
use raftinfer.Session.Steps.{IsReady, validate_request-IsAllowed, commit-advance, room-minus}

abbrev pub returned {ℓ} : {A : Type ℓ} → Result A → Bool
returned (ok value) = true
returned (err thrown) = false

-- What a call does to the host state: it moves on by `n` if it returns, else it stays.
abbrev pub Moves : {E : Type 0} → Session E → Session E → ℕ → Bool → Type 0
Moves s s' n true =
    (s'.state ≡ advance s.state (s.state.position + n))
    × (s.state.position + n ≤ s.state.layout.max_context_tokens)
Moves s s' n false = s'.state ≡ s.state

pub moved :
    {E : Type 0} (s s' : Session E) (n : ℕ) (b : Bool)
    → IsReady s
    → Moves s s' n b
    → IsReady s'
      × (s'.state.layout ≡ s.state.layout)
      × (s'.state.position ≡ (if b then s.state.position + n else s.state.position))
moved s s' n true ready (e, fits) = (
  record {
    valid = rw e (advance-IsValid s.state (s.state.position + n) ready.valid fits);
    word = rw e ready.word;
  },
  ap (λ (h : Qwen35HostState). h.layout) e,
  ap (λ (h : Qwen35HostState). h.position) e,
)
moved s s' n false ready e = (
  record { valid = rw e ready.valid; word = rw e ready.word },
  ap (λ (h : Qwen35HostState). h.layout) e,
  ap (λ (h : Qwen35HostState). h.position) e,
)

module _ {E : Type 0} (texts : LibraryTexts) where
  commit-Moves {ℓ} :
      {A : Type ℓ} (s : Session E) (count : ℕ) (e : E) (r : Result A)
      → IsReady s
      → s.state.position + count ≤ s.state.layout.max_context_tokens
      → Moves s (commit texts s count e r).1 count (returned (commit texts s count e r).0)
  unfolding commit
  commit-Moves s count e (err thrown) ready fits = refl
  commit-Moves s count e (ok value) ready fits =
      rw (commit-advance texts s count e value ready fits) (refl, fits)

  finish-Moves :
      (s : Session E) (count : ℕ) (c : Result Qwen35ExecutorResult × Session E)
      → Moves s c.1 count (returned c.0)
      → Moves s (finish texts c).1 count (returned (finish texts c).0)
  finish-Moves s count (ok value, s') h = h
  finish-Moves s count (err thrown, s') h = h

  module _ (ops : ExecutorOps E) where
    pub prefill-Moves :
        (s : Session E) (tokens : List ℤ)
        → IsReady s
        → let c = prefill texts ops s tokens in Moves s c.1 (length tokens) (returned c.0)
    unfolding prefill
    prefill-Moves s tokens ready = elim (Result-cases (validate_request s.config s.state tokens)) [
      | inl (e, h) ↦ rw (prefill, h) refl
      | inr (u, h) ↦ elim (Option-cases s.executor) [
        | inl h' ↦ rw (prefill, h, h') refl
        | inr (e, h') ↦
            let called = ops.prefill e tokens in
            rw (prefill, h, h')
              (finish-Moves s (length tokens) (commit texts s (length tokens) called.1 called.0) (
                commit-Moves s (length tokens) called.1 called.0 ready
                  ((validate_request-IsAllowed s.config s.state tokens ready.valid.within
                      ready.word).0
                    h).fits))
      ]
    ]

    pub decode-Moves :
        (s : Session E) (t : ℤ)
        → IsReady s
        → let c = decode texts ops s t in Moves s c.1 1 (returned c.0)
    unfolding decode
    decode-Moves s t ready = elim (Result-cases (validate_request s.config s.state (t ∷ []))) [
      | inl (e, h) ↦ rw (decode, h) refl
      | inr (u, h) ↦ elim (Option-cases s.executor) [
        | inl h' ↦ rw (decode, h, h') refl
        | inr (e, h') ↦
            let called = ops.decode e t in
            rw (decode, h, h')
              (finish-Moves s 1 (commit texts s 1 called.1 called.0) (
                commit-Moves s 1 called.1 called.0 ready
                  ((validate_request-IsAllowed s.config s.state (t ∷ []) ready.valid.within
                      ready.word).0
                    h).fits))
      ]
    ]

    pub decode_greedy-Moves :
        (s : Session E) (t : ℤ) (out : List ℤ)
        → IsReady s
        → let c = decode_greedy texts ops s t out in Moves s c.2 (length out) (returned c.0)
    unfolding decode_greedy
    decode_greedy-Moves s t out ready = elim (Bool-cases (is_empty out)) [
      | inl h₀ ↦ rw (decode_greedy, h₀) refl
      | inr h₀ ↦ elim (Bool-cases (ltb (room s.state) (length out))) [
        | inl h₁ ↦ rw (decode_greedy, h₀, h₁) refl
        | inr h₁ ↦ elim (Result-cases (validate_request s.config s.state (t ∷ []))) [
          | inl (e, h) ↦ rw (decode_greedy, h₀, h₁, h) refl
          | inr (u, h) ↦ elim (Option-cases s.executor) [
            | inl h' ↦ rw (decode_greedy, h₀, h₁, h, h') refl
            | inr (e, h') ↦
                let called = ops.decode_greedy e t out in
                let minus = room-minus s.state ready.valid.within ready.word in
                let fits : s.state.position + length out ≤ s.state.layout.max_context_tokens =
                  ground (arith, minus, h₁, ready.valid.within) in
                rw (decode_greedy, h₀, h₁, h, h')
                  (finish-Moves s (length out) (commit texts s (length out) called.2 called.0)
                    (commit-Moves s (length out) called.2 called.0 ready fits))
          ]
        ]
      ]
    ]

    pub reset-position :
        (s : Session E)
        → IsReady s
        → let c = reset texts ops s in
          IsReady c.1
          × (c.1.state.layout ≡ s.state.layout)
          × (c.1.state.position ≡ (if returned c.0 then 0 else s.state.position))
    unfolding reset
    reset-position s ready =
        let r = reset-IsValid s.state ready.valid in
        let fresh : (e : Option E)
            → IsReady (record s { state = Host.reset s.state; executor = e }) =
          λ e. record { valid = r.0; word = rw r.2 ready.word } in
        elim (Option-cases s.executor) [
          | inl h ↦ rw (reset, h) (fresh s.executor, r.2, r.1)
          | inr (e, h) ↦ elim (Result-cases (ops.reset e).0) [
            | inl (thrown, h') ↦
                rw (reset, h, h') (record { valid = ready.valid; word = ready.word }, refl, refl)
            | inr (u, h') ↦ rw (reset, h, h') (fresh (some (ops.reset e).1), r.2, r.1)
          ]
        ]
