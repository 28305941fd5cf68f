-- ===== src/Session/Agree.antt =====
-- cpp/execution/session.cpp and qwen35_executor.cu: the position of a session against that of its executor,
-- for any executor that keeps the law of positions.
use raftinfer.Base.{
  ℕ, ◌+◌, ◌≤◌, ◌≡◌, ◌⊎◌, inl, inr, ap, subst, sym, ◌∙◌, List, [], ◌∷◌, length, Bool, true, false,
  Option, none, some, Result, ok, err, Error, Result-cases, Option-cases, Bool-cases, ltb, arith,
}
use raftinfer.Base.Int.{ℤ}
use raftinfer.State.Host
use raftinfer.Session.{Session, validate_request, room, is_empty}
use raftinfer.Session.What.{LibraryTexts}
use raftinfer.Session.Executor.{Qwen35ExecutorResult, ExecutorOps}
use raftinfer.Session.Steps.{IsReady, validate_request-IsAllowed, commit-advance, room-minus}
use raftinfer.Session.History.{
  Request, prompt, token, greedy, restart, serve, serve_all, serve-Serves,
}
use raftinfer.Session.Calls.{commit, finish, prefill, decode, decode_greedy, reset}

-- What a call leaves behind that moves the position on by `n` when it returns, which it does only without
-- poison.
abbrev pub Keeps {ℓ} :
    {E : Type 0} {A : Type ℓ} → (E → ℕ) → (E → Bool) → E → ℕ → Result A × E → Type 0
Keeps position poisoned e n (ok value, e') =
    (position e' ≡ position e + n) × (poisoned e' ≡ false) × (poisoned e ≡ false)
Keeps position poisoned e n (err thrown, e') =
    (poisoned e' ≡ true) ⊎ ((position e' ≡ position e) × (poisoned e' ≡ poisoned e))

abbrev pub Restarts : {E : Type 0} → (E → ℕ) → (E → Bool) → E → Result (Unit {0}) × E → Type 0
Restarts position poisoned e (ok done, e') = (position e' ≡ 0) × (poisoned e' ≡ false)
Restarts position poisoned e (err thrown, e') =
    (position e' ≡ position e) × (poisoned e' ≡ poisoned e)

-- The law that an executor owes a session.
pub record PositionLaw {E : Type 0} (ops : ExecutorOps E) : Type 0 where
  pub position : E → ℕ
  pub poisoned : E → Bool
  pub prefill_law :
      (e : E) (tokens : List ℤ) → Keeps position poisoned e (length tokens) (ops.prefill e tokens)
  pub decode_law : (e : E) (t : ℤ) → Keeps position poisoned e 1 (ops.decode e t)
  pub greedy_law :
      (e : E) (t : ℤ) (outputs : List ℤ)
      → Keeps position poisoned e
          (length outputs)
          ((ops.decode_greedy e t outputs).0, (ops.decode_greedy e t outputs).2)
  pub reset_law : (e : E) → Restarts position poisoned e (ops.reset e)

module _ {E : Type 0} (texts : LibraryTexts) {ops : ExecutorOps E} (law : PositionLaw ops) where
  abbrev pub AgreesWith : Option E → ℕ → Type 0
  AgreesWith none p = Unit
  AgreesWith (some e) p = (law.poisoned e ≡ true) ⊎ (law.position e ≡ p)

  -- The session's executor, if there is one, is poisoned or stands where the host state stands.
  abbrev pub Agrees : Session E → Type 0
  Agrees s = AgreesWith s.executor s.state.position

  -- What a call leaves that has thrown.
  thrown-Agrees :
      (e e' : E) (p n : ℕ) (thrown : Error)
      → AgreesWith (some e) p
      → Keeps {A = Unit {0}} law.position law.poisoned e n (err thrown, e')
      → AgreesWith (some e') p
  thrown-Agrees e e' p n thrown agrees (inl poison) = inl poison
  thrown-Agrees e e' p n thrown (inl poison) (inr (position, same)) = inl (same ∙ poison)
  thrown-Agrees e e' p n thrown (inr stands) (inr (position, same)) = inr (position ∙ stands)

  returned-Agrees :
      (e e' : E) (p n : ℕ)
      → AgreesWith (some e) p
      → Keeps {A = Unit {0}} law.position law.poisoned e n (ok tt, e')
      → AgreesWith (some e') (p + n)
  returned-Agrees e e' p n (inl poison) (position, fine, healthy) = cc (poison, healthy)
  returned-Agrees e e' p n (inr stands) (position, fine, healthy) =
      inr (position ∙ ap (λ q. q + n) stands)

  commit-Agrees {ℓ} :
      {A : Type ℓ} (s : Session E) (count : ℕ) (e : E) (called : Result A × E)
      → IsReady s
      → s.state.position + count ≤ s.state.layout.max_context_tokens
      → AgreesWith (some e) s.state.position
      → Keeps law.position law.poisoned e count called
      → Agrees (commit texts s count called.1 called.0).1
  unfolding commit
  commit-Agrees s count e (err thrown, e') ready fits agrees keeps =
      thrown-Agrees e e' s.state.position count thrown agrees keeps
  commit-Agrees s count e (ok value, e') ready fits agrees keeps =
      rw (commit-advance texts s count e' value ready fits)
        (returned-Agrees e e' s.state.position count agrees keeps)

  finish-Agrees :
      (c : Result Qwen35ExecutorResult × Session E) → Agrees c.1 → Agrees (finish texts c).1
  finish-Agrees (ok value, s') h = h
  finish-Agrees (err thrown, s') h = h

  pub behind :
      (s : Session E) {o : Option E} → s.executor ≡ o → Agrees s → AgreesWith o s.state.position
  behind s h agrees = subst (λ o. AgreesWith o s.state.position) h agrees

  pub before :
      (s : Session E) {o : Option E} → s.executor ≡ o → AgreesWith o s.state.position → Agrees s
  before s h agrees = subst (λ o. AgreesWith o s.state.position) (sym h) agrees

  prefill-Agrees :
      (s : Session E) (tokens : List ℤ)
      → IsReady s
      → Agrees s
      → Agrees (prefill texts ops s tokens).1
  unfolding prefill
  prefill-Agrees s tokens ready agrees =
      elim (Result-cases (validate_request s.config s.state tokens)) [
        | inl (e, h) ↦ rw (prefill, h) agrees
        | inr (u, h) ↦ elim (Option-cases s.executor) [
          | inl h' ↦ rw (prefill, h, h') agrees
          | inr (e, h') ↦
              let called = ops.prefill e tokens in
              rw (prefill, h, h')
                (finish-Agrees (commit texts s (length tokens) called.1 called.0) (
                  commit-Agrees s (length tokens) e called ready
                    ((validate_request-IsAllowed s.config s.state tokens ready.valid.within
                        ready.word).0
                      h).fits
                    (behind s h' agrees) (law.prefill_law e tokens)))
        ]
      ]

  decode-Agrees : (s : Session E) (t : ℤ) → IsReady s → Agrees s → Agrees (decode texts ops s t).1
  unfolding decode
  decode-Agrees s t ready agrees =
      elim (Result-cases (validate_request s.config s.state (t ∷ []))) [
        | inl (e, h) ↦ rw (decode, h) agrees
        | inr (u, h) ↦ elim (Option-cases s.executor) [
          | inl h' ↦ rw (decode, h, h') agrees
          | inr (e, h') ↦
              let called = ops.decode e t in
              rw (decode, h, h')
                (finish-Agrees (commit texts s 1 called.1 called.0) (
                  commit-Agrees s 1 e called ready
                    ((validate_request-IsAllowed s.config s.state (t ∷ []) ready.valid.within
                        ready.word).0
                      h).fits
                    (behind s h' agrees) (law.decode_law e t)))
        ]
      ]

  decode_greedy-Agrees :
      (s : Session E) (t : ℤ) (out : List ℤ)
      → IsReady s
      → Agrees s
      → Agrees (decode_greedy texts ops s t out).2
  unfolding decode_greedy
  decode_greedy-Agrees s t out ready agrees = elim (Bool-cases (is_empty out)) [
    | inl h₀ ↦ rw (decode_greedy, h₀) agrees
    | inr h₀ ↦ elim (Bool-cases (ltb (room s.state) (length out))) [
      | inl h₁ ↦ rw (decode_greedy, h₀, h₁) agrees
      | inr h₁ ↦ elim (Result-cases (validate_request s.config s.state (t ∷ []))) [
        | inl (e, h) ↦ rw (decode_greedy, h₀, h₁, h) agrees
        | inr (u, h) ↦ elim (Option-cases s.executor) [
          | inl h' ↦ rw (decode_greedy, h₀, h₁, h, h') agrees
          | inr (e, h') ↦
              let called = ops.decode_greedy e t out in
              let minus = room-minus s.state ready.valid.within ready.word in
              rw (decode_greedy, h₀, h₁, h, h')
                (finish-Agrees (commit texts s (length out) called.2 called.0) (
                  commit-Agrees s (length out) e (called.0, called.2) ready
                    (ground (arith, minus, h₁, ready.valid.within)) (behind s h' agrees)
                    (law.greedy_law e t out)))
        ]
      ]
    ]
  ]

  reset-Agrees : (s : Session E) → Agrees s → Agrees (reset texts ops s).1
  unfolding reset Host.reset
  reset-Agrees s agrees = elim (Option-cases s.executor) [
    | inl h ↦ rw (reset, h) (subst (λ o. AgreesWith o 0) (sym h) tt)
    | inr (e, h) ↦ elim (Result-cases (ops.reset e).0) [
      | inl (thrown, k) ↦
          rw (reset, h, k)
            (thrown-Agrees e (ops.reset e).1 s.state.position 0 thrown (behind s h agrees)
              (inr (restarts e k)))
      | inr (u, k) ↦ rw (reset, h, k) (inr (restarts e k).0)
    ]
  ]
    where
      restarts :
          (e : E) {r : Result (Unit {0})}
          → (ops.reset e).0 ≡ r
          → Restarts law.position law.poisoned e (r, (ops.reset e).1)
      restarts e k =
          subst
            (λ (x : Result (Unit {0})). Restarts law.position law.poisoned e (x, (ops.reset e).1)) k
            (law.reset_law e)

  serve-Agrees :
      (s : Session E) (r : Request) → IsReady s → Agrees s → Agrees (serve texts ops s r).1
  unfolding serve
  serve-Agrees s (prompt tokens) ready agrees = prefill-Agrees s tokens ready agrees
  serve-Agrees s (token t) ready agrees = decode-Agrees s t ready agrees
  serve-Agrees s (greedy t out) ready agrees = decode_greedy-Agrees s t out ready agrees
  serve-Agrees s restart ready agrees = reset-Agrees s agrees

  -- For an executor that keeps the law of positions, after any sequence of requests to a ready session that
  -- agrees with its executor, the executor is poisoned or stands at the position of the host state.
  pub serve_all-Agrees :
      (s : Session E) (rs : List Request)
      → IsReady s
      → Agrees s
      → Agrees (serve_all texts ops s rs).1
  unfolding serve_all serve
  serve_all-Agrees s [] ready agrees = agrees
  serve_all-Agrees s (r ∷ rs) ready agrees =
      serve_all-Agrees (serve texts ops s r).1 rs (serve-Serves texts ops s r ready).0
        (serve-Agrees s r ready agrees)
