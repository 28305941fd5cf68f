-- ===== src/Api/Opened.antt =====
-- raftinfer_session_create of cpp/src/c_api.cpp: what stands behind the handle that it gives.
use raftinfer.Base.{
  ℕ, ◌≤◌, ◌<◌, ◌≡◌, refl, sym, ap, ◌∙◌, List, Bool, true, false, Option, none, some, arith, u32_max,
  Text, Result, ok, err, >>=-eq-ok, Bool-cases, inl, inr, ◌==◌, ◌>>=◌,
}
use raftinfer.Session
use raftinfer.Session.{Session, SessionModel}
use raftinfer.Session.What.{LibraryTexts}
use raftinfer.Session.Executor.{DeviceOps}
use raftinfer.Session.Steps.{IsReady}
use raftinfer.Session.Created.{is_some, create-IsReady}
use raftinfer.Api.LastError.{clear_last_error}
use raftinfer.Api.Policies.{AbiSizes, to_execution_policy}
use raftinfer.Api.Sessions.{success}
use raftinfer.Api.Create.{
  SessionConfig, Created, size_mismatch, policy_config, answer_create, raftinfer_session_create,
}

module _ {D W O E : Type 0} (texts : LibraryTexts) (device : DeviceOps D W O E) (sizes : AbiSizes)
    (setting : Option Text) (u32_max_size float_max_size : ℕ) (last : List ℕ) where
  abbrev pub Opens :
      Option (Option (SessionModel D W)) → Option SessionConfig → Created E → Session E → Type 0
  Opens model config r s =
      (m : SessionModel D W) × (model ≡ some (some m))
      × (c : SessionConfig) × (config ≡ some c)
      × (r.status ≡ success)
      × (0 < c.max_context_tokens)
      × IsReady s
      × (s.state.position ≡ 0)
      × (s.state.layout.max_context_tokens ≡ c.max_context_tokens)
      × (c.max_context_tokens ≤ m.qwen35_config.context_length)
      × (is_some s.executor ≡ m.cuda_ready)

  abbrev made_by : SessionModel D W → SessionConfig → Result (Session E)
  made_by m c = to_execution_policy sizes (policy_config sizes c) >>= λ policy.
      Session.create texts device setting u32_max_size float_max_size (some m) c.max_context_tokens
        policy

  answered :
      (buffer : List ℕ) (r : Result (Session E)) (s : Session E)
      → (answer_create texts device sizes buffer r).out_session ≡ some (some s)
      → (r ≡ ok s) × ((answer_create texts device sizes buffer r).status ≡ success)
  unfolding answer_create
  answered buffer (ok t) s h = (ground (arith, h), refl)
  answered buffer (err e) s h = absurd (ground (arith, h))

  -- If `raftinfer_session_create` leaves a session behind `out_session`, its status is OK, the model and the configuration
  -- were there, and the session is ready at position 0 for the context that the configuration asks
  -- for, which is not zero and no longer than the model's, with an executor exactly if the model is
  -- ready for CUDA.
  pub raftinfer_session_create-Opens :
      (model : Option (Option (SessionModel D W))) (config : Option SessionConfig) (out : Bool)
      (s : Session E)
      → ((c : SessionConfig) → config ≡ some c → c.max_context_tokens ≤ u32_max)
      → let r =
          raftinfer_session_create texts device sizes setting u32_max_size float_max_size last model
            config out in
        r.out_session ≡ some (some s) → Opens model config r s
  unfolding raftinfer_session_create answer_create
  raftinfer_session_create-Opens model config false s word h = cc h
  raftinfer_session_create-Opens none config true s word h = cc h
  raftinfer_session_create-Opens (some m) none true s word h = cc h
  raftinfer_session_create-Opens (some none) (some c) true s word h = absurd (ground (arith, h))
  raftinfer_session_create-Opens (some (some m)) (some c) true s word h =
      elim (Bool-cases (size_mismatch sizes c.struct_size)) [
        | inl wrong ↦ absurd (ground (arith, h, wrong))
        | inr fits ↦ elim (Bool-cases (c.max_context_tokens == 0)) [
          | inl zero_context ↦ absurd (ground (arith, h, fits, zero_context))
          | inr positive ↦
              let answer = answer_create texts device sizes (clear_last_error last) (made_by m c) in
              let whole : raftinfer_session_create texts device sizes setting u32_max_size
                    float_max_size last (some (some m)) (some c) true
                  ≡ answer =
                rw (raftinfer_session_create, fits, positive) refl in
              let opened : answer.out_session ≡ some (some s) =
                sym (ap (λ (r : Created E). r.out_session) whole) ∙ h in
              let (returned, good) = answered (clear_last_error last) (made_by m c) s opened in
              let (policy, converted, made) =
                >>=-eq-ok (to_execution_policy sizes (policy_config sizes c)) _ returned in
              let (ready, start, context, within, same, attached) =
                create-IsReady texts device setting u32_max_size float_max_size m
                  c.max_context_tokens policy s (word c refl) made in
              (
                m,
                refl,
                c,
                refl,
                ap (λ (r : Created E). r.status) whole ∙ good,
                ground (arith, positive),
                ready,
                start,
                context,
                within,
                attached,
              )
        ]
      ]
