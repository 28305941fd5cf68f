-- ===== src/Session/Created.antt =====
-- cpp/execution/session.cpp: the constructor of Session.
use raftinfer.Base.{
  ℕ, ◌≤◌, ◌≡◌, refl, ap, ◌∙◌, Bool, true, false, Option, none, some, arith, u32_max, Text, Result,
  ok, err, >>=-eq-ok, throw_if->>-eq-ok, ltb, subst, if◌then◌else◌, ◌>>=◌,
}
use raftinfer.State.Layout
use raftinfer.State.Layout.{Qwen35StateLayout}
use raftinfer.State.Layout.Created.{create-Created}
use raftinfer.State.Host
use raftinfer.State.Host.{Qwen35HostState, logical_only}
use raftinfer.State.Host.Create.{create-IsValid}
use raftinfer.Session.{
  Session, SessionModel, create_session_layout, attach, attach_if_ready, guarded, create,
}
use raftinfer.Session.What.{LibraryTexts}
use raftinfer.Session.Policy.{Qwen35ExecutionPolicy, qwen35_execution_policy_from_environment}
use raftinfer.Session.Executor.{DeviceOps}
use raftinfer.Session.Steps.{IsReady}

abbrev pub is_some {ℓ} : {A : Type ℓ} → Option A → Bool
is_some (some a) = true
is_some none = false

module _ {D W O E : Type 0} (texts : LibraryTexts) (device : DeviceOps D W O E) where
  by_ready :
      (b : Bool) (r : Result E) (o : Option E)
      → (if b then (guarded texts r >>= λ e. ok (some e)) else ok none) ≡ ok o
      → is_some o ≡ b
  by_ready true (ok e) o h = ground (arith, h)
  by_ready true (err thrown) o h = cc h
  by_ready false r o h = ground (arith, h)

  attach_if_ready-is_some :
      (m : SessionModel D W) (context : ℕ) (policy : Qwen35ExecutionPolicy) (o : Option E)
      → attach_if_ready texts device m context policy ≡ ok o
      → is_some o ≡ m.cuda_ready
  attach_if_ready-is_some m context policy o h =
      by_ready m.cuda_ready (attach texts device m context policy) o h

  layout-max_context :
      (m : SessionModel D W) (context : ℕ) (layout : Qwen35StateLayout)
      → create_session_layout (some m) context ≡ ok layout
      → (layout.max_context_tokens ≡ context) × (context ≤ m.qwen35_config.context_length)
  unfolding create_session_layout
  layout-max_context m context layout h =
      let (within, made) =
        throw_if->>-eq-ok (ltb m.qwen35_config.context_length context) _
          (Layout.create m.qwen35_config context) h in
      ((create-Created m.qwen35_config context made).context_kept, ground (arith, within))

  -- A session that the constructor returns, for a context length of 32 bits, has a valid host state at
  -- position 0 on the layout of exactly the context that was asked for, and that is no longer
  -- than the model's; and it has an executor exactly if the model is ready for CUDA.
  pub create-IsReady :
      (setting : Option Text) (u32_max_size float_max_size : ℕ) (m : SessionModel D W) (context : ℕ)
      (policy : Qwen35ExecutionPolicy) (s : Session E)
      → context ≤ u32_max
      → create texts device setting u32_max_size float_max_size (some m) context policy ≡ ok s
      → IsReady s
        × (s.state.position ≡ 0)
        × (s.state.layout.max_context_tokens ≡ context)
        × (context ≤ m.qwen35_config.context_length)
        × (s.config ≡ m.qwen35_config)
        × (is_some s.executor ≡ m.cuda_ready)
  unfolding create
  create-IsReady setting u32_max_size float_max_size m context policy s word h =
      let (policy', read, h₁) =
        >>=-eq-ok (qwen35_execution_policy_from_environment setting policy) _ h in
      let (layout, laid, h₂) = >>=-eq-ok (create_session_layout (some m) context) _ h₁ in
      let (state, made, h₃) =
        >>=-eq-ok (Host.create u32_max_size float_max_size layout logical_only) _ h₂ in
      let (o, attached, last) = >>=-eq-ok (attach_if_ready texts device m context policy') _ h₃ in
      let (kept, within) = layout-max_context m context layout laid in
      let (valid, same, start, known) =
        create-IsValid u32_max_size float_max_size layout state logical_only made in
      let max : state.layout.max_context_tokens ≡ context =
        ap (λ (l : Qwen35StateLayout). l.max_context_tokens) same ∙ kept in
      let session : record {
        config = m.qwen35_config;
        policy = policy';
        state = state;
        executor = o;
      }
          ≡ s =
        cc last in
      subst
        (λ (t : Session E).
          IsReady t
          × (t.state.position ≡ 0)
          × (t.state.layout.max_context_tokens ≡ context)
          × (context ≤ m.qwen35_config.context_length)
          × (t.config ≡ m.qwen35_config)
          × (is_some t.executor ≡ m.cuda_ready))
        session
        (
          record { valid = valid; word = omega (arith, max, word) },
          start,
          max,
          within,
          refl,
          attach_if_ready-is_some m context policy' o attached,
        )
