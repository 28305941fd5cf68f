-- ===== src/Session/Tests.antt =====
-- Sessions at concrete inputs, on an executor that only counts tokens.
use raftinfer.Base.{
  ℕ, suc, ◌+◌, ◌≤◌, ◌≡◌, ◌⊎◌, ◌↔◌, refl, List, [], ◌∷◌, length, Bool, true, false, Option, none,
  some, arith, u32_max, bytes, Text, Result, ok, err, Error, executor_error, bad_alloc,
}
use raftinfer.Base.Int.{ℤ, pos, negsuc}
use raftinfer.State.Host
use raftinfer.State.Host.{Qwen35HostState, logical_only}
use raftinfer.State.Tests.{config, layout, created, accepted}
use raftinfer.Session
use raftinfer.Session.{Session, SessionModel, create_session_layout, validate_request}
use raftinfer.Session.What.{LibraryTexts}
use raftinfer.Session.Policy.{
  default_policy, online_tiled, f32, token_major, split_k_512,
  qwen35_execution_policy_from_environment,
}
use raftinfer.Session.Executor.{
  ExecutorOps, DeviceOps, Qwen35ExecutorResult, Qwen35DecodeAttentionImplementation,
}
use raftinfer.Session.Steps.{IsReady, IsAllowed, validate_request-IsAllowed}
use raftinfer.Session.History.{
  prompt, token, greedy, restart, Request, serve_all, tally, serve_all-tally,
}
use raftinfer.Session.Outcomes.{Refused, Unavailable, Failed, Done, prefill-branches}
use raftinfer.Session.Created.{is_some, create-IsReady}

abbrev pub texts : LibraryTexts
texts = record {
  bad_alloc_text = bytes "std::bad_alloc";
  bad_variant_access_text = bytes "std::get: wrong index for variant";
}

abbrev at_end : ℕ → ℕ → Result Qwen35ExecutorResult × ℕ
at_end position count =
    (ok (record { token = pos 1; position = position + count }), position + count)

abbrev pub counter : ExecutorOps ℕ
counter = record {
  prefill = λ e tokens. at_end e (length tokens);
  decode = λ e t. at_end e 1;
  decode_greedy = λ e t tokens. (err (executor_error (bytes "busy")), tokens, e);
  reset = λ e. (ok tt, 0);
  diagnostics = λ e. record {
    attention = online_tiled;
    kv_cache_dtype = f32;
    kv_cache_layout = token_major;
    decode_graph_captured = false;
    decode_graph_replayed = false;
    attention_workspace_bytes = 0;
    decode_attention = record {
      implementation = Qwen35DecodeAttentionImplementation.split_k;
      partition_tokens = 512;
      threshold_tokens = 0;
      last_context_bucket_tokens = 0;
      split_k_graph_captured = false;
    };
  };
}

abbrev pub device : DeviceOps (Unit {0}) (Unit {0}) (Unit {0}) ℕ
device = record {
  workspace_bytes = λ config context policy. ok 4096;
  create_execution_owner = λ d bytes. ok tt;
  create_executor = λ owner config weights context policy. ok 0;
}

abbrev pub model : SessionModel (Unit {0}) (Unit {0})
model = record {
  qwen35_config = config;
  cuda_ready = true;
  device_context = some tt;
  cuda_weights = some tt;
}

abbrev fresh_state : Qwen35HostState
fresh_state = record {
  layout = layout;
  storage = logical_only;
  position = 0;
  full_kv_lengths = 0 ∷ [];
  linear_convolution = [];
  linear_recurrent = [];
  full_kv = [];
}

abbrev pub fresh : Session ℕ
fresh = record {
  config = config;
  policy = record default_policy { decode_attention = split_k_512 };
  state = fresh_state;
  executor = some 0;
}

fresh_host : Host.create 1000 1000 layout logical_only ≡ ok fresh_state
unfolding Host.create Host.buffer_size Host.is_known
fresh_host = rw accepted refl

pub fresh_created :
    Session.create texts device (some (bytes "split-k-512")) 1000 1000 (some model) 5 default_policy
    ≡ ok fresh
unfolding Session.create create_session_layout qwen35_execution_policy_from_environment
    Session.attach raftinfer.Base.Texts.text_eq bytes
fresh_created = rw (created, fresh_host) refl

create-IsReady_example :
    IsReady fresh
    × (fresh.state.position ≡ 0)
    × (fresh.state.layout.max_context_tokens ≡ 5)
    × (5 ≤ config.context_length)
    × (fresh.config ≡ config)
    × (is_some fresh.executor ≡ true)
create-IsReady_example =
    create-IsReady texts device (some (bytes "split-k-512")) 1000 1000 model 5 default_policy fresh
      (omega arith) fresh_created

pub fresh-IsReady : IsReady fresh
fresh-IsReady = create-IsReady_example.0

abbrev pub tokens : List ℤ
tokens = pos 3 ∷ pos 7 ∷ []

validate_request-IsAllowed_example :
    (validate_request config fresh_state tokens ≡ ok tt) ↔ IsAllowed config fresh_state tokens
validate_request-IsAllowed_example =
    validate_request-IsAllowed config fresh_state tokens (omega arith) (omega arith)

abbrev requests : List Request
requests =
    prompt tokens
    ∷ token (pos 2)
    ∷ token (negsuc 0)
    ∷ greedy (pos 1) tokens
    ∷ restart
    ∷ prompt tokens
    ∷ []

serve_all-tally_example :
    let (outcomes, s') = serve_all texts counter fresh requests in
    IsReady s' × (s'.state.layout ≡ layout) × (s'.state.position ≡ tally 0 requests outcomes)
serve_all-tally_example = serve_all-tally texts counter fresh requests fresh-IsReady

prefill-branches_example :
    Refused texts counter fresh tokens
    ⊎ (Unavailable texts counter fresh tokens
        ⊎ (Failed texts counter fresh tokens ⊎ Done texts counter fresh tokens))
prefill-branches_example = prefill-branches texts counter fresh tokens fresh-IsReady
