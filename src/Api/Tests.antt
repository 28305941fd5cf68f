-- ===== src/Api/Tests.antt =====
-- The C interface at concrete inputs, on the sessions of the session's tests.
use raftinfer.Base.{
  ℕ, ◌-◌, ◌≡◌, ◌⊎◌, ◌↔◌, refl, List, [], ◌∷◌, length, take, true, false, none, some, arith, bytes,
  replicate, ok,
}
use raftinfer.Base.Int.{pos}
use raftinfer.Session.Policy.{
  Qwen35ExecutionPolicy, default_policy, materialized_reference, bf16, head_major,
}
use raftinfer.Session.Tests.{
  texts, counter, device, model, fresh, fresh_created, fresh-IsReady, tokens,
}
use raftinfer.Api.LastError.{message_size, c_string, set_last_error, set_last_error-c_string}
use raftinfer.Api.Policies
use raftinfer.Api.Policies.{PolicyStruct, AbiSizes, to_execution_policy}
use raftinfer.Api.RoundTrip.{Encodes, to_execution_policy-Encodes}
use raftinfer.Api.Sessions.{raftinfer_session_prefill}
use raftinfer.Api.Statuses.{
  Invalid, NoExecutor, Threw, Returned, raftinfer_session_prefill-statuses,
}
use raftinfer.Api.Create
use raftinfer.Api.Create.{SessionConfig, raftinfer_session_create}
use raftinfer.Api.Opened.{Opens, raftinfer_session_create-Opens}

abbrev buffer : List ℕ
buffer = replicate 256 0

abbrev message : List ℕ
message = 79 ∷ 75 ∷ 0 ∷ 33 ∷ []

set_last_error-c_string_example :
    (c_string (set_last_error message buffer) ≡ take (message_size - 1) (c_string message))
    × (length (set_last_error message buffer) ≡ message_size)
set_last_error-c_string_example = set_last_error-c_string message buffer refl

-- The sizes of the x86-64 ABI.
abbrev sizes : AbiSizes
sizes = record {
  policy = 32;
  legacy_session_config = 16;
  policy_pointer_end = 24;
  engine_config = 24;
  owned_buffer = 32;
  diagnostics = 80;
}

abbrev policy_struct : PolicyStruct
policy_struct = record {
  struct_size = 32;
  attention = 0;
  kv_cache_dtype = 1;
  kv_cache_layout = 1;
  decode_graph = pos 0;
  grouped_input_casts = pos 1;
}

abbrev policy : Qwen35ExecutionPolicy
policy = record default_policy {
  attention = materialized_reference;
  kv_cache = bf16;
  kv_cache_layout = head_major;
  decode_graph = false;
}

to_execution_policy-Encodes_example :
    (to_execution_policy sizes (some policy_struct) ≡ ok policy)
    ↔ Encodes sizes policy_struct policy
to_execution_policy-Encodes_example = to_execution_policy-Encodes sizes policy_struct policy

raftinfer_session_prefill-statuses_example :
    let r = raftinfer_session_prefill texts counter buffer (some fresh) (some tokens) true in
    Invalid texts counter fresh tokens r
    ⊎ (NoExecutor texts counter fresh tokens r
        ⊎ (Threw texts counter fresh tokens r ⊎ Returned texts counter fresh tokens r))
raftinfer_session_prefill-statuses_example =
    raftinfer_session_prefill-statuses texts counter buffer fresh tokens fresh-IsReady

abbrev session_config : SessionConfig
session_config = record { struct_size = 16; max_context_tokens = 5; qwen35_policy = none }

opened :
    (raftinfer_session_create texts device sizes
      (some (bytes "split-k-512"))
      1000
      1000
      buffer
      (some (some model))
      (some session_config)
      true).out_session
    ≡ some (some fresh)
unfolding raftinfer_session_create Create.size_mismatch Create.answer_create
    Policies.to_execution_policy
opened = rw fresh_created refl

raftinfer_session_create-Opens_example :
    Opens texts device sizes
      (some (bytes "split-k-512"))
      1000
      1000
      buffer
      (some (some model))
      (some session_config)
      (raftinfer_session_create texts device sizes
        (some (bytes "split-k-512"))
        1000
        1000
        buffer
        (some (some model))
        (some session_config)
        true)
      fresh
raftinfer_session_create-Opens_example =
    raftinfer_session_create-Opens texts device sizes (some (bytes "split-k-512")) 1000 1000 buffer
      (some (some model)) (some session_config) true fresh (λ c h. ground (arith, h)) opened
