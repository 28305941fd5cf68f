-- ===== src/Executor/Tests.antt =====
-- The executor at concrete inputs, on a device that counts its launches.
use raftinfer.Base.{
  ℕ, suc, ◌+◌, ◌≡◌, ◌⊎◌, refl, List, [], ◌∷◌, replicate, true, false, none, some, bytes, ok, err,
  executor_error,
}
use raftinfer.Base.Int.{ℤ, pos}
use raftinfer.State.Host
use raftinfer.Session
use raftinfer.Session.Calls
use raftinfer.Session.{Session}
use raftinfer.Session.Executor.{Qwen35ExecutorResult, Qwen35ExecutionDiagnostics}
use raftinfer.Session.Steps.{IsReady}
use raftinfer.Session.History.{Request, prompt, token, serve, serve_all}
use raftinfer.Session.Tests.{texts, counter, fresh, fresh-IsReady, tokens}
use raftinfer.Executor
use raftinfer.Executor.{DeviceSteps, Executor, run_chunks}
use raftinfer.Executor.Decode
use raftinfer.Executor.Decode.{executor_ops}
use raftinfer.Executor.Chunks.{Chunk, Covers, launch_all, run_chunks-Covers}
use raftinfer.Executor.Graph
use raftinfer.Executor.Graph.{GraphDecode, Capture, Owns}
use raftinfer.Executor.Captures.{capture_all, capture_all-Owns}
use raftinfer.Executor.Law.{serve_all-position}

abbrev steps : DeviceSteps ℕ
steps = record {
  guard = λ k. (ok tt, k);
  launch = λ k tokens last at. (ok (record { token = pos k; position = at }), suc k);
  sync_position = λ k at. (ok tt, k);
  can_replay = λ k at. (ok false, k);
  replay = λ k t at. (err (executor_error (bytes "no graph")), k);
  prepare = λ k at. (ok tt, k);
  replay_greedy = λ k t outputs at. (err (executor_error (bytes "no graph")), outputs, k);
  clear = λ k. (ok tt, 0);
}

abbrev executor : Executor ℕ
executor = record {
  config = fresh.config;
  max_context = 5;
  position = 0;
  poisoned = false;
  device = 0;
}

abbrev diagnostics : Executor ℕ → Qwen35ExecutionDiagnostics
diagnostics e = counter.diagnostics 0

abbrev session : Session (Executor ℕ)
session = record {
  config = fresh.config;
  policy = fresh.policy;
  state = fresh.state;
  executor = some executor;
}

session-IsReady : IsReady session
session-IsReady = record { valid = fresh-IsReady.valid; word = fresh-IsReady.word }

abbrev requests : List Request
requests = prompt tokens ∷ token (pos 2) ∷ []

abbrev after : Executor ℕ
after = record executor { position = 3; device = 2 }

served : (serve_all texts (executor_ops steps diagnostics) session requests).1.executor ≡ some after
unfolding serve_all serve Calls.prefill Calls.decode Calls.commit Session.validate_request
    Session.require_tokens Session.room Host.commit_tokens executor_ops Executor.prefill
    Executor.enter Executor.ensure_healthy Executor.validate_request run_chunks Executor.run_chunk
    Executor.chunk_size Decode.decode
served = refl

serve_all-position_example :
    (after.poisoned ≡ true)
    ⊎ (after.position
        ≡ (serve_all texts (executor_ops steps diagnostics) session requests).1.state.position)
serve_all-position_example =
    serve_all-position steps texts diagnostics session executor requests session-IsReady refl refl
      after served

abbrev seven : List ℤ
seven = replicate 7 (pos 1)

abbrev no_result : Qwen35ExecutorResult
no_result = record { token = pos 0; position = 0 }

run_chunks-Covers_example :
    (cs : List Chunk) × Covers seven 0 cs
    × (run_chunks steps 7 executor no_result seven 0 ≡ launch_all steps executor no_result cs)
run_chunks-Covers_example = run_chunks-Covers steps executor no_result seven 0

-- Seven tokens are three chunks.
three_launches : (run_chunks steps 7 executor no_result seven 0).1.device ≡ 3
unfolding run_chunks Executor.run_chunk Executor.chunk_size
three_launches = refl

abbrev idle : GraphDecode
idle = record { graph = false; exec = false; live_graphs = 0; live_execs = 0 }

abbrev good : Capture
good = record {
  has_body = true;
  select = none;
  begin = none;
  body = none;
  end = none;
  end_graph = true;
  instantiate = none;
}

abbrev body_throws : Capture
body_throws = record good { body = some (executor_error (bytes "launch")) }

abbrev not_instantiated : Capture
not_instantiated = record good { instantiate = some (bytes "out of memory") }

capture_all-Owns_example :
    let s = capture_all idle (good ∷ body_throws ∷ not_instantiated ∷ good ∷ []) in
    Owns s × ((Graph.reset s).live_graphs + (Graph.reset s).live_execs ≡ 0)
capture_all-Owns_example =
    capture_all-Owns idle (good ∷ body_throws ∷ not_instantiated ∷ good ∷ [])
      (record { graphs = refl; execs = refl })
      (λ text h. cc h, (λ text h. cc h, (λ text h. cc h, (λ text h. cc h, tt))))
