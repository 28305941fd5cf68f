-- ===== src/Executor/Graph.antt =====
-- CudaGraphDecode of cpp/execution/cuda_graph_decode.cu. What the CUDA calls return is a parameter of each
-- call; beside the object stands what the driver keeps alive: the graphs and the executable graphs that were
-- made and not destroyed.
use raftinfer.Base.{
  ℕ, ◌+◌, ◌-◌, ◌≡◌, Bool, true, false, not, ◌&&◌, Option, none, some, Text, bytes, ◌++◌, Result, ok,
  err, Error, runtime_error, arith, if◌then◌else◌,
}

-- `graph` and `exec` say whether graph_ and exec_ are not null.
pub record GraphDecode : Type 0 where
  pub graph : Bool
  pub exec : Bool
  pub live_graphs : ℕ
  pub live_execs : ℕ

-- The texts of the calls that fail, what the body throws, and whether cudaStreamEndCapture gives a graph.
pub record Capture : Type 0 where
  pub has_body : Bool
  pub select : Option Text
  pub begin : Option Text
  pub body : Option Error
  pub end : Option Text
  pub end_graph : Bool
  pub instantiate : Option Text

abbrev cuda_failure : Text → Text → Error
cuda_failure operation text =
    runtime_error (bytes "CUDA graph decode " ++ operation ++ bytes ": " ++ text)

abbrev pub flag : Bool → ℕ
flag true = 1
flag false = 0

-- cudaGraphDestroy of a graph that may be null.
abbrev drop_graph : Bool → GraphDecode → GraphDecode
drop_graph graph s = record s { live_graphs = s.live_graphs - flag graph }

unfoldable pub reset : GraphDecode → GraphDecode
reset s = record {
  graph = false;
  exec = false;
  live_graphs = s.live_graphs - flag s.graph;
  live_execs = s.live_execs - flag s.exec;
}

-- The handler of an exception of the body.
unfoldable pub abandon : Capture → GraphDecode → GraphDecode
abandon c s =
    let s' = record s { live_graphs = s.live_graphs + flag c.end_graph } in
    elim c.end [ none ↦ drop_graph c.end_graph s' | some text ↦ s' ]

-- Behind a capture that has ended.
unfoldable pub instantiate : Capture → GraphDecode → Result (Unit {0}) × GraphDecode
instantiate c s = elim c.instantiate [
  | some text ↦ (err (cuda_failure (bytes "instantiate failed") text), drop_graph c.end_graph s)
  | none ↦ (ok tt, record s { graph = c.end_graph; exec = true; live_execs = s.live_execs + 1 })
]

unfoldable pub end_capture : Capture → GraphDecode → Result (Unit {0}) × GraphDecode
end_capture c s =
    let s' = record s { live_graphs = s.live_graphs + flag c.end_graph } in
    elim c.end [
      | some text ↦
          (err (cuda_failure (bytes "capture end failed") text), drop_graph c.end_graph s')
      | none ↦ instantiate c s'
    ]

-- Behind the reset.
unfoldable pub record_graph : Capture → GraphDecode → Result (Unit {0}) × GraphDecode
record_graph c s = elim c.select [
  | some text ↦ (err (cuda_failure (bytes "device selection failed") text), s)
  | none ↦ elim c.begin [
    | some text ↦ (err (cuda_failure (bytes "capture begin failed") text), s)
    | none ↦ elim c.body [ some thrown ↦ (err thrown, abandon c s) | none ↦ end_capture c s ]
  ]
]

unfoldable pub capture : Capture → GraphDecode → Result (Unit {0}) × GraphDecode
capture c s =
    if not c.has_body
    then (err (runtime_error (bytes "CUDA graph decode capture body is empty")), s)
    else record_graph c (reset s)

abbrev pub captured : GraphDecode → Bool
captured s = s.graph && s.exec

-- replay_on_current_device; `launch` is the text of a launch that fails.
unfoldable pub replay_on_current_device : Option Text → GraphDecode → Result (Unit {0})
replay_on_current_device launch s =
    if not (captured s)
    then err (runtime_error (bytes "CUDA graph decode has not been captured"))
    else elim launch [ none ↦ ok tt | some text ↦ err (cuda_failure (bytes "launch failed") text) ]

-- The driver keeps alive exactly what the object holds.
pub record Owns (s : GraphDecode) : Type 0 where
  pub graphs : s.live_graphs ≡ flag s.graph
  pub execs : s.live_execs ≡ flag s.exec

-- A capture that fails to end gives no graph, as CUDA documents.
abbrev pub EndsNull : Capture → Type 0
EndsNull c = (text : Text) → c.end ≡ some text → c.end_graph ≡ false

-- The destructor is `reset`.
pub reset-Owns : (s : GraphDecode) → Owns s → (reset s).live_graphs + (reset s).live_execs ≡ 0
unfolding reset
reset-Owns s owns = omega (arith, owns.graphs, owns.execs)
