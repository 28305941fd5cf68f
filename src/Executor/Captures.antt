-- ===== src/Executor/Captures.antt =====
-- CudaGraphDecode of cpp/execution/cuda_graph_decode.cu: what captures leave alive.
use raftinfer.Base.{
  ◌+◌, ◌≡◌, inl, inr, Option-cases, Bool-cases, refl, List, [], ◌∷◌, All, true, false, Result, ok,
  err, arith,
}
use raftinfer.Executor.Graph.{
  GraphDecode, Capture, flag, reset, abandon, instantiate, end_capture, record_graph, capture, Owns,
  EndsNull, reset-Owns,
}

-- Nothing is held and nothing is alive.
abbrev Empty : GraphDecode → Type 0
Empty s = (s.graph ≡ false) × (s.exec ≡ false) × (s.live_graphs ≡ 0) × (s.live_execs ≡ 0)

-- What the object is behind a capture: it holds what it has made, or nothing.
abbrev Outcome : Capture → Result (Unit {0}) × GraphDecode → Type 0
Outcome c (ok done, s) = Owns s × (s.exec ≡ true) × (s.graph ≡ c.end_graph)
Outcome c (err thrown, s) = Empty s

reset-Empty : (s : GraphDecode) → Owns s → Empty (reset s)
unfolding reset
reset-Empty s owns = (refl, refl, omega (arith, owns.graphs), omega (arith, owns.execs))

instantiate-Outcome :
    (c : Capture) (s : GraphDecode)
    → s.graph ≡ false
    → s.exec ≡ false
    → s.live_graphs ≡ flag c.end_graph
    → s.live_execs ≡ 0
    → Outcome c (instantiate c s)
unfolding instantiate
instantiate-Outcome c s graph exec graphs execs = elim (Option-cases c.instantiate) [
  | inl h ↦
      rw (instantiate, h) (record { graphs = graphs; execs = omega (arith, execs) }, refl, refl)
  | inr (text, h) ↦ rw (instantiate, h) (graph, exec, omega (arith, graphs), execs)
]

end_capture-Outcome : (c : Capture) (s : GraphDecode) → Empty s → Outcome c (end_capture c s)
unfolding end_capture
end_capture-Outcome c s (graph, exec, graphs, execs) = elim (Option-cases c.end) [
  | inl h ↦
      rw (end_capture, h)
        (instantiate-Outcome c (record s { live_graphs = s.live_graphs + flag c.end_graph }) graph
          exec (omega (arith, graphs)) execs)
  | inr (text, h) ↦ rw (end_capture, h) (graph, exec, omega (arith, graphs), execs)
]

abandon-Empty : (c : Capture) (s : GraphDecode) → EndsNull c → Empty s → Empty (abandon c s)
unfolding abandon
abandon-Empty c s null (graph, exec, graphs, execs) = elim (Option-cases c.end) [
  | inl h ↦ rw (abandon, h) (graph, exec, omega (arith, graphs), execs)
  | inr (text, h) ↦
      let none_made : flag c.end_graph ≡ 0 = rw (null text h) refl in
      rw (abandon, h) (graph, exec, omega (arith, graphs, none_made), execs)
]

record_graph-Outcome :
    (c : Capture) (s : GraphDecode) → EndsNull c → Empty s → Outcome c (record_graph c s)
unfolding record_graph
record_graph-Outcome c s null empty = elim (Option-cases c.select) [
  | inr (text, h) ↦ rw (record_graph, h) empty
  | inl h ↦ elim (Option-cases c.begin) [
    | inr (text, h₁) ↦ rw (record_graph, h, h₁) empty
    | inl h₁ ↦ elim (Option-cases c.body) [
      | inr (thrown, h₂) ↦ rw (record_graph, h, h₁, h₂) (abandon-Empty c s null empty)
      | inl h₂ ↦ rw (record_graph, h, h₁, h₂) (end_capture-Outcome c s empty)
    ]
  ]
]

Empty-Owns : (s : GraphDecode) → Empty s → Owns s
Empty-Owns s (graph, exec, graphs, execs) = record {
  graphs = rw graph graphs;
  execs = rw exec execs;
}

Outcome-Owns : (c : Capture) (x : Result (Unit {0}) × GraphDecode) → Outcome c x → Owns x.1
Outcome-Owns c (ok done, s) h = h.0
Outcome-Owns c (err thrown, s) h = Empty-Owns s h

capture-Owns : (c : Capture) (s : GraphDecode) → EndsNull c → Owns s → Owns (capture c s).1
unfolding capture record_graph end_capture abandon instantiate
capture-Owns c s null owns = elim (Bool-cases c.has_body) [
  | inr h ↦ rw (capture, h) owns
  | inl h ↦
      rw (capture, h)
        (Outcome-Owns c (record_graph c (reset s))
          (record_graph-Outcome c (reset s) null (reset-Empty s owns)))
]

-- Captures one after the other, those that throw among them.
unfoldable pub capture_all : GraphDecode → List Capture → GraphDecode
capture_all s [] = s
capture_all s (c ∷ cs) = capture_all (capture c s).1 cs

-- After any captures of an object, whatever CUDA and the bodies do, also those that throw, the driver keeps alive
-- exactly the graph and the executable graph that the object holds, and after its destructor,
-- which is `reset`, none, provided that a capture that fails to end gives no graph.
pub capture_all-Owns :
    (s : GraphDecode) (cs : List Capture)
    → Owns s
    → All EndsNull cs
    → Owns (capture_all s cs)
      × ((reset (capture_all s cs)).live_graphs + (reset (capture_all s cs)).live_execs ≡ 0)
unfolding capture_all
capture_all-Owns s [] owns null = (owns, reset-Owns s owns)
capture_all-Owns s (c ∷ cs) owns null =
    capture_all-Owns (capture c s).1 cs (capture-Owns c s null.0 owns) null.1
