-- ===== src/Session/History.antt =====
-- cpp/execution/session.cpp: sequences of calls of a session, against a count of the tokens whose calls
-- have returned.
use raftinfer.Base.{
  ℕ, ◌+◌, ◌≡◌, refl, List, [], ◌∷◌, length, Bool, true, false, if◌then◌else◌, ap, sym, ◌∙◌,
}
use raftinfer.Base.Int.{ℤ}
use raftinfer.Session.{Session}
use raftinfer.Session.What.{LibraryTexts}
use raftinfer.Session.Executor.{ExecutorOps}
use raftinfer.Session.Calls.{prefill, decode, decode_greedy, reset}
use raftinfer.Session.Steps.{IsReady}
use raftinfer.Session.Moves.{
  returned, Moves, moved, prefill-Moves, decode-Moves, decode_greedy-Moves, reset-position,
}

pub data Request : Type 0 where
  prompt : List ℤ → Request
  token : ℤ → Request
  greedy : ℤ → List ℤ → Request
  restart : Request

-- The specification: a count of tokens.
abbrev pub tally_one : ℕ → Request → Bool → ℕ
tally_one p r false = p
tally_one p (prompt tokens) true = p + length tokens
tally_one p (token t) true = p + 1
tally_one p (greedy t out) true = p + length out
tally_one p restart true = 0

abbrev pub tally : ℕ → List Request → List Bool → ℕ
tally p [] outcomes = p
tally p (r ∷ rs) [] = p
tally p (r ∷ rs) (b ∷ bs) = tally (tally_one p r b) rs bs

by_outcome :
    (p n : ℕ) (r : Request) (b : Bool)
    → tally_one p r true ≡ p + n
    → (if b then p + n else p) ≡ tally_one p r b
by_outcome p n r true h = sym h
by_outcome p n r false h = refl

by_restart : (p : ℕ) (b : Bool) → (if b then 0 else p) ≡ tally_one p restart b
by_restart p true = refl
by_restart p false = refl

module _ {E : Type 0} (texts : LibraryTexts) (ops : ExecutorOps E) where
  -- Whether the request's call returned, and the session after it.
  unfoldable pub serve : Session E → Request → Bool × Session E
  serve s (prompt tokens) = let c = prefill texts ops s tokens in (returned c.0, c.1)
  serve s (token t) = let c = decode texts ops s t in (returned c.0, c.1)
  serve s (greedy t out) = let c = decode_greedy texts ops s t out in (returned c.0, c.2)
  serve s restart = let c = reset texts ops s in (returned c.0, c.1)

  -- The outcomes of the requests, in order, and the session after them.
  unfoldable pub serve_all : Session E → List Request → List Bool × Session E
  serve_all s [] = ([], s)
  serve_all s (r ∷ rs) =
      let first = serve s r in let rest = serve_all first.1 rs in (first.0 ∷ rest.0, rest.1)

  -- What a single request does to a session that is ready.
  abbrev pub Serves : Session E → Request → Bool × Session E → Type 0
  Serves s r (b, s') =
      IsReady s'
      × (s'.state.layout ≡ s.state.layout)
      × (s'.state.position ≡ tally_one s.state.position r b)

  moved-Serves :
      (s s' : Session E) (r : Request) (n : ℕ) (b : Bool)
      → IsReady s
      → Moves s s' n b
      → tally_one s.state.position r true ≡ s.state.position + n
      → Serves s r (b, s')
  moved-Serves s s' r n b ready moves h =
      let (ready', layout, position) = moved s s' n b ready moves in
      (ready', layout, position ∙ by_outcome s.state.position n r b h)

  pub serve-Serves : (s : Session E) (r : Request) → IsReady s → Serves s r (serve s r)
  unfolding serve
  serve-Serves s (prompt tokens) ready =
      moved-Serves s _ (prompt tokens) (length tokens) _ ready
        (prefill-Moves texts ops s tokens ready) refl
  serve-Serves s (token t) ready =
      moved-Serves s _ (token t) 1 _ ready (decode-Moves texts ops s t ready) refl
  serve-Serves s (greedy t out) ready =
      moved-Serves s _ (greedy t out) (length out) _ ready
        (decode_greedy-Moves texts ops s t out ready) refl
  serve-Serves s restart ready =
      let (ready', layout, position) = reset-position texts ops s ready in
      (ready', layout, position ∙ by_restart s.state.position _)

  -- Whatever the executor does, after any sequence of requests to a ready session its host state is valid, on its old
  -- layout and inside the context, and its position is the count of the tokens of the requests
  -- that have returned since the last reset that returned.
  pub serve_all-tally :
      (s : Session E) (rs : List Request)
      → IsReady s
      → let (outcomes, s') = serve_all s rs in
        IsReady s'
        × (s'.state.layout ≡ s.state.layout)
        × (s'.state.position ≡ tally s.state.position rs outcomes)
  unfolding serve_all
  serve_all-tally s [] ready = (ready, refl, refl)
  serve_all-tally s (r ∷ rs) ready =
      let (ready', layout, position) = serve-Serves s r ready in
      let (ready'', layout', position') = serve_all-tally (serve s r).1 rs ready' in
      (
        ready'',
        layout' ∙ layout,
        position' ∙ ap (λ p. tally p rs (serve_all (serve s r).1 rs).0) position,
      )
