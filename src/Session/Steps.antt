-- ===== src/Session/Steps.antt =====
-- cpp/execution/session.cpp: what validate_request accepts, and what a call does to the host state.
use native.Mathlib.Nat.{mod-eq_of_lt}
use raftinfer.Base.{
  ℕ, ◌+◌, ◌-◌, ◌%◌, ◌^◌, ◌≤◌, ◌<◌, ◌≡◌, ◌↔◌, refl, List, [], ◌∷◌, length, All, true, false, some,
  arith, u32_max, ok, leb, ltb, throw_if->>-eq-ok,
}
use raftinfer.Base.Int.{ℤ, pos, negsuc}
use raftinfer.Model.Config.{Qwen35Config}
use raftinfer.State.Host.{Qwen35HostState, commit_tokens}
use raftinfer.State.Host.Commit.{IsValid, advance, commit_tokens-advance}
use raftinfer.Session.{Session, room, require_tokens, validate_request, is_empty}
use raftinfer.Session.What.{LibraryTexts}
use raftinfer.Session.Calls.{commit}

-- A token of the vocabulary.
abbrev pub InVocabulary : ℕ → ℤ → Type 0
InVocabulary vocabulary (pos n) = n < vocabulary
InVocabulary vocabulary (negsuc n) = 1 ≤ 0

-- The request of a caller who may: some tokens, all of the vocabulary, for which there is room.
pub record IsAllowed (config : Qwen35Config) (s : Qwen35HostState) (tokens : List ℤ) : Type 0 where
  pub some_tokens : 0 < length tokens
  pub fits : s.position + length tokens ≤ s.layout.max_context_tokens
  pub known : All (InVocabulary config.vocabulary_size) tokens

-- The host state is valid, and its context length fits 32 bits.
pub record IsReady {E : Type 0} (s : Session E) : Type 0 where
  pub valid : IsValid s.state
  pub word : s.state.layout.max_context_tokens ≤ u32_max

require_tokens-known :
    (vocabulary : ℕ) (tokens : List ℤ)
    → require_tokens vocabulary tokens ≡ ok tt
    → All (InVocabulary vocabulary) tokens
unfolding require_tokens
require_tokens-known vocabulary [] h = tt
require_tokens-known vocabulary (negsuc n ∷ tokens) h = cc h
require_tokens-known vocabulary (pos n ∷ tokens) h =
    let (below, rest) =
      throw_if->>-eq-ok (leb vocabulary n) _ (require_tokens vocabulary tokens) h in
    (ground (arith, below), require_tokens-known vocabulary tokens rest)

require_tokens-returns :
    (vocabulary : ℕ) (tokens : List ℤ)
    → All (InVocabulary vocabulary) tokens
    → require_tokens vocabulary tokens ≡ ok tt
unfolding require_tokens
require_tokens-returns vocabulary [] all = refl
require_tokens-returns vocabulary (negsuc n ∷ tokens) all = absurd (omega (arith, all.0))
require_tokens-returns vocabulary (pos n ∷ tokens) all =
    let rest = require_tokens-returns vocabulary tokens all.1 in ground (arith, rest, all.0)

pub room-minus :
    (s : Qwen35HostState)
    → s.position ≤ s.layout.max_context_tokens
    → s.layout.max_context_tokens ≤ u32_max
    → room s ≡ s.layout.max_context_tokens - s.position
unfolding room
room-minus s within word = omega (arith, within, word)

is_empty-length {ℓ} : {A : Type ℓ} (xs : List A) → is_empty xs ≡ false → 0 < length xs
is_empty-length [] h = cc h
is_empty-length (x ∷ xs) h = omega arith

is_empty-false {ℓ} : {A : Type ℓ} (xs : List A) → 0 < length xs → is_empty xs ≡ false
is_empty-false [] h = absurd (omega arith)
is_empty-false (x ∷ xs) h = refl

-- On a host state inside its context, whose length fits 32 bits, `validate_request` returns exactly for a nonempty
-- list of tokens, all of the vocabulary, that fits the rest of the context.
pub validate_request-IsAllowed :
    (config : Qwen35Config) (s : Qwen35HostState) (tokens : List ℤ)
    → s.position ≤ s.layout.max_context_tokens
    → s.layout.max_context_tokens ≤ u32_max
    → (validate_request config s tokens ≡ ok tt) ↔ IsAllowed config s tokens
unfolding validate_request
validate_request-IsAllowed config s tokens within word = (accepted, accepts)
  where
    minus : room s ≡ s.layout.max_context_tokens - s.position
    minus = room-minus s within word

    accepted : validate_request config s tokens ≡ ok tt → IsAllowed config s tokens
    accepted h =
        let (nonempty, h₁) = throw_if->>-eq-ok (is_empty tokens) _ _ h in
        let (room_left, h₂) = throw_if->>-eq-ok (ltb (room s) (length tokens)) _ _ h₁ in
        record {
          some_tokens = is_empty-length tokens nonempty;
          fits = ground (arith, room_left, minus, within);
          known = require_tokens-known config.vocabulary_size tokens h₂;
        }

    accepts : IsAllowed config s tokens → validate_request config s tokens ≡ ok tt
    accepts allowed = ground (
      arith,
      is_empty-false tokens allowed.some_tokens,
      minus,
      allowed.fits,
      require_tokens-returns config.vocabulary_size tokens allowed.known,
    )

commit-ok {ℓ} :
    {E : Type 0} {A : Type ℓ} (texts : LibraryTexts) (s : Session E) (count : ℕ) (e : E) (value : A)
    (state : Qwen35HostState)
    → commit_tokens s.state (count % 2 ^ 32) ≡ ok state
    → commit texts s count e (ok value) ≡ (ok value, record s { state = state; executor = some e })
unfolding commit
commit-ok texts s count e value state h = rw (commit, h) refl

-- The commit behind a successful call of the executor never throws.
pub commit-advance {ℓ} :
    {E : Type 0} {A : Type ℓ} (texts : LibraryTexts) (s : Session E) (count : ℕ) (e : E) (value : A)
    → IsReady s
    → s.state.position + count ≤ s.state.layout.max_context_tokens
    → commit texts s count e (ok value) ≡ (
      ok value,
      record s { state = advance s.state (s.state.position + count); executor = some e },
    )
commit-advance texts s count e value ready fits =
    let small : count % 2 ^ 32 ≡ count =
      mod-eq_of_lt {n = count} {m = 2 ^ 32} (omega (arith, fits, ready.word)) in
    let room_left : leb (s.state.position + count) s.state.layout.max_context_tokens ≡ true =
      ground (arith, fits) in
    commit-ok texts s count e value (advance s.state (s.state.position + count))
      (rw (small, commit_tokens-advance s.state count ready.valid ready.word, room_left) refl)
