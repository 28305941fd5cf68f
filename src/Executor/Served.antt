-- ===== src/Executor/Served.antt =====
-- cpp/execution/qwen35_executor.cu: a sequence of buffers whose sizes were added up in the same order fits.
use raftinfer.Base.{
  ℕ, ◌+◌, ◌≤◌, ◌<◌, List, [], ◌∷◌, All, Bool-cases, ◌==◌, Result, ok, >>=-eq-ok, size_max, ◌≡◌, inl,
  inr, refl, subst, ◌∙◌, arith,
}
use raftinfer.Base.Sizes.{checked_add, checked_add-eq-ok}
use raftinfer.Workspace.{IsValid}
use raftinfer.Workspace.Place.{round_up, le-round_up}
use raftinfer.Workspace.Arena.{WorkspaceArena}
use raftinfer.Executor.Estimate.{align_up, add_all}
use raftinfer.Executor.Buffers.{BufferStep, buffer, optional, pinned, computed, run_steps}
use raftinfer.Executor.Room.{IsAlignment, align_up-round_up, allocate_aligned_fits}

-- Where the size `s` is added up, the buffer's size `r` is computed, is not zero and is no larger.
abbrev pub Covers : Result ℕ → Result ℕ → Type 0
Covers s r = (v : ℕ) → s ≡ ok v → (n : ℕ) × (r ≡ ok n) × (0 < n) × (n ≤ v)

abbrev pub Returns : Result ℕ → Type 0
Returns r = (n : ℕ) × (r ≡ ok n)

-- Each step that takes a buffer stands against a size that covers it, in order; a size that is only
-- computed returns where the sizes that are left to add up do.
abbrev pub Served : List (Result ℕ) → List BufferStep → Type 0
Served [] [] = Unit
Served [] (buffer r alignment ∷ bs) = ⊥
Served [] (optional r alignment ∷ bs) = ⊥
Served [] (pinned r ∷ bs) = (r ≡ ok tt) × Served [] bs
Served [] (computed r ∷ bs) = Returns r × Served [] bs
Served (s ∷ ss) [] = ⊥
Served (s ∷ ss) (buffer r alignment ∷ bs) = Covers s r × IsAlignment alignment × Served ss bs
Served (s ∷ ss) (optional r alignment ∷ bs) = (r ≡ s) × IsAlignment alignment × Served ss bs
Served (s ∷ ss) (pinned r ∷ bs) = (r ≡ ok tt) × Served (s ∷ ss) bs
Served (s ∷ ss) (computed r ∷ bs) = (Returns s → All Returns ss → Returns r) × Served (s ∷ ss) bs

-- One call of `add`.
record Added (total : ℕ) (s : Result ℕ) (ss : List (Result ℕ)) (sum : ℕ) : Type 0 where
  value : ℕ
  is_value : s ≡ ok value
  short : value + 255 ≤ size_max
  rest : add_all (round_up total 256 + round_up value 256) ss ≡ ok sum

add_all-Added :
    (total : ℕ) (s : Result ℕ) (ss : List (Result ℕ)) (sum : ℕ)
    → add_all total (s ∷ ss) ≡ ok sum
    → Added total s ss sum
unfolding add_all
add_all-Added total s ss sum h =
    let (value, is_value, h₁) = >>=-eq-ok s _ h in
    let (from, aligned, h₂) = >>=-eq-ok (align_up total 256) _ h₁ in
    let (rounded, value_aligned, h₃) = >>=-eq-ok (align_up value 256) _ h₂ in
    let (from_is, from_short) = align_up-round_up 8 total from (omega arith) aligned in
    let (rounded_is, short) = align_up-round_up 8 value rounded (omega arith) value_aligned in
    let (total', added, rest) = >>=-eq-ok (checked_add from rounded _) _ h₃ in
    let (is_sum, _) =
      (checked_add-eq-ok from rounded _ total' (omega (arith, from_is, from_short))).0 added in
    let same : total' ≡ round_up total 256 + round_up value 256 =
      omega (arith, is_sum, from_is, rounded_is) in
    record {
      value = value;
      is_value = is_value;
      short = omega (arith, short);
      rest = subst (λ t. add_all t ss ≡ ok sum) same rest;
    }

add_all-le : (total : ℕ) (ss : List (Result ℕ)) (sum : ℕ) → add_all total ss ≡ ok sum → total ≤ sum
unfolding add_all
add_all-le total [] sum h = ground (arith, h)
add_all-le total (s ∷ ss) sum h =
    let a = add_all-Added total s ss sum h in
    let more = add_all-le (round_up total 256 + round_up a.value 256) ss sum a.rest in
    omega (arith, more)

add_all-Returns :
    (total : ℕ) (ss : List (Result ℕ)) (sum : ℕ) → add_all total ss ≡ ok sum → All Returns ss
unfolding add_all
add_all-Returns total [] sum h = tt
add_all-Returns total (s ∷ ss) sum h =
    let a = add_all-Added total s ss sum h in
    (
      (a.value, a.is_value),
      add_all-Returns (round_up total 256 + round_up a.value 256) ss sum a.rest,
    )

-- Steps that run from an arena return.
abbrev pub Runs : WorkspaceArena → List BufferStep → Type 0
Runs arena bs =
    (addresses : List ℕ) × (arena' : WorkspaceArena) × (run_steps arena bs ≡ ok (addresses, arena'))
    × IsValid arena'.layout

-- Steps that are covered from a total that the arena has not passed return, if the whole sum is inside its capacity.
pub run_steps_fit :
    (bs : List BufferStep) (ss : List (Result ℕ)) (total sum : ℕ) (arena : WorkspaceArena)
    → Served ss bs
    → add_all total ss ≡ ok sum
    → IsValid arena.layout
    → arena.layout.used ≤ total
    → sum ≤ arena.layout.capacity
    → Runs arena bs
unfolding run_steps
run_steps_fit [] ss total sum arena served added valid behind room = ([], arena, refl, valid)
run_steps_fit (pinned r ∷ bs) [] total sum arena served added valid behind room =
    let (addresses, arena', run, valid') =
      run_steps_fit bs [] total sum arena served.1 added valid behind room in
    (addresses, arena', rw served.0 run, valid')
run_steps_fit (pinned r ∷ bs) (s ∷ ss) total sum arena served added valid behind room =
    let (addresses, arena', run, valid') =
      run_steps_fit bs (s ∷ ss) total sum arena served.1 added valid behind room in
    (addresses, arena', rw served.0 run, valid')
run_steps_fit (computed r ∷ bs) [] total sum arena served added valid behind room =
    let (addresses, arena', run, valid') =
      run_steps_fit bs [] total sum arena served.1 added valid behind room in
    (addresses, arena', rw served.0.1 run, valid')
run_steps_fit (computed r ∷ bs) (s ∷ ss) total sum arena served added valid behind room =
    let (here, later) = add_all-Returns total (s ∷ ss) sum added in
    let (n, is_n) = served.0 here later in
    let (addresses, arena', run, valid') =
      run_steps_fit bs (s ∷ ss) total sum arena served.1 added valid behind room in
    (addresses, arena', rw is_n run, valid')
run_steps_fit (buffer r alignment ∷ bs) [] total sum arena served added valid behind room =
    absurd served
run_steps_fit (buffer r alignment ∷ bs) (s ∷ ss) total sum arena served added valid behind room =
    let a = add_all-Added total s ss sum added in
    let total' = round_up total 256 + round_up a.value 256 in
    let (n, is_n, some_bytes, below) = served.0 a.value a.is_value in
    let (k, is_power, numeral) = served.1 in
    let more = add_all-le total' ss sum a.rest in
    let (address, arena₁, taken, t) =
      allocate_aligned_fits k total a.value numeral arena n valid some_bytes below a.short behind
        (omega (arith, more, room)) in
    let (addresses, arena', run, valid') =
      run_steps_fit bs ss total' sum arena₁ served.2 a.rest t.valid t.used
        (omega (arith, t.capacity, room)) in
    (address ∷ addresses, arena', rw (is_n, is_power, taken, run) refl, valid')
run_steps_fit (optional r alignment ∷ bs) [] total sum arena served added valid behind room =
    absurd served
run_steps_fit (optional r alignment ∷ bs) (s ∷ ss) total sum arena served added valid behind room =
    let a = add_all-Added total s ss sum added in
    let total' = round_up total 256 + round_up a.value 256 in
    let is_n : r ≡ ok a.value = served.0 ∙ a.is_value in
    let (k, is_power, numeral) = served.1 in
    let more = add_all-le total' ss sum a.rest in
    elim (Bool-cases (a.value == 0)) [
      | inl empty ↦
          let (addresses, arena', run, valid') =
            run_steps_fit bs ss total' sum arena served.2 a.rest valid
              (omega (arith, behind, le-round_up total 256 (omega arith))) room in
          (0 ∷ addresses, arena', rw (is_n, empty, run) refl, valid')
      | inr some_size ↦
          let (address, arena₁, taken, t) =
            allocate_aligned_fits k total a.value numeral arena a.value valid
              (ground (arith, some_size)) (omega arith) a.short behind
              (omega (arith, more, room)) in
          let (addresses, arena', run, valid') =
            run_steps_fit bs ss total' sum arena₁ served.2 a.rest t.valid t.used
              (omega (arith, t.capacity, room)) in
          (address ∷ addresses, arena', rw (is_n, some_size, is_power, taken, run) refl, valid')
    ]
