-- ===== src/Gguf/Spans.antt =====
-- The ranges of the tensors in read_catalog of cpp/model/gguf_reader.cpp.
use raftinfer.Base.{
  ℕ, ◌+◌, ◌%◌, ◌≤◌, ◌<◌, List, [], ◌∷◌, All, All-map, ltb, ok, >>=-eq-ok, throw_if->>-eq-ok, ◌≡◌,
  ◌⊎◌, map, inl, inr, sym, subst, arith, Bool-cases, if◌then◌else◌,
}
use raftinfer.Gguf.Types.{TensorInfo, Catalog}
use raftinfer.Gguf.Catalog.{
  Span, tensor_span, tensor_spans, insert_span, sort_spans, check_neighbours, check_spans,
}

-- Each span ends before every later one begins.
abbrev InOrder : List Span → Type 0
InOrder [] = Unit
InOrder (s ∷ ss) = All (λ t. s.end ≤ t.begin) ss × InOrder ss

abbrev NonEmpty : Span → Type 0
NonEmpty s = s.begin < s.end

-- From neighbours to all.
InOrder_head :
    (s t : Span) (ts : List Span)
    → s.end ≤ t.begin
    → NonEmpty t
    → All (λ u. t.end ≤ u.begin) ts
    → All (λ u. s.end ≤ u.begin) (t ∷ ts)
InOrder_head s t ts h nonempty later = (h, All-map (λ u le. omega arith) ts later)

check_neighbours-InOrder :
    (ss : List Span) → All NonEmpty ss → check_neighbours ss ≡ ok tt → InOrder ss
unfolding check_neighbours
check_neighbours-InOrder [] nonempty h = tt
check_neighbours-InOrder (s ∷ []) nonempty h = (tt, tt)
check_neighbours-InOrder (s ∷ (t ∷ ts)) nonempty h =
    let (apart, rest) = throw_if->>-eq-ok (ltb t.begin s.end) _ _ h in
    let gap : s.end ≤ t.begin = ground (arith, apart) in
    let later = check_neighbours-InOrder (t ∷ ts) nonempty.1 rest in
    (InOrder_head s t ts gap nonempty.1.0 later.0, later)

-- Disjointness of all pairs does not depend on the order.
abbrev Apart : Span → Span → Type 0
Apart s t = (s.end ≤ t.begin) ⊎ (t.end ≤ s.begin)

abbrev Pairwise : List Span → Type 0
Pairwise [] = Unit
Pairwise (s ∷ ss) = All (Apart s) ss × Pairwise ss

InOrder-Pairwise : (ss : List Span) → InOrder ss → Pairwise ss
InOrder-Pairwise [] h = tt
InOrder-Pairwise (s ∷ ss) h = (All-map (λ t le. inl le) ss h.0, InOrder-Pairwise ss h.1)

insert_span-All :
    (P : Span → Type 0) (s : Span) (ss : List Span) → All P (insert_span s ss) → P s × All P ss
unfolding insert_span
insert_span-All P s [] h = h
insert_span-All P s (t ∷ ts) h = elim (Bool-cases (ltb t.begin s.begin)) [
  | inl before ↦
      let later = subst (λ b. All P (if b then t ∷ insert_span s ts else s ∷ (t ∷ ts))) before h in
      let rest = insert_span-All P s ts later.1 in (rest.0, (later.0, rest.1))
  | inr first ↦ subst (λ b. All P (if b then t ∷ insert_span s ts else s ∷ (t ∷ ts))) first h
]

Apart-swap : (a b : Span) → Apart a b → Apart b a
Apart-swap a b (inl h) = inr h
Apart-swap a b (inr h) = inl h

insert_span-Pairwise :
    (s : Span) (ss : List Span) → Pairwise (insert_span s ss) → All (Apart s) ss × Pairwise ss
unfolding insert_span
insert_span-Pairwise s [] h = h
insert_span-Pairwise s (t ∷ ts) h = elim (Bool-cases (ltb t.begin s.begin)) [
  | inl before ↦
      let later =
        subst (λ b. Pairwise (if b then t ∷ insert_span s ts else s ∷ (t ∷ ts))) before h in
      let rest = insert_span-Pairwise s ts later.1 in
      let apart = insert_span-All (Apart t) s ts later.0 in
      ((Apart-swap t s apart.0, rest.0), (apart.1, rest.1))
  | inr first ↦ subst (λ b. Pairwise (if b then t ∷ insert_span s ts else s ∷ (t ∷ ts))) first h
]

sort_spans-All : (P : Span → Type 0) (ss : List Span) → All P (sort_spans ss) → All P ss
unfolding sort_spans
sort_spans-All P [] h = tt
sort_spans-All P (s ∷ ss) h =
    let (here, rest) = insert_span-All P s (sort_spans ss) h in (here, sort_spans-All P ss rest)

All-insert_span :
    (P : Span → Type 0) (s : Span) (ss : List Span) → P s → All P ss → All P (insert_span s ss)
unfolding insert_span
All-insert_span P s [] here h = (here, h)
All-insert_span P s (t ∷ ts) here h = elim (Bool-cases (ltb t.begin s.begin)) [
  | inl before ↦
      subst (λ b. All P (if b then t ∷ insert_span s ts else s ∷ (t ∷ ts))) (sym before)
        (h.0, All-insert_span P s ts here h.1)
  | inr first ↦
      subst (λ b. All P (if b then t ∷ insert_span s ts else s ∷ (t ∷ ts))) (sym first) (here, h)
]

All-sort_spans : (P : Span → Type 0) (ss : List Span) → All P ss → All P (sort_spans ss)
unfolding sort_spans
All-sort_spans P [] h = tt
All-sort_spans P (s ∷ ss) h = All-insert_span P s (sort_spans ss) h.0 (All-sort_spans P ss h.1)

sort_spans-Pairwise : (ss : List Span) → Pairwise (sort_spans ss) → Pairwise ss
unfolding sort_spans
sort_spans-Pairwise [] h = tt
sort_spans-Pairwise (s ∷ ss) h =
    let (apart, rest) = insert_span-Pairwise s (sort_spans ss) h in
    (sort_spans-All (Apart s) ss apart, sort_spans-Pairwise ss rest)

-- The range of a tensor's bytes in the file.
abbrev pub begin_of : Catalog → TensorInfo → ℕ
begin_of catalog t = catalog.tensor_data_offset + t.offset

abbrev pub end_of : Catalog → TensorInfo → ℕ
end_of catalog t = begin_of catalog t + t.byte_size

abbrev pub Placed : ℕ → Catalog → TensorInfo → Type 0
Placed file_size catalog t = (t.offset % catalog.alignment ≡ 0) × (end_of catalog t ≤ file_size)

-- No byte of the file belongs to two tensors.
abbrev pub Disjoint : Catalog → List TensorInfo → Type 0
Disjoint catalog [] = Unit
Disjoint catalog (t ∷ ts) =
    All (λ u. (end_of catalog t ≤ begin_of catalog u) ⊎ (end_of catalog u ≤ begin_of catalog t)) ts
    × Disjoint catalog ts

abbrev span_of : Catalog → TensorInfo → Span
span_of catalog t = record { begin = begin_of catalog t; end = end_of catalog t; name = t.name }

tensor_span-Placed :
    (file_size : ℕ) (catalog : Catalog) (t : TensorInfo) (s : Span)
    → tensor_span file_size catalog.alignment catalog.tensor_data_offset t ≡ ok s
    → Placed file_size catalog t × (span_of catalog t ≡ s)
unfolding tensor_span
tensor_span-Placed file_size catalog t s h = ground arith

tensor_spans-Placed :
    (file_size : ℕ) (catalog : Catalog) (ts : List TensorInfo) (ss : List Span)
    → tensor_spans file_size catalog.alignment catalog.tensor_data_offset ts ≡ ok ss
    → All (Placed file_size catalog) ts × (map (span_of catalog) ts ≡ ss)
unfolding tensor_spans
tensor_spans-Placed file_size catalog [] ss h = (tt, cc h)
tensor_spans-Placed file_size catalog (t ∷ ts) ss h =
    let (s, first, more) = >>=-eq-ok _ _ h in
    let (rest, others, last) = >>=-eq-ok _ _ more in
    let placed = tensor_span-Placed file_size catalog t s first in
    let later = tensor_spans-Placed file_size catalog ts rest others in
    let same : (span_of catalog t ∷ map (span_of catalog) ts) ≡ ss =
      ground (arith, placed.1, later.1, last) in
    ((placed.0, later.0), same)

NonEmpty-map :
    (catalog : Catalog) (ts : List TensorInfo)
    → All (λ t. 0 < t.byte_size) ts
    → All NonEmpty (map (span_of catalog) ts)
NonEmpty-map catalog [] h = tt
NonEmpty-map catalog (t ∷ ts) h = (omega (arith, h.0), NonEmpty-map catalog ts h.1)

All-Disjoint :
    (catalog : Catalog) (t : TensorInfo) (ts : List TensorInfo)
    → All (Apart (span_of catalog t)) (map (span_of catalog) ts)
    → All
        (λ u. (end_of catalog t ≤ begin_of catalog u) ⊎ (end_of catalog u ≤ begin_of catalog t))
        ts
All-Disjoint catalog t [] h = tt
All-Disjoint catalog t (u ∷ ts) h = (h.0, All-Disjoint catalog t ts h.1)

Pairwise-Disjoint :
    (catalog : Catalog) (ts : List TensorInfo)
    → Pairwise (map (span_of catalog) ts)
    → Disjoint catalog ts
Pairwise-Disjoint catalog [] h = tt
Pairwise-Disjoint catalog (t ∷ ts) h =
    (All-Disjoint catalog t ts h.0, Pairwise-Disjoint catalog ts h.1)

-- Where the last tests on a catalog of tensors that are not empty succeed, each tensor is aligned and
-- inside the file, and no two share a byte.
pub check_spans-Disjoint :
    (file_size : ℕ) (catalog : Catalog)
    → All (λ t. 0 < t.byte_size) catalog.tensors
    → check_spans file_size catalog ≡ ok tt
    → All (Placed file_size catalog) catalog.tensors × Disjoint catalog catalog.tensors
unfolding check_spans
check_spans-Disjoint file_size catalog positive h =
    let (inside, more) = throw_if->>-eq-ok _ _ _ h in
    let (ss, spans, sorted) = >>=-eq-ok _ _ more in
    let (placed, same) = tensor_spans-Placed file_size catalog catalog.tensors ss spans in
    let nonempty : All NonEmpty (sort_spans ss) =
      All-sort_spans NonEmpty ss
        (subst (All NonEmpty) same (NonEmpty-map catalog catalog.tensors positive)) in
    let apart : Pairwise ss = sort_spans-Pairwise ss (
      InOrder-Pairwise (sort_spans ss)
        (check_neighbours-InOrder (sort_spans ss) nonempty sorted)) in
    (placed, Pairwise-Disjoint catalog catalog.tensors (subst Pairwise (sym same) apart))
