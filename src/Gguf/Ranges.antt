-- ===== src/Gguf/Ranges.antt =====
-- Sizes of tensors and the whole of read_catalog, cpp/model/gguf_reader.cpp.
use raftinfer.Base.{
  ℕ, zero, suc, ◌*◌, ◌≤◌, ◌<◌, List, [], ◌∷◌, All, length, false, Text, ok, >>=-eq-ok,
  throw_if->>-eq-ok, ◌≡◌, ◌⊎◌, sym, ap, subst, arith, ◌==◌, ◌||◌, size_max, le-div→mul-le, ◌∙◌,
}
use native.Mathlib.Nat.{mul-pos, mul_assoc}
use raftinfer.Gguf.Types.{TensorInfo, Catalog, ReaderLimits}
use raftinfer.Gguf.Reader.{Reader, mul_overflows}
use raftinfer.Gguf.Catalog.{element_size, element_count, tensor_byte_size}
use raftinfer.Gguf.Read.{read_tensor, read_tensors, read_header, read_catalog}
use raftinfer.Gguf.Spans.{Placed, Disjoint, check_spans-Disjoint}

-- The product of the dimensions, without any bound.
abbrev pub product : List ℕ → ℕ
product [] = 1
product (d ∷ ds) = d * product ds

element_size-positive :
    (type : ℕ) (name : Text) {size : ℕ} → element_size type name ≡ ok size → 0 < size
unfolding element_size
element_size-positive type name h = ground arith

element_count-positive :
    (name : Text) (ds : List ℕ) (n : ℕ) {elements : ℕ}
    → 0 < n
    → element_count name ds n ≡ ok elements
    → 0 < elements
unfolding element_count
element_count-positive name [] n positive h = ground arith
element_count-positive name (d ∷ ds) n positive h =
    let (fits, rest) = throw_if->>-eq-ok (d == 0 || mul_overflows n d) _ _ h in
    let nonzero : 0 < d = ground (arith, fits) in
    element_count-positive name ds (n * d) (mul-pos positive nonzero) rest

tensor_byte_size-positive :
    (type : ℕ) (ds : List ℕ) (name : Text) {size : ℕ}
    → tensor_byte_size type ds name ≡ ok size
    → 0 < size
unfolding tensor_byte_size
tensor_byte_size-positive type ds name h =
    let (size, sized, more) = >>=-eq-ok _ _ h in
    let (elements, counted, last) = >>=-eq-ok _ _ more in
    let (fits, result) =
      throw_if->>-eq-ok (mul_overflows elements size) _ (ok (elements * size)) last in
    let positive =
      mul-pos (element_count-positive name ds 1 (omega arith) counted)
        (element_size-positive type name sized) in
    ground (arith, positive, result)

element_count-product :
    (name : Text) (ds : List ℕ) (n elements : ℕ)
    → element_count name ds n ≡ ok elements
    → (elements ≡ n * product ds) × All (λ d. 0 < d) ds
unfolding element_count
element_count-product name [] n elements h = ground arith
element_count-product name (d ∷ ds) n elements h =
    let (fits, rest) =
      throw_if->>-eq-ok (d == 0 || mul_overflows n d) _ (element_count name ds (n * d)) h in
    let (same, nonzero) = element_count-product name ds (n * d) elements rest in
    let here : 0 < d = ground (arith, fits) in
    (omega (arith, same, mul_assoc n d (product ds)), (here, nonzero))

mul_overflows-false : (a b : ℕ) → 0 < a → mul_overflows a b ≡ false → a * b ≤ size_max
mul_overflows-false a b positive h = le-div→mul-le size_max a b positive (ground (arith, h))

sized_by :
    (type : ℕ) (name : Text) (width size n : ℕ)
    → element_size type name ≡ ok width
    → size ≡ n * width
    → ((type ≡ 0) × (size ≡ n * 4)) ⊎ (((type ≡ 1) ⊎ (type ≡ 30)) × (size ≡ n * 2))
unfolding element_size
sized_by type name width size n h e = ground (arith, h, e)

-- A byte size that tensor_byte_size returns is the true product of the dimensions, none of them
-- zero, and the size of an element (4 bytes for type 0, 2 for types 1 and 30; no other type has
-- one), and it fits 64 bits.
pub tensor_byte_size-product :
    (type : ℕ) (ds : List ℕ) (name : Text) (size : ℕ)
    → tensor_byte_size type ds name ≡ ok size
    → (((type ≡ 0) × (size ≡ product ds * 4))
        ⊎ (((type ≡ 1) ⊎ (type ≡ 30)) × (size ≡ product ds * 2)))
      × All (λ d. 0 < d) ds
      × (size ≤ size_max)
unfolding tensor_byte_size
tensor_byte_size-product type ds name size h =
    let (width, sized, more) = >>=-eq-ok _ _ h in
    let (elements, counted, last) = >>=-eq-ok _ _ more in
    let (fits, result) =
      throw_if->>-eq-ok (mul_overflows elements width) _ (ok (elements * width)) last in
    let (same, nonzero) = element_count-product name ds 1 elements counted in
    let positive : 0 < elements = element_count-positive name ds 1 (omega arith) counted in
    let bounded : elements * width ≤ size_max = mul_overflows-false elements width positive fits in
    let whole : elements ≡ product ds = omega (arith, same) in
    let value : elements * width ≡ size = ground (arith, result) in
    let is_size : size ≡ product ds * width = sym value ∙ ap (λ n. n * width) whole in
    (
      sized_by type name width size (product ds) sized is_size,
      nonzero,
      omega (arith, value, bounded),
    )

module _ (file : List ℕ) (limits : ReaderLimits) (value_size : ℕ) where
  read_tensor-positive :
      (names : List Text) (r : Reader) {t : TensorInfo} {r' : Reader}
      → read_tensor file limits value_size names r ≡ ok (t, r')
      → 0 < t.byte_size
  unfolding read_tensor
  read_tensor-positive names r h = grind (arith, tensor_byte_size-positive)

  read_tensors-positive :
      (count : ℕ) (names : List Text) (r r' : Reader) (ts : List TensorInfo)
      → read_tensors file limits value_size count names r ≡ ok (ts, r')
      → All (λ t. 0 < t.byte_size) ts
  unfolding read_tensors
  read_tensors-positive zero names r r' ts h =
      let same : [] ≡ ts = ground (arith, h) in subst (All (λ t. 0 < t.byte_size)) same tt
  read_tensors-positive (suc count) names r r' ts h =
      let (first, one, more) = >>=-eq-ok _ _ h in
      let (rest, others, last) = >>=-eq-ok _ _ more in
      let same : (first.0 ∷ rest.0) ≡ ts = ground (arith, last) in
      subst (All (λ t. 0 < t.byte_size)) same (
        read_tensor-positive names r one,
        read_tensors-positive count (first.0.name ∷ names) first.1 rest.1 rest.0 others,
      )

  read_header-positive :
      (catalog : Catalog) (r : Reader)
      → read_header file limits value_size ≡ ok (catalog, r)
      → All (λ t. 0 < t.byte_size) catalog.tensors
  unfolding read_header
  read_header-positive catalog r h = grind (arith, read_tensors-positive)

  -- In a catalog that read_catalog returns, each tensor begins at a multiple of the alignment
  -- behind the data offset and ends inside the file, and no two tensors share a byte.
  pub read_catalog-Disjoint :
      (catalog : Catalog)
      → read_catalog file limits value_size ≡ ok catalog
      → All (Placed (length file) catalog) catalog.tensors × Disjoint catalog catalog.tensors
  unfolding read_catalog
  read_catalog-Disjoint catalog h =
      let (header, read, more) = >>=-eq-ok _ _ h in
      let (checked, passed, last) = >>=-eq-ok _ _ more in
      let same : header.0 ≡ catalog = ground (arith, last) in
      subst (λ c. All (Placed (length file) c) c.tensors × Disjoint c c.tensors) same
        (check_spans-Disjoint (length file) header.0 (read_header-positive header.0 header.1 read)
          passed)
