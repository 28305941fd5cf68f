-- ===== src/Operators/Exact.antt =====
-- cpp/operators/tensor_validation.cpp: which descriptions are accepted.
use raftinfer.Base.{
  ℕ, ◌+◌, ◌≤◌, ◌<◌, true, false, not, ◌||◌, ltb, ◌==◌, ok, size_max, ◌≡◌, ◌⊎◌, inl, inr, ◌↔◌, refl,
  arith, >>=-eq-ok, throw_if->>-eq-ok, throw_if-eq-ok,
}
use raftinfer.Operators.{
  TensorDesc, is_null, is_known_dtype, is_known_quant, is_known_memory, element_size,
  validate_common_metadata, required_bytes, validate_unquantized_tensor, validate_quantized_tensor,
  validate_tensor_desc,
}
use raftinfer.Operators.Sums.{
  offset_from, InShape, Positive, last_index, last_index-InShape, offset_from-last,
  require_positive-Positive, required_bytes-eq-ok,
}

-- Every element of the tensor, of `size` bytes, lies inside its bytes.
abbrev pub Fits : TensorDesc → ℕ → Type 0
Fits desc size =
    (at : ℕ → ℕ)
    → InShape desc.shape at desc.rank 0
    → offset_from desc.strides at desc.rank 0 + size ≤ desc.byte_size

-- What a plain tensor has to have.
pub record IsPlain (desc : TensorDesc) : Type 0 where
  pub size : ℕ
  pub sized : ((desc.dtype ≡ 1) × (size ≡ 4)) ⊎ (((desc.dtype ≡ 2) ⊎ (desc.dtype ≡ 3)) × (size ≡ 2))
  pub strides : Positive desc.strides desc.rank 0
  pub fits : Fits desc size

pub record IsQ4K (desc : TensorDesc) : Type 0 where
  pub scales : is_null desc.scales ≡ false
  pub bytes : 0 < desc.byte_size
  pub dtype : desc.dtype ≡ 100

pub record IsDescribed (desc : TensorDesc) : Type 0 where
  pub address : is_null desc.address ≡ false
  pub rank : (0 < desc.rank) × (desc.rank ≤ 4)
  pub memory : (desc.memory ≡ 0) ⊎ (desc.memory ≡ 1)
  pub shape : Positive desc.shape desc.rank 0
  pub format : ((desc.quant ≡ 0) × IsPlain desc) ⊎ ((desc.quant ≡ 1) × IsQ4K desc)

element_size-eq-ok :
    (dtype size : ℕ)
    → (element_size dtype ≡ ok size)
      ↔ (((dtype ≡ 1) × (size ≡ 4)) ⊎ (((dtype ≡ 2) ⊎ (dtype ≡ 3)) × (size ≡ 2)))
unfolding element_size
element_size-eq-ok dtype size = (λ h. ground (arith, h), λ h. ground (arith, h))

validate_unquantized-IsPlain :
    (desc : TensorDesc)
    → desc.byte_size ≤ size_max
    → desc.quant ≡ 0
    → Positive desc.shape desc.rank 0
    → (validate_unquantized_tensor desc ≡ ok tt) ↔ IsPlain desc
unfolding validate_unquantized_tensor
validate_unquantized-IsPlain desc bounded plain shape =
    let last = offset_from desc.strides (last_index desc.shape) desc.rank 0 in
    let known : not (desc.quant == 0) ≡ false = ground (arith, plain) in
    let end_of = λ (size : ℕ). required_bytes desc.shape desc.strides desc.rank 0 size in
    (
      λ h.
          let (_, more) = throw_if->>-eq-ok (not (desc.quant == 0)) _ _ h in
          let (size, sized, rest) = >>=-eq-ok (element_size desc.dtype) _ more in
          let (required, counted, enough) = >>=-eq-ok (end_of size) _ rest in
          let kind = (element_size-eq-ok desc.dtype size).0 sized in
          let small : size ≤ size_max = ground (arith, kind) in
          let (strides, same, _) =
            (required_bytes-eq-ok desc.shape desc.strides desc.rank 0 size required small).0
              counted in
          let within : ltb desc.byte_size required ≡ false = throw_if-eq-ok _ _ enough in
          let total : required ≤ desc.byte_size = ground (arith, within) in
          record {
            size = size;
            sized = kind;
            strides = strides;
            fits = λ at inside. omega (
              arith,
              same,
              total,
              offset_from-last desc.shape desc.strides at desc.rank 0 inside,
            );
          },
      λ p.
          let size = p.size in
          let sized : element_size desc.dtype ≡ ok size =
            (element_size-eq-ok desc.dtype size).1 p.sized in
          let small : size ≤ size_max = ground (arith, p.sized) in
          let within : last + size ≤ desc.byte_size =
            p.fits (last_index desc.shape) (last_index-InShape desc.shape desc.rank 0 shape) in
          let counted : end_of size ≡ ok (size + last) =
            (required_bytes-eq-ok desc.shape desc.strides desc.rank 0 size (size + last) small).1
              (p.strides, refl, omega (arith, within, bounded)) in
          let enough : ltb desc.byte_size (size + last) ≡ false = ground (arith, within) in
          rw (known, sized, counted, enough) refl,
    )

validate_quantized-IsQ4K :
    (desc : TensorDesc) → desc.quant ≡ 1 → (validate_quantized_tensor desc ≡ ok tt) ↔ IsQ4K desc
unfolding validate_quantized_tensor
validate_quantized-IsQ4K desc quantized = (
  λ h.
      let (scales, more) = throw_if->>-eq-ok (is_null desc.scales) _ _ h in
      record { scales = scales; bytes = ground (arith, more); dtype = ground (arith, more) },
  λ q. rw q.scales (ground (arith, q.bytes, q.dtype, quantized)),
)

validate_common-parts :
    (desc : TensorDesc)
    → (validate_common_metadata desc ≡ ok tt) ↔ (
        (is_null desc.address ≡ false)
        × ((0 < desc.rank) × (desc.rank ≤ 4))
        × (is_known_dtype desc.dtype ≡ true)
        × ((desc.quant ≡ 0) ⊎ (desc.quant ≡ 1))
        × ((desc.memory ≡ 0) ⊎ (desc.memory ≡ 1))
        × Positive desc.shape desc.rank 0)
unfolding validate_common_metadata
validate_common-parts desc =
    let (forth, back) = require_positive-Positive desc.shape desc.rank 0 in
    (
      λ h.
          let (address, h₁) = throw_if->>-eq-ok (is_null desc.address) _ _ h in
          let (rank, h₂) = throw_if->>-eq-ok (desc.rank == 0 || ltb 4 desc.rank) _ _ h₁ in
          let (dtype, h₃) = throw_if->>-eq-ok (not (is_known_dtype desc.dtype)) _ _ h₂ in
          let (quant, h₄) = throw_if->>-eq-ok (not (is_known_quant desc.quant)) _ _ h₃ in
          let (memory, h₅) = throw_if->>-eq-ok (not (is_known_memory desc.memory)) _ _ h₄ in
          (
            address,
            (ground (arith, rank), ground (arith, rank)),
            ground (arith, dtype),
            ground (arith, quant),
            ground (arith, memory),
            forth h₅,
          ),
      λ p.
          let rank : (desc.rank == 0 || ltb 4 desc.rank) ≡ false = ground (arith, p.1) in
          let dtype : not (is_known_dtype desc.dtype) ≡ false = ground (arith, p.2) in
          let quant : not (is_known_quant desc.quant) ≡ false = ground (arith, p.3) in
          let memory : not (is_known_memory desc.memory) ≡ false = ground (arith, p.4) in
          rw (p.0, rank, dtype, quant, memory) (back p.5),
    )

-- A description whose number of bytes fits std::size_t is accepted exactly if the address is given,
-- there are 1 to 4 dimensions, all positive, the memory has a name, and either the format is plain, the
-- type F32, F16 or BF16, the strides are positive and every element lies inside the bytes, or format
-- and type are Q4_K, the scales are given and there is a byte.
pub validate_tensor_desc-IsDescribed :
    (desc : TensorDesc)
    → desc.byte_size ≤ size_max
    → (validate_tensor_desc desc ≡ ok tt) ↔ IsDescribed desc
unfolding validate_tensor_desc
validate_tensor_desc-IsDescribed desc bounded = (
  λ h.
      let (done, common, rest) = >>=-eq-ok (validate_common_metadata desc) _ h in
      let parts = (validate_common-parts desc).0 common in
      record {
        address = parts.0;
        rank = parts.1;
        memory = parts.4;
        shape = parts.5;
        format = elim parts.3 [
          | inl plain ↦ inl (
            plain,
            (validate_unquantized-IsPlain desc bounded plain parts.5).0
                (ground (arith, rest, plain)),
          )
          | inr quantized ↦ inr (
            quantized,
            (validate_quantized-IsQ4K desc quantized).0 (ground (arith, rest, quantized)),
          )
        ];
      },
  λ d. elim d.format [
    | inl (plain, p) ↦
        let test : (desc.quant == 0) ≡ true = ground (arith, plain) in
        let known : is_known_dtype desc.dtype ≡ true = ground (arith, p.sized) in
        let common : validate_common_metadata desc ≡ ok tt =
          (validate_common-parts desc).1 (d.address, d.rank, known, inl plain, d.memory, d.shape) in
        rw (common, test) ((validate_unquantized-IsPlain desc bounded plain d.shape).1 p)
    | inr (quantized, q) ↦
        let test : (desc.quant == 0) ≡ false = ground (arith, quantized) in
        let known : is_known_dtype desc.dtype ≡ true = ground (arith, q.dtype) in
        let common : validate_common_metadata desc ≡ ok tt =
          (validate_common-parts desc).1
            (d.address, d.rank, known, inr quantized, d.memory, d.shape) in
        rw (common, test) ((validate_quantized-IsQ4K desc quantized).1 q)
  ],
)
