-- ===== src/Model/Tensors.antt =====
-- Model::tensor_payload of cpp/model/model.cpp, on a model whose catalog has been read.
use raftinfer.Base.{
  ℕ, ◌-◌, ◌≤◌, List, [], ◌∷◌, All, length, Option, none, some, true, false, &&-eq-true, ltb, ◌==◌,
  ==_refl, Bool-cases, Text, ok, err, size_max, ◌≡◌, ◌≢◌, ◌⊎◌, inl, inr, refl, ap, subst, ◌++◌,
  arith, bytes, model_io_error,
}
use raftinfer.Base.Texts.{text_eq, text_eq-eq, text_eq_self}
use raftinfer.Gguf.Types.{TensorInfo, Catalog, default_limits}
use raftinfer.Gguf.Read.{read_catalog}
use raftinfer.Gguf.Spans.{Placed, begin_of, end_of}
use raftinfer.Gguf.Ranges.{read_catalog-Disjoint}
use raftinfer.Model.Manifest.{find_tensor}
use raftinfer.Model.File.{Model, checked_add_u64, same_descriptor, belongs, tensor_payload}

-- A tensor that is found satisfies what all tensors do, and has the name that was asked for.
pub find_tensor-All :
    (P : TensorInfo → Type 0) (ts : List TensorInfo) (name : Text) {t : TensorInfo}
    → All P ts
    → find_tensor ts name ≡ some t
    → P t × (t.name ≡ name)
find_tensor-All P [] name all h = cc
find_tensor-All P (u ∷ us) name {t} all h = elim (Bool-cases (text_eq u.name name)) [
  | inl same ↦
      let here : u ≡ t = ground (arith, h, same) in
      subst (λ (v : TensorInfo). P v × (v.name ≡ name)) here (all.0, text_eq-eq u.name name same)
  | inr other ↦ find_tensor-All P us name all.1 (ground (arith, h, other))
]

same_descriptor-eq : (a b : TensorInfo) → a.name ≡ b.name → same_descriptor a b ≡ true → a ≡ b
unfolding same_descriptor
same_descriptor-eq a b name h =
    let (dimensions, h₁) = &&-eq-true (text_eq a.dimensions b.dimensions) _ h in
    let (type, h₂) = &&-eq-true (a.type == b.type) _ h₁ in
    let (offset, byte_size) = &&-eq-true (a.offset == b.offset) (a.byte_size == b.byte_size) h₂ in
    let dims = text_eq-eq a.dimensions b.dimensions dimensions in
    ground (arith, name, dims, type, offset, byte_size)

same_descriptor_self : (a : TensorInfo) → same_descriptor a a ≡ true
unfolding same_descriptor
same_descriptor_self a =
    rw (text_eq_self a.dimensions, ==_refl a.type, ==_refl a.offset, ==_refl a.byte_size) refl

belongs-eq :
    (found : Option TensorInfo) (tensor : TensorInfo)
    → ((t : TensorInfo) → found ≡ some t → t.name ≡ tensor.name)
    → belongs found tensor ≡ true
    → found ≡ some tensor
belongs-eq none tensor named h = cc
belongs-eq (some t) tensor named h = ap some (same_descriptor-eq t tensor (named t refl) h)

belongs_self :
    (found : Option TensorInfo) (tensor : TensorInfo)
    → found ≡ some tensor
    → belongs found tensor ≡ true
belongs_self found tensor h = rw h (same_descriptor_self tensor)

-- Where a tensor's payload lies in the file.
abbrev pub payload_of : Catalog → TensorInfo → ℕ × ℕ
payload_of catalog t = (begin_of catalog t, t.byte_size)

-- For a model whose catalog has been read from its file, and any description of a tensor: if the catalog has
-- just this tensor under its name, the payload is returned, lies where the catalog places it and ends inside
-- the file; if not, the call throws that the description does not belong to the model. No third thing
-- happens.
pub tensor_payload-Placed :
    (value_size : ℕ) (m : Model) (tensor : TensorInfo)
    → length m.file.content ≡ m.file.size
    → m.file.size ≤ size_max
    → read_catalog m.file.content default_limits value_size ≡ ok m.catalog
    → ((find_tensor m.catalog.tensors tensor.name ≡ some tensor)
        × (tensor_payload m tensor ≡ ok (payload_of m.catalog tensor))
        × (end_of m.catalog tensor ≤ m.file.size))
      ⊎ ((find_tensor m.catalog.tensors tensor.name ≢ some tensor)
          × (tensor_payload m tensor
              ≡ err (
                  model_io_error
                    (bytes "GGUF tensor descriptor does not belong to model: " ++ tensor.name))))
unfolding tensor_payload checked_add_u64
tensor_payload-Placed value_size m tensor content fits read =
    let (placed, _) =
      read_catalog-Disjoint m.file.content default_limits value_size m.catalog read in
    let find = find_tensor m.catalog.tensors tensor.name in
    let found = λ (t : TensorInfo) (h : find ≡ some t).
      find_tensor-All (Placed (length m.file.content) m.catalog) m.catalog.tensors tensor.name
        placed h in
    elim (Bool-cases (belongs find tensor)) [
      | inl mine ↦
          let here = belongs-eq find tensor (λ t h. (found t h).1) mine in
          let ends : end_of m.catalog tensor ≤ m.file.size =
            omega (arith, (found tensor here).0.1, content) in
          let first : ltb (size_max - m.catalog.tensor_data_offset) tensor.offset ≡ false =
            ground (arith, ends, fits) in
          let second : ltb (size_max - begin_of m.catalog tensor) tensor.byte_size ≡ false =
            ground (arith, ends, fits) in
          let third : ltb m.file.size (end_of m.catalog tensor) ≡ false = ground (arith, ends) in
          inl (here, rw (mine, first, second, third) refl, ends)
      | inr not_mine ↦
          inr (λ h. absurd (cc (not_mine, belongs_self find tensor h)), rw not_mine refl)
    ]
