-- ===== src/Model/Manifest/Present.antt =====
-- validate_qwen35_manifest of cpp/model/qwen35_manifest.cpp against the list of the tensors that a catalog must have.
use raftinfer.Base.{
  ℕ, ◌+◌, ◌*◌, ◌%◌, ◌^◌, ◌<◌, List, [], ◌∷◌, ◌++◌, map, All, length, Bool, true, false, not, ◌&&◌,
  ◌==◌, Bool-cases, Result, ok, err, ◌≡◌, ◌≢◌, ◌↔◌, inl, inr, refl, sym, ap, subst, ◌∙◌, arith,
}
use raftinfer.Base.Texts.{text_eq, text_eq_iff}
use raftinfer.Gguf.Types.{TensorInfo, Catalog}
use raftinfer.Model.Config.{
  Qwen35BlockKind, linear_attention, full_attention, Qwen35BlockPlan, Qwen35Config,
}
use raftinfer.Model.Manifest.{find_tensor, block_name, no_plan, validate_qwen35_manifest}
use raftinfer.Model.Manifest.Expected.{
  Expected, common_tensors, attention_tensors, model_tensors, has_dimensions, has_tensor, has_all,
  has_block, has_blocks, is_ok,
}
use raftinfer.Model.Manifest.Listed.{in_block, layers_keys, validate_qwen35_manifest-keys}
use raftinfer.Model.Manifest.Accepts.{is_ok-validate_qwen35_manifest}
use raftinfer.Model.Manifest.Complete.{
  IsPresent, query_rows, layer_of, layers_of, InOrder, IsComplete, Returns,
}

-- A Boolean test that decides a type.
abbrev Decides : Bool → Type 0 → Type 0
Decides b P = (b ≡ true) ↔ P

and-Decides : (a b : Bool) {P Q : Type 0} → Decides a P → Decides b Q → Decides (a && b) (P × Q)
and-Decides true b p q = (λ h. (p.0 refl, q.0 h), λ h. q.1 h.1)
and-Decides false b p q = (λ h. cc h, λ h. cc (p.1 h.0))

==-Decides : (a b : ℕ) → Decides (a == b) (a ≡ b)
==-Decides a b = ground arith

regroup : (a b c : Bool) → ((a && b) && c) ≡ (a && (b && c))
regroup true b c = refl
regroup false b c = refl

All-append {ℓ} :
    {A : Type ℓ} (P : A → Type 0) (xs ys : List A) → All P (xs ++ ys) ↔ (All P xs × All P ys)
All-append P [] ys = (λ h. (tt, h), λ h. h.1)
All-append P (x ∷ xs) ys =
    let rest = All-append P xs ys in
    (λ h. ((h.0, (rest.0 h.1).0), (rest.0 h.1).1), λ h. (h.0.0, rest.1 (h.0.1, h.1)))

find_tensor-Decides :
    (ts : List TensorInfo) (e : Expected)
    → Decides (has_dimensions (find_tensor ts e.0) e.1) (IsPresent ts e)
find_tensor-Decides [] e = (λ h. cc h, λ h. elim h [ ])
find_tensor-Decides (t ∷ ts) e = elim (Bool-cases (text_eq t.name e.0)) [
  | inl same ↦
      let is_name = (text_eq_iff t.name e.0).0 same in
      rw same (
        λ h. inl (is_name, (text_eq_iff t.dimensions e.1).0 h),
        λ h. elim h [
          | inl here ↦ (text_eq_iff t.dimensions e.1).1 here.1
          | inr later ↦ elim (later.0 is_name) [ ]
        ],
      )
  | inr other ↦
      let later = find_tensor-Decides ts e in
      let not_name : t.name ≢ e.0 = λ h. cc (other, (text_eq_iff t.name e.0).1 h) in
      rw other (
        λ h. inr (not_name, later.0 h),
        λ h. elim h [ inl here ↦ elim (not_name here.0) [ ] | inr there ↦ later.1 there.1 ],
      )
]

module _ (catalog : Catalog) where
  has_block-Decides :
      (index : ℕ) (es : List Expected)
      → Decides
          (has_block catalog index es)
          (All (IsPresent catalog.tensors) (map (in_block index) es))
  unfolding block_name
  has_block-Decides index [] = (λ h. tt, λ h. refl)
  has_block-Decides index (e ∷ es) =
      and-Decides (has_tensor catalog (block_name index e.0) e.1) (has_block catalog index es)
        (find_tensor-Decides catalog.tensors (in_block index e)) (has_block-Decides index es)

  has_all-Decides :
      (es : List Expected) → Decides (has_all catalog es) (All (IsPresent catalog.tensors) es)
  has_all-Decides [] = (λ h. tt, λ h. refl)
  has_all-Decides (e ∷ es) =
      and-Decides (has_tensor catalog e.0 e.1) (has_all catalog es)
        (find_tensor-Decides catalog.tensors e) (has_all-Decides es)

  has_block-append :
      (index : ℕ) (xs ys : List Expected)
      → has_block catalog index (xs ++ ys)
        ≡ (has_block catalog index xs && has_block catalog index ys)
  has_block-append index [] ys = refl
  has_block-append index (x ∷ xs) ys =
      ap (λ b. has_tensor catalog (block_name index x.0) x.1 && b) (has_block-append index xs ys)
      ∙ sym (regroup (has_tensor catalog (block_name index x.0) x.1) _ _)

-- The widths are those of the manifest.
layer_of-tensors :
    (kind : Qwen35BlockKind) (c : Qwen35Config)
    → layer_of kind c ≡ common_tensors c ++ attention_tensors kind c
layer_of-tensors full_attention c =
    let twice : (query_rows c + query_rows c) % 2 ^ 64 ≡ query_rows c * 2 % 2 ^ 64 =
      ap (λ n. n % 2 ^ 64) (omega arith) in
    rw twice refl
layer_of-tensors linear_attention c =
    let sum : (c.linear_key_head_count + c.linear_key_head_count + c.linear_value_head_count)
          * c.linear_head_dimension
        ≡ c.linear_key_head_count * c.linear_head_dimension * 2
          + c.linear_value_head_count * c.linear_head_dimension =
      omega arith in
    rw sum refl

has_blocks-Decides :
    (catalog : Catalog) (c : Qwen35Config) (position : ℕ) (blocks : List Qwen35BlockPlan)
    → Decides
        (has_blocks catalog c position blocks)
        (InOrder position blocks × All (IsPresent catalog.tensors) (layers_of c blocks))
has_blocks-Decides catalog c position [] = (λ h. (tt, tt), λ h. refl)
has_blocks-Decides catalog c position (block ∷ blocks) =
    let layer = layer_of block.kind c in
    let common = has_block catalog block.index (common_tensors c) in
    let attention = has_block catalog block.index (attention_tensors block.kind c) in
    let joined : has_block catalog block.index layer ≡ (common && attention) =
      ap (has_block catalog block.index) (layer_of-tensors block.kind c)
      ∙ has_block-append catalog block.index (common_tensors c) (attention_tensors block.kind c) in
    let here = has_block-Decides catalog block.index layer in
    let rest = has_blocks catalog c (position + 1) blocks in
    let later = has_blocks-Decides catalog c (position + 1) blocks in
    let whole = and-Decides (has_block catalog block.index layer) rest here later in
    let split : (has_block catalog block.index layer && rest) ≡ (common && (attention && rest)) =
      ap (λ b. b && rest) joined ∙ regroup common attention rest in
    let parts =
      All-append (IsPresent catalog.tensors) (map (in_block block.index) layer)
        (layers_of c blocks) in
    let placed =
      and-Decides (block.index == position) (common && (attention && rest))
        (==-Decides block.index position)
        (subst
          (λ b. Decides b (
            All (IsPresent catalog.tensors) (map (in_block block.index) layer)
            × (InOrder (position + 1) blocks
                × All (IsPresent catalog.tensors) (layers_of c blocks))))
          split whole) in
    (
      λ h. let (at, (all, (order, others))) = placed.0 h in ((at, order), parts.1 (all, others)),
      λ h. placed.1 (h.0.0, ((parts.0 h.1).0, (h.0.1, (parts.0 h.1).1))),
    )

some_plan-Decides :
    (blocks : List Qwen35BlockPlan) → Decides (not (no_plan blocks)) (0 < length blocks)
some_plan-Decides [] = (λ h. cc h, λ h. absurd (omega (arith, h)))
some_plan-Decides (b ∷ bs) = (λ h. omega arith, λ h. refl)

returns-Decides {ℓ} : {A : Type ℓ} (r : Result A) → (is_ok r ≡ true) → (value : A) × (r ≡ ok value)
returns-Decides (ok value) h = (value, refl)
returns-Decides (err e) h = cc h

layers_keys-layers_of :
    (c : Qwen35Config) (blocks : List Qwen35BlockPlan) → layers_keys c blocks ≡ layers_of c blocks
layers_keys-layers_of c [] = refl
layers_keys-layers_of c (block ∷ blocks) =
    ap (λ es. map (in_block block.index) es ++ layers_keys c blocks)
      (sym (layer_of-tensors block.kind c))
    ∙ ap (λ es. map (in_block block.index) (layer_of block.kind c) ++ es)
        (layers_keys-layers_of c blocks)

-- validate_qwen35_manifest returns a manifest exactly if there is a block, the blocks stand in index order, and
-- the first tensor of each name in one list has the dimensions beside it: the three tensors of the model, and
-- for each block, under the block's number, the eleven of full or the fourteen of linear attention. Then the
-- fields of the manifest hold tensors of just these names and dimensions, in the order of the list.
pub validate_qwen35_manifest-IsComplete :
    (catalog : Catalog) (c : Qwen35Config) → Returns catalog c ↔ IsComplete catalog c
validate_qwen35_manifest-IsComplete catalog c =
    let whole =
      and-Decides (not (no_plan c.blocks))
        (has_all catalog (model_tensors c) && has_blocks catalog c 0 c.blocks)
        (some_plan-Decides c.blocks)
        (and-Decides (has_all catalog (model_tensors c)) (has_blocks catalog c 0 c.blocks)
          (has_all-Decides catalog (model_tensors c)) (has_blocks-Decides catalog c 0 c.blocks)) in
    let same = is_ok-validate_qwen35_manifest catalog c in
    (
      λ h.
          let (first, ((t, (o, (w, u))), (order, layers))) = whole.0 (sym same ∙ ap is_ok h.1) in
          (first, order, (t, (o, (w, layers)))),
      λ h.
          let (first, order, (t, (o, (w, layers)))) = h in
          let (m, is_m) =
            returns-Decides (validate_qwen35_manifest catalog c)
              (same ∙ whole.1 (first, ((t, (o, (w, tt))), (order, layers)))) in
          (
            m,
            is_m,
            validate_qwen35_manifest-keys catalog c m is_m
                ∙ ap (λ es. model_tensors c ++ es) (layers_keys-layers_of c c.blocks),
          ),
    )
