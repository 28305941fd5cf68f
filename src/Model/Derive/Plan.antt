-- ===== src/Model/Derive/Plan.antt =====
-- The block plan of derive_qwen35_config, cpp/model/qwen35_config.cpp, and the fields that it reads for it.
use raftinfer.Base.{
  ℕ, zero, suc, ◌+◌, ◌%◌, ◌^◌, ◌≤◌, ◌<◌, List, [], ◌∷◌, ok, >>=-eq-ok, ok-injective, u32_max, ◌≡◌,
  ◌↔◌, refl, subst, arith, bytes,
}
use native.Mathlib.Nat.{mod-eq_of_lt}
use raftinfer.Gguf.Types.{Catalog, MetadataValue}
use raftinfer.Model.Config.{Qwen35BlockPlan, full_attention}
use raftinfer.Model.Fields.{require_key, require_u32, optional_u32, require_float}
use raftinfer.Model.Derive.{
  Fields, interval_kind, interval_blocks, require_architecture, token_count, read_fields,
}

-- Blocks that stand in index order from `position` on, of which exactly each `interval`-th, counted from one,
-- uses full attention.
abbrev pub IsPlan : ℕ → ℕ → List Qwen35BlockPlan → Type 0
IsPlan interval position [] = Unit
IsPlan interval position (block ∷ blocks) =
    (block.index ≡ position)
    × ((block.kind ≡ full_attention) ↔ ((position + 1) % interval ≡ 0))
    × IsPlan interval (position + 1) blocks

interval_kind-full :
    (interval index : ℕ)
    → index < u32_max
    → (interval_kind interval index ≡ full_attention) ↔ ((index + 1) % interval ≡ 0)
interval_kind-full interval index small =
    let unwrapped : (index + 1) % 2 ^ 32 ≡ index + 1 = mod-eq_of_lt (omega (arith, small)) in
    rw unwrapped (ground arith)

pub interval_blocks-IsPlan :
    (interval index count : ℕ)
    → index + count ≤ u32_max
    → IsPlan interval index (interval_blocks interval index count)
unfolding interval_blocks
interval_blocks-IsPlan interval index zero small = tt
interval_blocks-IsPlan interval index (suc count) small = (
  refl,
  interval_kind-full interval index (omega (arith, small)),
  interval_blocks-IsPlan interval (index + 1) count (omega (arith, small)),
)

token_count-positive : (value : MetadataValue) (n : ℕ) → token_count value ≡ ok n → 0 < n
unfolding token_count
token_count-positive value n h = ground (arith, h)

-- The fields that the blocks and the vocabulary come from.
pub read_fields-interval :
    (narrow : ℕ → ℕ) (catalog : Catalog) (f : Fields)
    → read_fields narrow catalog ≡ ok f
    → (0 < f.vocabulary_size)
      × (require_u32 catalog (bytes "qwen35.full_attention_interval")
          ≡ ok f.full_attention_interval)
unfolding read_fields
read_fields-interval narrow catalog f h =
    let (architecture, _, h₁) = >>=-eq-ok (require_key catalog _) _ h in
    let (_, _, h₂) = >>=-eq-ok (require_architecture architecture) _ h₁ in
    let (_, _, h₃) = >>=-eq-ok (require_u32 catalog _) _ h₂ in
    let (_, _, h₄) = >>=-eq-ok (require_u32 catalog _) _ h₃ in
    let (_, _, h₅) = >>=-eq-ok (require_u32 catalog _) _ h₄ in
    let (_, _, h₆) = >>=-eq-ok (require_u32 catalog _) _ h₅ in
    let (_, _, h₇) = >>=-eq-ok (optional_u32 catalog _ _) _ h₆ in
    let (_, _, h₈) = >>=-eq-ok (require_u32 catalog _) _ h₇ in
    let (_, _, h₉) = >>=-eq-ok (require_u32 catalog _) _ h₈ in
    let (_, _, k₁) = >>=-eq-ok (require_u32 catalog _) _ h₉ in
    let (_, _, k₂) = >>=-eq-ok (require_u32 catalog _) _ k₁ in
    let (_, _, k₃) = >>=-eq-ok (require_float narrow catalog _) _ k₂ in
    let (_, _, k₄) = >>=-eq-ok (require_float narrow catalog _) _ k₃ in
    let (_, _, k₅) = >>=-eq-ok (require_u32 catalog _) _ k₄ in
    let (_, _, k₆) = >>=-eq-ok (require_u32 catalog _) _ k₅ in
    let (_, _, k₇) = >>=-eq-ok (require_u32 catalog _) _ k₆ in
    let (_, _, k₈) = >>=-eq-ok (require_u32 catalog _) _ k₇ in
    let (_, _, k₉) = >>=-eq-ok (require_u32 catalog _) _ k₈ in
    let (_, _, m₁) = >>=-eq-ok (require_u32 catalog _) _ k₉ in
    let (interval, is_interval, m₂) = >>=-eq-ok (require_u32 catalog _) _ m₁ in
    let (tokens, _, m₃) = >>=-eq-ok (require_key catalog _) _ m₂ in
    let (vocabulary, counted, last) = >>=-eq-ok (token_count tokens) _ m₃ in
    subst
      (λ (g : Fields).
        (0 < g.vocabulary_size)
        × (require_u32 catalog (bytes "qwen35.full_attention_interval")
            ≡ ok g.full_attention_interval))
      (ok-injective last) (token_count-positive tokens vocabulary counted, is_interval)
