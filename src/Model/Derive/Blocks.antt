-- ===== src/Model/Derive/Blocks.antt =====
-- The block plan of derive_qwen35_config, cpp/model/qwen35_config.cpp.
use raftinfer.Base.{ℕ, zero, suc, ◌+◌, List, length, Option, none, some, true, ok, ◌≡◌, arith}
use raftinfer.Gguf.Types.{MetadataValue, MetadataValues}
use raftinfer.Model.Config.{Qwen35BlockKind, Qwen35BlockPlan}
use raftinfer.Model.Fields.{count_values}
use raftinfer.Model.Derive.{same_kind, interval_blocks, typed_blocks, plan_blocks, layer_types_of}

same_kind-eq : (a b : Qwen35BlockKind) → same_kind a b ≡ true → a ≡ b
same_kind-eq a b h = ground arith

pub length-interval_blocks :
    (interval index count : ℕ) → length (interval_blocks interval index count) ≡ count
unfolding interval_blocks
length-interval_blocks interval index zero = ground arith
length-interval_blocks interval index (suc count) =
    ground (arith, length-interval_blocks interval (index + 1) count)

-- The layer types, where they are accepted, say what the interval says.
pub typed_blocks-interval_blocks :
    (interval index : ℕ) (values : MetadataValues) (blocks : List Qwen35BlockPlan)
    → typed_blocks interval index values ≡ ok blocks
    → blocks ≡ interval_blocks interval index (count_values values)
unfolding typed_blocks interval_blocks
typed_blocks-interval_blocks interval index MetadataValues.empty blocks h = ground arith
typed_blocks-interval_blocks interval index (MetadataValues.cons value values) blocks h =
    grind (arith, same_kind-eq, typed_blocks-interval_blocks interval (index + 1) values)

pub plan_blocks-interval_blocks :
    (interval count : ℕ) (types : Option MetadataValue) (checked : Option MetadataValues)
    (blocks : List Qwen35BlockPlan)
    → layer_types_of types count ≡ ok checked
    → plan_blocks interval count checked ≡ ok blocks
    → blocks ≡ interval_blocks interval 0 count
unfolding layer_types_of plan_blocks
plan_blocks-interval_blocks interval count types none blocks h k = ground arith
plan_blocks-interval_blocks interval count none (some values) blocks h k = cc h
plan_blocks-interval_blocks interval count (some (MetadataValue.array type vs)) (some values) blocks
      h k =
    ground (arith, typed_blocks-interval_blocks interval 0 values blocks k)
plan_blocks-interval_blocks interval count (some _) (some values) blocks h k = ground arith
