-- ===== src/Model/Derive/Checked.antt =====
-- The relations that derive_qwen35_config of cpp/model/qwen35_config.cpp establishes.
use raftinfer.Base.{
  ℕ, ◌-◌, ◌*◌, ◌%◌, ◌≤◌, ◌<◌, List, length, Option, Result, ok, err, ◌>>=◌, ◌>>◌, >>=-eq-ok, ◌≡◌,
  refl, sym, ◌∙◌, subst, ap, arith, bytes, u32_max,
}
use raftinfer.Gguf.Types.{Catalog, MetadataValues, find_metadata}
use raftinfer.Model.Config.{Qwen35BlockPlan, Qwen35Config}
use raftinfer.Model.Fields.{require_field, require_u32}
use raftinfer.Model.Derive.{
  Fields, require_fields, require_attention, require_linear, require_positions, require_block_count,
  require_relations, value_heads, config_of, interval_blocks, layer_types_of, plan_blocks,
  read_fields, derive_qwen35_config,
}
use raftinfer.Model.Derive.Plan.{IsPlan, interval_blocks-IsPlan, read_fields-interval}
use raftinfer.Model.Derive.Blocks.{plan_blocks-interval_blocks, length-interval_blocks}

-- What the executor relies on in a configuration.
pub record IsWellFormed (c : Qwen35Config) : Type 0 where
  pub context : 0 < c.context_length
  pub intermediate : 0 < c.intermediate_size
  pub heads : c.full_attention_head_count * c.full_attention_head_dimension ≡ c.hidden_size
  pub hidden : 0 < c.hidden_size
  pub head_dimension : 0 < c.full_attention_head_dimension
  pub kv_heads : 0 < c.full_attention_kv_head_count
  pub grouped : c.full_attention_head_count % c.full_attention_kv_head_count ≡ 0
  pub key_heads : 0 < c.linear_key_head_count
  pub value_heads : c.linear_key_head_count ≤ c.linear_value_head_count
  pub values_grouped : c.linear_value_head_count % c.linear_key_head_count ≡ 0
  pub state : 0 < c.linear_head_dimension
  pub width : 0 < c.linear_convolution_width
  pub rotary : (0 < c.rotary_dimension) × (c.rotary_dimension ≤ c.full_attention_head_dimension)
  pub rotary_even : c.rotary_dimension % 2 ≡ 0
  pub vocabulary : 0 < c.vocabulary_size

-- With the blocks that the code makes for an interval of the file.
pub record IsDerived (catalog : Catalog) (c : Qwen35Config) : Type 0 where
  pub relations : IsWellFormed c
  pub interval : ℕ
  pub from_file : require_u32 catalog (bytes "qwen35.full_attention_interval") ≡ ok interval
  pub some_interval : 0 < interval
  pub some_blocks : 0 < length c.blocks
  pub whole : length c.blocks % interval ≡ 0
  pub blocks : c.blocks ≡ interval_blocks interval 0 (length c.blocks)

require_fields-nonzero :
    (f : Fields)
    → require_fields f ≡ ok tt
    → (0 < f.hidden_size)
      × (0 < f.intermediate_size)
      × (0 < f.context_length)
      × (0 < f.kv_head_count)
      × (0 < f.key_length)
      × (0 < f.convolution_width)
      × (0 < f.state_size)
      × (0 < f.group_count)
      × (0 < f.full_attention_interval)
unfolding require_fields require_field
require_fields-nonzero f h = ground arith

require_attention-heads :
    (f : Fields)
    → require_attention f ≡ ok tt
    → (f.head_count % f.kv_head_count ≡ 0) × (f.head_count * f.key_length ≡ f.hidden_size)
unfolding require_attention
require_attention-heads f h = ground arith

require_linear-groups :
    (f : Fields)
    → require_linear f ≡ ok tt
    → (f.group_count ≤ value_heads f) × (value_heads f % f.group_count ≡ 0)
unfolding require_linear
require_linear-groups f h = ground arith

require_positions-rotary :
    (f : Fields)
    → require_positions f ≡ ok tt
    → (0 < f.rotary_dimension) × (f.rotary_dimension ≤ f.key_length) × (f.rotary_dimension % 2 ≡ 0)
unfolding require_positions
require_positions-rotary f h = ground arith

require_block_count-blocks :
    (f : Fields)
    → require_block_count f ≡ ok tt
    → (0 < f.total_block_count - f.nextn_predict_layers)
      × ((f.total_block_count - f.nextn_predict_layers) % f.full_attention_interval ≡ 0)
unfolding require_block_count
require_block_count-blocks f h = ground arith

config_of-IsDerived :
    (catalog : Catalog) (f : Fields) (blocks : List Qwen35BlockPlan)
    → (0 < f.vocabulary_size)
      × (require_u32 catalog (bytes "qwen35.full_attention_interval")
          ≡ ok f.full_attention_interval)
    → require_fields f ≡ ok tt
    → require_relations f ≡ ok tt
    → blocks
      ≡ interval_blocks f.full_attention_interval 0 (f.total_block_count - f.nextn_predict_layers)
    → IsDerived catalog (config_of f blocks)
unfolding require_relations
config_of-IsDerived catalog f blocks read fields relations plan =
    let nonzero = require_fields-nonzero f fields in
    let attention : require_attention f ≡ ok tt = ground arith in
    let linear : require_linear f ≡ ok tt = ground arith in
    let positions : require_positions f ≡ ok tt = ground arith in
    let count : require_block_count f ≡ ok tt = ground arith in
    let heads = require_attention-heads f attention in
    let groups = require_linear-groups f linear in
    let rotary = require_positions-rotary f positions in
    let total = require_block_count-blocks f count in
    let size : length blocks ≡ f.total_block_count - f.nextn_predict_layers =
      ap length plan ∙ length-interval_blocks f.full_attention_interval 0 _ in
    record {
      relations = record {
        context = nonzero.2;
        intermediate = nonzero.1;
        heads = heads.1;
        hidden = nonzero.0;
        head_dimension = nonzero.4;
        kv_heads = nonzero.3;
        grouped = heads.0;
        key_heads = nonzero.7;
        value_heads = groups.0;
        values_grouped = groups.1;
        state = nonzero.6;
        width = nonzero.5;
        rotary = (rotary.0, rotary.1);
        rotary_even = rotary.2;
        vocabulary = read.0;
      };
      interval = f.full_attention_interval;
      from_file = read.1;
      some_interval = nonzero.8;
      some_blocks = omega (arith, size, total.0);
      whole = ap (λ n. n % f.full_attention_interval) size ∙ total.1;
      blocks = plan ∙ ap (λ n. interval_blocks f.full_attention_interval 0 n) (sym size);
    }

-- The steps of a derivation that returned.
derived_parts :
    (f : Fields) (fields relations : Result (Unit {0})) (types : Result (Option MetadataValues))
    (plan : Option MetadataValues → Result (List Qwen35BlockPlan)) (config : Qwen35Config)
    → (fields >> (relations >> (types >>= λ t. plan t >>= λ blocks. ok (config_of f blocks))))
      ≡ ok config
    → (fields ≡ ok tt)
      × (relations ≡ ok tt)
      × ((t : Option MetadataValues) × (blocks : List Qwen35BlockPlan) × (types ≡ ok t)
          × (plan t ≡ ok blocks)
          × (config_of f blocks ≡ config))
derived_parts f (err e) relations types plan config h = cc
derived_parts f (ok u) (err e) types plan config h = cc
derived_parts f (ok u) (ok v) (err e) plan config h = cc
derived_parts f (ok u) (ok v) (ok t) plan config h =
    let (blocks, planned, last) = >>=-eq-ok (plan t) _ h in
    (refl, refl, (t, blocks, refl, planned, ground (arith, last)))

pub derive_qwen35_config-IsDerived :
    (narrow : ℕ → ℕ) (catalog : Catalog) (config : Qwen35Config)
    → derive_qwen35_config narrow catalog ≡ ok config
    → IsDerived catalog config
unfolding derive_qwen35_config
derive_qwen35_config-IsDerived narrow catalog config h =
    let (f, read, rest) = >>=-eq-ok (read_fields narrow catalog) _ h in
    let count = f.total_block_count - f.nextn_predict_layers in
    let types = find_metadata catalog (bytes "qwen35.layer_types") in
    let (fields, relations, (checked, blocks, typed, planned, last)) =
      derived_parts f (require_fields f) (require_relations f) (layer_types_of types count)
        (plan_blocks f.full_attention_interval count) config rest in
    subst (IsDerived catalog) last (
      config_of-IsDerived catalog f blocks (read_fields-interval narrow catalog f read) fields
        relations
        (plan_blocks-interval_blocks f.full_attention_interval count types checked blocks typed
          planned))

-- The blocks of a configuration, by the interval that the file gives.
abbrev pub HasPlan : Catalog → Qwen35Config → Type 0
HasPlan catalog c =
    (interval : ℕ) × (require_u32 catalog (bytes "qwen35.full_attention_interval") ≡ ok interval)
    × (0 < interval)
    × (0 < length c.blocks)
    × (length c.blocks % interval ≡ 0)
    × IsPlan interval 0 c.blocks

-- A configuration that derive_qwen35_config returns, with no more blocks than a std::uint32_t counts, is well
-- formed: its vocabulary, context, sizes and counts are not zero, the heads make up the hidden size and fall
-- into groups, the value heads are a multiple of the key heads, and the rotary dimension is even and no
-- larger than a head. The blocks are as many as a multiple of the interval that the file gives, stand in
-- index order, and use full attention at exactly the last block of each interval, whether or not the file
-- names the layer types.
pub derive_qwen35_config-IsWellFormed :
    (narrow : ℕ → ℕ) (catalog : Catalog) (config : Qwen35Config)
    → derive_qwen35_config narrow catalog ≡ ok config
    → length config.blocks ≤ u32_max
    → IsWellFormed config × HasPlan catalog config
derive_qwen35_config-IsWellFormed narrow catalog config h few =
    let d = derive_qwen35_config-IsDerived narrow catalog config h in
    (
      d.relations,
      (
        d.interval,
        d.from_file,
        d.some_interval,
        d.some_blocks,
        d.whole,
        subst (IsPlan d.interval 0) (sym d.blocks)
            (interval_blocks-IsPlan d.interval 0 (length config.blocks) (omega (arith, few))),
      ),
    )
