-- ===== src/Model/Fields.antt =====
-- The readers of single metadata values in cpp/model/qwen35_config.cpp. A `float` or `double` is its
-- bit pattern; the conversion of the one to the other, which rounds, is a parameter.
use raftinfer.Base.{
  ℕ, suc, ◌/◌, ◌%◌, ◌^◌, ◌++◌, none, some, Bool, true, false, not, ◌&&◌, ◌||◌, leb, ◌==◌,
  if◌then◌else◌, Text, bytes, config_error, Result, ok, err, ◌>>=◌, throw_if, u32_max,
}
use raftinfer.Base.Texts.{text_eq, to_string}
use raftinfer.Gguf.Types.{MetadataType, MetadataValue, MetadataValues, Catalog, find_metadata}
use raftinfer.Model.Config.{Qwen35BlockKind, linear_attention, full_attention}

-- std::isfinite
abbrev pub is_finite_float : ℕ → Bool
is_finite_float n = not (n / 2 ^ 23 % 2 ^ 8 == 255)

abbrev pub is_finite_double : ℕ → Bool
is_finite_double n = not (n / 2 ^ 52 % 2 ^ 11 == 2047)

-- `x <= 0.0F` for a finite x: the sign is set, or the number is zero.
abbrev pub not_above_zero : ℕ → Bool
not_above_zero n = leb (2 ^ 31) n || n == 0

-- `std::abs(x) <= std::numeric_limits<float>::max()`: the bits of numbers without sign are ordered
-- as the numbers, and the bound as a double is 0x47EFFFFFE0000000.
abbrev pub in_float_range : ℕ → Bool
in_float_range n = leb (n % 2 ^ 63) 5183643170566569984

-- require
unfoldable pub require_key : Catalog → Text → Result MetadataValue
require_key catalog key = elim (find_metadata catalog key) [
  | none ↦ err (config_error (bytes "missing Qwen3.5 metadata: " ++ key))
  | some value ↦ ok value
]

abbrev not_u32 : Text → Result ℕ
not_u32 key =
    err (config_error (bytes "Qwen3.5 metadata must be an unsigned 32-bit value: " ++ key))

unfoldable pub require_u32_value : MetadataValue → Text → Result ℕ
require_u32_value (MetadataValue.uint32 n) key = ok n
require_u32_value (MetadataValue.uint64 n) key = if leb n u32_max then ok n else not_u32 key
require_u32_value _ key = not_u32 key

unfoldable pub require_u32 : Catalog → Text → Result ℕ
require_u32 catalog key = do value ← require_key catalog key; require_u32_value value key

unfoldable pub optional_u32 : Catalog → Text → ℕ → Result ℕ
optional_u32 catalog key default_value = elim (find_metadata catalog key) [
  | none ↦ ok default_value
  | some value ↦ require_u32_value value key
]

abbrev not_float : Text → Result ℕ
not_float key = err (config_error (bytes "Qwen3.5 metadata must be a finite float: " ++ key))

unfoldable pub require_float_value : (ℕ → ℕ) → MetadataValue → Text → Result ℕ
require_float_value narrow (MetadataValue.float32 n) key = ok n
require_float_value narrow (MetadataValue.float64 n) key =
    if is_finite_double n && in_float_range n then ok (narrow n) else not_float key
require_float_value narrow _ key = not_float key

unfoldable pub require_float : (ℕ → ℕ) → Catalog → Text → Result ℕ
require_float narrow catalog key = do
  value ← require_key catalog key
  require_float_value narrow value key

-- require_nonzero of the configuration
unfoldable pub require_field : ℕ → Text → Result (Unit {0})
require_field value key =
    throw_if (value == 0) (config_error (bytes "Qwen3.5 metadata must be nonzero: " ++ key))

unfoldable pub layer_type_named : Text → ℕ → Result Qwen35BlockKind
layer_type_named name index =
    if text_eq name (bytes "linear_attention")
    then ok linear_attention
    else if text_eq name (bytes "full_attention")
    then ok full_attention
    else err (
        config_error
          (bytes "qwen35.layer_types has an invalid layer type at block " ++ to_string index))

unfoldable pub parse_layer_type : MetadataValue → ℕ → Result Qwen35BlockKind
parse_layer_type (MetadataValue.string name) index = layer_type_named name index
parse_layer_type _ index = err (config_error (bytes "qwen35.layer_types must be a string array"))

-- std::vector<MetadataValue>::size
abbrev pub count_values : MetadataValues → ℕ
count_values MetadataValues.empty = 0
count_values (MetadataValues.cons v vs) = suc (count_values vs)

abbrev pub is_string : MetadataType → Bool
is_string MetadataType.string = true
is_string _ = false
