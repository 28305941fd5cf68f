-- ===== src/Gguf/Types.antt =====
-- The catalog of a model file, cpp/model/gguf_types.hpp. A `float` or `double` is its bit pattern.
use raftinfer.Base.{ℕ, List, [], ◌∷◌, Option, none, some, Bool, if◌then◌else◌, Text}
use raftinfer.Base.Int.{ℤ}
use raftinfer.Base.Texts.{text_eq}

pub data MetadataType : Type 0 where
  uint8 int8 uint16 int16 uint32 int32 float32 boolean string array uint64 int64 float64 :
      MetadataType

mutual
  -- The variant that a metadata value is.
  pub data MetadataValue : Type 0 where
    uint8 uint16 uint32 uint64 float32 float64 : ℕ → MetadataValue
    int8 int16 int32 int64 : ℤ → MetadataValue
    boolean : Bool → MetadataValue
    string : Text → MetadataValue
    array : MetadataType → MetadataValues → MetadataValue

  -- std::vector<MetadataValue>
  pub data MetadataValues : Type 0 where
    empty : MetadataValues
    cons : MetadataValue → MetadataValues → MetadataValues

pub record TensorInfo : Type 0 where
  pub name : Text
  pub dimensions : List ℕ
  pub type : ℕ
  pub offset : ℕ
  pub byte_size : ℕ

pub record Catalog : Type 0 where
  pub version : ℕ
  pub alignment : ℕ
  pub tensor_data_offset : ℕ
  pub metadata : List (Text × MetadataValue)
  pub tensors : List TensorInfo

-- The search of the hash table of the metadata.
abbrev pub lookup : List (Text × MetadataValue) → Text → Option MetadataValue
lookup [] key = none
lookup (entry ∷ entries) key = if text_eq entry.0 key then some entry.1 else lookup entries key

abbrev pub find_metadata : Catalog → Text → Option MetadataValue
find_metadata catalog key = lookup catalog.metadata key

pub record ReaderLimits : Type 0 where
  pub max_metadata_count : ℕ
  pub max_tensor_count : ℕ
  pub max_string_bytes : ℕ
  pub max_array_elements : ℕ
  pub max_catalog_bytes : ℕ
  pub max_tensor_rank : ℕ

abbrev pub default_limits : ReaderLimits
default_limits = record {
  max_metadata_count = 1000000;
  max_tensor_count = 1000000;
  max_string_bytes = 67108864;
  max_array_elements = 16777216;
  max_catalog_bytes = 536870912;
  max_tensor_rank = 4;
}
