-- ===== src/Gguf/Tests.antt =====
-- Runs of the reader of model files, cpp/model/gguf_reader.cpp, on a file of two small tensors.
use raftinfer.Base.{
  ℕ, ◌*◌, List, [], ◌∷◌, ◌++◌, All, length, replicate, true, false, bytes, ok, ◌≡◌, ◌<◌, ◌≤◌, ◌⊎◌,
  refl, arith, size_max,
}
use raftinfer.Base.Texts.{text_eq}
use raftinfer.Gguf.Types.{Catalog, default_limits}
use raftinfer.Gguf.Position.{IsValid, read_value-IsValid}
use raftinfer.Gguf.Types.{MetadataType, MetadataValue}
use raftinfer.Gguf.Reader.{
  Reader, read_value, read_element, read_number, require, charge_catalog_bytes, little_endian,
  read_unsigned, read_string, charge_tensor_dimensions,
}
use raftinfer.Gguf.Catalog.{
  element_size, element_count, tensor_byte_size, catalog_alignment, align_up, tensor_span,
  tensor_spans, insert_span, sort_spans, check_neighbours, check_spans, valid_metadata_key,
  valid_segments,
}
use raftinfer.Gguf.Read.{
  read_magic, read_metadata, read_dimensions, read_tensor, read_tensors, read_header, read_catalog,
}
use raftinfer.Gguf.Spans.{Placed, Disjoint}
use raftinfer.Gguf.Ranges.{product, tensor_byte_size-product, read_catalog-Disjoint}

-- A number below 256 in four and in eight bytes.
abbrev word32 : ℕ → List ℕ
word32 n = n ∷ 0 ∷ 0 ∷ 0 ∷ []

abbrev word64 : ℕ → List ℕ
word64 n = word32 n ++ word32 0

abbrev tensor_entry : ℕ → ℕ → ℕ → ℕ → List ℕ
tensor_entry letter dimension type offset =
    word64 1 ++ (letter ∷ (word32 1 ++ (word64 dimension ++ (word32 type ++ word64 offset))))

abbrev pub small_file : List ℕ
small_file =
    71
    ∷ 71
    ∷ 85
    ∷ 70
    ∷ (word32 3
        ++ (word64 2
            ++ (word64 0 ++ (tensor_entry 97 4 0 0 ++ (tensor_entry 98 2 1 32 ++ replicate 42 0)))))

abbrev pub small_catalog : Catalog
small_catalog = record {
  version = 3;
  alignment = 32;
  tensor_data_offset = 96;
  metadata = [];
  tensors =
      (record { name = 97 ∷ []; dimensions = 4 ∷ []; type = 0; offset = 0; byte_size = 16 })
      ∷ (record { name = 98 ∷ []; dimensions = 2 ∷ []; type = 1; offset = 32; byte_size = 4 })
      ∷ [];
}

pub small_file_is_read : read_catalog small_file default_limits 40 ≡ ok small_catalog
unfolding require charge_catalog_bytes little_endian read_unsigned read_string
    charge_tensor_dimensions element_size element_count tensor_byte_size catalog_alignment align_up
    tensor_span tensor_spans insert_span sort_spans check_neighbours check_spans read_magic
    read_metadata read_dimensions read_tensor read_tensors read_header read_catalog text_eq
small_file_is_read = refl

good_key : valid_metadata_key (bytes "general.name_1") ≡ true
unfolding valid_metadata_key valid_segments bytes
good_key = refl

empty_segment : valid_metadata_key (bytes "general..name") ≡ false
unfolding valid_metadata_key valid_segments bytes
empty_segment = refl

read_catalog-Disjoint_example :
    All (Placed (length small_file) small_catalog) small_catalog.tensors
    × Disjoint small_catalog small_catalog.tensors
read_catalog-Disjoint_example =
    read_catalog-Disjoint small_file default_limits 40 small_catalog small_file_is_read

six_numbers : tensor_byte_size 0 (2 ∷ 3 ∷ []) [] ≡ ok 24
unfolding tensor_byte_size element_size element_count
six_numbers = refl

tensor_byte_size-product_example :
    (((◌≡◌ {A = ℕ} 0 0) × (◌≡◌ {A = ℕ} 24 (product (2 ∷ 3 ∷ []) * 4)))
      ⊎ (((◌≡◌ {A = ℕ} 0 1) ⊎ (◌≡◌ {A = ℕ} 0 30)) × (◌≡◌ {A = ℕ} 24 (product (2 ∷ 3 ∷ []) * 2))))
    × All (λ d. 0 < d) (2 ∷ 3 ∷ [])
    × (24 ≤ size_max)
tensor_byte_size-product_example = tensor_byte_size-product 0 (2 ∷ 3 ∷ []) [] 24 six_numbers

abbrev at_start : Reader
at_start = record { position = 0; catalog_bytes = 0 }

-- The four bytes 71, 71, 85, 70 as a number.
magic_as_number :
    read_value small_file default_limits 40 MetadataType.uint32 [] at_start
    ≡ ok (MetadataValue.uint32 1179993927, record { position = 4; catalog_bytes = 4 })
unfolding read_value read_element read_number charge_catalog_bytes read_unsigned require
    little_endian
magic_as_number = refl

read_value-IsValid_example :
    IsValid small_file default_limits (record { position = 4; catalog_bytes = 4 }) × (0 ≤ 4)
read_value-IsValid_example =
    read_value-IsValid small_file default_limits 40 (omega arith) MetadataType.uint32 [] at_start
      (MetadataValue.uint32 1179993927, record { position = 4; catalog_bytes = 4 }) magic_as_number
      (record { position_in = omega arith; charged_in = omega arith })
