-- ===== src/Gguf/Catalog.antt =====
-- tensor_byte_size, catalog_alignment, valid_metadata_key, align_up and read_catalog of
-- cpp/model/gguf_reader.cpp.
use raftinfer.Base.{
  ℕ, ◌+◌, ◌-◌, ◌*◌, ◌%◌, List, [], ◌∷◌, ◌++◌, length, Option, none, some, Bool, true, false, not,
  ◌&&◌, ◌||◌, ◌==◌, ltb, leb, if◌then◌else◌, Text, bytes, Error, Result, ok, err, ◌>>=◌, ◌>>◌,
  throw_if, u32_max,
}
use raftinfer.Base.Texts.{text_eq}
use raftinfer.Gguf.Types.{MetadataValue, TensorInfo, Catalog, lookup}
use raftinfer.Gguf.Reader.{add_overflows, mul_overflows}

unfoldable pub element_size : ℕ → Text → Result ℕ
element_size type name =
    if type == 0
    then ok 4
    else if type == 1
    then ok 2
    else if type == 30
    then ok 2
    else err (
        Error.parse_error
          (bytes "tensor " ++ name ++ bytes " uses a type unsupported by the M2A baseline"))

-- The loop over the dimensions.
unfoldable pub element_count : Text → List ℕ → ℕ → Result ℕ
element_count name [] elements = ok elements
element_count name (d ∷ ds) elements = do
  throw_if (d == 0 || mul_overflows elements d)
      (Error.parse_error (bytes "tensor " ++ name ++ bytes " has invalid dimensions"))
  element_count name ds (elements * d)

unfoldable pub tensor_byte_size : ℕ → List ℕ → Text → Result ℕ
tensor_byte_size type dimensions name = do
  size ← element_size type name
  elements ← element_count name dimensions 1
  throw_if (mul_overflows elements size)
      (Error.parse_error (bytes "tensor " ++ name ++ bytes " byte size overflows"))
  ok (elements * size)

abbrev pub checked_alignment : ℕ → Result ℕ
checked_alignment alignment = do
  throw_if (alignment == 0 || (not (alignment % 8 == 0) || ltb u32_max alignment))
      (Error.parse_error (bytes "general.alignment must be a nonzero multiple of eight"))
  ok alignment

abbrev pub alignment_of : Option MetadataValue → Result ℕ
alignment_of none = ok 32
alignment_of (some (MetadataValue.uint32 n)) = checked_alignment n
alignment_of (some (MetadataValue.uint64 n)) = checked_alignment n
alignment_of (some _) =
    err (Error.parse_error (bytes "general.alignment must be an unsigned integer"))

unfoldable pub catalog_alignment : List (Text × MetadataValue) → Result ℕ
catalog_alignment metadata = alignment_of (lookup metadata (bytes "general.alignment"))

abbrev pub is_lowercase : ℕ → Bool
is_lowercase c = leb 97 c && leb c 122

abbrev pub is_digit : ℕ → Bool
is_digit c = leb 48 c && leb c 57

-- The loop over the characters; 46 is the dot and 95 the underscore.
unfoldable pub valid_segments : Bool → Text → Bool
valid_segments segment_start [] = not segment_start
valid_segments segment_start (c ∷ cs) =
    let after_dot = valid_segments true cs in
    let inside = valid_segments false cs in
    if c == 46
    then not segment_start && after_dot
    else if segment_start
    then (is_lowercase c || is_digit c) && inside
    else (is_lowercase c || (is_digit c || c == 95)) && inside

unfoldable pub valid_metadata_key : Text → Bool
valid_metadata_key key =
    if length key == 0 || ltb 65535 (length key) then false else valid_segments true key

unfoldable pub align_up : ℕ → ℕ → Result ℕ
align_up value alignment = if value % alignment == 0 then ok value else (do
  throw_if (add_overflows value (alignment - value % alignment))
      (Error.parse_error (bytes "GGUF tensor data offset overflows"))
  ok (value + (alignment - value % alignment)))

-- The range of a tensor's bytes in the file.
pub record Span : Type 0 where
  pub begin : ℕ
  pub end : ℕ
  pub name : Text

unfoldable pub tensor_span : ℕ → ℕ → ℕ → TensorInfo → Result Span
tensor_span file_size alignment data_offset tensor = do
  throw_if (not (tensor.offset % alignment == 0))
      (Error.parse_error (bytes "tensor " ++ tensor.name ++ bytes " is not aligned"))
  throw_if
      (add_overflows data_offset tensor.offset
        || (add_overflows (data_offset + tensor.offset) tensor.byte_size
            || ltb file_size (data_offset + tensor.offset + tensor.byte_size)))
      (Error.parse_error (bytes "tensor " ++ tensor.name ++ bytes " is outside the file"))
  ok (record {
    begin = data_offset + tensor.offset;
    end = data_offset + tensor.offset + tensor.byte_size;
    name = tensor.name;
  })

unfoldable pub tensor_spans : ℕ → ℕ → ℕ → List TensorInfo → Result (List Span)
tensor_spans file_size alignment data_offset [] = ok []
tensor_spans file_size alignment data_offset (tensor ∷ tensors) = do
  span ← tensor_span file_size alignment data_offset tensor
  spans ← tensor_spans file_size alignment data_offset tensors
  ok (span ∷ spans)

-- std::sort by where the spans begin; which of two that begin together comes first is not said.
unfoldable pub insert_span : Span → List Span → List Span
insert_span s [] = s ∷ []
insert_span s (t ∷ ts) =
    let rest = insert_span s ts in if ltb t.begin s.begin then t ∷ rest else s ∷ (t ∷ ts)

unfoldable pub sort_spans : List Span → List Span
sort_spans [] = []
sort_spans (s ∷ ss) = insert_span s (sort_spans ss)

-- The loop over neighbours.
unfoldable pub check_neighbours : List Span → Result (Unit {0})
check_neighbours [] = ok tt
check_neighbours (s ∷ []) = ok tt
check_neighbours (s ∷ (t ∷ ts)) = do
  throw_if (ltb t.begin s.end)
      (Error.parse_error (bytes "GGUF tensor spans overlap: " ++ s.name ++ bytes " and " ++ t.name))
  check_neighbours (t ∷ ts)

-- What is left to check of a catalog once its tensors are read.
unfoldable pub check_spans : ℕ → Catalog → Result (Unit {0})
check_spans file_size catalog = do
  throw_if (ltb file_size catalog.tensor_data_offset)
      (Error.parse_error (bytes "GGUF tensor data offset is outside the file"))
  spans ← tensor_spans file_size catalog.alignment catalog.tensor_data_offset catalog.tensors
  check_neighbours (sort_spans spans)

abbrev pub knows_key : List (Text × MetadataValue) → Text → Bool
knows_key [] key = false
knows_key (entry ∷ entries) key = text_eq entry.0 key || knows_key entries key

abbrev pub knows_name : List Text → Text → Bool
knows_name [] name = false
knows_name (x ∷ xs) name = text_eq x name || knows_name xs name
