-- ===== src/Model/Spec.antt =====
-- serialize_tokenizer_spec of cpp/model/model.cpp: the tokenizer's metadata as bytes, for the tokenizer of
-- rust/raftinfer-runtime/src/tokenizer.rs. A `float` or `double` is its bits. std::sort is a sort by insertion: the keys of a
-- catalog are distinct, so no other order is sorted.
use raftinfer.Base.{
  ℕ, zero, suc, ◌-◌, ◌*◌, ◌/◌, ◌%◌, ◌^◌, List, [], ◌∷◌, ◌++◌, length, Bool, true, false, ◌&&◌, ◌||◌,
  ltb, ◌==◌, if◌then◌else◌, Text, bytes, Result, ok, err, config_error, bad_variant_access,
  throw_if, ◌>>=◌, ◌>>◌, u32_max,
}
use raftinfer.Base.Int.{ℤ, pos, negsuc}
use raftinfer.Base.Texts.{text_lt}
use raftinfer.Gguf.Types.{MetadataType, MetadataValue, MetadataValues, Catalog}
use raftinfer.Model.Fields.{count_values}

-- The `width` lowest bytes of a number, the lowest first.
unfoldable pub to_bytes : ℕ → ℕ → Text
to_bytes zero n = []
to_bytes (suc width) n = (n % 256) ∷ to_bytes width (n / 256)

-- The conversion to the unsigned type of the same width.
abbrev pub to_unsigned : ℕ → ℤ → ℕ
to_unsigned width (pos n) = n
to_unsigned width (negsuc n) = 2 ^ (8 * width) - suc n

unfoldable pub append_integer : ℕ → Text → ℕ → Text
append_integer width out value = out ++ to_bytes width value

unfoldable pub append_bytes : Text → Text → Result Text
append_bytes out value = do
  throw_if (ltb u32_max (length value))
      (config_error (bytes "tokenizer metadata string exceeds the ABI limit"))
  ok (append_integer 4 out (length value) ++ value)

abbrev of_bool : Bool → ℕ
of_bool true = 1
of_bool false = 0

unfoldable pub append_scalar : Text → MetadataType → MetadataValue → Result Text
append_scalar out MetadataType.uint8 (MetadataValue.uint8 n) = ok (append_integer 1 out n)
append_scalar out MetadataType.int8 (MetadataValue.int8 z) =
    ok (append_integer 1 out (to_unsigned 1 z))
append_scalar out MetadataType.uint16 (MetadataValue.uint16 n) = ok (append_integer 2 out n)
append_scalar out MetadataType.int16 (MetadataValue.int16 z) =
    ok (append_integer 2 out (to_unsigned 2 z))
append_scalar out MetadataType.uint32 (MetadataValue.uint32 n) = ok (append_integer 4 out n)
append_scalar out MetadataType.int32 (MetadataValue.int32 z) =
    ok (append_integer 4 out (to_unsigned 4 z))
append_scalar out MetadataType.float32 (MetadataValue.float32 n) = ok (append_integer 4 out n)
append_scalar out MetadataType.boolean (MetadataValue.boolean b) =
    ok (append_integer 1 out (of_bool b))
append_scalar out MetadataType.string (MetadataValue.string s) = append_bytes out s
append_scalar out MetadataType.uint64 (MetadataValue.uint64 n) = ok (append_integer 8 out n)
append_scalar out MetadataType.int64 (MetadataValue.int64 z) =
    ok (append_integer 8 out (to_unsigned 8 z))
append_scalar out MetadataType.float64 (MetadataValue.float64 n) = ok (append_integer 8 out n)
append_scalar out MetadataType.array value =
    err (config_error (bytes "nested tokenizer metadata arrays are unsupported"))
append_scalar out type value = err bad_variant_access

-- The variant holds one of these types, so the last throw of the function is never reached.
unfoldable pub value_type : MetadataValue → MetadataType
value_type (MetadataValue.uint8 n) = MetadataType.uint8
value_type (MetadataValue.int8 z) = MetadataType.int8
value_type (MetadataValue.uint16 n) = MetadataType.uint16
value_type (MetadataValue.int16 z) = MetadataType.int16
value_type (MetadataValue.uint32 n) = MetadataType.uint32
value_type (MetadataValue.int32 z) = MetadataType.int32
value_type (MetadataValue.float32 n) = MetadataType.float32
value_type (MetadataValue.boolean b) = MetadataType.boolean
value_type (MetadataValue.string s) = MetadataType.string
value_type (MetadataValue.array t vs) = MetadataType.array
value_type (MetadataValue.uint64 n) = MetadataType.uint64
value_type (MetadataValue.int64 z) = MetadataType.int64
value_type (MetadataValue.float64 n) = MetadataType.float64

-- The number of an enumerator.
abbrev pub type_code : MetadataType → ℕ
type_code MetadataType.uint8 = 0
type_code MetadataType.int8 = 1
type_code MetadataType.uint16 = 2
type_code MetadataType.int16 = 3
type_code MetadataType.uint32 = 4
type_code MetadataType.int32 = 5
type_code MetadataType.float32 = 6
type_code MetadataType.boolean = 7
type_code MetadataType.string = 8
type_code MetadataType.array = 9
type_code MetadataType.uint64 = 10
type_code MetadataType.int64 = 11
type_code MetadataType.float64 = 12

-- The loop over the elements of an array.
unfoldable pub append_elements : Text → MetadataType → MetadataValues → Result Text
append_elements out element_type MetadataValues.empty = ok out
append_elements out element_type (MetadataValues.cons v vs) = do
  out' ← append_scalar out element_type v
  append_elements out' element_type vs

unfoldable pub append_value : Text → MetadataValue → Result Text
append_value out (MetadataValue.array element_type values) =
    let typed = append_integer 4 out (type_code MetadataType.array) in
    let counted =
      append_integer 8 (append_integer 4 typed (type_code element_type)) (count_values values) in
    append_elements counted element_type values
append_value out value =
    append_scalar (append_integer 4 out (type_code (value_type value))) (value_type value) value

abbrev pub starts_with : Text → Text → Bool
starts_with [] text = true
starts_with (p ∷ ps) [] = false
starts_with (p ∷ ps) (c ∷ cs) = p == c && starts_with ps cs

abbrev pub Entry : Type 0
Entry = Text × MetadataValue

unfoldable pub tokenizer_entries : List Entry → List Entry
tokenizer_entries [] = []
tokenizer_entries (e ∷ es) =
    let rest = tokenizer_entries es in
    if starts_with (bytes "tokenizer.") e.0 then e ∷ rest else rest

unfoldable pub insert_entry : Entry → List Entry → List Entry
insert_entry e [] = e ∷ []
insert_entry e (f ∷ fs) =
    let rest = insert_entry e fs in if text_lt f.0 e.0 then f ∷ rest else e ∷ (f ∷ fs)

unfoldable pub sort_entries : List Entry → List Entry
sort_entries [] = []
sort_entries (e ∷ es) = insert_entry e (sort_entries es)

unfoldable pub append_entries : Text → List Entry → Result Text
append_entries out [] = ok out
append_entries out (e ∷ es) = do
  keyed ← append_bytes out e.0
  out' ← append_value keyed e.1
  append_entries out' es

-- 'R', 'I', 'F', 'T', 'O', 'K', 0, 1
abbrev pub spec_magic : Text
spec_magic = 82 ∷ 73 ∷ 70 ∷ 84 ∷ 79 ∷ 75 ∷ 0 ∷ 1 ∷ []

unfoldable pub serialize_tokenizer_spec : Catalog → Result Text
serialize_tokenizer_spec catalog = do
  let entries = sort_entries (tokenizer_entries catalog.metadata)
  throw_if (length entries == 0 || ltb u32_max (length entries))
      (config_error (bytes "Qwen3.5 tokenizer metadata is missing or too large"))
  append_entries (append_integer 4 spec_magic (length entries)) entries
