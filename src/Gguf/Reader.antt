-- ===== src/Gguf/Reader.antt =====
-- The class Reader of cpp/model/gguf_reader.cpp. Its state is passed on; the bytes of the file, the
-- limits and sizeof(MetadataValue) are parameters.
use raftinfer.Base.{
  ℕ, zero, suc, ◌+◌, ◌-◌, ◌*◌, ◌/◌, ◌%◌, ◌^◌, bit_or, List, [], ◌∷◌, ◌++◌, length, take, drop, Bool,
  true, false, not, ◌&&◌, ◌==◌, ltb, if◌then◌else◌, Text, bytes, Error, Result, ok, err, ◌>>=◌,
  ◌>>◌, throw_if, size_max,
}
use raftinfer.Base.Int.{ℤ, pos, negsuc}
use raftinfer.Gguf.Types.{MetadataType, MetadataValue, MetadataValues, ReaderLimits}

-- Where the next read starts, and what the catalog has been charged with.
pub record Reader : Type 0 where
  pub position : ℕ
  pub catalog_bytes : ℕ

-- `right > max - left` of an unsigned 64-bit integer.
abbrev pub add_overflows : ℕ → ℕ → Bool
add_overflows left right = ltb (size_max - left) right

abbrev pub mul_overflows : ℕ → ℕ → Bool
mul_overflows left right = not (left == 0) && ltb (size_max / left) right

-- The bits of a w-bit integer read as a signed one.
abbrev pub to_signed : ℕ → ℕ → ℤ
to_signed w n = if ltb n (2 ^ w / 2) then pos n else negsuc (2 ^ w - 1 - n)

-- The loop of read_unsigned from byte `index` on.
unfoldable pub little_endian : ℕ → ℕ → List ℕ → ℕ
little_endian index value [] = value
little_endian index value (b ∷ bs) =
    little_endian (suc index) (bit_or value (b * 2 ^ (index * 8))) bs

abbrev pub metadata_type_of : ℕ → MetadataType
metadata_type_of n =
    if n == 0
    then MetadataType.uint8
    else if n == 1
    then MetadataType.int8
    else if n == 2
    then MetadataType.uint16
    else if n == 3
    then MetadataType.int16
    else if n == 4
    then MetadataType.uint32
    else if n == 5
    then MetadataType.int32
    else if n == 6
    then MetadataType.float32
    else if n == 7
    then MetadataType.boolean
    else if n == 8
    then MetadataType.string
    else if n == 9
    then MetadataType.array
    else if n == 10
    then MetadataType.uint64
    else if n == 11
    then MetadataType.int64
    else MetadataType.float64

unfoldable pub metadata_type : ℕ → Text → Result MetadataType
metadata_type raw context = do
  throw_if (ltb 12 raw) (Error.parse_error (context ++ bytes " has an unknown metadata type"))
  ok (metadata_type_of raw)

module _ (file : List ℕ) (limits : ReaderLimits) (value_size : ℕ) where
  -- Unsigned subtraction wraps around.
  unfoldable pub require : ℕ → Text → Reader → Result (Unit {0})
  require count context r =
      throw_if (ltb ((length file + 2 ^ 64 - r.position) % 2 ^ 64) count)
        (Error.parse_error (bytes "truncated GGUF while reading " ++ context))

  unfoldable pub charge_catalog_bytes : ℕ → Text → Reader → Result Reader
  charge_catalog_bytes n context r = do
    throw_if (add_overflows r.catalog_bytes n)
        (Error.parse_error (context ++ bytes " overflows the GGUF catalog byte counter"))
    throw_if (ltb limits.max_catalog_bytes (r.catalog_bytes + n))
        (Error.parse_error (context ++ bytes " exceeds the GGUF catalog byte limit"))
    ok (record r { catalog_bytes = r.catalog_bytes + n })

  -- read_u8, read_u16, read_u32 and read_u64 are this for 1, 2, 4 and 8 bytes.
  unfoldable pub read_unsigned : ℕ → Text → Reader → Result (ℕ × Reader)
  read_unsigned count context r = do
    require count context r
    ok (
      little_endian 0 0 (take count (drop r.position file)),
      record r { position = r.position + count },
    )

  unfoldable pub read_string : Text → Reader → Result (Text × Reader)
  read_string context r = do
    size ← read_unsigned 8 (context ++ bytes " length") r
    throw_if (ltb limits.max_string_bytes size.0)
        (Error.parse_error (context ++ bytes " exceeds the GGUF string limit"))
    throw_if (ltb size_max size.0)
        (Error.parse_error (context ++ bytes " length does not fit this platform"))
    require size.0 context size.1
    charged ← charge_catalog_bytes size.0 (context ++ bytes " storage") size.1
    ok (
      take size.0 (drop charged.position file),
      record charged { position = charged.position + size.0 },
    )

  -- A number of `count` bytes, charged before it is read.
  unfoldable pub read_number :
      ℕ → (ℕ → MetadataValue) → Text → Reader → Result (MetadataValue × Reader)
  read_number count make context r = do
    charged ← charge_catalog_bytes count (context ++ bytes " storage") r
    read ← read_unsigned count context charged
    ok (make read.0, read.1)

  unfoldable pub read_boolean : Text → Reader → Result (MetadataValue × Reader)
  read_boolean context r = do
    charged ← charge_catalog_bytes 1 (context ++ bytes " storage") r
    read ← read_unsigned 1 context charged
    throw_if (ltb 1 read.0) (Error.parse_error (context ++ bytes " has an invalid boolean value"))
    ok (MetadataValue.boolean (not (read.0 == 0)), read.1)

  unfoldable pub read_text : Text → Reader → Result (MetadataValue × Reader)
  read_text context r = do read ← read_string context r; ok (MetadataValue.string read.0, read.1)

  -- read_value where an array is not allowed.
  unfoldable pub read_element : MetadataType → Text → Reader → Result (MetadataValue × Reader)
  read_element MetadataType.uint8 = read_number 1 MetadataValue.uint8
  read_element MetadataType.int8 = read_number 1 (λ n. MetadataValue.int8 (to_signed 8 n))
  read_element MetadataType.uint16 = read_number 2 MetadataValue.uint16
  read_element MetadataType.int16 = read_number 2 (λ n. MetadataValue.int16 (to_signed 16 n))
  read_element MetadataType.uint32 = read_number 4 MetadataValue.uint32
  read_element MetadataType.int32 = read_number 4 (λ n. MetadataValue.int32 (to_signed 32 n))
  read_element MetadataType.float32 = read_number 4 MetadataValue.float32
  read_element MetadataType.boolean = read_boolean
  read_element MetadataType.string = read_text
  read_element MetadataType.array =
      λ context r. err (Error.parse_error (context ++ bytes " contains a nested array"))
  read_element MetadataType.uint64 = read_number 8 MetadataValue.uint64
  read_element MetadataType.int64 = read_number 8 (λ n. MetadataValue.int64 (to_signed 64 n))
  read_element MetadataType.float64 = read_number 8 MetadataValue.float64

  -- The loop over the elements of an array.
  unfoldable pub read_elements : ℕ → MetadataType → Text → Reader → Result (MetadataValues × Reader)
  read_elements zero type context r = ok (MetadataValues.empty, r)
  read_elements (suc count) type context r = do
    first ← read_element type (context ++ bytes " element") r
    rest ← read_elements count type context first.1
    ok (MetadataValues.cons first.0 rest.0, rest.1)

  abbrev pub is_array : MetadataType → Bool
  is_array MetadataType.array = true
  is_array _ = false

  unfoldable pub read_array : Text → Reader → Result (MetadataValue × Reader)
  read_array context r = do
    raw ← read_unsigned 4 (context ++ bytes " element type") r
    type ← metadata_type raw.0 (context ++ bytes " element")
    throw_if (is_array type) (Error.parse_error (context ++ bytes " contains a nested array"))
    size ← read_unsigned 8 (context ++ bytes " length") raw.1
    throw_if (ltb limits.max_array_elements size.0)
        (Error.parse_error (context ++ bytes " exceeds the GGUF array limit"))
    throw_if (mul_overflows size.0 value_size)
        (Error.parse_error (context ++ bytes " catalog storage overflows"))
    charged ← charge_catalog_bytes (size.0 * value_size) (context ++ bytes " storage") size.1
    elements ← read_elements size.0 type context charged
    ok (MetadataValue.array type elements.0, elements.1)

  unfoldable pub read_value : MetadataType → Text → Reader → Result (MetadataValue × Reader)
  read_value type context r =
      if is_array type then read_array context r else read_element type context r

  unfoldable pub charge_tensor_dimensions : ℕ → Text → Reader → Result Reader
  charge_tensor_dimensions rank name r = do
    throw_if (mul_overflows rank 8)
        (Error.parse_error (bytes "tensor " ++ name ++ bytes " dimension storage overflows"))
    charge_catalog_bytes (rank * 8) (bytes "tensor " ++ name ++ bytes " dimension storage") r
