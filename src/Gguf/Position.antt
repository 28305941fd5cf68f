-- ===== src/Gguf/Position.antt =====
-- Where the class Reader of cpp/model/gguf_reader.cpp stands after its reads.
use raftinfer.Base.{ℕ, zero, suc, ◌+◌, ◌^◌, ◌≤◌, ◌<◌, List, length, Text, ok, ◌≡◌, arith}
use raftinfer.Gguf.Types.{MetadataType, MetadataValue, MetadataValues, ReaderLimits}
use raftinfer.Gguf.Reader.{
  Reader, require, charge_catalog_bytes, read_unsigned, read_string, read_number, read_boolean,
  read_text, read_element, read_elements, read_array, read_value,
}

-- The next read starts inside the file or at its end, and the catalog is within its limit.
pub record IsValid (file : List ℕ) (limits : ReaderLimits) (r : Reader) : Type 0 where
  pub position_in : r.position ≤ length file
  pub charged_in : r.catalog_bytes ≤ limits.max_catalog_bytes

module _ (file : List ℕ) (limits : ReaderLimits) (value_size : ℕ)
    (addressable : length file < 2 ^ 64) where
  -- From one reader to the next.
  abbrev Advances : Reader → Reader → Type 0
  Advances r r' = IsValid file limits r → (IsValid file limits r' × (r.position ≤ r'.position))

  require-le :
      (count : ℕ) (context : Text) (r : Reader)
      → r.position ≤ length file
      → require file limits value_size count context r ≡ ok tt
      → r.position + count ≤ length file
  unfolding require
  require-le count context r valid h = ground (arith, addressable)

  charge_catalog_bytes-Advances :
      (n : ℕ) (context : Text) (r r' : Reader)
      → charge_catalog_bytes file limits value_size n context r ≡ ok r'
      → Advances r r'
  unfolding charge_catalog_bytes
  charge_catalog_bytes-Advances n context r r' h valid = ground (arith, valid.position_in)

  charge_catalog_bytes-position :
      (n : ℕ) (context : Text) (r r' : Reader)
      → charge_catalog_bytes file limits value_size n context r ≡ ok r'
      → r'.position ≡ r.position
  unfolding charge_catalog_bytes
  charge_catalog_bytes-position n context r r' h = ground arith

  read_unsigned-Advances :
      (count : ℕ) (context : Text) (r : Reader) (out : ℕ × Reader)
      → read_unsigned file limits value_size count context r ≡ ok out
      → Advances r out.1
  unfolding read_unsigned
  read_unsigned-Advances count context r out h valid =
      ground (arith, require-le count context r valid.position_in, valid.charged_in)

  read_string-Advances :
      (context : Text) (r : Reader) (out : Text × Reader)
      → read_string file limits value_size context r ≡ ok out
      → Advances r out.1
  unfolding read_string
  read_string-Advances context r out h valid = grind (
    arith, read_unsigned-Advances, charge_catalog_bytes-Advances, charge_catalog_bytes-position,
    require-le,
  )

  read_number-Advances :
      (count : ℕ) (make : ℕ → MetadataValue) (context : Text) (r : Reader)
      (out : MetadataValue × Reader)
      → read_number file limits value_size count make context r ≡ ok out
      → Advances r out.1
  unfolding read_number
  read_number-Advances count make context r out h valid =
      grind (arith, read_unsigned-Advances, charge_catalog_bytes-Advances)

  read_boolean-Advances :
      (context : Text) (r : Reader) (out : MetadataValue × Reader)
      → read_boolean file limits value_size context r ≡ ok out
      → Advances r out.1
  unfolding read_boolean
  read_boolean-Advances context r out h valid =
      grind (arith, read_unsigned-Advances, charge_catalog_bytes-Advances)

  read_text-Advances :
      (context : Text) (r : Reader) (out : MetadataValue × Reader)
      → read_text file limits value_size context r ≡ ok out
      → Advances r out.1
  unfolding read_text
  read_text-Advances context r out h valid = grind (arith, read_string-Advances)

  read_element-Advances :
      (type : MetadataType) (context : Text) (r : Reader) (out : MetadataValue × Reader)
      → read_element file limits value_size type context r ≡ ok out
      → Advances r out.1
  unfolding read_element
  read_element-Advances MetadataType.uint8 = read_number-Advances _ _
  read_element-Advances MetadataType.int8 = read_number-Advances _ _
  read_element-Advances MetadataType.uint16 = read_number-Advances _ _
  read_element-Advances MetadataType.int16 = read_number-Advances _ _
  read_element-Advances MetadataType.uint32 = read_number-Advances _ _
  read_element-Advances MetadataType.int32 = read_number-Advances _ _
  read_element-Advances MetadataType.float32 = read_number-Advances _ _
  read_element-Advances MetadataType.boolean = read_boolean-Advances
  read_element-Advances MetadataType.string = read_text-Advances
  read_element-Advances MetadataType.array = λ context r out h. cc h
  read_element-Advances MetadataType.uint64 = read_number-Advances _ _
  read_element-Advances MetadataType.int64 = read_number-Advances _ _
  read_element-Advances MetadataType.float64 = read_number-Advances _ _

  read_elements-Advances :
      (count : ℕ) (type : MetadataType) (context : Text) (r : Reader)
      (out : MetadataValues × Reader)
      → read_elements file limits value_size count type context r ≡ ok out
      → Advances r out.1
  unfolding read_elements
  read_elements-Advances zero type context r out h valid = grind arith
  read_elements-Advances (suc count) type context r out h valid =
      grind (arith, read_element-Advances, read_elements-Advances count)

  read_array-Advances :
      (context : Text) (r : Reader) (out : MetadataValue × Reader)
      → read_array file limits value_size context r ≡ ok out
      → Advances r out.1
  unfolding read_array
  read_array-Advances context r out h valid =
      grind (arith, read_unsigned-Advances, charge_catalog_bytes-Advances, read_elements-Advances)

  -- For a file shorter than 2^64 bytes and a reader inside the file and within the catalog limit:
  -- where read_value returns, the reader is again inside the file and within the limit, and it has
  -- not gone back.
  pub read_value-IsValid :
      (type : MetadataType) (context : Text) (r : Reader) (out : MetadataValue × Reader)
      → read_value file limits value_size type context r ≡ ok out
      → IsValid file limits r
      → IsValid file limits out.1 × (r.position ≤ out.1.position)
  unfolding read_value
  read_value-IsValid type context r out h valid =
      grind (arith, read_array-Advances, read_element-Advances)
