-- ===== src/Gguf/Read.antt =====
-- read_catalog of cpp/model/gguf_reader.cpp and its loops.
use raftinfer.Base.{
  ℕ, zero, suc, List, [], ◌∷◌, ◌++◌, length, not, ◌||◌, ◌==◌, ltb, Text, bytes, Error, Result, ok,
  ◌>>=◌, ◌>>◌, throw_if,
}
use raftinfer.Gguf.Types.{MetadataValue, TensorInfo, Catalog, ReaderLimits}
use raftinfer.Gguf.Reader.{
  Reader, metadata_type, read_unsigned, read_string, read_value, charge_tensor_dimensions,
}
use raftinfer.Gguf.Catalog.{
  tensor_byte_size, catalog_alignment, valid_metadata_key, align_up, check_spans, knows_key,
  knows_name,
}

module _ (file : List ℕ) (limits : ReaderLimits) (value_size : ℕ) where
  -- One character of the magic.
  abbrev expect_byte : ℕ → Reader → Result Reader
  expect_byte expected r = do
    read ← read_unsigned file limits value_size 1 (bytes "magic") r
    throw_if (not (read.0 == expected)) (Error.parse_error (bytes "invalid GGUF magic"))
    ok read.1

  -- G, G, U, F
  unfoldable pub read_magic : Reader → Result Reader
  read_magic r = do
    r1 ← expect_byte 71 r
    r2 ← expect_byte 71 r1
    r3 ← expect_byte 85 r2
    expect_byte 70 r3

  unfoldable pub read_entry :
      List (Text × MetadataValue) → Reader → Result (List (Text × MetadataValue) × Reader)
  read_entry metadata r = do
    key ← read_string file limits value_size (bytes "metadata key") r
    throw_if (not (valid_metadata_key key.0))
        (Error.parse_error (bytes "invalid GGUF metadata key: " ++ key.0))
    raw ← read_unsigned file limits value_size 4 (bytes "metadata type") key.1
    type ← metadata_type raw.0 (bytes "metadata " ++ key.0)
    value ← read_value file limits value_size type (bytes "metadata " ++ key.0) raw.1
    throw_if (knows_key metadata key.0)
        (Error.parse_error (bytes "duplicate GGUF metadata key: " ++ key.0))
    ok ((key.0, value.0) ∷ metadata, value.1)

  unfoldable pub read_metadata :
      ℕ → List (Text × MetadataValue) → Reader → Result (List (Text × MetadataValue) × Reader)
  read_metadata zero metadata r = ok (metadata, r)
  read_metadata (suc count) metadata r = do
    read ← read_entry metadata r
    read_metadata count read.0 read.1

  unfoldable pub read_dimensions : ℕ → Reader → Result (List ℕ × Reader)
  read_dimensions zero r = ok ([], r)
  read_dimensions (suc rank) r = do
    first ← read_unsigned file limits value_size 8 (bytes "tensor dimension") r
    rest ← read_dimensions rank first.1
    ok (first.0 ∷ rest.0, rest.1)

  unfoldable pub read_tensor : List Text → Reader → Result (TensorInfo × Reader)
  read_tensor names r = do
    name ← read_string file limits value_size (bytes "tensor name") r
    throw_if (knows_name names name.0)
        (Error.parse_error (bytes "duplicate GGUF tensor name: " ++ name.0))
    rank ← read_unsigned file limits value_size 4 (bytes "tensor rank") name.1
    throw_if (rank.0 == 0 || ltb limits.max_tensor_rank rank.0)
        (Error.parse_error (bytes "tensor " ++ name.0 ++ bytes " has an invalid rank"))
    charged ← charge_tensor_dimensions file limits value_size rank.0 name.0 rank.1
    dimensions ← read_dimensions rank.0 charged
    type ← read_unsigned file limits value_size 4 (bytes "tensor type") dimensions.1
    offset ← read_unsigned file limits value_size 8 (bytes "tensor offset") type.1
    byte_size ← tensor_byte_size type.0 dimensions.0 name.0
    ok (
      record {
        name = name.0;
        dimensions = dimensions.0;
        type = type.0;
        offset = offset.0;
        byte_size = byte_size;
      },
      offset.1,
    )

  unfoldable pub read_tensors : ℕ → List Text → Reader → Result (List TensorInfo × Reader)
  read_tensors zero names r = ok ([], r)
  read_tensors (suc count) names r = do
    first ← read_tensor names r
    rest ← read_tensors count (first.0.name ∷ names) first.1
    ok (first.0 ∷ rest.0, rest.1)

  -- Everything in front of the tests on the tensors' ranges.
  unfoldable pub read_header : Result (Catalog × Reader)
  read_header = do
    magic ← read_magic (record { position = 0; catalog_bytes = 0 })
    version ← read_unsigned file limits value_size 4 (bytes "version") magic
    throw_if (not (version.0 == 3)) (Error.parse_error (bytes "unsupported GGUF version"))
    tensor_count ← read_unsigned file limits value_size 8 (bytes "tensor count") version.1
    metadata_count ← read_unsigned file limits value_size 8 (bytes "metadata count") tensor_count.1
    throw_if (ltb limits.max_tensor_count tensor_count.0)
        (Error.parse_error (bytes "GGUF tensor count exceeds the configured limit"))
    throw_if (ltb limits.max_metadata_count metadata_count.0)
        (Error.parse_error (bytes "GGUF metadata count exceeds the configured limit"))
    metadata ← read_metadata metadata_count.0 [] metadata_count.1
    alignment ← catalog_alignment metadata.0
    tensors ← read_tensors tensor_count.0 [] metadata.1
    data_offset ← align_up tensors.1.position alignment
    ok (
      record {
        version = version.0;
        alignment = alignment;
        tensor_data_offset = data_offset;
        metadata = metadata.0;
        tensors = tensors.0;
      },
      tensors.1,
    )

  unfoldable pub read_catalog : Result Catalog
  read_catalog = do header ← read_header; check_spans (length file) header.0; ok header.0
