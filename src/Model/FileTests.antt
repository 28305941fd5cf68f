-- ===== src/Model/FileTests.antt =====
-- Runs on a model file (cpp/model/model.cpp): a mapping, a payload, and the bytes of a tokenizer.
use raftinfer.Base.{
  ℕ, [], ◌∷◌, ◌++◌, some, true, bytes, ok, err, ◌≡◌, ◌≢◌, ◌≤◌, ◌⊎◌, inr, refl, arith, Text,
  logic_error, model_io_error,
}
use raftinfer.Base.Int.{pos, negsuc}
use raftinfer.Base.Texts.{text_lt}
use raftinfer.Gguf.Types.{MetadataType, MetadataValue, MetadataValues, TensorInfo, Catalog}
use raftinfer.Gguf.Spans.{end_of}
use raftinfer.Gguf.Tests.{small_file, small_catalog, small_file_is_read}
use raftinfer.Model.Manifest.{find_tensor}
use raftinfer.Model.Tests.{small_config, unused}
use raftinfer.Model.Spec.{
  to_bytes, append_integer, append_bytes, append_scalar, value_type, append_elements, append_value,
  tokenizer_entries, insert_entry, sort_entries, append_entries, serialize_tokenizer_spec,
}
use raftinfer.Model.File.{
  FileCalls, Os, Model, load, map_file, open_file, inspect_descriptor, map_descriptor,
  tensor_payload, attach_cuda,
}
use raftinfer.Model.Payload.{Shows, Loads, load-Loads}
use raftinfer.Model.Tensors.{payload_of, tensor_payload-Placed}

abbrev pub two_calls : FileCalls
two_calls = record {
  opened = inr 3;
  inspected = inr (record { is_regular = true; size = pos 132 });
  mapped = inr (4096, small_file);
}

pub two_calls-Shows : Shows two_calls
two_calls-Shows status mapping inspected mapped = ground (arith, inspected, mapped)

abbrev pub one_open : Os
one_open = record { descriptors = 9 ∷ []; mappings = [] }

is_mapped : map_file (bytes "m.gguf") two_calls one_open ≡ (
  ok (record { address = 4096; size = 132; content = small_file }),
  record { descriptors = 9 ∷ []; mappings = (4096, 132) ∷ [] },
)
unfolding map_file open_file inspect_descriptor map_descriptor
is_mapped = refl

load-Loads_example :
    Loads unused 40 one_open
      (load unused 40 (bytes "m.gguf") two_calls one_open).0
      (load unused 40 (bytes "m.gguf") two_calls one_open).1
load-Loads_example = load-Loads unused 40 (bytes "m.gguf") two_calls one_open two_calls-Shows

abbrev first_tensor : TensorInfo
first_tensor = record { name = 97 ∷ []; dimensions = 4 ∷ []; type = 0; offset = 0; byte_size = 16 }

abbrev small_model : Model
small_model = record {
  file = record { address = 4096; size = 132; content = small_file };
  catalog = small_catalog;
  config = small_config;
  manifest = record {
    token_embedding = first_tensor;
    output_norm = first_tensor;
    output = first_tensor;
    layers = [];
  };
  tokenizer_spec = [];
}

tensor_payload-Placed_example :
    ((find_tensor small_catalog.tensors (97 ∷ []) ≡ some first_tensor)
      × (tensor_payload small_model first_tensor ≡ ok (payload_of small_catalog first_tensor))
      × (end_of small_catalog first_tensor ≤ 132))
    ⊎ ((find_tensor small_catalog.tensors (97 ∷ []) ≢ some first_tensor)
        × (tensor_payload small_model first_tensor
            ≡ err (
                model_io_error
                  (bytes "GGUF tensor descriptor does not belong to model: " ++ (97 ∷ [])))))
tensor_payload-Placed_example =
    tensor_payload-Placed 40 small_model first_tensor refl (omega arith) small_file_is_read

attached_once :
    attach_cuda {D = ℕ} {W = ℕ} (some (1, 2)) (some 3) (some 4)
    ≡ err (logic_error (bytes "CUDA model attachment is immutable"))
unfolding attach_cuda
attached_once = refl

abbrev tokenizer_catalog : Catalog
tokenizer_catalog = record {
  version = 3;
  alignment = 32;
  tensor_data_offset = 0;
  metadata =
      (bytes "tokenizer.z", MetadataValue.int8 (negsuc 1))
      ∷ (bytes "qwen35.block_count", MetadataValue.uint32 2)
      ∷ (
        bytes "tokenizer.a",
        MetadataValue.array MetadataType.string
            (MetadataValues.cons (MetadataValue.string (98 ∷ [])) MetadataValues.empty),
      )
      ∷ [];
  tensors = [];
}

abbrev tokenizer_bytes : Text
tokenizer_bytes =
    82
    ∷ 73
    ∷ 70
    ∷ 84
    ∷ 79
    ∷ 75
    ∷ 0
    ∷ 1
    ∷ 2
    ∷ 0
    ∷ 0
    ∷ 0
    ∷ 11
    ∷ 0
    ∷ 0
    ∷ 0
    ∷ (bytes "tokenizer.a"
        ++ (9
            ∷ 0
            ∷ 0
            ∷ 0
            ∷ 8
            ∷ 0
            ∷ 0
            ∷ 0
            ∷ 1
            ∷ 0
            ∷ 0
            ∷ 0
            ∷ 0
            ∷ 0
            ∷ 0
            ∷ 0
            ∷ 1
            ∷ 0
            ∷ 0
            ∷ 0
            ∷ 98
            ∷ 11
            ∷ 0
            ∷ 0
            ∷ 0
            ∷ (bytes "tokenizer.z" ++ (1 ∷ 0 ∷ 0 ∷ 0 ∷ 254 ∷ []))))

is_serialized : serialize_tokenizer_spec tokenizer_catalog ≡ ok tokenizer_bytes
unfolding serialize_tokenizer_spec to_bytes append_integer append_bytes append_scalar value_type
    append_elements append_value tokenizer_entries insert_entry sort_entries append_entries text_lt
    bytes
is_serialized = refl
