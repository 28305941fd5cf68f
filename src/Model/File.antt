-- ===== src/Model/File.antt =====
-- The model file, cpp/model/model.cpp: the mapping of the file, the constructor of Model, tensor_payload and
-- attach_cuda. What the calls of the operating system return is a parameter; a failed call gives the text of
-- its errno. The files that are open and the mappings that exist are the state `Os`.
use raftinfer.Base.{
  ℕ, ◌+◌, ◌-◌, List, [], ◌∷◌, ◌++◌, Option, none, some, Bool, false, not, ◌&&◌, ◌||◌, ltb, ◌==◌,
  if◌then◌else◌, Text, bytes, Result, ok, err, Error, model_io_error, invalid_argument, logic_error,
  throw_if, ◌>>=◌, ◌>>◌, size_max, ◌⊎◌, inl, inr,
}
use raftinfer.Base.Int.{ℤ, above_zero}
use raftinfer.Base.Texts.{text_eq}
use raftinfer.Gguf.Types.{TensorInfo, Catalog, default_limits}
use raftinfer.Gguf.Read.{read_catalog}
use raftinfer.Model.Config.{Qwen35Config}
use raftinfer.Model.Derive.{derive_qwen35_config}
use raftinfer.Model.Manifest.{Qwen35Manifest, find_tensor, validate_qwen35_manifest}
use raftinfer.Model.Spec.{serialize_tokenizer_spec}

pub record Status : Type 0 where
  pub is_regular : Bool
  pub size : ℤ

-- What open, fstat and mmap return; a mapping is its address and the bytes that it shows.
pub record FileCalls : Type 0 where
  pub opened : Text ⊎ ℕ
  pub inspected : Text ⊎ Status
  pub mapped : Text ⊎ (ℕ × List ℕ)

pub record Os : Type 0 where
  pub descriptors : List ℕ
  pub mappings : List (ℕ × ℕ)

abbrev pub close_one : ℕ → List ℕ → List ℕ
close_one descriptor [] = []
close_one descriptor (d ∷ ds) = if d == descriptor then ds else d ∷ close_one descriptor ds

abbrev pub unmap_one : ℕ → ℕ → List (ℕ × ℕ) → List (ℕ × ℕ)
unmap_one address size [] = []
unmap_one address size (m ∷ ms) =
    if m.0 == address && m.1 == size then ms else m ∷ unmap_one address size ms

-- close
abbrev pub close_file : ℕ → Os → Os
close_file descriptor os = record os { descriptors = close_one descriptor os.descriptors }

pub record MappedFile : Type 0 where
  pub address : ℕ
  pub size : ℕ
  pub content : List ℕ

-- MappedFile::~MappedFile
unfoldable pub unmap_file : MappedFile → Os → Os
unmap_file file os = record os { mappings = unmap_one file.address file.size os.mappings }

-- mmap, and what follows it.
unfoldable pub map_descriptor : Text → Text ⊎ (ℕ × List ℕ) → ℕ → ℕ → Os → Result MappedFile × Os
map_descriptor path (inl why) size descriptor os = (
  err (model_io_error (bytes "cannot map GGUF file " ++ (path ++ (bytes ": " ++ why)))),
  close_file descriptor os,
)
map_descriptor path (inr mapping) size descriptor os = (
  ok (record { address = mapping.0; size = size; content = mapping.1 }),
  close_file descriptor (record os { mappings = (mapping.0, size) ∷ os.mappings }),
)

-- fstat, and what follows it.
unfoldable pub inspect_descriptor :
    Text → FileCalls → Text ⊎ Status → ℕ → Os → Result MappedFile × Os
inspect_descriptor path calls (inl why) descriptor os = (
  err (model_io_error (bytes "cannot inspect GGUF file " ++ (path ++ (bytes ": " ++ why)))),
  close_file descriptor os,
)
inspect_descriptor path calls (inr status) descriptor os =
    if not status.is_regular || above_zero status.size == 0
    then (
      err (model_io_error (bytes "GGUF path is not a nonempty regular file: " ++ path)),
      close_file descriptor os,
    )
    else if ltb size_max (above_zero status.size)
    then (
      err (model_io_error (bytes "GGUF file is too large for this platform: " ++ path)),
      close_file descriptor os,
    )
    else map_descriptor path calls.mapped (above_zero status.size) descriptor os

-- open, and what follows it.
unfoldable pub open_file : Text → FileCalls → Text ⊎ ℕ → Os → Result MappedFile × Os
open_file path calls (inl why) os =
    (err (model_io_error (bytes "cannot open GGUF file " ++ (path ++ (bytes ": " ++ why)))), os)
open_file path calls (inr descriptor) os =
    inspect_descriptor path calls calls.inspected descriptor
      (record os { descriptors = descriptor ∷ os.descriptors })

-- MappedFile::MappedFile
unfoldable pub map_file : Text → FileCalls → Os → Result MappedFile × Os
map_file path calls os = open_file path calls calls.opened os

-- Model::Impl without the state of CUDA.
pub record Model : Type 0 where
  pub file : MappedFile
  pub catalog : Catalog
  pub config : Qwen35Config
  pub manifest : Qwen35Manifest
  pub tokenizer_spec : Text

-- A member that throws ends the construction, and the file is destroyed.
abbrev pub or_unmap : MappedFile → Result Model → Os → Result Model × Os
or_unmap file (err thrown) os = (err thrown, unmap_file file os)
or_unmap file (ok model) os = (ok model, os)

module _ (narrow : ℕ → ℕ) (value_size : ℕ) where
  -- The members behind the file.
  unfoldable pub read_model : MappedFile → Result Model
  read_model file = do
    catalog ← read_catalog file.content default_limits value_size
    config ← derive_qwen35_config narrow catalog
    manifest ← validate_qwen35_manifest catalog config
    tokenizer_spec ← serialize_tokenizer_spec catalog
    ok (record {
      file = file;
      catalog = catalog;
      config = config;
      manifest = manifest;
      tokenizer_spec = tokenizer_spec;
    })

  abbrev pub with_file : Result MappedFile × Os → Result Model × Os
  with_file (err thrown, os) = (err thrown, os)
  with_file (ok file, os) = or_unmap file (read_model file) os

  -- Model::Impl::Impl
  unfoldable pub load : Text → FileCalls → Os → Result Model × Os
  load path calls os = with_file (map_file path calls os)

unfoldable pub checked_add_u64 : ℕ → ℕ → Option ℕ
checked_add_u64 left right = if ltb (size_max - left) right then none else some (left + right)

-- Two descriptors agree in all fields but the name.
unfoldable pub same_descriptor : TensorInfo → TensorInfo → Bool
same_descriptor a b =
    text_eq a.dimensions b.dimensions
    && (a.type == b.type && (a.offset == b.offset && a.byte_size == b.byte_size))

abbrev pub outside : Text → Error
outside name = model_io_error (bytes "GGUF tensor payload is outside the mapped file: " ++ name)

abbrev pub belongs : Option TensorInfo → TensorInfo → Bool
belongs none tensor = false
belongs (some t) tensor = same_descriptor t tensor

abbrev pub inside_file : ℕ → ℕ → Option ℕ → Option ℕ → Text → Result (ℕ × ℕ)
inside_file size byte_size (some begin) (some end) name =
    if ltb size end then err (outside name) else ok (begin, byte_size)
inside_file size byte_size begin end name = err (outside name)

abbrev pub and_size : Option ℕ → ℕ → Option ℕ
and_size none byte_size = none
and_size (some begin) byte_size = checked_add_u64 begin byte_size

-- Model::tensor_payload: the span in the mapping, as its offset and length. std::size_t has 64 bits, so the test
-- against its maximum never holds.
unfoldable pub tensor_payload : Model → TensorInfo → Result (ℕ × ℕ)
tensor_payload model tensor = do
  throw_if (not (belongs (find_tensor model.catalog.tensors tensor.name) tensor))
      (model_io_error (bytes "GGUF tensor descriptor does not belong to model: " ++ tensor.name))
  let begin = checked_add_u64 model.catalog.tensor_data_offset tensor.offset
  inside_file model.file.size tensor.byte_size begin (and_size begin tensor.byte_size) tensor.name

-- Model::attach_cuda, on the state that is attached; a null pointer is none.
unfoldable pub attach_cuda {ℓ} :
    {D W : Type ℓ} → Option (D × W) → Option D → Option W → Result (Option (D × W))
attach_cuda none (some device) (some weights) = ok (some (device, weights))
attach_cuda (some attached) (some device) (some weights) =
    err (logic_error (bytes "CUDA model attachment is immutable"))
attach_cuda state device weights =
    err (invalid_argument (bytes "CUDA model attachment requires device and weight ownership"))
