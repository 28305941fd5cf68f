-- ===== src/Api/Engine.antt =====
-- The engine and the loading of a model: cpp/src/engine.cpp, and raftinfer_engine_create and
-- raftinfer_engine_load_model of cpp/src/c_api.cpp. The device context and the upload of the weights are parameters,
-- and `cuda` says whether the library is built with CUDA.
use raftinfer.Base.{
  ℕ, List, ◌∷◌, Bool, true, false, Option, none, some, ◌==◌, if◌then◌else◌, Text, bytes, Result, ok,
  err, Error, throw_if, ◌>>=◌, ◌>>◌,
}
use raftinfer.Base.Int.{ℤ, pos, negsuc}
use raftinfer.Session.What.{LibraryTexts, what}
use raftinfer.Model.File.{Model, FileCalls, Os, load, unmap_file, attach_cuda}
use raftinfer.Api.LastError.{
  RaftInferStatusCode, invalid_argument, unavailable, unsupported, internal, resource_exhausted,
  RaftInferStatus, fail, clear_last_error,
}
use raftinfer.Api.Sessions.{success}

-- RaftInferEngineConfig
pub record EngineConfig : Type 0 where
  pub struct_size : ℕ
  pub device_id : ℤ
  pub initial_pool_bytes : ℕ

-- Engine, with the context of its device in a build with CUDA.
pub record Engine (D : Type 0) : Type 0 where
  pub device_id : ℤ
  pub initial_pool_bytes : ℕ
  pub device : Option D

abbrev pub is_below_zero : ℤ → Bool
is_below_zero (pos n) = false
is_below_zero (negsuc n) = true

-- The device that a constructor makes, in a build with CUDA.
abbrev pub device_if : {D : Type 0} → Bool → Result D → Result (Option D)
device_if false made = ok none
device_if true made = made >>= λ device. ok (some device)

unfoldable pub create : {D : Type 0} → Bool → (ℤ → ℕ → Result D) → EngineConfig → Result (Engine D)
create cuda make_device config = do
  throw_if (is_below_zero config.device_id)
      (Error.invalid_argument (bytes "device_id must be non-negative"))
  throw_if (config.initial_pool_bytes == 0)
      (Error.invalid_argument (bytes "initial_pool_bytes must be non-zero"))
  device ← device_if cuda (make_device config.device_id config.initial_pool_bytes)
  ok (record {
    device_id = config.device_id;
    initial_pool_bytes = config.initial_pool_bytes;
    device = device;
  })

-- A model with the device and the weights that are attached to it.
pub record LoadedModel (D W : Type 0) : Type 0 where
  pub model : Model
  pub attached : Option (D × W)

module _ {D W : Type 0} (upload : D → Model → Result W) where
  -- What follows the upload.
  abbrev pub attach_uploaded : D → Model → Result W → Result (LoadedModel D W)
  attach_uploaded device model uploaded = do
    weights ← uploaded
    attached ← attach_cuda none (some device) (some weights)
    ok (record { model = model; attached = attached })

  -- A throw behind the constructor of the model ends the model, and so its mapping.
  abbrev pub or_destroy : Model → Result (LoadedModel D W) → Os → Result (LoadedModel D W) × Os
  or_destroy model (err thrown) os = (err thrown, unmap_file model.file os)
  or_destroy model (ok loaded) os = (ok loaded, os)

  abbrev pub upload_to : Option D → Result Model × Os → Result (LoadedModel D W) × Os
  upload_to device (err thrown, os) = (err thrown, os)
  upload_to none (ok model, os) = (ok (record { model = model; attached = none }), os)
  upload_to (some device) (ok model, os) =
      or_destroy model (attach_uploaded device model (upload device model)) os

  -- Engine::load_model
  unfoldable pub load_model :
      (ℕ → ℕ) → ℕ → Engine D → Text → FileCalls → Os → Result (LoadedModel D W) × Os
  load_model narrow value_size engine path calls os =
      upload_to engine.device (load narrow value_size path calls os)

unfoldable pub engine_catch : LibraryTexts → Error → RaftInferStatusCode × Text
engine_catch texts (Error.invalid_argument t) = (invalid_argument, t)
engine_catch texts e = (internal, what texts e)

unfoldable pub load_catch : LibraryTexts → Error → RaftInferStatusCode × Text
load_catch texts (Error.model_io_error t) = (unavailable, t)
load_catch texts (Error.parse_error t) = (unsupported, t)
load_catch texts (Error.config_error t) = (unsupported, t)
load_catch texts (Error.manifest_error t) = (unsupported, t)
load_catch texts Error.bad_alloc = (resource_exhausted, bytes "model loading exhausted host memory")
load_catch texts e = (internal, what texts e)

-- What a call leaves: its status, the buffer of the last error, and what the pointer of the result points to.
pub record Made (A : Type 0) : Type 0 where
  pub status : RaftInferStatus
  pub last_error : List ℕ
  pub out : Option (Option A)

abbrev pub not_made :
    {A : Type 0} → Option (Option A) → List ℕ → RaftInferStatusCode × Text → Made A
not_made out buffer (code, message) =
    let f = fail code message buffer in record { status = f.0; last_error = f.1; out = out }

abbrev pub made_or :
    {A : Type 0} → (Error → RaftInferStatusCode × Text) → List ℕ → Result A → Made A
made_or catch buffer (ok value) = record {
  status = success;
  last_error = buffer;
  out = some (some value);
}
made_or catch buffer (err thrown) = not_made (some none) buffer (catch thrown)

module _ (texts : LibraryTexts) where
  -- `config_size` is the size of RaftInferEngineConfig; `out` says whether `out_engine` is not null.
  unfoldable pub raftinfer_engine_create :
      {D : Type 0}
      → Bool
      → (ℤ → ℕ → Result D)
      → ℕ
      → List ℕ
      → Option EngineConfig
      → Bool
      → Made (Engine D)
  raftinfer_engine_create cuda make_device config_size last config false =
      not_made none (clear_last_error last)
        (invalid_argument, bytes "config and out_engine are required")
  raftinfer_engine_create cuda make_device config_size last none true =
      not_made (some none) (clear_last_error last)
        (invalid_argument, bytes "config and out_engine are required")
  raftinfer_engine_create cuda make_device config_size last (some config) true =
      if config.struct_size == config_size
      then made_or (engine_catch texts) (clear_last_error last) (create cuda make_device config)
      else not_made (some none) (clear_last_error last)
          (invalid_argument, bytes "RaftInferEngineConfig size mismatch")

  -- The empty path and the null path are refused with the same text.
  abbrev pub path_missing : Text
  path_missing = bytes "engine, gguf_path, and out_model are required"

  unfoldable pub raftinfer_engine_load_model :
      {D W : Type 0}
      → (D → Model → Result W)
      → (ℕ → ℕ)
      → ℕ
      → List ℕ
      → Option (Engine D)
      → Option Text
      → Bool
      → FileCalls
      → Os
      → Made (LoadedModel D W) × Os
  raftinfer_engine_load_model upload narrow value_size last engine path false calls os =
      (not_made none (clear_last_error last) (invalid_argument, bytes "out_model is required"), os)
  raftinfer_engine_load_model upload narrow value_size last (some engine) (some (c ∷ cs)) true calls
        os =
      let loaded = load_model upload narrow value_size engine (c ∷ cs) calls os in
      (made_or (load_catch texts) (clear_last_error last) loaded.0, loaded.1)
  raftinfer_engine_load_model upload narrow value_size last engine path true calls os =
      (not_made (some none) (clear_last_error last) (invalid_argument, path_missing), os)
