-- ===== src/Api/EngineTests.antt =====
-- The loading of a model at a concrete input: a file that is no Qwen3.5 model, on a device whose weights are a
-- number.
use raftinfer.Base.{ℕ, [], some, true, bytes, ok, err, Error, runtime_error, Result, ◌≡◌, ◌⊎◌, refl}
use raftinfer.Base.Int.{pos, negsuc}
use raftinfer.Model.Tests.{unused}
use raftinfer.Model.File.{Model}
use raftinfer.Model.FileTests.{two_calls, two_calls-Shows, one_open}
use raftinfer.Session.Tests.{texts}
use raftinfer.Api.Engine.{Engine, create, raftinfer_engine_load_model}
use raftinfer.Api.Loading.{Given, Refused, raftinfer_engine_load_model-leaves}

abbrev engine : Engine ℕ
engine = record { device_id = pos 0; initial_pool_bytes = 1024; device = some 7 }

created :
    create true
      (λ id size. ok 7)
      (record { struct_size = 24; device_id = pos 0; initial_pool_bytes = 1024 })
    ≡ ok engine
unfolding create
created = refl

no_device :
    create {D = ℕ} true
      (λ id size. ok 7)
      (record { struct_size = 24; device_id = negsuc 0; initial_pool_bytes = 1024 })
    ≡ err (Error.invalid_argument (bytes "device_id must be non-negative"))
unfolding create
no_device = refl

abbrev upload : ℕ → Model → Result ℕ
upload device model = err (runtime_error (bytes "no memory"))

raftinfer_engine_load_model-leaves_example :
    let r =
      raftinfer_engine_load_model texts upload unused 40 []
        (some engine)
        (some (bytes "m.gguf"))
        true
        two_calls
        one_open in
    Given unused 40 one_open r.0 r.1 ⊎ Refused unused 40 one_open r.0 r.1
raftinfer_engine_load_model-leaves_example =
    raftinfer_engine_load_model-leaves texts upload unused 40 [] (some engine)
      (some (bytes "m.gguf")) true two_calls one_open two_calls-Shows
