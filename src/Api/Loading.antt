-- ===== src/Api/Loading.antt =====
-- What raftinfer_engine_load_model (cpp/src/c_api.cpp, cpp/src/engine.cpp) leaves behind.
use raftinfer.Base.{
  ℕ, List, [], ◌∷◌, Bool, true, false, Option, none, some, Text, Result, ok, err, Error, ==_refl,
  ◌≡◌, ◌≢◌, ◌⊎◌, inl, inr, refl, arith,
}
use raftinfer.Session.What.{LibraryTexts}
use raftinfer.Model.File.{Model, FileCalls, Os, load, unmap_file, attach_cuda}
use raftinfer.Model.Payload.{Shows, IsRead, Loads, load-Loads}
use raftinfer.Api.LastError.{status_ok, fail}
use raftinfer.Api.Sessions.{success}
use raftinfer.Api.Engine.{
  Engine, LoadedModel, attach_uploaded, or_destroy, upload_to, load_model, load_catch, Made,
  made_or, raftinfer_engine_load_model,
}

-- The state of the operating system is as before.
abbrev pub Unchanged : Os → Os → Type 0
Unchanged before after =
    (after.descriptors ≡ before.descriptors) × (after.mappings ≡ before.mappings)

module _ {D W : Type 0} (narrow : ℕ → ℕ) (value_size : ℕ) where
  -- A model that has been read, and its mapping.
  abbrev pub Holds : Os → LoadedModel D W → Os → Type 0
  Holds before l after =
      IsRead narrow value_size l.model
      × (after.descriptors ≡ before.descriptors)
      × (after.mappings ≡ ((l.model.file.address, l.model.file.size) ∷ before.mappings))

  abbrev Kept : Os → Result (LoadedModel D W) → Os → Type 0
  Kept before (err thrown) after = Unchanged before after
  Kept before (ok l) after = Holds before l after

  module _ (upload : D → Model → Result W) where
    or_destroy-Kept :
        (before after : Os) (device : D) (m : Model) (uploaded : Result W)
        → Loads narrow value_size before (ok m) after
        → let r = or_destroy upload m (attach_uploaded upload device m uploaded) after in
          Kept before r.0 r.1
    unfolding unmap_file attach_cuda
    or_destroy-Kept before after device m (err thrown) loaded =
        (loaded.1, rw (loaded.2, ==_refl m.file.address, ==_refl m.file.size) refl)
    or_destroy-Kept before after device m (ok weights) loaded = loaded

    upload_to-Kept :
        (before after : Os) (device : Option D) (read : Result Model)
        → Loads narrow value_size before read after
        → let r = upload_to upload device (read, after) in Kept before r.0 r.1
    upload_to-Kept before after device (err thrown) loaded = loaded
    upload_to-Kept before after none (ok m) loaded = loaded
    upload_to-Kept before after (some device) (ok m) loaded =
        or_destroy-Kept before after device m (upload device m) loaded

    load_model-Kept :
        (engine : Engine D) (path : Text) (calls : FileCalls) (os : Os)
        → Shows calls
        → let r = load_model upload narrow value_size engine path calls os in Kept os r.0 r.1
    unfolding load_model
    load_model-Kept engine path calls os shows =
        upload_to-Kept os (load narrow value_size path calls os).1 engine.device
          (load narrow value_size path calls os).0
          (load-Loads narrow value_size path calls os shows)

  abbrev pub Refused : Os → Made (LoadedModel D W) → Os → Type 0
  Refused before r after =
      (r.status.code ≢ status_ok) × ((r.out ≡ none) ⊎ (r.out ≡ some none)) × Unchanged before after

  abbrev pub Given : Os → Made (LoadedModel D W) → Os → Type 0
  Given before r after =
      (r.status ≡ success) × (l : LoadedModel D W) × (r.out ≡ some (some l)) × Holds before l after

load_catch-fails : (texts : LibraryTexts) (e : Error) → (load_catch texts e).0 ≢ status_ok
unfolding load_catch
load_catch-fails texts e = ground arith

module _ {D W : Type 0} (narrow : ℕ → ℕ) (value_size : ℕ) where
  answered :
      (texts : LibraryTexts) (buffer : List ℕ) (before : Os) (loaded : Result (LoadedModel D W))
      (after : Os)
      → Kept narrow value_size before loaded after
      → let r = made_or (load_catch texts) buffer loaded in
        Given narrow value_size before r after ⊎ Refused narrow value_size before r after
  unfolding fail
  answered texts buffer before (err thrown) after kept =
      inr (load_catch-fails texts thrown, inr refl, kept)
  answered texts buffer before (ok l) after kept = inl (refl, l, refl, kept)

-- A call of raftinfer_engine_load_model either succeeds, and the model that it gives has been read from its file,
-- whose mapping is all that is added to the process; or its status is not that of success, it gives no model,
-- and the open files and the mappings are as before, also where the upload to the device throws. (mmap shows
-- as many bytes as fstat has counted.)
pub raftinfer_engine_load_model-leaves :
    {D W : Type 0} (texts : LibraryTexts) (upload : D → Model → Result W) (narrow : ℕ → ℕ)
    (value_size : ℕ) (last : List ℕ) (engine : Option (Engine D)) (path : Option Text) (out : Bool)
    (calls : FileCalls) (os : Os)
    → Shows calls
    → let r =
        raftinfer_engine_load_model texts upload narrow value_size last engine path out calls os in
      Given narrow value_size os r.0 r.1 ⊎ Refused narrow value_size os r.0 r.1
unfolding raftinfer_engine_load_model fail
raftinfer_engine_load_model-leaves texts upload narrow value_size last engine path false calls os
      shows =
    inr (cc, inl refl, (refl, refl))
raftinfer_engine_load_model-leaves texts upload narrow value_size last none path true calls os
      shows =
    inr (cc, inr refl, (refl, refl))
raftinfer_engine_load_model-leaves texts upload narrow value_size last (some engine) none true calls
      os shows =
    inr (cc, inr refl, (refl, refl))
raftinfer_engine_load_model-leaves texts upload narrow value_size last (some engine) (some []) true
      calls os shows =
    inr (cc, inr refl, (refl, refl))
raftinfer_engine_load_model-leaves texts upload narrow value_size last (some engine) (some (c ∷ cs))
      true calls os shows =
    let loaded = load_model upload narrow value_size engine (c ∷ cs) calls os in
    answered narrow value_size texts _ os loaded.0 loaded.1
      (load_model-Kept narrow value_size upload engine (c ∷ cs) calls os shows)
