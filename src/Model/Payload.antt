-- ===== src/Model/Payload.antt =====
-- cpp/model/model.cpp: what a model holds of the operating system, and where its payloads lie.
use raftinfer.Base.{
  ℕ, ◌≤◌, List, ◌∷◌, length, false, not, ltb, ◌==◌, ◌||◌, ==_refl, Bool-cases, Text, Result, ok,
  err, >>=-eq-ok, size_max, ◌≡◌, ◌⊎◌, inl, inr, refl, sym, ap, subst, ◌∙◌, arith,
}
use raftinfer.Base.Int.{above_zero}
use raftinfer.Gguf.Types.{default_limits}
use raftinfer.Gguf.Read.{read_catalog}
use raftinfer.Model.Manifest.{validate_qwen35_manifest}
use raftinfer.Model.Derive.{derive_qwen35_config}
use raftinfer.Model.Spec.{serialize_tokenizer_spec}
use raftinfer.Model.File.{
  FileCalls, Status, Os, MappedFile, unmap_file, map_descriptor, inspect_descriptor, open_file,
  map_file, Model, read_model, load, or_unmap, with_file,
}

-- mmap shows as many bytes as fstat has counted.
abbrev pub Shows : FileCalls → Type 0
Shows calls =
    (status : Status) (mapping : ℕ × List ℕ)
    → calls.inspected ≡ inr status
    → calls.mapped ≡ inr mapping
    → length mapping.1 ≡ above_zero status.size

-- What a construction leaves behind: the open files are those before it, and beside the mappings before it there
-- is that of the file that it has returned.
abbrev pub Holds : Os → Result MappedFile → Os → Type 0
Holds before (ok file) after =
    (after.descriptors ≡ before.descriptors)
    × (after.mappings ≡ ((file.address, file.size) ∷ before.mappings))
Holds before (err thrown) after =
    (after.descriptors ≡ before.descriptors) × (after.mappings ≡ before.mappings)

-- A call that keeps what a fresh descriptor is closed for.
abbrev Keeps : Os → Result MappedFile × Os → Type 0
Keeps os r = Holds os r.0 r.1

abbrev with_descriptor : ℕ → Os → Os
with_descriptor descriptor os = record os { descriptors = descriptor ∷ os.descriptors }

module _ (path : Text) (calls : FileCalls) (descriptor : ℕ) (os : Os) where
  map_descriptor-Holds :
      (mapped : Text ⊎ (ℕ × List ℕ)) (size : ℕ)
      → Keeps os (map_descriptor path mapped size descriptor (with_descriptor descriptor os))
  unfolding map_descriptor
  map_descriptor-Holds (inl why) size = (rw (==_refl descriptor) refl, refl)
  map_descriptor-Holds (inr mapping) size = (rw (==_refl descriptor) refl, refl)

  inspect_descriptor-Holds :
      (inspected : Text ⊎ Status)
      → Keeps os
          (inspect_descriptor path calls inspected descriptor (with_descriptor descriptor os))
  unfolding inspect_descriptor
  inspect_descriptor-Holds (inl why) = (rw (==_refl descriptor) refl, refl)
  inspect_descriptor-Holds (inr status) =
      elim (Bool-cases (not status.is_regular || above_zero status.size == 0)) [
        | inl refused ↦ rw refused (rw (==_refl descriptor) refl, refl)
        | inr regular ↦ rw regular (elim (Bool-cases (ltb size_max (above_zero status.size))) [
          | inl large ↦ rw large (rw (==_refl descriptor) refl, refl)
          | inr fits ↦ rw fits (map_descriptor-Holds calls.mapped (above_zero status.size))
        ])
      ]

  -- A file that is returned has a size that fits, and shows that many bytes.
  map_descriptor-content :
      (mapped : Text ⊎ (ℕ × List ℕ)) (size : ℕ) (file : MappedFile)
      → (map_descriptor path mapped size descriptor os).0 ≡ ok file
      → (mapping : ℕ × List ℕ) × (mapped ≡ inr mapping)
        × (file.content ≡ mapping.1)
        × (file.size ≡ size)
  unfolding map_descriptor
  map_descriptor-content (inl why) size file h = cc
  map_descriptor-content (inr mapping) size file h =
      (mapping, refl, ground (arith, h), ground (arith, h))

  inspect_descriptor-content :
      (inspected : Text ⊎ Status) (file : MappedFile)
      → calls.inspected ≡ inspected
      → Shows calls
      → (inspect_descriptor path calls inspected descriptor os).0 ≡ ok file
      → (length file.content ≡ file.size) × (file.size ≤ size_max)
  unfolding inspect_descriptor
  inspect_descriptor-content (inl why) file same shows h = cc
  inspect_descriptor-content (inr status) file same shows h =
      let size = above_zero status.size in
      let regular : (not status.is_regular || size == 0) ≡ false = ground (arith, h) in
      let fits : ltb size_max size ≡ false = ground (arith, h, regular) in
      let made : (map_descriptor path calls.mapped size descriptor os).0 ≡ ok file =
        ground (arith, h, regular, fits) in
      let (mapping, mapped, content, sized) = map_descriptor-content calls.mapped size file made in
      (
        ap length content ∙ shows status mapping same mapped ∙ sym sized,
        ground (arith, sized, fits),
      )

-- The file is closed on every path, and mapped exactly if it is returned.
pub map_file-Holds : (path : Text) (calls : FileCalls) (os : Os) → Keeps os (map_file path calls os)
unfolding map_file open_file
map_file-Holds path calls os = of_opened calls.opened
  where
    of_opened : (opened : Text ⊎ ℕ) → Keeps os (open_file path calls opened os)
    of_opened (inl why) = (refl, refl)
    of_opened (inr descriptor) = inspect_descriptor-Holds path calls descriptor os calls.inspected

pub map_file-content :
    (path : Text) (calls : FileCalls) (os : Os) (file : MappedFile)
    → Shows calls
    → (map_file path calls os).0 ≡ ok file
    → (length file.content ≡ file.size) × (file.size ≤ size_max)
unfolding map_file open_file
map_file-content path calls os file shows h = of_opened calls.opened h
  where
    of_opened :
        (opened : Text ⊎ ℕ)
        → (open_file path calls opened os).0 ≡ ok file
        → (length file.content ≡ file.size) × (file.size ≤ size_max)
    of_opened (inl why) k = cc
    of_opened (inr descriptor) k =
        inspect_descriptor-content path calls descriptor
          (record os { descriptors = descriptor ∷ os.descriptors }) calls.inspected file refl shows
          k

-- A model whose parts are those of its file.
pub record IsRead (narrow : ℕ → ℕ) (value_size : ℕ) (m : Model) : Type 0 where
  pub content : length m.file.content ≡ m.file.size
  pub size : m.file.size ≤ size_max
  pub catalog : read_catalog m.file.content default_limits value_size ≡ ok m.catalog
  pub config : derive_qwen35_config narrow m.catalog ≡ ok m.config
  pub manifest : validate_qwen35_manifest m.catalog m.config ≡ ok m.manifest
  pub tokenizer_spec : serialize_tokenizer_spec m.catalog ≡ ok m.tokenizer_spec

-- What a load leaves behind: nothing, or the mapping of the model.
abbrev pub Loads : (ℕ → ℕ) → ℕ → Os → Result Model → Os → Type 0
Loads narrow value_size before (err thrown) after =
    (after.descriptors ≡ before.descriptors) × (after.mappings ≡ before.mappings)
Loads narrow value_size before (ok m) after =
    IsRead narrow value_size m
    × (after.descriptors ≡ before.descriptors)
    × (after.mappings ≡ ((m.file.address, m.file.size) ∷ before.mappings))

module _ (narrow : ℕ → ℕ) (value_size : ℕ) where
  read_model-IsRead :
      (file : MappedFile) (m : Model)
      → length file.content ≡ file.size
      → file.size ≤ size_max
      → read_model narrow value_size file ≡ ok m
      → IsRead narrow value_size m × (m.file ≡ file)
  unfolding read_model
  read_model-IsRead file m content size h =
      let (catalog, read, h₁) = >>=-eq-ok _ _ h in
      let (config, derived, h₂) = >>=-eq-ok _ _ h₁ in
      let (manifest, validated, h₃) = >>=-eq-ok _ _ h₂ in
      let (spec, serialized, last) = >>=-eq-ok _ _ h₃ in
      let made = λ (r : Model). IsRead narrow value_size r × (r.file ≡ file) in
      subst made (ground (arith, last)) (
        record {
          content = content;
          size = size;
          catalog = read;
          config = derived;
          manifest = validated;
          tokenizer_spec = serialized;
        },
        refl,
      )

  -- A load closes the file on every path. If it throws, also behind the mapping, no mapping is left;
  -- if it returns, the mapping of the model is, and the parts of the model are what the reader, the
  -- derivation, the manifest and the serializer make of the file's bytes. (mmap shows as many bytes
  -- as fstat has counted.)
  pub load-Loads :
      (path : Text) (calls : FileCalls) (os : Os)
      → Shows calls
      → Loads narrow value_size os
          (load narrow value_size path calls os).0
          (load narrow value_size path calls os).1
  unfolding load unmap_file
  load-Loads path calls os shows =
      of_mapped (map_file path calls os).0 (map_file path calls os).1 (map_file-Holds path calls os)
        (λ file h. map_file-content path calls os file shows h)
    where
      of_read :
          (file : MappedFile) (after : Os) (read : Result Model)
          → Holds os (ok file) after
          → ((m : Model) → read ≡ ok m → IsRead narrow value_size m × (m.file ≡ file))
          → Loads narrow value_size os (or_unmap file read after).0 (or_unmap file read after).1
      of_read file after (err thrown) holds whole =
          (holds.0, rw (holds.1, ==_refl file.address, ==_refl file.size) refl)
      of_read file after (ok m) holds whole =
          let (is_read, same) = whole m refl in (is_read, holds.0, rw same holds.1)

      of_mapped :
          (mapped : Result MappedFile) (after : Os)
          → Holds os mapped after
          → ((file : MappedFile)
              → mapped ≡ ok file
              → (length file.content ≡ file.size) × (file.size ≤ size_max))
          → Loads narrow value_size os
              (with_file narrow value_size (mapped, after)).0
              (with_file narrow value_size (mapped, after)).1
      of_mapped (err thrown) after holds sized = holds
      of_mapped (ok file) after holds sized =
          of_read file after (read_model narrow value_size file) holds
            λ m h. read_model-IsRead file m (sized file refl).0 (sized file refl).1 h
