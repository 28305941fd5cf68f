-- ===== src/State/Host/Spans.antt =====
-- cpp/execution/qwen35_state.cpp: the spans of the buffers that the layers of a host state get.
use native.Mathlib.Nat.{mod-eq_of_lt}
use raftinfer.Base.{
  ℕ, zero, suc, ◌+◌, ◌*◌, ◌^◌, ◌≤◌, ◌<◌, ◌≡◌, ◌≢◌, refl, List, true, arith, some, length, get_elem?,
  get_elem?-lt, size_max, ok, throw_if, not, Text, >>=-eq-ok, Option, replicate, dec_lt,
}
use raftinfer.State.Layout.{Qwen35StateLayout, no_slot}
use raftinfer.State.Validate.Sound.{SlotMaps}
use raftinfer.State.Host.{
  Qwen35HostState, has_tensor_storage, slot_of, slot_span, full_kv_length, linear_convolution,
  linear_recurrent, full_kv,
}
use raftinfer.State.Host.Commit.{IsValid}

abbrev pub Inside : ℕ × ℕ → ℕ → Type 0
Inside span size = span.0 + span.1 ≤ size

abbrev pub Within : ℕ × ℕ → ℕ → Type 0
Within span x = (span.0 ≤ x) × (x < span.0 + span.1)

-- No index lies in both spans.
abbrev pub Apart : ℕ × ℕ → ℕ × ℕ → Type 0
Apart a b = (x : ℕ) → Within a x → Within b x → ⊥

slot-lt : (slot layers floats : ℕ) → slot < layers → slot * floats + floats ≤ layers * floats
slot-lt slot layers floats h = grind arith

slot_span-Inside :
    (slot layers floats : ℕ)
    → slot < layers
    → layers * floats ≤ size_max
    → (slot_span slot floats ≡ (slot * floats, floats))
      × Inside (slot_span slot floats) (layers * floats)
unfolding slot_span
slot_span-Inside slot layers floats h fits =
    let in_word : slot * floats < 2 ^ 64 = omega (arith, slot-lt slot layers floats h) in
    ground (arith, slot-lt slot layers floats h, mod-eq_of_lt in_word)

slots_Apart : (a b floats : ℕ) → a ≢ b → Apart (a * floats, floats) (b * floats, floats)
slots_Apart a b floats ne x p q = elim (dec_lt a b) [
  | yes below ↦ omega (arith, slot-lt a b floats below)
  | no above ↦ omega (arith, slot-lt b a floats (omega arith))
]

-- A slot that is found stands in the map at that layer.
slot_of-get :
    (slots : List ℕ) (layer : ℕ) (m n : Text) {slot : ℕ}
    → slot_of slots layer m n ≡ ok slot
    → (get_elem? slots layer ≡ some slot) × (slot ≢ no_slot)
unfolding slot_of
slot_of-get slots layer m n h = ground arith

-- The slot of a layer is below the number of layers of its kind.
linear_slot-lt :
    (layout : Qwen35StateLayout) (m : SlotMaps layout) (i slot : ℕ)
    → get_elem? layout.linear_slots_by_block i ≡ some slot
    → slot ≢ no_slot
    → slot < layout.linear_layer_count
linear_slot-lt layout m i slot g u =
    let here = get_elem?-lt layout.linear_slots_by_block i g in
    let (l, f, gl, gf, one) = m.one_slot i (omega (arith, here, m.linear_length)) in
    ground (arith, gl, g, one, u)

full_slot-lt :
    (layout : Qwen35StateLayout) (m : SlotMaps layout) (i slot : ℕ)
    → get_elem? layout.full_slots_by_block i ≡ some slot
    → slot ≢ no_slot
    → slot < layout.full_layer_count
full_slot-lt layout m i slot g u =
    let here = get_elem?-lt layout.full_slots_by_block i g in
    let (l, f, gl, gf, one) = m.one_slot i (omega (arith, here, m.full_length)) in
    ground (arith, gf, g, one, u)

-- The span of a layer lies inside its buffer, and shares no element with the span of another layer.
abbrev pub OwnSpan : ℕ → ℕ → ℕ × ℕ → ℕ × ℕ → ℕ → Type 0
OwnSpan i j a b size = Inside a size × Inside b size × (i ≢ j → Apart a b)

linear_convolution-slot :
    (s : Qwen35HostState) (i : ℕ) (a : ℕ × ℕ)
    → linear_convolution s i ≡ ok a
    → (slot : ℕ) × (get_elem? s.layout.linear_slots_by_block i ≡ some slot)
      × (slot ≢ no_slot)
      × (a ≡ slot_span slot s.layout.linear_convolution_floats_per_layer)
      × (has_tensor_storage s ≡ true)
unfolding linear_convolution
linear_convolution-slot s i a h =
    let (_, t, h₁) = >>=-eq-ok (throw_if (not (has_tensor_storage s)) _) _ h in
    let (slot, found, h₂) = >>=-eq-ok (slot_of s.layout.linear_slots_by_block i _ _) _ h₁ in
    let (g, u) = slot_of-get s.layout.linear_slots_by_block i _ _ found in
    (slot, g, u, cc h₂, ground (arith, t))

-- In a valid state, where two calls of `linear_convolution` return, both spans lie inside the storage, and those of
-- different layers share no element.
linear_convolution-OwnSpan :
    (s : Qwen35HostState) (i j : ℕ) (a b : ℕ × ℕ)
    → IsValid s
    → linear_convolution s i ≡ ok a
    → linear_convolution s j ≡ ok b
    → OwnSpan i j a b (length s.linear_convolution)
linear_convolution-OwnSpan s i j a b v h k =
    let (x, gx, ux, ea, t) = linear_convolution-slot s i a h in
    let (y, gy, uy, eb, _) = linear_convolution-slot s j b k in
    let layout = s.layout in
    let floats = layout.linear_convolution_floats_per_layer in
    let (size, fits) = v.convolution t in
    let (sx, inx) =
      slot_span-Inside x layout.linear_layer_count floats (linear_slot-lt layout v.maps i x gx ux)
        fits in
    let (sy, iny) =
      slot_span-Inside y layout.linear_layer_count floats (linear_slot-lt layout v.maps j y gy uy)
        fits in
    (
      rw (size, ea) inx,
      rw (size, eb) iny,
      λ ne.
          rw (ea, eb, sx, sy)
            (slots_Apart x y floats (λ e. ne (v.maps.linear_distinct x i j ux gx (rw e gy)))),
    )

linear_recurrent-slot :
    (s : Qwen35HostState) (i : ℕ) (a : ℕ × ℕ)
    → linear_recurrent s i ≡ ok a
    → (slot : ℕ) × (get_elem? s.layout.linear_slots_by_block i ≡ some slot)
      × (slot ≢ no_slot)
      × (a ≡ slot_span slot s.layout.linear_recurrent_floats_per_layer)
      × (has_tensor_storage s ≡ true)
unfolding linear_recurrent
linear_recurrent-slot s i a h =
    let (_, t, h₁) = >>=-eq-ok (throw_if (not (has_tensor_storage s)) _) _ h in
    let (slot, found, h₂) = >>=-eq-ok (slot_of s.layout.linear_slots_by_block i _ _) _ h₁ in
    let (g, u) = slot_of-get s.layout.linear_slots_by_block i _ _ found in
    (slot, g, u, cc h₂, ground (arith, t))

-- In a valid state, where two calls of `linear_recurrent` return, both spans lie inside the storage, and those of
-- different layers share no element.
linear_recurrent-OwnSpan :
    (s : Qwen35HostState) (i j : ℕ) (a b : ℕ × ℕ)
    → IsValid s
    → linear_recurrent s i ≡ ok a
    → linear_recurrent s j ≡ ok b
    → OwnSpan i j a b (length s.linear_recurrent)
linear_recurrent-OwnSpan s i j a b v h k =
    let (x, gx, ux, ea, t) = linear_recurrent-slot s i a h in
    let (y, gy, uy, eb, _) = linear_recurrent-slot s j b k in
    let layout = s.layout in
    let floats = layout.linear_recurrent_floats_per_layer in
    let (size, fits) = v.recurrent t in
    let (sx, inx) =
      slot_span-Inside x layout.linear_layer_count floats (linear_slot-lt layout v.maps i x gx ux)
        fits in
    let (sy, iny) =
      slot_span-Inside y layout.linear_layer_count floats (linear_slot-lt layout v.maps j y gy uy)
        fits in
    (
      rw (size, ea) inx,
      rw (size, eb) iny,
      λ ne.
          rw (ea, eb, sx, sy)
            (slots_Apart x y floats (λ e. ne (v.maps.linear_distinct x i j ux gx (rw e gy)))),
    )

full_kv-slot :
    (s : Qwen35HostState) (i : ℕ) (a : ℕ × ℕ)
    → full_kv s i ≡ ok a
    → (slot : ℕ) × (get_elem? s.layout.full_slots_by_block i ≡ some slot)
      × (slot ≢ no_slot)
      × (a ≡ slot_span slot s.layout.full_kv_floats_per_layer)
      × (has_tensor_storage s ≡ true)
unfolding full_kv
full_kv-slot s i a h =
    let (_, t, h₁) = >>=-eq-ok (throw_if (not (has_tensor_storage s)) _) _ h in
    let (slot, found, h₂) = >>=-eq-ok (slot_of s.layout.full_slots_by_block i _ _) _ h₁ in
    let (g, u) = slot_of-get s.layout.full_slots_by_block i _ _ found in
    (slot, g, u, cc h₂, ground (arith, t))

-- In a valid state, where two calls of `full_kv` return, both spans lie inside the storage, and those of
-- different layers share no element.
pub full_kv-OwnSpan :
    (s : Qwen35HostState) (i j : ℕ) (a b : ℕ × ℕ)
    → IsValid s
    → full_kv s i ≡ ok a
    → full_kv s j ≡ ok b
    → OwnSpan i j a b (length s.full_kv)
full_kv-OwnSpan s i j a b v h k =
    let (x, gx, ux, ea, t) = full_kv-slot s i a h in
    let (y, gy, uy, eb, _) = full_kv-slot s j b k in
    let layout = s.layout in
    let floats = layout.full_kv_floats_per_layer in
    let (size, fits) = v.kv t in
    let (sx, inx) =
      slot_span-Inside x layout.full_layer_count floats (full_slot-lt layout v.maps i x gx ux)
        fits in
    let (sy, iny) =
      slot_span-Inside y layout.full_layer_count floats (full_slot-lt layout v.maps j y gy uy)
        fits in
    (
      rw (size, ea) inx,
      rw (size, eb) iny,
      λ ne.
          rw (ea, eb, sx, sy)
            (slots_Apart x y floats (λ e. ne (v.maps.full_distinct x i j ux gx (rw e gy)))),
    )

get_elem?-replicate : (n i a : ℕ) → i < n → get_elem? (replicate n a) i ≡ some a
get_elem?-replicate zero i a h = absurd (omega arith)
get_elem?-replicate (suc n) zero a h = refl
get_elem?-replicate (suc n) (suc i) a h = get_elem?-replicate n i a (omega arith)

-- In a valid state a call of `full_kv_length` that returns has read inside the vector, and the length of
-- the layer's cache is the position of the session.
full_kv_length-position :
    (s : Qwen35HostState) (layer : ℕ) (r : Option ℕ)
    → IsValid s
    → full_kv_length s layer ≡ ok r
    → r ≡ some s.position
unfolding full_kv_length
full_kv_length-position s layer r v h =
    let (slot, found, h₁) = >>=-eq-ok (slot_of s.layout.full_slots_by_block layer _ _) _ h in
    let (g, u) = slot_of-get s.layout.full_slots_by_block layer _ _ found in
    let below = full_slot-lt s.layout v.maps layer slot g u in
    let read : get_elem? s.full_kv_lengths slot ≡ some s.position =
      rw v.lengths (get_elem?-replicate s.layout.full_layer_count slot s.position below) in
    let same : get_elem? s.full_kv_lengths slot ≡ r = cc h₁ in cc
