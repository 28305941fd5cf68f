-- ===== src/State/Validate/Sound.antt =====
-- cpp/execution/qwen35_state.cpp: what require_valid_layout says of the slot maps of a layout.
use raftinfer.Base.{
  ℕ, zero, suc, ◌<◌, ◌≡◌, ◌≢◌, ◌⊎◌, refl, ap, List, [], ◌∷◌, true, false, arith, some, length,
  get_elem?, ok, >>=-eq-ok,
}
use raftinfer.State.Layout.{Qwen35StateLayout, no_slot}
use raftinfer.State.Validate.{
  contains, validate_block, validate_slots, require_shape, require_sizes, require_valid_layout,
}

-- The slots of one block: exactly one of the two is a slot, and it is in range.
abbrev pub OneSlot : Qwen35StateLayout → ℕ → ℕ → Type 0
OneSlot layout l f =
    ((l ≢ no_slot) × (l < layout.linear_layer_count) × (f ≡ no_slot))
    ⊎ ((l ≡ no_slot) × (f ≢ no_slot) × (f < layout.full_layer_count))

validate_block-OneSlot :
    (layout : Qwen35StateLayout) (seen_l seen_f : List ℕ) (l f : ℕ) (counts : ℕ × ℕ) {r : ℕ × ℕ}
    → validate_block layout seen_l seen_f l f counts ≡ ok r
    → OneSlot layout l f
      × ((l ≡ no_slot) ⊎ (contains l seen_l ≡ false))
      × ((f ≡ no_slot) ⊎ (contains f seen_f ≡ false))
unfolding validate_block
validate_block-OneSlot layout seen_l seen_f l f counts h = ground arith

-- The same for every block behind those that were seen, each slot new.
abbrev pub Accepted : Qwen35StateLayout → List ℕ → List ℕ → List ℕ → List ℕ → Type 0
Accepted layout seen_l seen_f [] fs = Unit
Accepted layout seen_l seen_f (l ∷ ls) [] = Unit
Accepted layout seen_l seen_f (l ∷ ls) (f ∷ fs) =
    OneSlot layout l f
    × ((l ≡ no_slot) ⊎ (contains l seen_l ≡ false))
    × ((f ≡ no_slot) ⊎ (contains f seen_f ≡ false))
    × Accepted layout (l ∷ seen_l) (f ∷ seen_f) ls fs

validate_slots-Accepted :
    (layout : Qwen35StateLayout) (seen_l seen_f ls fs : List ℕ) (counts : ℕ × ℕ) {r : ℕ × ℕ}
    → validate_slots layout seen_l seen_f ls fs counts ≡ ok r
    → Accepted layout seen_l seen_f ls fs
unfolding validate_slots
validate_slots-Accepted layout seen_l seen_f [] fs counts h = tt
validate_slots-Accepted layout seen_l seen_f (l ∷ ls) [] counts h = tt
validate_slots-Accepted layout seen_l seen_f (l ∷ ls) (f ∷ fs) counts h =
    let (counts', first, rest) = >>=-eq-ok (validate_block layout seen_l seen_f l f counts) _ h in
    let (one, new_l, new_f) = validate_block-OneSlot layout seen_l seen_f l f counts first in
    (one, new_l, new_f, validate_slots-Accepted layout (l ∷ seen_l) (f ∷ seen_f) ls fs counts' rest)

-- A slot that was seen before the lists began does not come again.
linear_seen :
    (layout : Qwen35StateLayout) (seen_l seen_f ls fs : List ℕ) (s i : ℕ)
    → length ls ≡ length fs
    → Accepted layout seen_l seen_f ls fs
    → contains s seen_l ≡ true
    → get_elem? ls i ≡ some s
    → s ≡ no_slot
linear_seen layout seen_l seen_f [] [] s i n a c g = cc
linear_seen layout seen_l seen_f [] (f ∷ fs) s i n a c g = absurd (omega arith)
linear_seen layout seen_l seen_f (l ∷ ls) [] s i n a c g = absurd (omega arith)
linear_seen layout seen_l seen_f (l ∷ ls) (f ∷ fs) s zero n a c g = ground (arith, a.0, a.1, a.2)
linear_seen layout seen_l seen_f (l ∷ ls) (f ∷ fs) s (suc i) n a c g =
    linear_seen layout (l ∷ seen_l) (f ∷ seen_f) ls fs s i (omega arith) a.3 (ground arith) g

linear_distinct :
    (layout : Qwen35StateLayout) (seen_l seen_f ls fs : List ℕ) (s i j : ℕ)
    → length ls ≡ length fs
    → Accepted layout seen_l seen_f ls fs
    → s ≢ no_slot
    → get_elem? ls i ≡ some s
    → get_elem? ls j ≡ some s
    → i ≡ j
linear_distinct layout seen_l seen_f [] [] s i j n a u g h = cc
linear_distinct layout seen_l seen_f [] (f ∷ fs) s i j n a u g h = absurd (omega arith)
linear_distinct layout seen_l seen_f (l ∷ ls) [] s i j n a u g h = absurd (omega arith)
linear_distinct layout seen_l seen_f (l ∷ ls) (f ∷ fs) s zero zero n a u g h = refl
linear_distinct layout seen_l seen_f (l ∷ ls) (f ∷ fs) s zero (suc j) n a u g h =
    absurd (
      u (linear_seen layout (l ∷ seen_l) (f ∷ seen_f) ls fs s j (omega arith) a.3 (ground arith) h))
linear_distinct layout seen_l seen_f (l ∷ ls) (f ∷ fs) s (suc i) zero n a u g h =
    absurd (
      u (linear_seen layout (l ∷ seen_l) (f ∷ seen_f) ls fs s i (omega arith) a.3 (ground arith) g))
linear_distinct layout seen_l seen_f (l ∷ ls) (f ∷ fs) s (suc i) (suc j) n a u g h =
    ap suc (linear_distinct layout (l ∷ seen_l) (f ∷ seen_f) ls fs s i j (omega arith) a.3 u g h)

-- A slot that was seen before the lists began does not come again.
full_seen :
    (layout : Qwen35StateLayout) (seen_l seen_f ls fs : List ℕ) (s i : ℕ)
    → length ls ≡ length fs
    → Accepted layout seen_l seen_f ls fs
    → contains s seen_f ≡ true
    → get_elem? fs i ≡ some s
    → s ≡ no_slot
full_seen layout seen_l seen_f [] [] s i n a c g = cc
full_seen layout seen_l seen_f [] (f ∷ fs) s i n a c g = absurd (omega arith)
full_seen layout seen_l seen_f (l ∷ ls) [] s i n a c g = absurd (omega arith)
full_seen layout seen_l seen_f (l ∷ ls) (f ∷ fs) s zero n a c g = ground (arith, a.0, a.1, a.2)
full_seen layout seen_l seen_f (l ∷ ls) (f ∷ fs) s (suc i) n a c g =
    full_seen layout (l ∷ seen_l) (f ∷ seen_f) ls fs s i (omega arith) a.3 (ground arith) g

full_distinct :
    (layout : Qwen35StateLayout) (seen_l seen_f ls fs : List ℕ) (s i j : ℕ)
    → length ls ≡ length fs
    → Accepted layout seen_l seen_f ls fs
    → s ≢ no_slot
    → get_elem? fs i ≡ some s
    → get_elem? fs j ≡ some s
    → i ≡ j
full_distinct layout seen_l seen_f [] [] s i j n a u g h = cc
full_distinct layout seen_l seen_f [] (f ∷ fs) s i j n a u g h = absurd (omega arith)
full_distinct layout seen_l seen_f (l ∷ ls) [] s i j n a u g h = absurd (omega arith)
full_distinct layout seen_l seen_f (l ∷ ls) (f ∷ fs) s zero zero n a u g h = refl
full_distinct layout seen_l seen_f (l ∷ ls) (f ∷ fs) s zero (suc j) n a u g h =
    absurd
      (u (full_seen layout (l ∷ seen_l) (f ∷ seen_f) ls fs s j (omega arith) a.3 (ground arith) h))
full_distinct layout seen_l seen_f (l ∷ ls) (f ∷ fs) s (suc i) zero n a u g h =
    absurd
      (u (full_seen layout (l ∷ seen_l) (f ∷ seen_f) ls fs s i (omega arith) a.3 (ground arith) g))
full_distinct layout seen_l seen_f (l ∷ ls) (f ∷ fs) s (suc i) (suc j) n a u g h =
    ap suc (full_distinct layout (l ∷ seen_l) (f ∷ seen_f) ls fs s i j (omega arith) a.3 u g h)

OneSlot-at :
    (layout : Qwen35StateLayout) (seen_l seen_f ls fs : List ℕ) (i : ℕ)
    → length ls ≡ length fs
    → Accepted layout seen_l seen_f ls fs
    → i < length ls
    → (l : ℕ) × (f : ℕ) × (get_elem? ls i ≡ some l) × (get_elem? fs i ≡ some f) × OneSlot layout l f
OneSlot-at layout seen_l seen_f [] fs i n a h = absurd (omega arith)
OneSlot-at layout seen_l seen_f (l ∷ ls) [] i n a h = absurd (omega arith)
OneSlot-at layout seen_l seen_f (l ∷ ls) (f ∷ fs) zero n a h = (l, f, refl, refl, a.0)
OneSlot-at layout seen_l seen_f (l ∷ ls) (f ∷ fs) (suc i) n a h =
    OneSlot-at layout (l ∷ seen_l) (f ∷ seen_f) ls fs i (omega arith) a.3 (omega arith)

-- What the slot maps of an accepted layout are: for each block one slot, of the one kind or the other,
-- within the number of layers of that kind, and a slot belongs to one block only.
pub record SlotMaps (layout : Qwen35StateLayout) : Type 0 where
  pub linear_length : length layout.linear_slots_by_block ≡ layout.block_count
  pub full_length : length layout.full_slots_by_block ≡ layout.block_count
  pub one_slot :
      (i : ℕ)
      → i < layout.block_count
      → (l : ℕ) × (f : ℕ) × (get_elem? layout.linear_slots_by_block i ≡ some l)
        × (get_elem? layout.full_slots_by_block i ≡ some f)
        × OneSlot layout l f
  pub linear_distinct :
      (s i j : ℕ)
      → s ≢ no_slot
      → get_elem? layout.linear_slots_by_block i ≡ some s
      → get_elem? layout.linear_slots_by_block j ≡ some s
      → i ≡ j
  pub full_distinct :
      (s i j : ℕ)
      → s ≢ no_slot
      → get_elem? layout.full_slots_by_block i ≡ some s
      → get_elem? layout.full_slots_by_block j ≡ some s
      → i ≡ j

-- A layout that is accepted is returned unchanged, and its slot maps give every block one slot, of the
-- one kind or the other, in range and shared with no other block.
pub require_valid_layout-SlotMaps :
    (u32_max_size float_max_size : ℕ) (layout r : Qwen35StateLayout)
    → require_valid_layout u32_max_size float_max_size layout ≡ ok r
    → (r ≡ layout) × SlotMaps layout
unfolding require_valid_layout
require_valid_layout-SlotMaps u32_max_size float_max_size layout r h = (
  ground arith,
  record {
    linear_length = n;
    full_length = m;
    one_slot = λ i below. OneSlot-at layout [] [] ls fs i same a (omega (arith, n));
    linear_distinct = λ s i j u g k. linear_distinct layout [] [] ls fs s i j same a u g k;
    full_distinct = λ s i j u g k. full_distinct layout [] [] ls fs s i j same a u g k;
  },
)
  where
    open layout use {linear_slots_by_block as ls, full_slots_by_block as fs}

    n : length ls ≡ layout.block_count
    n = ground arith

    m : length fs ≡ layout.block_count
    m = ground arith

    same : length ls ≡ length fs
    same = omega (arith, n, m)

    a : Accepted layout [] [] ls fs
    a =
        let (_, e₁, h₁) = >>=-eq-ok (require_shape layout) _ h in
        let (_, e₂, h₂) = >>=-eq-ok (require_sizes layout) _ h₁ in
        let (counts, e₃, _) = >>=-eq-ok (validate_slots layout [] [] ls fs (0, 0)) _ h₂ in
        validate_slots-Accepted layout [] [] ls fs (0, 0) e₃
