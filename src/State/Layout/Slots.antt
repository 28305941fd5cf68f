-- ===== src/State/Layout/Slots.antt =====
-- cpp/execution/qwen35_state.cpp: the loops of `create` against plain counts of the two kinds of block.
use raftinfer.Base.{
  ℕ, ◌+◌, ◌≤◌, ◌≡◌, refl, List, [], ◌∷◌, arith, length, u32_max, ok, if◌then◌else◌,
}
use raftinfer.Model.Config.{Qwen35BlockPlan}
use raftinfer.State.Layout.{inc32, is_linear, count_layers, assign_slots}

abbrev pub linears : List Qwen35BlockPlan → ℕ
linears [] = 0
linears (b ∷ bs) = (if is_linear b.kind then 1 else 0) + linears bs

abbrev pub fulls : List Qwen35BlockPlan → ℕ
fulls [] = 0
fulls (b ∷ bs) = (if is_linear b.kind then 0 else 1) + fulls bs

pub linears-add-fulls : (bs : List Qwen35BlockPlan) → linears bs + fulls bs ≡ length bs
linears-add-fulls [] = refl
linears-add-fulls (b ∷ bs) = ground (arith, linears-add-fulls bs)

-- The loop counts each kind, and returns only where the indices are in order.
pub count_layers-linears :
    (position : ℕ) (bs : List Qwen35BlockPlan) (l f : ℕ) {r : ℕ × ℕ}
    → l + linears bs ≤ u32_max
    → f + fulls bs ≤ u32_max
    → count_layers position bs l f ≡ ok r
    → (r.0 ≡ l + linears bs) × (r.1 ≡ f + fulls bs)
unfolding count_layers
count_layers-linears position [] l f hl hf h = ground arith
count_layers-linears position (b ∷ bs) l f {r} hl hf h = ground (
  arith,
  count_layers-linears (inc32 position) bs (if is_linear b.kind then inc32 l else l)
      (if is_linear b.kind then f else inc32 f) {r = r},
)

pub length-assign_slots :
    (bs : List Qwen35BlockPlan) (l f : ℕ)
    → (length (assign_slots bs l f).0 ≡ length bs) × (length (assign_slots bs l f).1 ≡ length bs)
unfolding assign_slots
length-assign_slots [] l f = (refl, refl)
length-assign_slots (b ∷ bs) l f = ground (
  arith,
  length-assign_slots bs (if is_linear b.kind then inc32 l else l)
      (if is_linear b.kind then f else inc32 f),
)
