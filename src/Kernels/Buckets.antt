-- ===== src/Kernels/Buckets.antt =====
-- cpp/kernels/qwen35_online_attention.cu: the bucket of a context, and the quotient that counts its partitions.
use raftinfer.Base.{
  ℕ, zero, suc, ◌+◌, ◌*◌, ◌/◌, ◌%◌, ◌^◌, ◌≤◌, ◌<◌, not, ltb, ltb→lt, ◌==◌, Bool-cases,
  if◌then◌else◌, ok, ok-injective, throw_if->>-eq-ok, size_max, ◌≡◌, ◌⊎◌, inl, inr, sym, ap, subst,
  arith, Text,
}
use native.Mathlib.Nat.{pow-suc, mul_assoc}
use raftinfer.Session.Policy.{Qwen35DecodeAttentionMode}
use raftinfer.Kernels.Attention
use raftinfer.Kernels.Attention.{Qwen35AttentionShape}
use raftinfer.Kernels.Online.{
  grow_bucket, context_bucket_tokens, ceil_div, partition_tokens_for_mode,
}

-- With rounds enough to pass the word, the loop ends with a bucket that holds the context.
grow_bucket-holds :
    (rounds max_context context bucket : ℕ)
    → size_max < bucket * 2 ^ rounds
    → context ≤ max_context
    → max_context ≤ size_max
    → context ≤ grow_bucket rounds max_context context bucket
unfolding grow_bucket
grow_bucket-holds zero max_context context bucket enough within word =
    omega (arith, enough, within, word)
grow_bucket-holds (suc rounds) max_context context bucket enough within word =
    let doubled : size_max < bucket * 2 * 2 ^ rounds = omega (
      arith,
      enough,
      ap (λ (t : ℕ). bucket * t) (pow-suc 2 rounds),
      mul_assoc bucket 2 (2 ^ rounds),
    ) in
    ground
      (arith, grow_bucket-holds rounds max_context context (bucket * 2) doubled within word, within)

-- Of a shape: the bucket holds the context and is no longer than the longest.
pub context_bucket_tokens-holds :
    (s : Qwen35AttentionShape) (context : ℕ)
    → context ≤ s.max_context_tokens
    → s.max_context_tokens ≤ size_max
    → (context ≤ context_bucket_tokens s context)
      × (context_bucket_tokens s context ≤ s.max_context_tokens)
unfolding context_bucket_tokens
context_bucket_tokens-holds s context within word =
    let grown = grow_bucket-holds 64 s.max_context_tokens context 512 (omega arith) within word in
    elim (Bool-cases (ltb (grow_bucket 64 s.max_context_tokens context 512) s.max_context_tokens)) [
      | inl short ↦ rw short (grown, omega (arith, ltb→lt _ _ short))
      | inr long ↦ rw long (within, omega arith)
    ]

-- The quotient rounded up.
abbrev pub rounded : ℕ → ℕ → ℕ
rounded a b = a / b + (if a % b == 0 then 0 else 1)

pub ceil_div-rounded :
    (a b : ℕ) (message : Text) (n : ℕ) → ceil_div a b message ≡ ok n → (0 < b) × (n ≡ rounded a b)
unfolding ceil_div Attention.require
ceil_div-rounded a b message n h =
    let (some, last) = throw_if->>-eq-ok (not (not (b == 0))) _ _ h in
    (ground (arith, some), sym (ok-injective last))

abbrev pub IsPieceSize : ℕ → Type 0
IsPieceSize b = (b ≡ 256) ⊎ (b ≡ 512)

pub rounded_bounds :
    (a c b : ℕ) → IsPieceSize b → a ≤ c → (a ≤ rounded a b * b) × (rounded a b ≤ rounded c b)
rounded_bounds a c b (inl small) h =
    subst (λ b. (a ≤ rounded a b * b) × (rounded a b ≤ rounded c b)) (sym small) (ground (arith, h))
rounded_bounds a c b (inr large) h =
    subst (λ b. (a ≤ rounded a b * b) × (rounded a b ≤ rounded c b)) (sym large) (ground (arith, h))

pub partition_tokens-IsPieceSize :
    (mode : Qwen35DecodeAttentionMode) (n : ℕ)
    → partition_tokens_for_mode mode ≡ ok n
    → (n ≡ 0) ⊎ IsPieceSize n
unfolding partition_tokens_for_mode
partition_tokens-IsPieceSize mode n h = ground (arith, h)
