-- ===== src/Api/LastError.antt =====
-- The last error of a thread in cpp/src/c_api.cpp: a buffer of 256 bytes that holds a C string, the
-- status that points to it, and set_last_error, clear_last_error and fail.
use raftinfer.Base.{
  ℕ, zero, suc, ◌+◌, ◌-◌, ◌≡◌, refl, ap, sym, ◌∙◌, List, [], ◌∷◌, ◌++◌, length, length-set, set,
  take, All, false, not, ◌&&◌, arith, ltb, ◌==◌, if◌then◌else◌, Text, Bool-cases, inl, inr,
}

pub data RaftInferStatusCode : Type 0 where
  status_ok invalid_argument unavailable cuda_error internal unsupported resource_exhausted :
      RaftInferStatusCode

-- sizeof(g_last_error.message)
abbrev pub message_size : ℕ
message_size = 256

-- The value of `RaftInferStatus::message`: null, or the address of the thread's buffer.
pub data StatusMessage : Type 0 where
  null last_error : StatusMessage

pub record RaftInferStatus : Type 0 where
  pub code : RaftInferStatusCode
  pub message : StatusMessage

-- The bytes of a C string up to its terminator.
pub c_string : List ℕ → Text
c_string [] = []
c_string (b ∷ bs) = if b == 0 then [] else b ∷ c_string bs

-- The loop from `index` on; behind the bytes of the message stands its terminator.
pub copy : ℕ → Text → List ℕ → List ℕ
copy index [] buffer = set buffer index 0
copy index (c ∷ cs) buffer =
    if ltb (index + 1) message_size && not (c == 0)
    then copy (suc index) cs (set buffer index c)
    else set buffer index 0

unfoldable pub set_last_error : Text → List ℕ → List ℕ
unfolding copy
set_last_error message buffer = copy 0 message buffer

unfoldable pub clear_last_error : List ℕ → List ℕ
clear_last_error buffer = set buffer 0 0

unfoldable pub fail : RaftInferStatusCode → Text → List ℕ → RaftInferStatus × List ℕ
fail code message buffer =
    (record { code = code; message = last_error }, set_last_error message buffer)

-- No byte ends the string.
abbrev Solid : List ℕ → Type 0
Solid = All (λ b. (b == 0) ≡ false)

c_string-append : (pre rest : List ℕ) → Solid pre → c_string (pre ++ 0 ∷ rest) ≡ pre
unfolding c_string
c_string-append [] rest solid = refl
c_string-append (b ∷ pre) rest (nonzero, solid) = rw (nonzero, c_string-append pre rest solid) refl

set-append : (pre rest : List ℕ) (x y : ℕ) → set (pre ++ x ∷ rest) (length pre) y ≡ pre ++ y ∷ rest
set-append [] rest x y = refl
set-append (b ∷ pre) rest x y = ap (λ t. b ∷ t) (set-append pre rest x y)

append-snoc : (pre rest : List ℕ) (x : ℕ) → (pre ++ (x ∷ [])) ++ rest ≡ pre ++ x ∷ rest
append-snoc [] rest x = refl
append-snoc (b ∷ pre) rest x = ap (λ t. b ∷ t) (append-snoc pre rest x)

length-snoc : (pre : List ℕ) (x : ℕ) → length (pre ++ (x ∷ [])) ≡ suc (length pre)
length-snoc [] x = refl
length-snoc (b ∷ pre) x = ap suc (length-snoc pre x)

Solid-snoc : (pre : List ℕ) (x : ℕ) → Solid pre → (x == 0) ≡ false → Solid (pre ++ (x ∷ []))
Solid-snoc [] x solid nonzero = (nonzero, tt)
Solid-snoc (b ∷ pre) x (h, solid) nonzero = (h, Solid-snoc pre x solid nonzero)

append_nil : (pre : List ℕ) → pre ++ [] ≡ pre
append_nil [] = refl
append_nil (b ∷ pre) = ap (λ t. b ∷ t) (append_nil pre)

take_nil : (n : ℕ) → take {A = ℕ} n [] ≡ []
take_nil zero = refl
take_nil (suc n) = refl

-- Where the loop stops, the bytes so far are the string.
copy-stops :
    (pre rest : List ℕ) (x : ℕ) → Solid pre → c_string (set (pre ++ x ∷ rest) (length pre) 0) ≡ pre
copy-stops pre rest x solid = rw (set-append pre rest x 0) (c_string-append pre rest solid)

copy-c_string :
    (cs pre rest : List ℕ) (x : ℕ)
    → Solid pre
    → length pre + suc (length rest) ≡ message_size
    → c_string (copy (length pre) cs (pre ++ x ∷ rest)) ≡ pre ++ take (length rest) (c_string cs)
unfolding copy c_string
copy-c_string [] pre rest x solid size =
    copy-stops pre rest x solid ∙ rw (take_nil (length rest)) (sym (append_nil pre))
copy-c_string (c ∷ cs) pre [] x solid size = elim (Bool-cases (c == 0)) [
  | inl h ↦ ground (arith, h, copy-stops pre [] x solid, append_nil pre)
  | inr h ↦ ground (arith, h, size, copy-stops pre [] x solid, append_nil pre)
]
copy-c_string (c ∷ cs) pre (r ∷ rest) x solid size = elim (Bool-cases (c == 0)) [
  | inl h ↦ ground (arith, h, copy-stops pre (r ∷ rest) x solid, append_nil pre)
  | inr h ↦
      let string = take (length rest) (c_string cs) in
      let later =
        copy-c_string cs (pre ++ (c ∷ [])) rest r (Solid-snoc pre c solid h)
          (omega (arith, size, length-snoc pre c)) in
      let step : c_string (copy (suc (length pre)) cs (pre ++ c ∷ r ∷ rest)) ≡ pre ++ c ∷ string =
        rw⁻¹ (length-snoc pre c, append-snoc pre (r ∷ rest) c, append-snoc pre string c) later in
      ground (arith, h, size, step, set-append pre (r ∷ rest) x c)
]

pub length-copy :
    (cs : List ℕ) (index : ℕ) (buffer : List ℕ) → length (copy index cs buffer) ≡ length buffer
unfolding copy
length-copy [] index buffer = length-set buffer index 0
length-copy (c ∷ cs) index buffer = ground (
  arith,
  length-copy cs (suc index) (set buffer index c),
  length-set buffer index c,
  length-set buffer index 0,
)

-- `set_last_error` writes inside the buffer of 256 bytes, and the buffer then holds, as a terminated C
-- string, the message up to its own terminator, cut off after 255 bytes.
pub set_last_error-c_string :
    (message buffer : List ℕ)
    → length buffer ≡ message_size
    → (c_string (set_last_error message buffer) ≡ take (message_size - 1) (c_string message))
      × (length (set_last_error message buffer) ≡ message_size)
unfolding set_last_error
set_last_error-c_string message [] size = absurd (omega (arith, size))
set_last_error-c_string message (x ∷ rest) size =
    let n : length rest ≡ message_size - 1 = omega (arith, size) in
    (
      copy-c_string message [] rest x tt (omega (arith, size)) ∙ rw n refl,
      length-copy message 0 (x ∷ rest) ∙ size,
    )
