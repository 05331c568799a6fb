-- ===== src/Translator/Bounds.antt =====
-- The stores of `buf_emit32` in src/liboryxtu/oryxtu.c stay inside the buffer.
use oryx.Prelude.{
  ℕ, ◌+◌, ◌≤◌, ◌≡◌, ◌⊎◌, inl, inr, Bool, ◌||◌, not, Bool-cases, length, ◌++◌, length-append, arith,
}
use oryx.Errors.{Ensures}
use oryx.Wire.{put_u32}
use oryx.Wire.Codec.{length-put_u32}
use oryx.Translator.Emitter.{Buf, is_full, next_cap, appended, buf_emit32}

-- The bytes lie inside the allocation, which is empty or has at least its first size.
pub record IsBuf (b : Buf) : Type 0 where
  pub inside : length b.bytes ≤ b.cap
  pub sized : (b.cap ≡ 0) ⊎ (64 ≤ b.cap)

length-appended : (insn : ℕ) (b : Buf) → length (appended insn b).bytes ≡ length b.bytes + 4
unfolding appended
length-appended insn b = omega (arith, length-append b.bytes (put_u32 insn), length-put_u32 insn)

appended-IsBuf : (insn : ℕ) (b : Buf) → IsBuf b → IsBuf (appended insn b)
unfolding appended
appended-IsBuf insn b h =
    let grown : length (b.bytes ++ put_u32 insn) ≡ length b.bytes + 4 =
      omega (arith, length-append b.bytes (put_u32 insn), length-put_u32 insn) in
    record { inside = ground (arith, grown, h.inside, h.sized); sized = ground (arith, h.sized) }

-- If the bytes lie inside the allocation before `buf_emit32`, which is empty or has at least 64 bytes, the size of the first one,
-- then the four bytes that it stores lie inside the one after it, and that is such an allocation again.
pub buf_emit32-IsBuf :
    (realloc : ℕ → Bool) (insn : ℕ) (b : Buf) → IsBuf b → Ensures (buf_emit32 realloc insn b) IsBuf
unfolding buf_emit32
buf_emit32-IsBuf realloc insn b h = elim (Bool-cases (not (is_full b) || realloc (next_cap b))) [
  | inl room ↦ rw room (appended-IsBuf insn b h)
  | inr stuck ↦ rw stuck tt
]
