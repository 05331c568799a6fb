-- ===== src/Decoder/Reader.antt =====
-- Reading an image in src/liboryxdec/oryxdec.c: `struct oryx_x86_image`, rd_u32, rd_u64, the guarded reads
-- and decode_modrm. `off` and `pc` (called `cur` in the loop) move together in a cursor. An access
-- outside the image is a fault, so that its absence can be proved.
use oryx.Prelude.{
  ℕ, ◌+◌, ◌-◌, ◌*◌, ◌/◌, ◌%◌, ◌^◌, bit_or, Bool, false, ◌&&◌, List, [], ◌∷◌, length, take, drop,
  ltb, leb, ◌==◌, if◌then◌else◌,
}
use oryx.Errors.{Error, Result, ok, err, Run, returns, fault, format, unsupported}
use oryx.Wire.{get_byte, get_u32, get_u64, same_bytes}

-- `struct oryx_x86_image`; `len` is the length of `bytes`.
pub record Image : Type 0 where
  pub bytes : List ℕ
  pub base : ℕ

pub record Cursor : Type 0 where
  pub off : ℕ
  pub cur : ℕ

-- `off += k; cur += k;`
unfoldable pub advance : ℕ → Cursor → Cursor
advance k c = record { off = c.off + k; cur = (c.cur + k) % 2 ^ 64 }

-- Code that reads the image: it returns a code or a value, or faults.
abbrev pub Read {ℓ} : Type ℓ → Type ℓ
Read A = Run (Result A)

infixl 5 ◌>>-◌
abbrev pub ◌>>-◌ {ℓ ν} : {X : Type ℓ} {Y : Type ν} → Read X → (X → Read Y) → Read Y
fault >>- rest = fault
returns (err code) >>- rest = returns (err code)
returns (ok v) >>- rest = rest v

abbrev pub gives {ℓ} : {A : Type ℓ} → A → Read A
gives v = returns (ok v)

abbrev pub refuses {ℓ} : {A : Type ℓ} → Error → Read A
refuses e = returns (err e)

-- The `n` bytes from `bytes + off` on.
unfoldable pub span : Image → ℕ → ℕ → Read (List ℕ)
span img off n =
    if leb (off + n) (length img.bytes) then gives (take n (drop off img.bytes)) else fault

-- `if (off + n > img->len) return ORYX_ERR_FORMAT;`, the read of `n` bytes, and the advance.
unfoldable pub next : Image → ℕ → Cursor → Read (List ℕ × Cursor)
next img n c =
    if ltb (length img.bytes) (c.off + n)
    then refuses format
    else span img c.off n >>- λ bytes. gives (bytes, advance n c)

-- `(int64_t)(int8_t)b` and `(int64_t)(int32_t)v`
abbrev pub sext8 : ℕ → ℕ
sext8 b = if ltb b (2 ^ 7) then b else b + (2 ^ 64 - 2 ^ 8)

abbrev pub sext32 : ℕ → ℕ
sext32 v = if ltb v (2 ^ 31) then v else v + (2 ^ 64 - 2 ^ 32)

unfoldable pub next_u8 : Image → Cursor → Read (ℕ × Cursor)
next_u8 img c = next img 1 c >>- λ r. gives (get_byte r.0, r.1)

unfoldable pub next_i8 : Image → Cursor → Read (ℕ × Cursor)
next_i8 img c = next img 1 c >>- λ r. gives (sext8 (get_byte r.0), r.1)

-- `rd_u32` and `rd_u64`
unfoldable pub next_u32 : Image → Cursor → Read (ℕ × Cursor)
next_u32 img c = next img 4 c >>- λ r. gives (get_u32 r.0, r.1)

unfoldable pub next_i32 : Image → Cursor → Read (ℕ × Cursor)
next_i32 img c = next img 4 c >>- λ r. gives (sext32 (get_u32 r.0), r.1)

unfoldable pub next_u64 : Image → Cursor → Read (ℕ × Cursor)
next_u64 img c = next img 8 c >>- λ r. gives (get_u64 r.0, r.1)

-- `rexW`, `rexR` and `rexB`; `rexX` is read and not used.
pub record Rex : Type 0 where
  pub w : Bool
  pub r : ℕ
  pub b : ℕ

abbrev pub no_rex : Rex
no_rex = record { w = false; r = 0; b = 0 }

unfoldable pub rex_of : ℕ → Rex
rex_of b = record { w = b / 2 ^ 3 % 2 == 1; r = b / 2 ^ 2 % 2; b = b % 2 }

-- The operand of a `struct modrm`: `rm_reg` where `is_mem` is 0, else `base` and `disp`. The code leaves
-- the other fields unset and does not read them.
pub data Operand : Type 0 where
  direct : ℕ → Operand
  memory : ℕ → ℕ → Operand

pub record Modrm : Type 0 where
  pub reg : ℕ
  pub operand : Operand

-- The displacement that `mod` asks for.
unfoldable pub displacement : Image → ℕ → Cursor → Read (ℕ × Cursor)
displacement img mode c =
    if mode == 1 then next_i8 img c else (if mode == 2 then next_i32 img c else gives (0, c))

unfoldable pub modrm_operand : Image → Rex → ℕ → ℕ → Cursor → Read (Operand × Cursor)
modrm_operand img rex mode rm c =
    if mode == 3
    then gives (direct (bit_or rm (rex.b * 2 ^ 3)), c)
    else (if rm == 4
        then refuses unsupported
        else (if rm == 5 && mode == 0
            then refuses unsupported
            else displacement img mode c >>- λ d.
                gives (memory (bit_or rm (rex.b * 2 ^ 3)) d.0, d.1)))

unfoldable pub decode_modrm : Image → Rex → Cursor → Read (Modrm × Cursor)
decode_modrm img rex c = next_u8 img c >>- λ r.
    modrm_operand img rex (r.0 / 2 ^ 6) (r.0 % 2 ^ 3) r.1 >>- λ m.
    gives (record { reg = bit_or (r.0 / 2 ^ 3 % 2 ^ 3) (rex.r * 2 ^ 3); operand = m.0 }, m.1)

-- The test for endbr64, `F3 0F 1E FA`.
unfoldable pub is_endbr64 : Image → Cursor → Read Bool
is_endbr64 img c = span img c.off 1 >>- λ first.
    if get_byte first == 0xF3 && leb (c.off + 4) (length img.bytes)
    then (span img c.off 4 >>- λ s. gives (same_bytes s (0xF3 ∷ 0x0F ∷ 0x1E ∷ 0xFA ∷ [])))
    else gives false
