-- ===== src/Decoder/Block.antt =====
-- `oryx_x86_decode_block` and `oryx_x86_fetch` of src/liboryxdec/oryxdec.c. Each round of the loop
-- reads at least one byte, so one unit of fuel for each byte and one more are enough.
use oryx.Prelude.{
  ℕ, zero, suc, ◌+◌, ◌-◌, ◌%◌, ◌^◌, Bool, false, ◌||◌, List, [], ◌∷◌, ◌++◌, length, ltb, leb,
  if◌then◌else◌,
}
use oryx.Errors.{fault, format, notfound, inval}
use oryx.Guest.{Insn}
use oryx.Decoder.Reader.{Image, Cursor, advance, Read, ◌>>-◌, gives, refuses, is_endbr64}
use oryx.Decoder.Instructions.{Decoded, decode_insn}

-- The locals of the loop: `n` is the length of `ops`.
pub record Progress : Type 0 where
  pub position : Cursor
  pub ops : List Insn
  pub done : Bool

-- EMIT
unfoldable pub emit_insn : ℕ → List Insn → Decoded → Read Progress
emit_insn cap ops d =
    if leb cap (length ops)
    then refuses inval
    else gives (record { position = d.rest; ops = ops ++ d.insn ∷ []; done = d.done })

module _ (img : Image) (cap : ℕ) where
  -- One round of the loop's body.
  unfoldable pub round : Cursor → List Insn → Read Progress
  round c ops =
      if ltb (length img.bytes) (c.off + 1)
      then refuses format
      else (is_endbr64 img c >>- λ e.
          if e
          then gives (record { position = advance 4 c; ops = ops; done = false })
          else (decode_insn img c >>- emit_insn cap ops))

  unfoldable pub decode_loop : ℕ → Cursor → List Insn → Read Progress
  decode_loop zero c ops = fault
  decode_loop (suc fuel) c ops = round c ops >>- λ p.
      let rest = decode_loop fuel p.position p.ops in if p.done then gives p else rest

  -- `*n_out` is the length of the list, the number is `*len_out`.
  unfoldable pub decode_block : ℕ → Read (List Insn × ℕ)
  decode_block pc =
      if ltb pc img.base || leb ((img.base + length img.bytes) % 2 ^ 64) pc
      then refuses notfound
      else (decode_loop (length img.bytes + 1) (record { off = pc - img.base; cur = pc }) []
          >>- λ p. gives (p.ops, (p.position.cur + 2 ^ 64 - pc) % 2 ^ 64 % 2 ^ 32))

-- The dispatcher's callback: `ctx` is the image.
unfoldable pub x86_fetch : Image → ℕ → ℕ → Read (List Insn × ℕ)
x86_fetch img pc cap = decode_block img cap pc
