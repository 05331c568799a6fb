-- ===== src/Translator/Emitter.antt =====
-- The growable buffers of `oryx_translate_ex` in src/liboryxtu/oryxtu.c: `struct buf`, `buf_emit32`,
-- `emit_movimm` and the macros EMIT, ADD_RELOC, ADD_EXIT and FAIL. `realloc` says whether a block of that
-- many bytes can be had.
use oryx.Prelude.{
  ℕ, ◌+◌, ◌*◌, ◌/◌, ◌%◌, ◌^◌, bit_and, Bool, false, true, ◌||◌, not, List, [], ◌∷◌, ◌++◌, length,
  leb, ◌==◌, if◌then◌else◌,
}
use oryx.Errors.{Result, Error, ok, err, nomem, ◌>>=◌}
use oryx.Wire.{put_u32}
use oryx.TransUnit.{Reloc, reloc_branch_guest_pc}
use oryx.Translator.Encoders.{enc_movz, enc_movk}

-- `struct buf`: `len` is the length of `bytes`.
pub record Buf : Type 0 where
  pub bytes : List ℕ
  pub cap : ℕ

-- `struct oryx_mm_stats`
pub record Stats : Type 0 where
  pub plain_loads : ℕ
  pub plain_stores : ℕ
  pub ordered_loads : ℕ
  pub ordered_stores : ℕ
  pub atomics : ℕ
  pub fences : ℕ

-- The locals of `oryx_translate_ex`; `reloc_cap` and `exit_cap` are `creloc` and `cexit`.
pub record Emitter : Type 0 where
  pub code : Buf
  pub relocs : List Reloc
  pub reloc_cap : ℕ
  pub exits : List ℕ
  pub exit_cap : ℕ
  pub terminated : Bool
  pub stats : Stats

abbrev pub start : Emitter
start = record {
  code = record { bytes = []; cap = 0 };
  relocs = [];
  reloc_cap = 0;
  exits = [];
  exit_cap = 0;
  terminated = false;
  stats = record {
    plain_loads = 0;
    plain_stores = 0;
    ordered_loads = 0;
    ordered_stores = 0;
    atomics = 0;
    fences = 0;
  };
}

-- A piece of the loop's body: it changes the locals, or fails.
abbrev pub Step : Type 0
Step = Emitter → Result Emitter

infixr 6 ◌>=>◌
abbrev pub ◌>=>◌ : Step → Step → Step
◌>=>◌ f g st = f st >>= g

abbrev pub fail : Error → Step
fail e st = err e

-- `b->len + 4 > b->cap`
unfoldable pub is_full : Buf → Bool
is_full b = not (leb (length b.bytes + 4) b.cap)

unfoldable pub next_cap : Buf → ℕ
next_cap b = if b.cap == 0 then 64 else b.cap * 2

-- The buffer after `insn` is stored, grown first if it is full.
unfoldable pub appended : ℕ → Buf → Buf
unfolding is_full next_cap
appended insn b = record {
  bytes = b.bytes ++ put_u32 insn;
  cap = if is_full b then next_cap b else b.cap;
}

module _ (realloc : ℕ → Bool) where
  unfoldable pub buf_emit32 : ℕ → Buf → Result Buf
  buf_emit32 insn b =
      if not (is_full b) || realloc (next_cap b) then ok (appended insn b) else err nomem

  unfoldable pub emit : ℕ → Step
  emit insn st = buf_emit32 insn st.code >>= λ b. ok (record st { code = b })

  -- Lane `hw` of a constant, unless it is 0.
  unfoldable pub emit_lane : ℕ → ℕ → ℕ → Step
  emit_lane reg v hw st =
      let lane = bit_and (v / 2 ^ (16 * hw)) 0xffff in
      if lane == 0 then ok st else emit (enc_movk reg lane hw) st

  unfoldable pub emit_movimm : ℕ → ℕ → Step
  emit_movimm reg v =
      emit (enc_movz reg (bit_and v 0xffff) 0)
      >=> emit_lane reg v 1
      >=> emit_lane reg v 2
      >=> emit_lane reg v 3

  -- `ADD_RELOC(code.len, ORYX_RELOC_BRANCH_GUEST_PC, target)`
  unfoldable pub add_reloc : ℕ → Step
  add_reloc target st =
      let full = length st.relocs == st.reloc_cap in
      let nc = if st.reloc_cap == 0 then 4 else st.reloc_cap * 2 in
      let site : Reloc = record {
        offset = length st.code.bytes % 2 ^ 32;
        kind = reloc_branch_guest_pc;
        guest_target = target;
      } in
      if not full || realloc (nc * 16)
      then ok (record st {
        relocs = st.relocs ++ site ∷ [];
        reloc_cap = if full then nc else st.reloc_cap;
      })
      else err nomem

  -- `ADD_EXIT(pc)`
  unfoldable pub add_exit : ℕ → Step
  add_exit pc st =
      let full = length st.exits == st.exit_cap in
      let nc = if st.exit_cap == 0 then 4 else st.exit_cap * 2 in
      if not full || realloc (nc * 8)
      then ok
          (record st { exits = st.exits ++ pc ∷ []; exit_cap = if full then nc else st.exit_cap })
      else err nomem

-- `terminated = 1`
abbrev pub terminate : Step
terminate st = ok (record st { terminated = true })

abbrev pub count : (Stats → Stats) → Step
count f st = ok (record st { stats = f st.stats })
