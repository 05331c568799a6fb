-- ===== src/Translator/Lowering.antt =====
-- The `switch` of `oryx_translate_ex` in src/liboryxtu/oryxtu.c: what each guest instruction emits.
use oryx.Prelude.{
  ℕ, ◌+◌, ◌-◌, ◌/◌, ◌%◌, ◌^◌, bit_and, Bool, true, false, ◌||◌, not, ltb, leb, ◌==◌, if◌then◌else◌,
}
use oryx.Errors.{inval}
use oryx.Guest.{
  Op, Insn, Policy, Strength, drf, conservative, rcpc, exact_tso, mclass_shared, fence_ld, fence_st,
  gr_rax, gr_rsp, mov_rr, mov_ri, add_rr, sub_rr, cmp_rr, load, store, br, jmp, ret, atomic_add,
  atomic_cas, fence, setcc, add_ri, sub_ri, cmp_ri, test_rr, xor_rr, and_rr, or_rr, lea, push, pop,
  call, x86ret, other,
}
use oryx.Translator.Encoders.{
  enc_ret, enc_mov_rr, enc_add_rr, enc_subs_cmp, enc_ldr, enc_str, enc_b, enc_bcond, enc_ldar,
  enc_ldapr, enc_stlr, enc_add_imm, enc_sub_imm, enc_subs_imm, enc_adds_imm, enc_tst_rr, enc_eor_rr,
  enc_orr_rr2, enc_adds_rr, enc_subs_rr, enc_ands_rr, enc_adds_imm_rd, enc_subs_imm_rd, enc_ldaddal,
  enc_casal, enc_cset, enc_dmb, scratch, nextpc, xzr, arm_cond,
}
use oryx.Translator.Emitter.{
  Stats, Step, ◌>=>◌, fail, emit, emit_movimm, add_reloc, add_exit, terminate, count,
}

-- The arguments of `oryx_translate_ex` that the body of its loop reads.
pub record Config : Type 0 where
  pub policy : Policy
  pub strength : Strength
  pub guest_pc : ℕ
  pub guest_len : ℕ

abbrev pub add_plain_load : Stats → Stats
add_plain_load s = record s { plain_loads = s.plain_loads + 1 }

abbrev pub add_plain_store : Stats → Stats
add_plain_store s = record s { plain_stores = s.plain_stores + 1 }

abbrev pub add_ordered_load : Stats → Stats
add_ordered_load s = record s { ordered_loads = s.ordered_loads + 1 }

abbrev pub add_ordered_store : Stats → Stats
add_ordered_store s = record s { ordered_stores = s.ordered_stores + 1 }

abbrev pub add_atomic : Stats → Stats
add_atomic s = record s { atomics = s.atomics + 1 }

abbrev pub add_fence : Stats → Stats
add_fence s = record s { fences = s.fences + 1 }

-- `-v` on an int64_t
abbrev pub neg64 : ℕ → ℕ
neg64 v = (2 ^ 64 - v) % 2 ^ 64

-- `v >= 0 && v <= 0xFFF` on an int64_t
abbrev pub is_imm12 : ℕ → Bool
is_imm12 v = leb v 0xFFF

-- `v < 0 && v >= -0xFFF`
abbrev pub is_neg_imm12 : ℕ → Bool
is_neg_imm12 v = leb (2 ^ 64 - 0xFFF) v

-- `v < 0 || (v & 7) != 0 || (v >> 3) > 0xFFF`
abbrev pub not_scaled : ℕ → Bool
not_scaled v = leb (2 ^ 63) v || not (bit_and v 7 == 0) || ltb 0xFFF (v / 2 ^ 3)

-- `v < 0 || v > 0xFFF`
abbrev pub not_offset : ℕ → Bool
not_offset v = leb (2 ^ 63) v || ltb 0xFFF v

unfoldable pub is_conservative : Policy → Bool
is_conservative drf = false
is_conservative conservative = true

-- Whether a load or store could race.
unfoldable pub is_ordered : Policy → ℕ → Bool
is_ordered policy mclass = is_conservative policy || mclass == mclass_shared

module _ (realloc : ℕ → Bool) where
  -- A weak access with a scaled offset.
  unfoldable pub plain_access : Bool → Insn → Step
  plain_access is_load insn =
      if not_scaled insn.imm
      then fail inval
      else (if is_load
          then emit realloc (enc_ldr insn.rd insn.rn (insn.imm / 2 ^ 3)) >=> count add_plain_load
          else emit realloc (enc_str insn.rd insn.rn (insn.imm / 2 ^ 3)) >=> count add_plain_store)

  -- The access bracketed by a one-sided DMB.
  unfoldable pub fenced_access : Bool → Insn → Step
  fenced_access is_load insn =
      if not_scaled insn.imm
      then fail inval
      else (if is_load
          then emit realloc (enc_ldr insn.rd insn.rn (insn.imm / 2 ^ 3))
            >=> emit realloc (enc_dmb fence_ld)
            >=> count add_ordered_load
          else emit realloc (enc_dmb fence_st)
            >=> emit realloc (enc_str insn.rd insn.rn (insn.imm / 2 ^ 3))
            >=> count add_ordered_store)

  -- The last instruction of an acquire or release access, whose address is in `base`.
  unfoldable pub acquire_release : Bool → Strength → ℕ → ℕ → Step
  acquire_release true rcpc rd base = emit realloc (enc_ldapr rd base) >=> count add_ordered_load
  acquire_release true _ rd base = emit realloc (enc_ldar rd base) >=> count add_ordered_load
  acquire_release false _ rd base = emit realloc (enc_stlr rd base) >=> count add_ordered_store

  -- An acquire or release access: a displacement costs an ADD into the scratch register.
  unfoldable pub register_access : Bool → Strength → Insn → Step
  register_access is_load strength insn =
      if not_offset insn.imm
      then fail inval
      else (if insn.imm == 0
          then acquire_release is_load strength insn.rd insn.rn
          else emit realloc (enc_add_imm scratch insn.rn insn.imm)
            >=> acquire_release is_load strength insn.rd scratch)

  unfoldable pub ordered_access : Bool → Strength → Insn → Step
  ordered_access is_load exact_tso insn = fenced_access is_load insn
  ordered_access is_load strength insn = register_access is_load strength insn

  unfoldable pub access : Config → Bool → Insn → Step
  access cfg is_load insn =
      if is_ordered cfg.policy insn.mclass
      then ordered_access is_load cfg.strength insn
      else plain_access is_load insn

  -- GOP_ADD_RI and GOP_SUB_RI, as the addition of `d`.
  unfoldable pub add_signed : ℕ → ℕ → Step
  add_signed rd d =
      if is_imm12 d
      then emit realloc (enc_adds_imm_rd rd rd d)
      else (if is_neg_imm12 d
          then emit realloc (enc_subs_imm_rd rd rd (neg64 d))
          else emit_movimm realloc scratch d >=> emit realloc (enc_adds_rr rd rd scratch))

  unfoldable pub load_address : ℕ → ℕ → ℕ → Step
  load_address rd rn eff =
      if is_imm12 eff
      then emit realloc (enc_add_imm rd rn eff)
      else (if is_neg_imm12 eff
          then emit realloc (enc_sub_imm rd rn (neg64 eff))
          else emit_movimm realloc scratch eff >=> emit realloc (enc_add_rr rd rn scratch))

  unfoldable pub compare_imm : ℕ → ℕ → Step
  compare_imm rd imm =
      if is_imm12 imm
      then emit realloc (enc_subs_imm rd imm)
      else (if is_neg_imm12 imm
          then emit realloc (enc_adds_imm rd (neg64 imm))
          else emit_movimm realloc scratch imm >=> emit realloc (enc_subs_cmp rd scratch))

  unfoldable pub lower : Config → Op → Insn → Step
  lower cfg mov_rr insn = emit realloc (enc_mov_rr insn.rd insn.rn)
  lower cfg mov_ri insn = emit_movimm realloc insn.rd insn.imm
  lower cfg add_rr insn = emit realloc (enc_adds_rr insn.rd insn.rd insn.rn)
  lower cfg sub_rr insn = emit realloc (enc_subs_rr insn.rd insn.rd insn.rn)
  lower cfg cmp_rr insn = emit realloc (enc_subs_cmp insn.rd insn.rn)
  lower cfg load insn = access cfg true insn
  lower cfg store insn = access cfg false insn
  lower cfg atomic_add insn = emit realloc (enc_ldaddal insn.rd xzr insn.rn) >=> count add_atomic
  lower cfg atomic_cas insn = emit realloc (enc_casal gr_rax insn.rd insn.rn) >=> count add_atomic
  lower cfg fence insn = emit realloc (enc_dmb insn.cc) >=> count add_fence
  lower cfg setcc insn = emit realloc (enc_cset insn.rd (arm_cond insn.cc))
  lower cfg lea insn = load_address insn.rd insn.rn insn.imm
  lower cfg add_ri insn = add_signed insn.rd insn.imm
  lower cfg sub_ri insn = add_signed insn.rd (neg64 insn.imm)
  lower cfg cmp_ri insn = compare_imm insn.rd insn.imm
  lower cfg push insn =
      emit realloc (enc_sub_imm gr_rsp gr_rsp 8) >=> emit realloc (enc_str insn.rd gr_rsp 0)
  lower cfg pop insn =
      emit realloc (enc_ldr insn.rd gr_rsp 0) >=> emit realloc (enc_add_imm gr_rsp gr_rsp 8)
  lower cfg call insn =
      emit_movimm realloc scratch insn.imm
      >=> emit realloc (enc_sub_imm gr_rsp gr_rsp 8)
      >=> emit realloc (enc_str scratch gr_rsp 0)
      >=> add_reloc realloc insn.target
      >=> emit realloc enc_b
      >=> add_exit realloc insn.target
      >=> terminate
  lower cfg x86ret insn =
      emit realloc (enc_ldr nextpc gr_rsp 0)
      >=> emit realloc (enc_add_imm gr_rsp gr_rsp 8)
      >=> emit realloc enc_ret
      >=> terminate
  lower cfg test_rr insn = emit realloc (enc_tst_rr insn.rd insn.rn)
  lower cfg and_rr insn = emit realloc (enc_ands_rr insn.rd insn.rd insn.rn)
  lower cfg xor_rr insn =
      emit realloc (enc_eor_rr insn.rd insn.rd insn.rn)
      >=> emit realloc (enc_tst_rr insn.rd insn.rd)
  lower cfg or_rr insn =
      emit realloc (enc_orr_rr2 insn.rd insn.rd insn.rn)
      >=> emit realloc (enc_tst_rr insn.rd insn.rd)
  lower cfg br insn =
      add_reloc realloc insn.target
      >=> emit realloc (enc_bcond (arm_cond insn.cc))
      >=> add_exit realloc insn.target
      >=> add_exit realloc ((cfg.guest_pc + cfg.guest_len) % 2 ^ 64)
      >=> terminate
  lower cfg jmp insn =
      add_reloc realloc insn.target
      >=> emit realloc enc_b
      >=> add_exit realloc insn.target
      >=> terminate
  lower cfg ret insn = emit realloc enc_ret >=> terminate
  lower cfg (other code) insn = fail inval
