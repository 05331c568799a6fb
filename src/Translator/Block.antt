-- ===== src/Translator/Block.antt =====
-- `hash_block`, `oryx_translate_ex` and `oryx_translate` of src/liboryxtu/oryxtu.c.
use oryx.Prelude.{
  ℕ, ◌/◌, ◌%◌, ◌^◌, Bool, ◌||◌, not, List, [], ◌∷◌, ◌++◌, length, ltb, leb, ◌==◌, if◌then◌else◌,
}
use oryx.Errors.{Result, ok, err, inval, ◌>>=◌}
use oryx.Wire.{put_u32, put_u64}
use oryx.Sha256.{Context, init, update, final}
use oryx.TransUnit.{Tu}
use oryx.Guest.{
  Op, Insn, Policy, Strength, drf, conservative, sc, rcpc, exact_tso, gr_count, mov_rr, mov_ri,
  add_rr, sub_rr, cmp_rr, load, store, br, jmp, ret, atomic_add, atomic_cas, fence, setcc, add_ri,
  sub_ri, cmp_ri, test_rr, xor_rr, and_rr, or_rr, lea, push, pop, call, x86ret, other,
}
use oryx.Translator.Emitter.{Emitter, Stats, start}
use oryx.Translator.Lowering.{Config, lower}

-- The number of an `enum oryx_gop`.
unfoldable pub op_code : Op → ℕ
op_code mov_rr = 0
op_code mov_ri = 1
op_code add_rr = 2
op_code sub_rr = 3
op_code cmp_rr = 4
op_code load = 5
op_code store = 6
op_code br = 7
op_code jmp = 8
op_code ret = 9
op_code atomic_add = 10
op_code atomic_cas = 11
op_code fence = 12
op_code setcc = 13
op_code add_ri = 14
op_code sub_ri = 15
op_code cmp_ri = 16
op_code test_rr = 17
op_code xor_rr = 18
op_code and_rr = 19
op_code or_rr = 20
op_code lea = 21
op_code push = 22
op_code pop = 23
op_code call = 24
op_code x86ret = 25
op_code (other code) = code

unfoldable pub policy_code : Policy → ℕ
policy_code drf = 0
policy_code conservative = 1

unfoldable pub strength_code : Strength → ℕ
strength_code sc = 0
strength_code rcpc = 1
strength_code exact_tso = 2

-- The 16 bytes of `hdr`.
unfoldable pub hash_header : ℕ → Policy → Strength → List ℕ
hash_header guest_pc policy strength =
    put_u64 guest_pc ++ (policy_code policy ∷ strength_code strength ∷ 0 ∷ 0 ∷ 0 ∷ 0 ∷ 0 ∷ 0 ∷ [])

-- The 32 bytes of `rec`; P32 casts to uint32_t.
unfoldable pub hash_record : Insn → List ℕ
hash_record insn =
    put_u32 (op_code insn.op)
    ++ (put_u32 insn.rd
        ++ (put_u32 insn.rn
            ++ (put_u32 (insn.imm % 2 ^ 32)
                ++ (put_u32 (insn.imm / 2 ^ 32)
                    ++ (put_u32 (insn.target % 2 ^ 32)
                        ++ (put_u32 insn.cc ++ put_u32 insn.mclass))))))

unfoldable pub hash_ops : Context → List Insn → Context
hash_ops c [] = c
hash_ops c (insn ∷ ops) = hash_ops (update c (hash_record insn)) ops

unfoldable pub hash_block : List Insn → ℕ → Policy → Strength → List ℕ
hash_block ops guest_pc policy strength =
    final (hash_ops (update init (hash_header guest_pc policy strength)) ops)

abbrev pub isa_sm8850 : ℕ
isa_sm8850 = 0x53384850

abbrev pub translator_ref : ℕ
translator_ref = 0x4f525958

abbrev pub translator_ver : ℕ
translator_ver = 1

-- The end of `oryx_translate_ex`: the unit, and the counts that go to `*stats`.
unfoldable pub finish : List Insn → ℕ → ℕ → ℕ → Policy → Strength → Emitter → Result (Tu × Stats)
finish ops guest_pc guest_len profile_id policy strength st =
    if not st.terminated
    then err inval
    else ok (
      record {
        isa_id = isa_sm8850;
        translator_id = translator_ref;
        translator_version = translator_ver;
        profile_id = profile_id;
        flags = 0;
        guest_entry_pc = guest_pc;
        guest_len = guest_len;
        guest_hash = hash_block ops guest_pc policy strength;
        code = st.code.bytes;
        relocs = st.relocs;
        exits = st.exits;
      },
      st.stats,
    )

abbrev pub config : ℕ → ℕ → Policy → Strength → Config
config guest_pc guest_len policy strength = record {
  policy = policy;
  strength = strength;
  guest_pc = guest_pc;
  guest_len = guest_len;
}

module _ (realloc : ℕ → Bool) where
  -- The `for` over the instructions.
  unfoldable pub translate_ops : Config → List Insn → Emitter → Result Emitter
  translate_ops cfg [] st = ok st
  translate_ops cfg (insn ∷ ops) st =
      if st.terminated
      then err inval
      else (if leb gr_count insn.rd || leb gr_count insn.rn
          then err inval
          else (lower realloc cfg insn.op insn st >>= translate_ops cfg ops))

  unfoldable pub translate_ex : List Insn → ℕ → ℕ → ℕ → Policy → Strength → Result (Tu × Stats)
  translate_ex ops guest_pc guest_len profile_id policy strength =
      if length ops == 0 || ltb (2 ^ 20) (length ops)
      then err inval
      else (translate_ops (config guest_pc guest_len policy strength) ops start
          >>= finish ops guest_pc guest_len profile_id policy strength)

  unfoldable pub translate : List Insn → ℕ → ℕ → ℕ → Result Tu
  translate ops guest_pc guest_len profile_id =
      translate_ex ops guest_pc guest_len profile_id drf sc >>= λ r. ok r.0
