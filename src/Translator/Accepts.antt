-- ===== src/Translator/Accepts.antt =====
-- Which blocks `oryx_translate_ex` of src/liboryxtu/oryxtu.c accepts, if memory can be had.
use oryx.Prelude.{
  ltb, leb, ◌==◌, if◌then◌else◌, Bool-cases, length, bit_and_low, ℕ, ◌*◌, ◌/◌, ◌%◌, ◌^◌, bit_and,
  ◌≡◌, refl, ◌∙◌, inl, inr, Bool, true, false, ◌&&◌, not, List, [], ◌∷◌, arith,
}
use oryx.Errors.{inval, err, ok}
use oryx.Guest.{
  Op, Insn, Strength, mov_rr, mov_ri, add_rr, sub_rr, cmp_rr, load, store, br, jmp, ret, atomic_add,
  atomic_cas, fence, setcc, add_ri, sub_ri, cmp_ri, test_rr, xor_rr, and_rr, or_rr, lea, push, pop,
  call, x86ret, other, sc, rcpc, exact_tso,
}
use oryx.Translator.Encoders.{enc_movk, enc_b, scratch}
use oryx.Translator.Emitter.{
  Stats, Emitter, Step, ◌>=>◌, fail, is_full, next_cap, appended, buf_emit32, emit, emit_lane,
  emit_movimm, add_reloc, add_exit, terminate, count,
}
use oryx.Translator.Lowering.{
  Config, neg64, is_imm12, is_neg_imm12, not_scaled, not_offset, is_ordered, plain_access,
  fenced_access, acquire_release, register_access, ordered_access, access, add_signed, load_address,
  compare_imm, lower,
}

-- The operations that end a block.
abbrev pub ends : Op → Bool
ends br = true
ends jmp = true
ends ret = true
ends call = true
ends x86ret = true
ends _ = false

-- A multiple of 8 that the scaled 12-bit field of LDR and STR holds.
abbrev pub is_scaled : ℕ → Bool
is_scaled v = v % 8 == 0 && leb v 0x7FF8

-- The displacements that a load or store can have: the register forms of the acquire and release
-- accesses add it first, every other access holds it scaled.
abbrev pub displacement_fits : Strength → Bool → ℕ → Bool
displacement_fits sc true v = leb v 0xFFF
displacement_fits rcpc true v = leb v 0xFFF
displacement_fits exact_tso true v = is_scaled v
displacement_fits strength false v = is_scaled v

abbrev pub fits : Config → Op → Insn → Bool
fits cfg load i = displacement_fits cfg.strength (is_ordered cfg.policy i.mclass) i.imm
fits cfg store i = displacement_fits cfg.strength (is_ordered cfg.policy i.mclass) i.imm
fits cfg (other code) i = false
fits cfg _ i = true

abbrev pub has_registers : Insn → Bool
has_registers i = ltb i.rd 16 && ltb i.rn 16

abbrev pub is_empty {ℓ} : {A : Type ℓ} → List A → Bool
is_empty [] = true
is_empty (_ ∷ _) = false

-- Instructions whose registers exist and whose operands fit the host's encodings, of which the last
-- one, and no other, ends the block.
unfoldable pub is_basic_block : Config → List Insn → Bool
is_basic_block cfg [] = false
is_basic_block cfg (i ∷ ops) =
    has_registers i
    && (fits cfg i.op i && (if ends i.op then is_empty ops else is_basic_block cfg ops))

-- A step that goes on, one that ends the block, and one that refuses its instruction.
pub record Proceeds (f : Step) : Type 0 where
  pub run : (st : Emitter) → (st' : Emitter) × (f st ≡ ok st') × (st'.terminated ≡ st.terminated)

pub record Stops (f : Step) : Type 0 where
  pub run : (st : Emitter) → (st' : Emitter) × (f st ≡ ok st') × (st'.terminated ≡ true)

pub record Fails (f : Step) : Type 0 where
  pub run : (st : Emitter) → f st ≡ err inval

abbrev pub Lowers : Bool → Bool → Step → Type 0
Lowers true true f = Stops f
Lowers true false f = Proceeds f
Lowers false last f = Fails f

Proceeds-then : (f g : Step) → Proceeds f → Proceeds g → Proceeds (f >=> g)
Proceeds-then f g p q = record {
  run = λ st. let (a, fa, ta) = p.run st in let (b, gb, tb) = q.run a in (b, rw fa gb, tb ∙ ta);
}

Stops-then : (f g : Step) → Proceeds f → Stops g → Stops (f >=> g)
Stops-then f g p q = record {
  run = λ st. let (a, fa, ta) = p.run st in let (b, gb, tb) = q.run a in (b, rw fa gb, tb);
}

Proceeds-if : (b : Bool) (f g : Step) → Proceeds f → Proceeds g → Proceeds (if b then f else g)
Proceeds-if true f g p q = p
Proceeds-if false f g p q = q

Proceeds-count : (f : Stats → Stats) → Proceeds (count f)
Proceeds-count f = record { run = λ st. (record st { stats = f st.stats }, refl, refl) }

Stops-terminate : Stops terminate
Stops-terminate = record { run = λ st. (record st { terminated = true }, refl, refl) }

-- A guard in front of a step.
Lowers-guard :
    (bad good : Bool) (f : Step)
    → bad ≡ not good
    → Proceeds f
    → Lowers good false (if bad then fail inval else f)
Lowers-guard true true f e p = cc
Lowers-guard true false f e p = record { run = λ st. refl }
Lowers-guard false true f e p = p
Lowers-guard false false f e p = cc

not_scaled-is_scaled : (v : ℕ) → not_scaled v ≡ not (is_scaled v)
not_scaled-is_scaled v = rw (bit_and_low 3 v) (ground arith)

not_offset-leb : (v : ℕ) → not_offset v ≡ not (leb v 0xFFF)
not_offset-leb v = ground arith

module _ (realloc : ℕ → Bool) (room : (n : ℕ) → realloc n ≡ true) where
  Proceeds-emit : (w : ℕ) → Proceeds (emit realloc w)
  unfolding emit buf_emit32
  Proceeds-emit w = record {
    run = λ st. (
      record st { code = appended w st.code },
      elim (Bool-cases (is_full st.code)) [
        | inl full ↦ rw (full, room (next_cap st.code)) refl
        | inr free ↦ rw free refl
      ],
      refl,
    );
  }

  Proceeds-add_reloc : (target : ℕ) → Proceeds (add_reloc realloc target)
  unfolding add_reloc
  Proceeds-add_reloc target = record {
    run = λ st. elim (Bool-cases (length st.relocs == st.reloc_cap)) [
      | inl full ↦
          rw (full, room ((if st.reloc_cap == 0 then 4 else st.reloc_cap * 2) * 16)) (_, refl, refl)
      | inr free ↦ rw free (_, refl, refl)
    ];
  }

  Proceeds-add_exit : (pc : ℕ) → Proceeds (add_exit realloc pc)
  unfolding add_exit
  Proceeds-add_exit pc = record {
    run = λ st. elim (Bool-cases (length st.exits == st.exit_cap)) [
      | inl full ↦
          rw (full, room ((if st.exit_cap == 0 then 4 else st.exit_cap * 2) * 8)) (_, refl, refl)
      | inr free ↦ rw free (_, refl, refl)
    ];
  }

  Proceeds-emit_lane : (reg v hw : ℕ) → Proceeds (emit_lane realloc reg v hw)
  unfolding emit_lane
  Proceeds-emit_lane reg v hw = record {
    run = λ st.
        let lane = bit_and (v / 2 ^ (16 * hw)) 0xffff in
        elim (Bool-cases (lane == 0)) [
          | inl zero_lane ↦ rw zero_lane (st, refl, refl)
          | inr more ↦ rw more ((Proceeds-emit (enc_movk reg lane hw)).run st)
        ];
  }

  Proceeds-emit_movimm : (reg v : ℕ) → Proceeds (emit_movimm realloc reg v)
  unfolding emit_movimm
  Proceeds-emit_movimm reg v = Proceeds-then _ _ (Proceeds-emit _) (
      Proceeds-then _ _ (Proceeds-emit_lane reg v 1)
        (Proceeds-then _ _ (Proceeds-emit_lane reg v 2) (Proceeds-emit_lane reg v 3)))

  two : (v w : ℕ) → Proceeds (emit realloc v >=> emit realloc w)
  two v w = Proceeds-then _ _ (Proceeds-emit v) (Proceeds-emit w)

  counted : (w : ℕ) (f : Stats → Stats) → Proceeds (emit realloc w >=> count f)
  counted w f = Proceeds-then _ _ (Proceeds-emit w) (Proceeds-count f)

  counted_two :
      (v w : ℕ) (f : Stats → Stats) → Proceeds (emit realloc v >=> emit realloc w >=> count f)
  counted_two v w f = Proceeds-then _ _ (Proceeds-emit v) (counted w f)

  materialized :
      (a b : Bool) (u v d w : ℕ)
      → Proceeds (
          if a
          then emit realloc u
          else (if b then emit realloc v else emit_movimm realloc scratch d >=> emit realloc w))
  materialized a b u v d w = Proceeds-if a _ _ (Proceeds-emit u) (
      Proceeds-if b _ _ (Proceeds-emit v)
        (Proceeds-then _ _ (Proceeds-emit_movimm scratch d) (Proceeds-emit w)))

  plain_access-Lowers :
      (is_load : Bool) (i : Insn) → Lowers (is_scaled i.imm) false (plain_access realloc is_load i)
  unfolding plain_access
  plain_access-Lowers is_load i =
      Lowers-guard (not_scaled i.imm) (is_scaled i.imm) _ (not_scaled-is_scaled i.imm)
        (Proceeds-if is_load _ _ (counted _ _) (counted _ _))

  fenced_access-Lowers :
      (is_load : Bool) (i : Insn) → Lowers (is_scaled i.imm) false (fenced_access realloc is_load i)
  unfolding fenced_access
  fenced_access-Lowers is_load i =
      Lowers-guard (not_scaled i.imm) (is_scaled i.imm) _ (not_scaled-is_scaled i.imm)
        (Proceeds-if is_load _ _ (counted_two _ _ _) (counted_two _ _ _))

  acquire_release-Proceeds :
      (is_load : Bool) (strength : Strength) (rd base : ℕ)
      → Proceeds (acquire_release realloc is_load strength rd base)
  unfolding acquire_release
  acquire_release-Proceeds true sc rd base = counted _ _
  acquire_release-Proceeds true rcpc rd base = counted _ _
  acquire_release-Proceeds true exact_tso rd base = counted _ _
  acquire_release-Proceeds false sc rd base = counted _ _
  acquire_release-Proceeds false rcpc rd base = counted _ _
  acquire_release-Proceeds false exact_tso rd base = counted _ _

  register_access-Lowers :
      (is_load : Bool) (strength : Strength) (i : Insn)
      → Lowers (leb i.imm 0xFFF) false (register_access realloc is_load strength i)
  unfolding register_access
  register_access-Lowers is_load strength i =
      Lowers-guard (not_offset i.imm) (leb i.imm 0xFFF) _ (not_offset-leb i.imm) (
        Proceeds-if (i.imm == 0) _ _ (acquire_release-Proceeds is_load strength _ _)
          (Proceeds-then _ _ (Proceeds-emit _) (acquire_release-Proceeds is_load strength _ _)))

  ordered_or_plain :
      (is_load : Bool) (strength : Strength) (ordered : Bool) (i : Insn)
      → Lowers (displacement_fits strength ordered i.imm) false (
          if ordered
          then ordered_access realloc is_load strength i
          else plain_access realloc is_load i)
  unfolding ordered_access
  ordered_or_plain is_load sc true i = register_access-Lowers is_load sc i
  ordered_or_plain is_load rcpc true i = register_access-Lowers is_load rcpc i
  ordered_or_plain is_load exact_tso true i = fenced_access-Lowers is_load i
  ordered_or_plain is_load sc false i = plain_access-Lowers is_load i
  ordered_or_plain is_load rcpc false i = plain_access-Lowers is_load i
  ordered_or_plain is_load exact_tso false i = plain_access-Lowers is_load i

  -- The tail of JMP and CALL, and that of BR.
  jump :
      (target w : ℕ)
      → Stops
          (add_reloc realloc target >=> emit realloc w >=> add_exit realloc target >=> terminate)
  jump target w =
      Stops-then _ _ (Proceeds-add_reloc target) (
        Stops-then _ _ (Proceeds-emit w)
          (Stops-then _ _ (Proceeds-add_exit target) Stops-terminate))

  pub lower-Lowers :
      (cfg : Config) (op : Op) (i : Insn)
      → Lowers (fits cfg op i) (ends op) (lower realloc cfg op i)
  unfolding lower access add_signed load_address compare_imm
  lower-Lowers cfg mov_rr i = Proceeds-emit _
  lower-Lowers cfg mov_ri i = Proceeds-emit_movimm _ _
  lower-Lowers cfg add_rr i = Proceeds-emit _
  lower-Lowers cfg sub_rr i = Proceeds-emit _
  lower-Lowers cfg cmp_rr i = Proceeds-emit _
  lower-Lowers cfg load i = ordered_or_plain true cfg.strength (is_ordered cfg.policy i.mclass) i
  lower-Lowers cfg store i = ordered_or_plain false cfg.strength (is_ordered cfg.policy i.mclass) i
  lower-Lowers cfg atomic_add i = counted _ _
  lower-Lowers cfg atomic_cas i = counted _ _
  lower-Lowers cfg fence i = counted _ _
  lower-Lowers cfg setcc i = Proceeds-emit _
  lower-Lowers cfg lea i = materialized (is_imm12 i.imm) (is_neg_imm12 i.imm) _ _ _ _
  lower-Lowers cfg add_ri i = materialized (is_imm12 i.imm) (is_neg_imm12 i.imm) _ _ _ _
  lower-Lowers cfg sub_ri i =
      materialized (is_imm12 (neg64 i.imm)) (is_neg_imm12 (neg64 i.imm)) _ _ _ _
  lower-Lowers cfg cmp_ri i = materialized (is_imm12 i.imm) (is_neg_imm12 i.imm) _ _ _ _
  lower-Lowers cfg push i = two _ _
  lower-Lowers cfg pop i = two _ _
  lower-Lowers cfg call i =
      Stops-then _ _ (Proceeds-emit_movimm _ _)
        (Stops-then _ _ (Proceeds-emit _) (Stops-then _ _ (Proceeds-emit _) (jump i.target enc_b)))
  lower-Lowers cfg x86ret i =
      Stops-then _ _ (Proceeds-emit _)
        (Stops-then _ _ (Proceeds-emit _) (Stops-then _ _ (Proceeds-emit _) Stops-terminate))
  lower-Lowers cfg test_rr i = Proceeds-emit _
  lower-Lowers cfg and_rr i = Proceeds-emit _
  lower-Lowers cfg xor_rr i = two _ _
  lower-Lowers cfg or_rr i = two _ _
  lower-Lowers cfg br i = Stops-then _ _ (Proceeds-add_reloc _) (
      Stops-then _ _ (Proceeds-emit _) (
        Stops-then _ _ (Proceeds-add_exit _)
          (Stops-then _ _ (Proceeds-add_exit _) Stops-terminate)))
  lower-Lowers cfg jmp i = jump i.target enc_b
  lower-Lowers cfg ret i = Stops-then _ _ (Proceeds-emit _) Stops-terminate
  lower-Lowers cfg (other code) i = record { run = λ st. refl }
