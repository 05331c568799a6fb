-- ===== src/Translator/Shape.antt =====
-- What each guest instruction does to the buffers, by its kind.
use oryx.Prelude.{ℕ, ◌+◌, ◌≤◌, refl, inl, Bool, true, false, if◌then◌else◌, arith}
use oryx.Errors.{inval, Ensures, Ensures-bind, Ensures-weaken}
use oryx.Guest.{
  Op, Insn, Strength, sc, rcpc, exact_tso, mov_rr, mov_ri, add_rr, sub_rr, cmp_rr, load, store, br,
  jmp, ret, atomic_add, atomic_cas, fence, setcc, add_ri, sub_ri, cmp_ri, test_rr, xor_rr, and_rr,
  or_rr, lea, push, pop, call, x86ret, other,
}
use oryx.Translator.Encoders.{
  enc_adds_imm_rd, enc_subs_imm_rd, enc_adds_rr, enc_add_rr, enc_subs_imm, enc_adds_imm,
  enc_subs_cmp, enc_b, scratch, enc_sub_imm, enc_add_imm,
}
use oryx.Translator.Emitter.{Emitter, Step, ◌>=>◌, emit, emit_movimm, count, Stats}
use oryx.Translator.Lowering.{
  is_imm12, is_neg_imm12, neg64, Config, plain_access, fenced_access, acquire_release,
  register_access, ordered_access, access, add_signed, load_address, compare_imm, lower,
}
use oryx.Translator.Growth.{
  Grows, GrowsBy, GrowsBy-le, GrowsBy-then, GrowsBy-if, GrowsBy-fail, GrowsBy-count, GrowsBy-emit,
  GrowsBy-emit_movimm,
}
use oryx.Translator.Ending.{
  EndsInRet, EndsInBranch, EndsInRet-after, EndsInBranch-after, ret_tail, jump_tail, cond_tail,
  enc_bcond-IsBranch,
}

pub data Kind : Type 0 where
  straight returns branches unknown : Kind

abbrev pub kind_of : Op → Kind
kind_of ret = returns
kind_of x86ret = returns
kind_of br = branches
kind_of jmp = branches
kind_of call = branches
kind_of (other code) = unknown
kind_of _ = straight

abbrev pub Lowered : Kind → Emitter → Emitter → Type 0
Lowered straight st st' = Grows 6 st st'
Lowered returns st st' = EndsInRet 6 st st'
Lowered branches st st' = EndsInBranch 6 st st'
Lowered unknown st st' = ⊥

-- Straight code, then a terminator.
module _ (j k : ℕ) (f g : Step) (p : GrowsBy j f) where
  straight-ret :
      ((b : Emitter) → Ensures (g b) (EndsInRet k b))
      → (st : Emitter) → Ensures ((f >=> g) st) (EndsInRet (j + k) st)
  straight-ret q st = Ensures-bind (Grows j st) (EndsInRet (j + k) st) (f st) g (p.run st) (λ b r.
      Ensures-weaken (EndsInRet k b) (EndsInRet (j + k) st) (g b) (q b)
        (λ c. EndsInRet-after j k st b c r))

  straight-branch :
      ((b : Emitter) → Ensures (g b) (EndsInBranch k b))
      → (st : Emitter) → Ensures ((f >=> g) st) (EndsInBranch (j + k) st)
  straight-branch q st =
      Ensures-bind (Grows j st) (EndsInBranch (j + k) st) (f st) g (p.run st) (λ b r.
        Ensures-weaken (EndsInBranch k b) (EndsInBranch (j + k) st) (g b) (q b)
          (λ c. EndsInBranch-after j k st b c r))

pub EndsInRet-le : (j k : ℕ) (a b : Emitter) → j ≤ k → EndsInRet j a b → EndsInRet k a b
EndsInRet-le j k a b h p =
    let (ws, small, e) = p.words in
    record {
      words = (ws, omega arith, e);
      same_relocs = p.same_relocs;
      same_exits = p.same_exits;
      ended = p.ended;
    }

pub EndsInBranch-le : (j k : ℕ) (a b : Emitter) → j ≤ k → EndsInBranch j a b → EndsInBranch k a b
EndsInBranch-le j k a b h p = record {
  ws = p.ws;
  few = omega (arith, p.few);
  w = p.w;
  branch = p.branch;
  target = p.target;
  others = p.others;
  code = p.code;
  relocs = p.relocs;
  exits = p.exits;
  ended = p.ended;
}

module _ (realloc : ℕ → Bool) where
  one : (w : ℕ) → GrowsBy 6 (emit realloc w)
  one w = GrowsBy-le 1 6 _ (omega arith) (GrowsBy-emit realloc w)

  two_words : (v w : ℕ) → GrowsBy 2 (emit realloc v >=> emit realloc w)
  two_words v w = GrowsBy-then 1 1 _ _ (GrowsBy-emit realloc v) (GrowsBy-emit realloc w)

  two : (v w : ℕ) → GrowsBy 6 (emit realloc v >=> emit realloc w)
  two v w = GrowsBy-le 2 6 _ (omega arith) (two_words v w)

  counted : (w : ℕ) (f : Stats → Stats) → GrowsBy 1 (emit realloc w >=> count f)
  counted w f = GrowsBy-then 1 0 _ _ (GrowsBy-emit realloc w) (GrowsBy-count f)

  counted_6 : (w : ℕ) (f : Stats → Stats) → GrowsBy 6 (emit realloc w >=> count f)
  counted_6 w f = GrowsBy-le 1 6 _ (omega arith) (counted w f)

  counted_two :
      (v w : ℕ) (f : Stats → Stats) → GrowsBy 6 (emit realloc v >=> emit realloc w >=> count f)
  counted_two v w f =
      GrowsBy-le 2 6 _ (omega arith) (GrowsBy-then 1 1 _ _ (GrowsBy-emit realloc v) (counted w f))

  -- An immediate form, or the constant in the scratch register and a register form.
  materialized :
      (a b : Bool) (u v d w : ℕ)
      → GrowsBy 6 (
          if a
          then emit realloc u
          else (if b then emit realloc v else emit_movimm realloc scratch d >=> emit realloc w))
  materialized a b u v d w = GrowsBy-if 6 a _ _ (one u) (
      GrowsBy-if 6 b _ _ (one v) (
        GrowsBy-le 5 6 _ (omega arith)
          (GrowsBy-then 4 1 _ _ (GrowsBy-emit_movimm realloc scratch d) (GrowsBy-emit realloc w))))

  plain_access-Grows :
      (is_load : Bool) (insn : Insn) → GrowsBy 6 (plain_access realloc is_load insn)
  unfolding plain_access
  plain_access-Grows is_load insn =
      GrowsBy-if 6 _ _ _ (GrowsBy-fail 6 inval)
        (GrowsBy-if 6 is_load _ _ (counted_6 _ _) (counted_6 _ _))

  fenced_access-Grows :
      (is_load : Bool) (insn : Insn) → GrowsBy 6 (fenced_access realloc is_load insn)
  unfolding fenced_access
  fenced_access-Grows is_load insn =
      GrowsBy-if 6 _ _ _ (GrowsBy-fail 6 inval)
        (GrowsBy-if 6 is_load _ _ (counted_two _ _ _) (counted_two _ _ _))

  acquire_release-Grows :
      (is_load : Bool) (strength : Strength) (rd base : ℕ)
      → GrowsBy 1 (acquire_release realloc is_load strength rd base)
  unfolding acquire_release
  acquire_release-Grows true sc rd base = counted _ _
  acquire_release-Grows true rcpc rd base = counted _ _
  acquire_release-Grows true exact_tso rd base = counted _ _
  acquire_release-Grows false sc rd base = counted _ _
  acquire_release-Grows false rcpc rd base = counted _ _
  acquire_release-Grows false exact_tso rd base = counted _ _

  register_access-Grows :
      (is_load : Bool) (strength : Strength) (insn : Insn)
      → GrowsBy 6 (register_access realloc is_load strength insn)
  unfolding register_access
  register_access-Grows is_load strength insn = GrowsBy-if 6 _ _ _ (GrowsBy-fail 6 inval) (
      GrowsBy-if 6 _ _ _
        (GrowsBy-le 1 6 _ (omega arith) (acquire_release-Grows is_load strength _ _))
        (GrowsBy-le 2 6 _ (omega arith) (
          GrowsBy-then 1 1 _ _ (GrowsBy-emit realloc _)
            (acquire_release-Grows is_load strength _ _))))

  ordered_access-Grows :
      (is_load : Bool) (strength : Strength) (insn : Insn)
      → GrowsBy 6 (ordered_access realloc is_load strength insn)
  unfolding ordered_access
  ordered_access-Grows is_load sc insn = register_access-Grows is_load sc insn
  ordered_access-Grows is_load rcpc insn = register_access-Grows is_load rcpc insn
  ordered_access-Grows is_load exact_tso insn = fenced_access-Grows is_load insn

  access-Grows :
      (cfg : Config) (is_load : Bool) (insn : Insn) → GrowsBy 6 (access realloc cfg is_load insn)
  unfolding access
  access-Grows cfg is_load insn =
      GrowsBy-if 6 _ _ _ (ordered_access-Grows is_load cfg.strength insn)
        (plain_access-Grows is_load insn)

  add_signed-Grows : (rd d : ℕ) → GrowsBy 6 (add_signed realloc rd d)
  unfolding add_signed
  add_signed-Grows rd d =
      materialized (is_imm12 d) (is_neg_imm12 d) (enc_adds_imm_rd rd rd d)
        (enc_subs_imm_rd rd rd (neg64 d)) d (enc_adds_rr rd rd scratch)

  load_address-Grows : (rd rn eff : ℕ) → GrowsBy 6 (load_address realloc rd rn eff)
  unfolding load_address
  load_address-Grows rd rn eff =
      materialized (is_imm12 eff) (is_neg_imm12 eff) (enc_add_imm rd rn eff)
        (enc_sub_imm rd rn (neg64 eff)) eff (enc_add_rr rd rn scratch)

  compare_imm-Grows : (rd imm : ℕ) → GrowsBy 6 (compare_imm realloc rd imm)
  unfolding compare_imm
  compare_imm-Grows rd imm =
      materialized (is_imm12 imm) (is_neg_imm12 imm) (enc_subs_imm rd imm)
        (enc_adds_imm rd (neg64 imm)) imm (enc_subs_cmp rd scratch)

  pub lower-Lowered :
      (cfg : Config) (op : Op) (insn : Insn) (st : Emitter)
      → Ensures (lower realloc cfg op insn st) (Lowered (kind_of op) st)
  unfolding lower
  lower-Lowered cfg mov_rr insn = (one _).run
  lower-Lowered cfg mov_ri insn =
      (GrowsBy-le 4 6 _ (omega arith) (GrowsBy-emit_movimm realloc insn.rd insn.imm)).run
  lower-Lowered cfg add_rr insn = (one _).run
  lower-Lowered cfg sub_rr insn = (one _).run
  lower-Lowered cfg cmp_rr insn = (one _).run
  lower-Lowered cfg load insn = (access-Grows cfg true insn).run
  lower-Lowered cfg store insn = (access-Grows cfg false insn).run
  lower-Lowered cfg atomic_add insn = (counted_6 _ _).run
  lower-Lowered cfg atomic_cas insn = (counted_6 _ _).run
  lower-Lowered cfg fence insn = (counted_6 _ _).run
  lower-Lowered cfg setcc insn = (one _).run
  lower-Lowered cfg lea insn = (load_address-Grows _ _ _).run
  lower-Lowered cfg add_ri insn = (add_signed-Grows _ _).run
  lower-Lowered cfg sub_ri insn = (add_signed-Grows _ _).run
  lower-Lowered cfg cmp_ri insn = (compare_imm-Grows _ _).run
  lower-Lowered cfg push insn = (two _ _).run
  lower-Lowered cfg pop insn = (two _ _).run
  lower-Lowered cfg call insn =
      straight-branch 4 2 _ _ (GrowsBy-emit_movimm realloc scratch insn.imm) (
        straight-branch 1 1 _ _ (GrowsBy-emit realloc _) (
          straight-branch 1 0 _ _ (GrowsBy-emit realloc _)
            (λ st. jump_tail realloc st insn.target enc_b (inl refl))))
  lower-Lowered cfg x86ret insn = λ st.
      Ensures-weaken (EndsInRet 2 st) (EndsInRet 6 st) _
        (straight-ret 1 1 _ _ (GrowsBy-emit realloc _)
          (straight-ret 1 0 _ _ (GrowsBy-emit realloc _) (ret_tail realloc)) st)
        (λ b. EndsInRet-le 2 6 st b (omega arith))
  lower-Lowered cfg test_rr insn = (one _).run
  lower-Lowered cfg and_rr insn = (one _).run
  lower-Lowered cfg xor_rr insn = (two _ _).run
  lower-Lowered cfg or_rr insn = (two _ _).run
  lower-Lowered cfg br insn = λ st.
      Ensures-weaken (EndsInBranch 0 st) (EndsInBranch 6 st) _
        (cond_tail realloc st insn.target _ (enc_bcond-IsBranch _) _)
        (λ b. EndsInBranch-le 0 6 st b (omega arith))
  lower-Lowered cfg jmp insn = λ st.
      Ensures-weaken (EndsInBranch 0 st) (EndsInBranch 6 st) _
        (jump_tail realloc st insn.target enc_b (inl refl))
        (λ b. EndsInBranch-le 0 6 st b (omega arith))
  lower-Lowered cfg ret insn = λ st.
      Ensures-weaken (EndsInRet 0 st) (EndsInRet 6 st) _ (ret_tail realloc st)
        (λ b. EndsInRet-le 0 6 st b (omega arith))
  lower-Lowered cfg (other code) insn = λ st. tt
