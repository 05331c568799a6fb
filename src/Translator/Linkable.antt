-- ===== src/Translator/Linkable.antt =====
-- What every unit that `oryx_translate_ex` (src/liboryxtu/oryxtu.c) builds looks like: one terminator at
-- its end, with the relocation and the exits that the dispatcher links.
use oryx.Prelude.{
  subst, or-eq-false, ltb_false→le, ℕ, suc, ◌+◌, ◌*◌, ◌%◌, ◌^◌, ◌≤◌, ◌<◌, ◌≡◌, refl, ap, ◌∙◌, ◌⊎◌,
  inl, inr, Bool, true, false, List, [], ◌∷◌, ◌++◌, length, length-append, ◌==◌, ◌||◌, ltb,
  Bool-cases, arith,
}
use oryx.Errors.{inval, Ensures, Ensures-bind, Ensures-weaken, Ensures-guard}
use oryx.Guest.{Insn, Policy, Strength}
use oryx.TransUnit.{Tu, Reloc, reloc_branch_guest_pc}
use oryx.Translator.Encoders.{enc_ret}
use oryx.Translator.Emitter.{Emitter, start}
use oryx.Translator.Lowering.{Config, lower}
use oryx.Translator.Block.{config, finish, translate_ops, translate_ex}
use oryx.Translator.Growth.{bytes_of, length-bytes_of, Grows, Grows-refl, Grows-trans}
use oryx.Translator.Ending.{IsBranch, EndsInRet, EndsInBranch, EndsInRet-after, EndsInBranch-after}
use oryx.Translator.Shape.{
  Kind, straight, returns, branches, unknown, kind_of, Lowered, lower-Lowered, EndsInRet-le,
  EndsInBranch-le,
}

-- Where the loop over the instructions can be.
data Outcome (k : ℕ) (st st' : Emitter) : Type 0 where
  running : Grows k st st' → Outcome k st st'
  returned : EndsInRet k st st' → Outcome k st st'
  branched : EndsInBranch k st st' → Outcome k st st'

Outcome-after : (j k : ℕ) (a b c : Emitter) → Grows j a b → Outcome k b c → Outcome (j + k) a c
Outcome-after j k a b c p (running q) = running (Grows-trans j k a b c p q)
Outcome-after j k a b c p (returned q) = returned (EndsInRet-after j k a b c p q)
Outcome-after j k a b c p (branched q) = branched (EndsInBranch-after j k a b c p q)

module _ (realloc : ℕ → Bool) (cfg : Config) where
  stops :
      (P : Emitter → Type 0) (ops : List Insn) (st : Emitter)
      → st.terminated ≡ true
      → P st
      → Ensures (translate_ops realloc cfg ops st) P
  unfolding translate_ops
  stops P [] st h p = p
  stops P (insn ∷ ops) st h p = rw h tt

  module _ (n : ℕ) (ops : List Insn) (st : Emitter) where
    continue :
        (kind : Kind) (b : Emitter)
        → Ensures (translate_ops realloc cfg ops b) (Outcome (6 * n) b)
        → Lowered kind st b
        → Ensures (translate_ops realloc cfg ops b) (Outcome (6 * suc n) st)
    continue straight b rest p =
        Ensures-weaken (Outcome (6 * n) b) (Outcome (6 * suc n) st) _ rest
          (λ c q. subst (λ k. Outcome k st c) (omega arith) (Outcome-after 6 (6 * n) st b c p q))
    continue returns b rest p =
        stops (Outcome (6 * suc n) st) ops b p.ended
          (returned (EndsInRet-le 6 (6 * suc n) st b (omega arith) p))
    continue branches b rest p =
        stops (Outcome (6 * suc n) st) ops b p.ended
          (branched (EndsInBranch-le 6 (6 * suc n) st b (omega arith) p))
    continue unknown b rest p = absurd p

  translate_ops-Outcome :
      (ops : List Insn) (st : Emitter)
      → Ensures (translate_ops realloc cfg ops st) (Outcome (6 * length ops) st)
  unfolding translate_ops
  translate_ops-Outcome [] st = running (Grows-refl st)
  translate_ops-Outcome (insn ∷ ops) st =
      Ensures-guard (Outcome (6 * suc (length ops)) st) st.terminated inval _ (λ going.
        Ensures-guard (Outcome (6 * suc (length ops)) st) _ inval _ (λ fine.
          Ensures-bind (Lowered (kind_of insn.op) st) (Outcome (6 * suc (length ops)) st)
            (lower realloc cfg insn.op insn st) (translate_ops realloc cfg ops)
            (lower-Lowered realloc cfg insn.op insn st)
            (λ b p.
              continue (length ops) ops st (kind_of insn.op) b (translate_ops-Outcome ops b) p)))

abbrev pub at : ℕ → ℕ → Reloc
at offset target = record { offset = offset; kind = reloc_branch_guest_pc; guest_target = target }

-- A unit that ends in RET has nothing to link.
pub record IsReturning (tu : Tu) : Type 0 where
  pub ws : List ℕ
  pub code : tu.code ≡ bytes_of (ws ++ enc_ret ∷ [])
  pub relocs : tu.relocs ≡ []
  pub exits : tu.exits ≡ []

-- A unit that ends in a branch has one relocation, at that branch, for the guest address of its first exit.
pub record IsBranching (tu : Tu) : Type 0 where
  pub ws : List ℕ
  pub w : ℕ
  pub branch : IsBranch w
  pub target : ℕ
  pub others : List ℕ
  pub code : tu.code ≡ bytes_of (ws ++ w ∷ [])
  pub relocs : tu.relocs ≡ at (4 * length ws) target ∷ []
  pub exits : tu.exits ≡ target ∷ others

abbrev pub IsLinkable : Tu → Type 0
IsLinkable tu = (length tu.code < 2 ^ 25) × (IsReturning tu ⊎ IsBranching tu)

module _ (realloc : ℕ → Bool) (ops : List Insn) (guest_pc guest_len profile_id : ℕ)
    (policy : Policy) (strength : Strength) where
  running_clash : {b : Bool} → b ≡ false → b ≡ true → ⊥
  running_clash p q = cc

  offset :
      (ws : List ℕ)
      → length ws ≤ 6 * length ops
      → length ops ≤ 2 ^ 20
      → length (bytes_of ws) % 2 ^ 32 ≡ 4 * length ws
  offset ws few small = rw length-bytes_of (omega arith)

  built :
      (st : Emitter) (tu : Tu)
      → length ops ≤ 2 ^ 20
      → st.terminated ≡ true
      → tu.code ≡ st.code.bytes
      → tu.relocs ≡ st.relocs
      → tu.exits ≡ st.exits
      → Outcome (6 * length ops) start st
      → IsLinkable tu
  built st tu small ended code relocs exits (running p) =
      absurd (running_clash p.same_terminated ended)
  built st tu small ended code relocs exits (returned p) =
      let (ws, few, bytes) = p.words in
      (
        rw (code, bytes, length-bytes_of) (omega (arith, length-append ws (enc_ret ∷ []))),
        inl (record {
          ws = ws;
          code = code ∙ bytes;
          relocs = relocs ∙ p.same_relocs;
          exits = exits ∙ p.same_exits;
        }),
      )
  built st tu small ended code relocs exits (branched p) = (
    rw (code, p.code, length-bytes_of) (omega (arith, length-append p.ws (p.w ∷ []), p.few)),
    inr (record {
      ws = p.ws;
      w = p.w;
      branch = p.branch;
      target = p.target;
      others = p.others;
      code = code ∙ p.code;
      relocs = relocs ∙ p.relocs ∙ ap (λ k. at k p.target ∷ []) (offset p.ws p.few small);
      exits = exits ∙ p.exits;
    }),
  )

  finish-IsLinkable :
      (st : Emitter)
      → length ops ≤ 2 ^ 20
      → Outcome (6 * length ops) start st
      → Ensures (finish ops guest_pc guest_len profile_id policy strength st) (λ r. IsLinkable r.0)
  unfolding finish
  finish-IsLinkable st small p = elim (Bool-cases st.terminated) [
    | inr going ↦ simp going tt
    | inl ended ↦ simp ended (built st _ small ended refl refl refl p)
  ]

  -- Whatever `oryx_translate_ex` builds is linkable: less than 2^25 bytes of code, and either it ends in RET
  -- without relocations and exits, or in one branch, at which its only relocation points, for its first exit.
  pub translate_ex-IsLinkable :
      Ensures
        (translate_ex realloc ops guest_pc guest_len profile_id policy strength)
        (λ r. IsLinkable r.0)
  unfolding translate_ex
  translate_ex-IsLinkable =
      Ensures-guard (λ r. IsLinkable r.0) (length ops == 0 || ltb (2 ^ 20) (length ops)) inval _
        (λ sized.
          let small =
            ltb_false→le (2 ^ 20) (length ops) (or-eq-false (length ops == 0) _ sized).1 in
          Ensures-bind (Outcome (6 * length ops) start) (λ r. IsLinkable r.0)
            (translate_ops realloc (config guest_pc guest_len policy strength) ops start)
            (finish ops guest_pc guest_len profile_id policy strength)
            (translate_ops-Outcome realloc _ ops start) (λ st. finish-IsLinkable st small))
