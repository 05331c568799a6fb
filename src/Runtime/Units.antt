-- ===== src/Runtime/Units.antt =====
-- Every unit of the translator can be linked and mapped, and what its region then holds.
use oryx.Prelude.{
  subst, ℕ, ◌+◌, ◌-◌, ◌*◌, ◌%◌, ◌^◌, ◌<◌, ◌≡◌, refl, sym, ap, ◌∙◌, ◌⊎◌, inl, inr, bit_and,
  bit_and_low, Bool, true, false, List, [], ◌∷◌, ◌++◌, length, drop, append-nil, ◌==◌, ==_iff,
  ==_refl, ==_ne, arith,
}
use oryx.Errors.{ok, Ensures-ok}
use oryx.Wire.{get_u32, IsU32}
use oryx.TransUnit.{Tu}
use oryx.Guest.{Insn, Policy, Strength}
use oryx.Translator.Encoders.{enc_b, enc_ret}
use oryx.Translator.Emitter.{Stats}
use oryx.Translator.Block.{translate_ex}
use oryx.Translator.Growth.{bytes_of}
use oryx.Translator.Ending.{IsBranch}
use oryx.Translator.Linkable.{at, IsReturning, IsBranching, IsLinkable, translate_ex-IsLinkable}
use oryx.Runtime.Linker.{
  Host, Exec, granted, mapped, protected, page_align, last_word, aarch64_ret, emit_setpc_ret,
  branch_imm, patched, patch_branch, with_stubs, linked_code, exec_map_linked,
}
use oryx.Runtime.Linked.{redirected, patched-1, patched-6, length-code, get_u32-site, wr32-site}

-- The stubs behind the code: with a second exit, the fall-through stands in front of the taken one.
abbrev pub stubs : ℕ → List ℕ → List ℕ
stubs target [] = emit_setpc_ret target
stubs target (fallthrough ∷ others) = emit_setpc_ret fallthrough ++ emit_setpc_ret target

-- How many instructions the branch goes ahead to the taken stub.
abbrev pub hops : List ℕ → ℕ
hops [] = 1
hops (fallthrough ∷ others) = 6

IsBranch-IsU32 : (w : ℕ) → IsBranch w → IsU32 w
unfolding enc_b
IsBranch-IsU32 w (inl plain) = omega arith
IsBranch-IsU32 w (inr (c, small, e)) = omega arith

branch_imm-ahead : (site k : ℕ) → branch_imm site (site + 4 * k) ≡ k
unfolding branch_imm
branch_imm-ahead site k = ground arith

module _ (ws : List ℕ) (w : ℕ) (b : IsBranch w) where
  abbrev code : List ℕ
  code = bytes_of (ws ++ w ∷ [])

  patch_branch-region :
      (tail : List ℕ) (k : ℕ)
      → patched w k ≡ redirected w b k
      → patch_branch (code ++ tail) (4 * length ws) (4 * length ws + 4 * k)
        ≡ bytes_of (ws ++ redirected w b k ∷ []) ++ tail
  unfolding patch_branch
  patch_branch-region tail k word =
      rw
        (
          get_u32-site ws w tail (IsBranch-IsU32 w b),
          branch_imm-ahead (4 * length ws) k,
          wr32-site ws w tail (patched w k),
          word,
        )
        refl

  with_stubs-stubs :
      (target : ℕ) (others : List ℕ)
      → with_stubs code (at (4 * length ws) target) (target ∷ others)
        ≡ bytes_of (ws ++ redirected w b (hops others) ∷ []) ++ stubs target others
  unfolding with_stubs
  with_stubs-stubs target [] =
      ap (patch_branch (code ++ emit_setpc_ret target) (4 * length ws)) (length-code ws w [])
      ∙ patch_branch-region (emit_setpc_ret target) 1 (patched-1 w b)
  with_stubs-stubs target (fallthrough ∷ others) =
      let tail = emit_setpc_ret fallthrough ++ emit_setpc_ret target in
      ap (patch_branch (code ++ tail) (4 * length ws)) (omega (arith, length-code ws w []))
      ∙ patch_branch-region tail 6 (patched-6 w b)

-- What the region of a linkable unit holds.
abbrev pub RegionOf : Tu → List ℕ → Type 0
RegionOf tu bytes =
    (IsReturning tu × (bytes ≡ tu.code))
    ⊎ ((u : IsBranching tu) × (bytes
          ≡ bytes_of (u.ws ++ redirected u.w u.branch (hops u.others) ∷ [])
            ++ stubs u.target u.others))

last_word-ret : (ws : List ℕ) → last_word (bytes_of (ws ++ enc_ret ∷ [])) ≡ aarch64_ret
unfolding enc_ret
last_word-ret ws =
    let code = bytes_of (ws ++ aarch64_ret ∷ []) in
    let at_site : length code - 4 ≡ 4 * length ws = omega (arith, length-code ws aarch64_ret []) in
    rw at_site (
      ap (λ t. get_u32 (drop (4 * length ws) t)) (sym (append-nil code))
      ∙ get_u32-site ws aarch64_ret [] (omega arith))

module _ (tu : Tu) where
  linked_code-returning : (u : IsReturning tu) → linked_code tu.code tu.relocs tu.exits ≡ ok tu.code
  unfolding linked_code
  linked_code-returning u = rw (u.relocs, u.code, last_word-ret u.ws) refl

  linked_code-branching :
      (u : IsBranching tu)
      → length tu.code < 2 ^ 25
      → linked_code tu.code tu.relocs tu.exits
        ≡ ok (
            bytes_of (u.ws ++ redirected u.w u.branch (hops u.others) ∷ [])
            ++ stubs u.target u.others)
  unfolding linked_code
  linked_code-branching u small =
      let size = length-code u.ws u.w [] in
      let short : length (bytes_of (u.ws ++ u.w ∷ [])) < 2 ^ 25 =
        subst (λ t. length t < 2 ^ 25) u.code small in
      let last : (4 * length u.ws + 4) % 2 ^ 32 ≡ length (bytes_of (u.ws ++ u.w ∷ [])) =
        omega arith in
      rw
        (
          u.relocs,
          u.exits,
          u.code,
          last,
          ==_refl (length (bytes_of (u.ws ++ u.w ∷ []))),
          ==_ne (length (u.target ∷ u.others)) 0 (omega arith),
        )
        (ap ok (with_stubs-stubs u.ws u.w u.branch u.target u.others))

  module _ (host : Host) (room : (n : ℕ) → host.can_map n ≡ true)
      (allowed : (n : ℕ) → host.protect n ≡ granted) where
    mapped_ok :
        (bytes : List ℕ)
        → mapped host bytes
          ≡ ok (record {
            code = bytes;
            map_len = page_align host (length bytes);
            code_len = length bytes;
          })
    unfolding mapped protected
    mapped_ok bytes = rw (room, allowed) refl

    words_only :
        (ws : List ℕ) (w : ℕ)
        → tu.code ≡ bytes_of (ws ++ w ∷ [])
        → ((length tu.code == 0) ≡ false) × ((bit_and (length tu.code) 3 == 0) ≡ true)
    words_only ws w code =
        let size : length tu.code ≡ 4 * length ws + 4 = ap length code ∙ length-code ws w [] in
        (
          ==_ne (length tu.code) 0 (omega arith),
          (==_iff _ _).1 (bit_and_low 2 (length tu.code) ∙ omega arith),
        )

    run_linked :
        (bytes : List ℕ) (ws : List ℕ) (w : ℕ)
        → tu.code ≡ bytes_of (ws ++ w ∷ [])
        → linked_code tu.code tu.relocs tu.exits ≡ ok bytes
        → (e : Exec) × (exec_map_linked host tu ≡ ok e) × (e.code ≡ bytes)
    unfolding exec_map_linked
    run_linked bytes ws w code linked =
        let (some_code, whole) = words_only ws w code in
        (
          record {
            code = bytes;
            map_len = page_align host (length bytes);
            code_len = length bytes;
          },
          rw (some_code, whole, linked) (mapped_ok bytes),
          refl,
        )

    exec_map_linked-RegionOf :
        IsLinkable tu → (e : Exec) × (exec_map_linked host tu ≡ ok e) × RegionOf tu e.code
    exec_map_linked-RegionOf (small, inl u) =
        let (e, run, code) = run_linked tu.code u.ws enc_ret u.code (linked_code-returning u) in
        (e, run, inl (u, code))
    exec_map_linked-RegionOf (small, inr u) =
        let (e, run, code) = run_linked _ u.ws u.w u.code (linked_code-branching u small) in
        (e, run, inr (u, code))

    -- On a host that grants every mapping, a unit of the translator is linked and mapped. The region is the unit's
    -- code, or the code with its last branch led to the stub of the taken exit, followed by the stubs.
    pub exec_map_linked-translate_ex :
        (realloc : ℕ → Bool) (ops : List Insn) (guest_pc guest_len profile_id : ℕ) (policy : Policy)
        (strength : Strength) (stats : Stats)
        → translate_ex realloc ops guest_pc guest_len profile_id policy strength ≡ ok (tu, stats)
        → (e : Exec) × (exec_map_linked host tu ≡ ok e) × RegionOf tu e.code
    exec_map_linked-translate_ex realloc ops guest_pc guest_len profile_id policy strength stats
          run =
        exec_map_linked-RegionOf (
          Ensures-ok (λ r. IsLinkable r.0) _
            (translate_ex-IsLinkable realloc ops guest_pc guest_len profile_id policy strength) run)
