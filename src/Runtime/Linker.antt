-- ===== src/Runtime/Linker.antt =====
-- `oryx_exec_map`, `oryx_exec_map_linked` and their helpers in src/liboryxrun/oryxrun.c. The mapping is the list of
-- the bytes that are copied or written into it; the zeros up to the end of its last page are left out.
use oryx.Prelude.{
  ℕ, ◌+◌, ◌-◌, ◌*◌, ◌/◌, ◌%◌, ◌^◌, bit_and, bit_or, Bool, ◌||◌, not, List, [], ◌∷◌, ◌++◌, length,
  take, drop, leb, ◌==◌, if◌then◌else◌,
}
use oryx.Errors.{Result, ok, err, inval, format, nomem, perm, ◌>>=◌}
use oryx.Wire.{put_u32, get_u32}
use oryx.TransUnit.{Reloc, Tu, reloc_branch_guest_pc}

-- The outcome of `mprotect`: 0, a failure with EACCES or EPERM, another failure.
pub data Protection : Type 0 where
  granted denied failed : Protection

-- The host: its page size (4096 where `sysconf` fails), and what `mmap` and `mprotect` do for a length.
pub record Host : Type 0 where
  pub page : ℕ
  pub can_map : ℕ → Bool
  pub protect : ℕ → Protection

-- `struct oryx_exec`
pub record Exec : Type 0 where
  pub code : List ℕ
  pub map_len : ℕ
  pub code_len : ℕ

abbrev pub aarch64_ret : ℕ
aarch64_ret = 0xD65F03C0

-- `(n + page - 1) & ~(page - 1)` on a size_t
abbrev pub page_align : Host → ℕ → ℕ
page_align host n = bit_and (n + host.page - 1) (2 ^ 64 - host.page)

-- The last four bytes as a word.
abbrev pub last_word : List ℕ → ℕ
last_word code = get_u32 (drop (length code - 4) code)

unfoldable pub protected : Exec → Protection → Result Exec
protected e granted = ok e
protected e denied = err perm
protected e failed = err nomem

-- Map, fill and protect a region with the bytes `code`.
unfoldable pub mapped : Host → List ℕ → Result Exec
mapped host code =
    let map_len = page_align host (length code) in
    if not (host.can_map map_len)
    then err nomem
    else protected (record { code = code; map_len = map_len; code_len = length code })
        (host.protect map_len)

unfoldable pub exec_map : Host → Tu → Result Exec
exec_map host tu =
    if length tu.code == 0
    then err inval
    else (if not (length tu.relocs == 0)
        then err inval
        else (if not (bit_and (length tu.code) 3 == 0)
            then err format
            else (if not (last_word tu.code == aarch64_ret)
                then err inval
                else mapped host tu.code)))

abbrev pub stub_reg : ℕ
stub_reg = 17

abbrev pub stub_bytes : ℕ
stub_bytes = 20

-- MOVZ or MOVK of x17 with 16 bits of `pc`.
unfoldable pub stub_mov : ℕ → ℕ → ℕ → ℕ
stub_mov opcode hw pc =
    bit_or (bit_or opcode (bit_and (pc / 2 ^ (16 * hw)) 0xffff * 2 ^ 5)) stub_reg

unfoldable pub setpc_words : ℕ → List ℕ
setpc_words pc =
    stub_mov 0xD2800000 0 pc
    ∷ stub_mov 0xF2A00000 1 pc
    ∷ stub_mov 0xF2C00000 2 pc
    ∷ stub_mov 0xF2E00000 3 pc
    ∷ aarch64_ret
    ∷ []

unfoldable pub put_words : List ℕ → List ℕ
put_words [] = []
put_words (w ∷ ws) = put_u32 w ++ put_words ws

-- The bytes that `emit_setpc_ret` writes.
unfoldable pub emit_setpc_ret : ℕ → List ℕ
emit_setpc_ret pc = put_words (setpc_words pc)

-- `((int32_t)to_off - (int32_t)site_off) / 4` as a 32-bit pattern, for offsets below 2^31.
unfoldable pub branch_imm : ℕ → ℕ → ℕ
branch_imm site_off to_off =
    if leb site_off to_off then (to_off - site_off) / 4 else 2 ^ 32 - (site_off - to_off) / 4

-- The word that `patch_branch` writes over `insn`.
unfoldable pub patched : ℕ → ℕ → ℕ
patched insn imm =
    if bit_and insn 0xFF000000 == 0x14000000
    then bit_or 0x14000000 (bit_and imm 0x03FFFFFF)
    else bit_or (bit_or 0x54000000 (bit_and imm 0x7FFFF * 2 ^ 5)) (bit_and insn 0xf)

unfoldable pub wr32 : List ℕ → ℕ → ℕ → List ℕ
wr32 base off w = take off base ++ (put_u32 w ++ drop (off + 4) base)

unfoldable pub patch_branch : List ℕ → ℕ → ℕ → List ℕ
patch_branch base site_off to_off =
    wr32 base site_off (patched (get_u32 (drop site_off base)) (branch_imm site_off to_off))

-- The region of a unit whose last instruction is the branch of `r`.
unfoldable pub with_stubs : List ℕ → Reloc → List ℕ → List ℕ
with_stubs code r [] = code
with_stubs code r (taken ∷ []) =
    patch_branch (code ++ emit_setpc_ret r.guest_target) r.offset (length code)
with_stubs code r (taken ∷ fallthrough ∷ others) =
    patch_branch (code ++ (emit_setpc_ret fallthrough ++ emit_setpc_ret r.guest_target)) r.offset
      (length code + stub_bytes)

-- The checks of the relocations, and the bytes to map.
unfoldable pub linked_code : List ℕ → List Reloc → List ℕ → Result (List ℕ)
linked_code code [] exits = if not (last_word code == aarch64_ret) then err inval else ok code
linked_code code (r ∷ []) exits =
    if not (r.kind == reloc_branch_guest_pc) || not ((r.offset + 4) % 2 ^ 32 == length code)
    then err format
    else (if length exits == 0 then err format else ok (with_stubs code r exits))
linked_code code (r ∷ s ∷ relocs) exits = err inval

unfoldable pub exec_map_linked : Host → Tu → Result Exec
exec_map_linked host tu =
    if length tu.code == 0
    then err inval
    else (if not (bit_and (length tu.code) 3 == 0)
        then err format
        else (linked_code tu.code tu.relocs tu.exits >>= mapped host))
