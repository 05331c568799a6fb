-- ===== src/Translator/Encoders.antt =====
-- The AArch64 encoders of src/liboryxtu/oryxtu.c. A field is shifted into place and joined by `|`, as
-- there; registers are below 32, so no shift loses a bit.
use oryx.Prelude.{ℕ, ◌*◌, ◌^◌, bit_and, bit_or, bit_xor, ◌==◌, if◌then◌else◌}
use oryx.Guest.{gcc_eq, gcc_ne, gcc_lt, gcc_ge, gcc_le, gcc_gt, fence_ld, fence_st}

unfoldable pub enc_ret : ℕ
enc_ret = 0xD65F03C0

unfoldable pub enc_mov_rr : ℕ → ℕ → ℕ
enc_mov_rr rd rm = bit_or (bit_or 0xAA0003E0 (rm * 2 ^ 16)) rd

unfoldable pub enc_add_rr : ℕ → ℕ → ℕ → ℕ
enc_add_rr rd rn rm = bit_or (bit_or (bit_or 0x8B000000 (rm * 2 ^ 16)) (rn * 2 ^ 5)) rd

unfoldable pub enc_subs_cmp : ℕ → ℕ → ℕ
enc_subs_cmp rn rm = bit_or (bit_or (bit_or 0xEB000000 (rm * 2 ^ 16)) (rn * 2 ^ 5)) 31

unfoldable pub enc_movz : ℕ → ℕ → ℕ → ℕ
enc_movz rd imm16 hw =
    bit_or (bit_or (bit_or 0xD2800000 (hw * 2 ^ 21)) (bit_and imm16 0xffff * 2 ^ 5)) rd

unfoldable pub enc_movk : ℕ → ℕ → ℕ → ℕ
enc_movk rd imm16 hw =
    bit_or (bit_or (bit_or 0xF2800000 (hw * 2 ^ 21)) (bit_and imm16 0xffff * 2 ^ 5)) rd

unfoldable pub enc_ldr : ℕ → ℕ → ℕ → ℕ
enc_ldr rt rn imm12 =
    bit_or (bit_or (bit_or 0xF9400000 (bit_and imm12 0xfff * 2 ^ 10)) (rn * 2 ^ 5)) rt

unfoldable pub enc_str : ℕ → ℕ → ℕ → ℕ
enc_str rt rn imm12 =
    bit_or (bit_or (bit_or 0xF9000000 (bit_and imm12 0xfff * 2 ^ 10)) (rn * 2 ^ 5)) rt

unfoldable pub enc_b : ℕ
enc_b = 0x14000000

unfoldable pub enc_bcond : ℕ → ℕ
enc_bcond cond = bit_or 0x54000000 (bit_and cond 0xf)

unfoldable pub enc_ldar : ℕ → ℕ → ℕ
enc_ldar rt rn = bit_or (bit_or 0xC8DFFC00 (rn * 2 ^ 5)) rt

unfoldable pub enc_ldapr : ℕ → ℕ → ℕ
enc_ldapr rt rn = bit_or (bit_or 0xF8BFC000 (rn * 2 ^ 5)) rt

unfoldable pub enc_stlr : ℕ → ℕ → ℕ
enc_stlr rt rn = bit_or (bit_or 0xC89FFC00 (rn * 2 ^ 5)) rt

unfoldable pub enc_add_imm : ℕ → ℕ → ℕ → ℕ
enc_add_imm rd rn imm12 =
    bit_or (bit_or (bit_or 0x91000000 (bit_and imm12 0xfff * 2 ^ 10)) (rn * 2 ^ 5)) rd

unfoldable pub enc_sub_imm : ℕ → ℕ → ℕ → ℕ
enc_sub_imm rd rn imm12 =
    bit_or (bit_or (bit_or 0xD1000000 (bit_and imm12 0xfff * 2 ^ 10)) (rn * 2 ^ 5)) rd

unfoldable pub enc_subs_imm : ℕ → ℕ → ℕ
enc_subs_imm rn imm12 = bit_or (bit_or 0xF100001F (bit_and imm12 0xfff * 2 ^ 10)) (rn * 2 ^ 5)

unfoldable pub enc_adds_imm : ℕ → ℕ → ℕ
enc_adds_imm rn imm12 = bit_or (bit_or 0xB100001F (bit_and imm12 0xfff * 2 ^ 10)) (rn * 2 ^ 5)

unfoldable pub enc_tst_rr : ℕ → ℕ → ℕ
enc_tst_rr rn rm = bit_or (bit_or 0xEA00001F (rm * 2 ^ 16)) (rn * 2 ^ 5)

unfoldable pub enc_eor_rr : ℕ → ℕ → ℕ → ℕ
enc_eor_rr rd rn rm = bit_or (bit_or (bit_or 0xCA000000 (rm * 2 ^ 16)) (rn * 2 ^ 5)) rd

unfoldable pub enc_orr_rr2 : ℕ → ℕ → ℕ → ℕ
enc_orr_rr2 rd rn rm = bit_or (bit_or (bit_or 0xAA000000 (rm * 2 ^ 16)) (rn * 2 ^ 5)) rd

unfoldable pub enc_adds_rr : ℕ → ℕ → ℕ → ℕ
enc_adds_rr rd rn rm = bit_or (bit_or (bit_or 0xAB000000 (rm * 2 ^ 16)) (rn * 2 ^ 5)) rd

unfoldable pub enc_subs_rr : ℕ → ℕ → ℕ → ℕ
enc_subs_rr rd rn rm = bit_or (bit_or (bit_or 0xEB000000 (rm * 2 ^ 16)) (rn * 2 ^ 5)) rd

unfoldable pub enc_ands_rr : ℕ → ℕ → ℕ → ℕ
enc_ands_rr rd rn rm = bit_or (bit_or (bit_or 0xEA000000 (rm * 2 ^ 16)) (rn * 2 ^ 5)) rd

unfoldable pub enc_adds_imm_rd : ℕ → ℕ → ℕ → ℕ
enc_adds_imm_rd rd rn imm12 =
    bit_or (bit_or (bit_or 0xB1000000 (bit_and imm12 0xfff * 2 ^ 10)) (rn * 2 ^ 5)) rd

unfoldable pub enc_subs_imm_rd : ℕ → ℕ → ℕ → ℕ
enc_subs_imm_rd rd rn imm12 =
    bit_or (bit_or (bit_or 0xF1000000 (bit_and imm12 0xfff * 2 ^ 10)) (rn * 2 ^ 5)) rd

unfoldable pub enc_ldaddal : ℕ → ℕ → ℕ → ℕ
enc_ldaddal rs rt rn = bit_or (bit_or (bit_or 0xF8E00000 (rs * 2 ^ 16)) (rn * 2 ^ 5)) rt

unfoldable pub enc_casal : ℕ → ℕ → ℕ → ℕ
enc_casal rs rt rn = bit_or (bit_or (bit_or 0xC8E0FC00 (rs * 2 ^ 16)) (rn * 2 ^ 5)) rt

unfoldable pub enc_cset : ℕ → ℕ → ℕ
enc_cset rd cond = bit_or (bit_or 0x9A9F07E0 (bit_and (bit_xor cond 1) 0xf * 2 ^ 12)) rd

unfoldable pub enc_dmb : ℕ → ℕ
enc_dmb fence =
    if fence == fence_ld then 0xD50339BF else (if fence == fence_st then 0xD5033ABF else 0xD5033BBF)

abbrev pub scratch : ℕ
scratch = 16

abbrev pub nextpc : ℕ
nextpc = 17

abbrev pub xzr : ℕ
xzr = 31

-- The condition field for an x86 condition.
unfoldable pub arm_cond : ℕ → ℕ
arm_cond gcc =
    if gcc == gcc_eq
    then 0x0
    else (if gcc == gcc_ne
        then 0x1
        else (if gcc == gcc_ge
            then 0xA
            else (if gcc == gcc_lt
                then 0xB
                else (if gcc == gcc_gt then 0xC else (if gcc == gcc_le then 0xD else 0xE)))))
