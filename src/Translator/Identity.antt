-- ===== src/Translator/Identity.antt =====
-- What `hash_block` of src/liboryxtu/oryxtu.c hashes.
use oryx.Wire.{IsU32, IsU64, put_u32, put_u64, get_u32, get_u64, get_byte}
use oryx.Wire.Codec.{get_u32-put_u32, get_u64-put_u64}
use oryx.Prelude.{
  drop, All, ℕ, ◌*◌, ◌/◌, ◌%◌, ◌^◌, ◌≡◌, refl, sym, ap, ◌∙◌, List, [], ◌∷◌, ◌++◌, append_assoc,
  append-nil, arith,
}
use oryx.Sha256.{Context, init, update, final, sha256}
use oryx.Sha256.Streaming.{HasRoom, update-append}
use oryx.Guest.{Insn, Policy, Strength, drf, conservative, sc, rcpc, exact_tso}
use oryx.Translator.Block.{
  op_code, policy_code, strength_code, hash_header, hash_record, hash_ops, hash_block,
}

-- The records of the instructions, one after the other.
abbrev pub records : List Insn → List ℕ
records [] = []
records (insn ∷ ops) = hash_record insn ++ records ops

hash_ops-records :
    (c : Context) (bytes : List ℕ) (ops : List Insn)
    → HasRoom c
    → hash_ops (update c bytes) ops ≡ update c (bytes ++ records ops)
unfolding hash_ops
hash_ops-records c bytes [] room = ap (update c) (sym (append-nil bytes))
hash_ops-records c bytes (insn ∷ ops) room =
    ap (λ d. hash_ops d ops) (update-append c bytes (hash_record insn) room)
    ∙ hash_ops-records c (bytes ++ hash_record insn) ops room
    ∙ ap (update c) (append_assoc bytes (hash_record insn) (records ops))

-- The hash of a block is the SHA-256 of the header followed by the 32 bytes of each instruction.
pub hash_block-sha256 :
    (ops : List Insn) (guest_pc : ℕ) (policy : Policy) (strength : Strength)
    → hash_block ops guest_pc policy strength
      ≡ sha256 (hash_header guest_pc policy strength ++ records ops)
unfolding hash_block sha256
hash_block-sha256 ops guest_pc policy strength =
    ap final (hash_ops-records init (hash_header guest_pc policy strength) ops (omega arith))

-- The bytes that are hashed of a block.
abbrev pub block_bytes : List Insn → ℕ → Policy → Strength → List ℕ
block_bytes ops guest_pc policy strength = hash_header guest_pc policy strength ++ records ops

-- The fields have the widths of the C code.
pub record IsInsn (insn : Insn) : Type 0 where
  pub op_fits : IsU32 (op_code insn.op)
  pub rd_fits : IsU32 insn.rd
  pub rn_fits : IsU32 insn.rn
  pub imm_fits : IsU64 insn.imm
  pub cc_fits : IsU32 insn.cc
  pub mclass_fits : IsU32 insn.mclass

-- Two instructions that agree but for the upper half of a branch target.
pub record SameInsn (a b : Insn) : Type 0 where
  pub same_op : op_code a.op ≡ op_code b.op
  pub same_rd : a.rd ≡ b.rd
  pub same_rn : a.rn ≡ b.rn
  pub same_imm : a.imm ≡ b.imm
  pub same_target : a.target % 2 ^ 32 ≡ b.target % 2 ^ 32
  pub same_cc : a.cc ≡ b.cc
  pub same_mclass : a.mclass ≡ b.mclass

abbrev pub SameBlock : List Insn → List Insn → Type 0
SameBlock [] [] = Unit
SameBlock (a ∷ ops_a) (b ∷ ops_b) = SameInsn a b × SameBlock ops_a ops_b
SameBlock _ _ = ⊥

-- The words of a record.
word : ℕ → List ℕ → ℕ
word k bytes = get_u32 (drop (4 * k) bytes)

module _ (a b : Insn) (xs ys : List ℕ) (ha : IsInsn a) (hb : IsInsn b)
    (same : hash_record a ++ xs ≡ hash_record b ++ ys) where
  same_word :
      (k u v : ℕ) → word k (hash_record a ++ xs) ≡ u → word k (hash_record b ++ ys) ≡ v → u ≡ v
  same_word k u v hu hv = sym hu ∙ ap (word k) same ∙ hv

  hash_record-SameInsn : SameInsn a b
  unfolding hash_record put_u32 word
  hash_record-SameInsn = record {
    same_op = same_word 0 _ _ (get_u32-put_u32 _ _ ha.op_fits) (get_u32-put_u32 _ _ hb.op_fits);
    same_rd = same_word 1 _ _ (get_u32-put_u32 _ _ ha.rd_fits) (get_u32-put_u32 _ _ hb.rd_fits);
    same_rn = same_word 2 _ _ (get_u32-put_u32 _ _ ha.rn_fits) (get_u32-put_u32 _ _ hb.rn_fits);
    same_imm =
        let low =
          same_word 3 (a.imm % 2 ^ 32) (b.imm % 2 ^ 32) (get_u32-put_u32 _ _ (omega arith))
            (get_u32-put_u32 _ _ (omega arith)) in
        let high =
          same_word 4 (a.imm / 2 ^ 32) (b.imm / 2 ^ 32)
            (get_u32-put_u32 _ _ (omega (arith, ha.imm_fits)))
            (get_u32-put_u32 _ _ (omega (arith, hb.imm_fits))) in
        omega (arith, low, high);
    same_target =
        same_word 5 (a.target % 2 ^ 32) (b.target % 2 ^ 32) (get_u32-put_u32 _ _ (omega arith))
          (get_u32-put_u32 _ _ (omega arith));
    same_cc = same_word 6 _ _ (get_u32-put_u32 _ _ ha.cc_fits) (get_u32-put_u32 _ _ hb.cc_fits);
    same_mclass =
        same_word 7 _ _ (get_u32-put_u32 _ _ ha.mclass_fits) (get_u32-put_u32 _ _ hb.mclass_fits);
  }

  hash_record-rest : xs ≡ ys
  unfolding hash_record put_u32
  hash_record-rest = ap (drop 32) same

records-SameBlock :
    (ops_a ops_b : List Insn)
    → All IsInsn ops_a
    → All IsInsn ops_b
    → records ops_a ≡ records ops_b
    → SameBlock ops_a ops_b
unfolding hash_record put_u32
records-SameBlock [] [] ha hb same = tt
records-SameBlock [] (b ∷ ops_b) ha hb same = cc
records-SameBlock (a ∷ ops_a) [] ha hb same = cc
records-SameBlock (a ∷ ops_a) (b ∷ ops_b) (ia, ha) (ib, hb) same = (
  hash_record-SameInsn a b (records ops_a) (records ops_b) ia ib same,
  records-SameBlock ops_a ops_b ha hb
      (hash_record-rest a b (records ops_a) (records ops_b) ia ib same),
)

policy_code-injective : (p q : Policy) → policy_code p ≡ policy_code q → p ≡ q
unfolding policy_code
policy_code-injective drf drf h = refl
policy_code-injective conservative conservative h = refl
policy_code-injective drf conservative h = cc
policy_code-injective conservative drf h = cc

strength_code-injective : (s t : Strength) → strength_code s ≡ strength_code t → s ≡ t
unfolding strength_code
strength_code-injective sc sc h = refl
strength_code-injective rcpc rcpc h = refl
strength_code-injective exact_tso exact_tso h = refl
strength_code-injective sc rcpc h = cc
strength_code-injective sc exact_tso h = cc
strength_code-injective rcpc sc h = cc
strength_code-injective rcpc exact_tso h = cc
strength_code-injective exact_tso sc h = cc
strength_code-injective exact_tso rcpc h = cc

-- The byte behind `k` others.
first_behind : ℕ → List ℕ → ℕ
first_behind k bytes = get_byte (drop k bytes)

module _ (guest_pc other_pc : ℕ) (policy other_policy : Policy) (strength other_strength : Strength)
    (xs ys : List ℕ)
    (same : hash_header guest_pc policy strength ++ xs
      ≡ hash_header other_pc other_policy other_strength ++ ys) where
  hash_header-pc : IsU64 guest_pc → IsU64 other_pc → guest_pc ≡ other_pc
  unfolding hash_header put_u64
  hash_header-pc ha hb =
      sym (get_u64-put_u64 guest_pc _ ha) ∙ ap get_u64 same ∙ get_u64-put_u64 other_pc _ hb

  hash_header-codes : (policy ≡ other_policy) × (strength ≡ other_strength) × (xs ≡ ys)
  unfolding hash_header put_u64 first_behind get_byte
  hash_header-codes = (
    policy_code-injective policy other_policy (ap (first_behind 8) same),
    strength_code-injective strength other_strength (ap (first_behind 9) same),
    ap (drop 16) same,
  )

-- The hash of a block is the SHA-256 of its header and its instructions as bytes, and blocks with the same
-- bytes, whose fields have the widths of the C code, have the same address, policy and strength, and instruction
-- by instruction the same operation, registers, immediate, condition, memory class and lower half of the target:
-- what is hashed leaves out the upper halves of the targets only.
pub hash_block-SameBlock :
    (ops other_ops : List Insn) (guest_pc other_pc : ℕ) (policy other_policy : Policy)
    (strength other_strength : Strength)
    → All IsInsn ops
    → All IsInsn other_ops
    → IsU64 guest_pc
    → IsU64 other_pc
    → block_bytes ops guest_pc policy strength
      ≡ block_bytes other_ops other_pc other_policy other_strength
    → (hash_block ops guest_pc policy strength ≡ sha256 (block_bytes ops guest_pc policy strength))
      × (guest_pc ≡ other_pc)
      × (policy ≡ other_policy)
      × (strength ≡ other_strength)
      × SameBlock ops other_ops
hash_block-SameBlock ops other_ops guest_pc other_pc policy other_policy strength other_strength ha
      hb word_a word_b same =
    let (same_policy, same_strength, rest) =
      hash_header-codes guest_pc other_pc policy other_policy strength other_strength (records ops)
        (records other_ops) same in
    (
      hash_block-sha256 ops guest_pc policy strength,
      hash_header-pc guest_pc other_pc policy other_policy strength other_strength (records ops)
          (records other_ops) same word_a word_b,
      same_policy,
      same_strength,
      records-SameBlock ops other_ops ha hb rest,
    )

abbrev pub retarget : ℕ → Insn → Insn
retarget target insn = record insn { target = target }

low_half : (target : ℕ) → target % 2 ^ 32 % 2 ^ 32 ≡ target % 2 ^ 32
low_half target = omega arith

records-retarget :
    (before after : List Insn) (insn : Insn) (target : ℕ)
    → records (before ++ retarget (target % 2 ^ 32) insn ∷ after)
      ≡ records (before ++ retarget target insn ∷ after)
unfolding hash_record
records-retarget [] after insn target = rw (low_half target)
records-retarget (b ∷ before) after insn target =
    ap (λ t. hash_record b ++ t) (records-retarget before after insn target)

-- The hash of a block does not change when a branch target loses its upper 32 bits.
pub hash_block-retarget :
    (before after : List Insn) (insn : Insn) (target guest_pc : ℕ) (policy : Policy)
    (strength : Strength)
    → hash_block (before ++ retarget (target % 2 ^ 32) insn ∷ after) guest_pc policy strength
      ≡ hash_block (before ++ retarget target insn ∷ after) guest_pc policy strength
hash_block-retarget before after insn target guest_pc policy strength =
    hash_block-sha256 _ guest_pc policy strength
    ∙ ap (λ t. sha256 (hash_header guest_pc policy strength ++ t))
        (records-retarget before after insn target)
    ∙ sym (hash_block-sha256 _ guest_pc policy strength)
