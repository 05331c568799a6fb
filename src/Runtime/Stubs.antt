-- ===== src/Runtime/Stubs.antt =====
-- The exit stubs that `emit_setpc_ret` of src/liboryxrun/oryxrun.c writes.
use oryx.Prelude.{
  bit_and_low, ℕ, ◌+◌, ◌*◌, ◌/◌, ◌%◌, ◌^◌, ◌<◌, ◌≡◌, refl, ap, ◌∙◌, some, List, [], ◌++◌, arith,
}
use oryx.Wire.{IsU64, put_u32}
use oryx.MoveWide.{
  with_lane, run_moves, move_word, move_word-IsU32, move_wide-movz, move_wide-movk,
  run_moves-put_u32,
}
use oryx.Runtime.Linker.{aarch64_ret, stub_mov, setpc_words, put_words, emit_setpc_ret}

-- The 16 bits of an address at the power `p` of 2.
abbrev lane_at : ℕ → ℕ → ℕ
lane_at pc p = pc / p % 2 ^ 16

stub_mov-move_word :
    (opcode hw top pc : ℕ)
    → opcode ≡ top * 2 ^ 21
    → stub_mov opcode hw pc ≡ move_word top (lane_at pc (2 ^ (16 * hw))) 17
unfolding stub_mov
stub_mov-move_word opcode hw top pc e = rw (bit_and_low 16 (pc / 2 ^ (16 * hw)), e) refl

module _ (pc x : ℕ) (rest : List ℕ) where
  first_move :
      run_moves 17 (put_u32 (stub_mov 0xD2800000 0 pc) ++ rest) x ≡ run_moves 17 rest (pc % 2 ^ 16)
  first_move = rw (stub_mov-move_word 0xD2800000 0 0x694 pc refl) (
      run_moves-put_u32 17 _ x _ rest
        (move_word-IsU32 0x694 (lane_at pc 1) 17 (omega arith) (omega arith) (omega arith))
        (move_wide-movz 17 (lane_at pc 1) x (omega arith) (omega arith) ∙ ap some (omega arith)))

  module _ (hw y opcode : ℕ) (few : hw < 4) (top : opcode ≡ (0x794 + hw) * 2 ^ 21)
      (joined : with_lane x (2 ^ (16 * hw)) (lane_at pc (2 ^ (16 * hw))) ≡ y) where
    later_move : run_moves 17 (put_u32 (stub_mov opcode hw pc) ++ rest) x ≡ run_moves 17 rest y
    later_move =
        let lane = lane_at pc (2 ^ (16 * hw)) in
        rw (stub_mov-move_word opcode hw (0x794 + hw) pc top) (
          run_moves-put_u32 17 _ x y rest
            (move_word-IsU32 (0x794 + hw) lane 17 (omega arith) (omega arith) (omega arith))
            (move_wide-movk 17 lane x (omega arith) (omega arith) hw few ∙ ap some joined))

-- The moves of a stub from the last one back.
abbrev last_move : ℕ → List ℕ
last_move pc = put_u32 (stub_mov 0xF2E00000 3 pc) ++ []

abbrev last_moves : ℕ → List ℕ
last_moves pc = put_u32 (stub_mov 0xF2C00000 2 pc) ++ last_move pc

abbrev later_moves : ℕ → List ℕ
later_moves pc = put_u32 (stub_mov 0xF2A00000 1 pc) ++ last_moves pc

abbrev stub_moves : ℕ → List ℕ
stub_moves pc = put_u32 (stub_mov 0xD2800000 0 pc) ++ later_moves pc

-- A stub for a 64-bit guest address is a run of MOVZ and MOVK of x17 and a RET, and whatever x17
-- holds before the run, it holds the address after it.
pub emit_setpc_ret-run_moves :
    (pc x : ℕ)
    → IsU64 pc
    → (bs : List ℕ) × (emit_setpc_ret pc ≡ bs ++ put_u32 aarch64_ret)
      × (run_moves 17 bs x ≡ some pc)
unfolding emit_setpc_ret setpc_words put_words put_u32 run_moves
emit_setpc_ret-run_moves pc x fits = (
  stub_moves pc,
  refl,
  first_move pc x (later_moves pc)
      ∙ later_move pc (pc % 2 ^ 16) (last_moves pc) 1 (pc % 2 ^ 32) _ (omega arith) refl
          (omega arith)
      ∙ later_move pc (pc % 2 ^ 32) (last_move pc) 2 (pc % 2 ^ 48) _ (omega arith) refl
          (omega arith)
      ∙ later_move pc (pc % 2 ^ 48) [] 3 pc _ (omega arith) refl (omega arith),
)
