-- ===== src/Runtime/Dispatcher.antt =====
-- `oryx_run_program` of src/liboryxrun/oryxrun.c. The guest's fetch and the trampoline, which runs a block on the registers
-- and returns the next guest address, are parameters.
use oryx.Prelude.{
  ℕ, zero, suc, ◌+◌, Bool, false, ◌||◌, Option, none, some, List, [], length, ltb, leb, ◌==◌,
  if◌then◌else◌,
}
use oryx.Errors.{Error, Result, ok, err, format, nomem, steps, ◌>>=◌}
use oryx.Guest.{Insn, Policy, Strength}
use oryx.Translator.Block.{translate_ex}
use oryx.TransUnit.{Tu}
use oryx.Runtime.Linker.{Host, Exec, exec_map, exec_map_linked}
use oryx.Runtime.BlockCache.{Table, cache_find, cache_insert, taken, cache_flush}

abbrev pub halt_pc : ℕ
halt_pc = 0xffffffffffffffff

abbrev pub max_block_ops : ℕ
max_block_ops = 64

abbrev pub cache_cap : ℕ
cache_cap = 12288

-- The guest that a run changes: its registers, and its memory, from which the fetch reads the code.
pub record GuestState : Type 0 where
  pub regs : List ℕ
  pub memory : ℕ → ℕ

-- How a run ends: at the halt address, or with an error; `unfinished` where the model's fuel ran out.
pub data Exit : Type 0 where
  finished unfinished : Exit
  stopped : Error → Exit

abbrev pub step_limit : ℕ → ℕ
step_limit max_steps = if max_steps == 0 then 10000000 else max_steps

-- The locals of `oryx_run_program` with the guest; `execs` has the region of each used slot.
pub record Session : Type 0 where
  pub slots : Table
  pub execs : ℕ → Exec
  pub live : ℕ
  pub pc : ℕ
  pub taken_steps : ℕ
  pub guest : GuestState

-- `if (live >= ORYX_CACHE_CAP)`
unfoldable pub make_room : Session → Session
make_room s = if leb cache_cap s.live then record s { slots = cache_flush s.slots; live = 0 } else s

unfoldable pub placed : Session → Exec → Option ℕ → Result (Session × Exec)
placed s e none = err nomem
placed s e (some j) = ok (
  record s {
    slots = taken s.slots j s.pc;
    execs = λ i. if i == j then e else s.execs i;
    live = s.live + 1;
  },
  e,
)

-- The session at the start.
abbrev pub session : ℕ → GuestState → Session
session entry_pc guest = record {
  slots = λ i. record { pc = 0; used = false };
  execs = λ i. record { code = []; map_len = 0; code_len = 0 };
  live = 0;
  pc = entry_pc;
  taken_steps = 0;
  guest = guest;
}

module _ (fetch : GuestState → ℕ → Result (List Insn × ℕ)) (realloc : ℕ → ℕ → Bool)
    (host : ℕ → Host) (policy : Policy) (strength : Strength)
    (tramp : Exec → GuestState → GuestState × ℕ) where
  -- Fetch, translate, link and cache the block at the current address.
  unfoldable pub load_block : Session → Result (Session × Exec)
  load_block s = fetch s.guest s.pc >>= λ block.
      if length block.0 == 0 || ltb max_block_ops (length block.0)
      then err format
      else (translate_ex (realloc s.taken_steps) block.0 s.pc block.1 0 policy strength >>= λ r.
          exec_map_linked (host s.taken_steps) r.0 >>= λ e.
          placed (make_room s) e (cache_insert (make_room s).slots s.pc))

  unfoldable pub found : Session → Option ℕ → Result (Session × Exec)
  found s (some i) = ok (s, s.execs i)
  found s none = load_block s

  unfoldable pub entered : Session → Exec → Session
  entered s e =
      let r = tramp e s.guest in record s { guest = r.0; pc = r.1; taken_steps = s.taken_steps + 1 }

  -- The loop on `n` units of fuel, and how it ends.
  unfoldable pub run_loop : ℕ → ℕ → Session → Session × Exit
  run_loop max_steps zero s = (s, unfinished)
  run_loop max_steps (suc n) s =
      let rest : Session × Exit = elim (found s (cache_find s.slots s.pc)) [
        | err e ↦ (s, stopped e)
        | ok (s', e) ↦ run_loop max_steps n (entered s' e)
      ] in
      if s.pc == halt_pc
      then (s, finished)
      else (if leb max_steps s.taken_steps then (s, stopped steps) else rest)

  -- `calloc` says whether the table can be had. Each round takes a step, and one more ends the run.
  unfoldable pub run_program : Bool → ℕ → GuestState → ℕ → Session × Exit
  run_program calloc entry_pc guest max_steps =
      if calloc
      then run_loop (step_limit max_steps) (suc (step_limit max_steps)) (session entry_pc guest)
      else (session entry_pc guest, stopped nomem)

-- `oryx_run`: one straight-line block, whose next address is ignored.
unfoldable pub run_block :
    Host → (Exec → GuestState → GuestState × ℕ) → Tu → GuestState → Result GuestState
run_block host tramp tu guest = exec_map host tu >>= λ e. ok (tramp e guest).0
