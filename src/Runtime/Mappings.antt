-- ===== src/Runtime/Mappings.antt =====
-- The mappings behind `oryx_exec_map`, `oryx_exec_map_linked`, `oryx_run` and `oryx_run_program` of src/liboryxrun/oryxrun.c:
-- every call of `mmap`, `munmap` and `oryx_exec_free`, and every entry into a mapping. What else they do is in `Linker` and
-- `Dispatcher`.
use oryx.Prelude.{
  ltb, leb, ◌==◌, if◌then◌else◌, length, ℕ, zero, suc, ◌+◌, bit_and, Bool, ◌||◌, not, Option, none,
  some, List,
}
use oryx.Errors.{Result, Run, format, inval, nomem, perm, steps, err, ok, returns, fault}
use oryx.Guest.{Insn, Policy, Strength}
use oryx.TransUnit.{Tu}
use oryx.Translator.Block.{translate_ex}
use oryx.Runtime.Linker.{
  Protection, Host, Exec, aarch64_ret, page_align, last_word, linked_code, granted, denied, failed,
}
use oryx.Runtime.BlockCache.{cache_slots, cache_find, cache_insert, taken, cache_flush}
use oryx.Runtime.Dispatcher.{
  halt_pc, max_block_ops, cache_cap, GuestState, Exit, step_limit, Session, session, entered,
  finished, unfinished, stopped,
}
use oryx.Runtime.Regions.{Region, Space, is_open, mmap, munmap, ◌>>!◌}

-- A filled `struct oryx_exec`, with the number of its mapping.
pub record Mapped : Type 0 where
  pub exec : Exec
  pub start : ℕ

abbrev pub region : Exec → ℕ → Region
region e start = record { start = start; map_len = e.map_len }

-- Fallible code that maps and unmaps.
abbrev pub Act : Type 0 → Type 0
Act A = Run (Result A × Space)

-- `if (mprotect(...) != 0) { munmap(m, map_len); return ...; }` and the rest.
unfoldable pub protect_at : Exec → ℕ → Protection → Space → Act Mapped
protect_at e start granted sp = returns (ok (record { exec = e; start = start }), sp)
protect_at e start denied sp = munmap (region e start) sp >>! λ sp'. returns (err perm, sp')
protect_at e start failed sp = munmap (region e start) sp >>! λ sp'. returns (err nomem, sp')

unfoldable pub map_at : Host → Space → List ℕ → Act Mapped
map_at host sp code =
    let map_len = page_align host (length code) in
    if not (host.can_map map_len)
    then returns (err nomem, sp)
    else protect_at (record { code = code; map_len = map_len; code_len = length code }) sp.made
        (host.protect map_len) (mmap map_len sp)

-- A result that needs no mapping, and the rest.
abbrev pub after {ℓ} : {A : Type ℓ} {B : Type 0} → Result A → Space → (A → Act B) → Act B
after (err e) sp rest = returns (err e, sp)
after (ok a) sp rest = rest a

unfoldable pub exec_map_at : Host → Tu → Space → Act Mapped
exec_map_at host tu sp =
    if length tu.code == 0
    then returns (err inval, sp)
    else (if not (length tu.relocs == 0)
        then returns (err inval, sp)
        else (if not (bit_and (length tu.code) 3 == 0)
            then returns (err format, sp)
            else (if not (last_word tu.code == aarch64_ret)
                then returns (err inval, sp)
                else map_at host sp tu.code)))

unfoldable pub exec_map_linked_at : Host → Tu → Space → Act Mapped
exec_map_linked_at host tu sp =
    if length tu.code == 0
    then returns (err inval, sp)
    else (if not (bit_and (length tu.code) 3 == 0)
        then returns (err format, sp)
        else after (linked_code tu.code tu.relocs tu.exits) sp (map_at host sp))

-- A call of the trampoline: the code has to be mapped.
unfoldable pub tramp_at {ℓ} : {A : Type ℓ} → Exec → ℕ → Space → A → Run A
tramp_at e start sp result =
    if is_open (region e start) sp.open_regions then returns result else fault

-- `oryx_exec_run` and `oryx_exec_free` of `oryx_run`.
unfoldable pub run_free :
    (Exec → GuestState → GuestState × ℕ) → GuestState → Result Mapped × Space → Act GuestState
run_free tramp guest (err e, sp) = returns (err e, sp)
run_free tramp guest (ok m, sp) = tramp_at m.exec m.start sp (tramp m.exec guest).0 >>! λ guest'.
    munmap (region m.exec m.start) sp >>! λ sp'. returns (ok guest', sp')

unfoldable pub run_at :
    Host → (Exec → GuestState → GuestState × ℕ) → Tu → GuestState → Space → Act GuestState
run_at host tramp tu guest sp = exec_map_at host tu sp >>! run_free tramp guest

-- The locals of `oryx_run_program`, with the number of the mapping in each slot.
pub record Owner : Type 0 where
  pub locals : Session
  pub starts : ℕ → ℕ
  pub space : Space

abbrev pub slot_region : Session → (ℕ → ℕ) → ℕ → Region
slot_region s starts i = region (s.execs i) (starts i)

-- The loop of `oryx_cache_flush`, with `n` slots left from slot `i` on.
unfoldable pub flush_loop : Session → (ℕ → ℕ) → ℕ → ℕ → Space → Run Space
flush_loop s starts zero i sp = returns sp
flush_loop s starts (suc n) i sp =
    (if (s.slots i).used then munmap (slot_region s starts i) sp else returns sp)
    >>! flush_loop s starts n (i + 1)

unfoldable pub flush_at : Owner → Run Space
flush_at o = flush_loop o.locals o.starts cache_slots 0 o.space

unfoldable pub make_room_at : Owner → Run Owner
make_room_at o =
    if leb cache_cap o.locals.live
    then (flush_at o >>! λ sp. returns (record o {
      locals = record o.locals { slots = cache_flush o.locals.slots; live = 0 };
      space = sp;
    }))
    else returns o

-- The slot of the new block; `oryx_exec_free(&e)` if there is none.
unfoldable pub placed_at : Owner → Mapped → Option ℕ → Run (Result Mapped × Owner)
placed_at o m none =
    munmap (region m.exec m.start) o.space >>! λ sp. returns (err nomem, record o { space = sp })
placed_at o m (some j) = returns (
  ok m,
  record o {
    locals = record o.locals {
      slots = taken o.locals.slots j o.locals.pc;
      execs = λ i. if i == j then m.exec else o.locals.execs i;
      live = o.locals.live + 1;
    };
    starts = λ i. if i == j then m.start else o.starts i;
  },
)

unfoldable pub kept_at : Owner → Result Mapped × Space → Run (Result Mapped × Owner)
kept_at o (err e, sp) = returns (err e, record o { space = sp })
kept_at o (ok m, sp) = make_room_at (record o { space = sp }) >>! λ o'.
    placed_at o' m (cache_insert o'.locals.slots o'.locals.pc)

module _ (fetch : GuestState → ℕ → Result (List Insn × ℕ)) (realloc : ℕ → ℕ → Bool)
    (host : ℕ → Host) (policy : Policy) (strength : Strength)
    (tramp : Exec → GuestState → GuestState × ℕ) where
  -- Fetch, translate and link the block at an address.
  unfoldable pub compile_at : Session → Space → Act Mapped
  compile_at s sp = after (fetch s.guest s.pc) sp (λ block.
      if length block.0 == 0 || ltb max_block_ops (length block.0)
      then returns (err format, sp)
      else after (translate_ex (realloc s.taken_steps) block.0 s.pc block.1 0 policy strength) sp
          (λ r. exec_map_linked_at (host s.taken_steps) r.0 sp))

  unfoldable pub found_at : Owner → Option ℕ → Run (Result Mapped × Owner)
  found_at o (some i) = returns (ok (record { exec = o.locals.execs i; start = o.starts i }), o)
  found_at o none = compile_at o.locals o.space >>! kept_at o

  unfoldable pub entered_at : Owner → Mapped → Run Owner
  entered_at o m =
      tramp_at m.exec m.start o.space
        (record o { locals = entered fetch realloc host policy strength tramp o.locals m.exec })

  -- What follows the lookup.
  unfoldable pub continue_at :
      (Owner → Run (Owner × Exit)) → Result Mapped × Owner → Run (Owner × Exit)
  continue_at rest (err e, o) = returns (o, stopped e)
  continue_at rest (ok m, o) = entered_at o m >>! rest

  -- The loop on `n` units of fuel, and how it ends.
  unfoldable pub run_loop_at : ℕ → ℕ → Owner → Run (Owner × Exit)
  run_loop_at max_steps zero o = returns (o, unfinished)
  run_loop_at max_steps (suc n) o =
      let rest : Run (Owner × Exit) =
        (found_at o (cache_find o.locals.slots o.locals.pc)
          >>! continue_at (run_loop_at max_steps n)) in
      if o.locals.pc == halt_pc
      then returns (o, finished)
      else (if leb max_steps o.locals.taken_steps then returns (o, stopped steps) else rest)

  -- The flush behind the loop.
  unfoldable pub freed : Owner × Exit → Run ((Session × Exit) × Space)
  freed (o, rc) = flush_at o >>! λ sp. returns ((o.locals, rc), sp)

  unfoldable pub run_program_at : Bool → ℕ → GuestState → ℕ → Space → Run ((Session × Exit) × Space)
  run_program_at calloc entry_pc guest max_steps sp =
      if calloc
      then (run_loop_at (step_limit max_steps) (suc (step_limit max_steps))
            (record { locals = session entry_pc guest; starts = λ i. 0; space = sp })
          >>! freed)
      else returns ((session entry_pc guest, stopped nomem), sp)
