-- ===== src/Runtime/Refinement.antt =====
-- The dispatcher of src/liboryxrun/oryxrun.c with its block cache does what it would do if it translated
-- each block anew: `run_direct` is that dispatcher.
use oryx.Prelude.{
  ltb, leb, ◌==◌, if◌then◌else◌, Bool-cases, length, ℕ, zero, suc, ◌+◌, ◌≤◌, ◌<◌, ◌≡◌, subst, refl,
  sym, ap, ap₂, ◌∙◌, inl, inr, Bool, true, false, ◌||◌, Option, none, some, List, arith,
}
use oryx.Errors.{Result, ◌>>=◌, format, steps, err, ok}
use oryx.Guest.{Insn, Policy, Strength}
use oryx.Translator.Block.{translate_ex}
use oryx.Runtime.Linker.{Host, Exec, exec_map_linked}
use oryx.Runtime.BlockCache.{cache_slots, cache_find, cache_insert, taken, cache_flush}
use oryx.Runtime.Dispatcher.{
  halt_pc, max_block_ops, cache_cap, GuestState, Exit, step_limit, Session, make_room, placed,
  session, load_block, found, entered, run_loop, run_program, finished, unfinished, stopped,
}
use oryx.Runtime.Occupancy.{
  used_below, none_used, used_below-cache_flush, used_below-taken, cache_insert-total,
  cache_find-hit,
}

-- What a run shows of itself: the next address, the guest and the steps made.
pub record View : Type 0 where
  pub pc : ℕ
  pub guest : GuestState
  pub taken_steps : ℕ

abbrev pub view : Session → View
view s = record { pc = s.pc; guest = s.guest; taken_steps = s.taken_steps }

module _ (fetch : GuestState → ℕ → Result (List Insn × ℕ)) (realloc : ℕ → ℕ → Bool)
    (host : ℕ → Host) (policy : Policy) (strength : Strength)
    (tramp : Exec → GuestState → GuestState × ℕ) where
  -- Fetch, translate and link the block at the current address.
  unfoldable pub compile : View → Result Exec
  compile v = fetch v.guest v.pc >>= λ block.
      if length block.0 == 0 || ltb max_block_ops (length block.0)
      then err format
      else (translate_ex (realloc v.taken_steps) block.0 v.pc block.1 0 policy strength >>= λ r.
          exec_map_linked (host v.taken_steps) r.0)

  unfoldable pub enter : View → Exec → View
  enter v e =
      let r = tramp e v.guest in record { pc = r.1; guest = r.0; taken_steps = v.taken_steps + 1 }

  -- The loop without a cache.
  unfoldable pub run_direct : ℕ → ℕ → View → View × Exit
  run_direct max_steps zero v = (v, unfinished)
  run_direct max_steps (suc n) v =
      let rest : View × Exit = elim (compile v) [
        | err e ↦ (v, stopped e)
        | ok e ↦ run_direct max_steps n (enter v e)
      ] in
      if v.pc == halt_pc
      then (v, finished)
      else (if leb max_steps v.taken_steps then (v, stopped steps) else rest)

  -- What the cache relies on: a block that runs does not change the code that the fetch gives at any address, and the
  -- system grants memory and mappings at one time as at another.
  pub record IsSteady : Type 0 where
    pub code_kept :
        (e : Exec) (guest : GuestState) (pc : ℕ) → fetch (tramp e guest).0 pc ≡ fetch guest pc
    pub allocations_kept : (n : ℕ) → realloc n ≡ realloc 0
    pub mappings_kept : (n : ℕ) → host n ≡ host 0

  abbrev compile_from : View → ℕ → Result Exec
  compile_from v pc = compile (record v { pc = pc })

  compile-enter :
      IsSteady → (v : View) (e : Exec) (pc : ℕ) → compile_from (enter v e) pc ≡ compile_from v pc
  unfolding compile enter
  compile-enter steady v e pc =
      rw
        (
          steady.code_kept e v.guest pc,
          steady.allocations_kept (v.taken_steps + 1),
          steady.allocations_kept v.taken_steps,
          steady.mappings_kept (v.taken_steps + 1),
          steady.mappings_kept v.taken_steps,
        )
        refl

  -- Each used slot has the region of the block at its address, and `live` counts the used slots.
  pub record IsCoherent (s : Session) : Type 0 where
    pub cached :
        (j : ℕ) → (s.slots j).used ≡ true → compile_from (view s) (s.slots j).pc ≡ ok (s.execs j)
    pub counted : used_below cache_slots s.slots ≤ s.live
    pub live : s.live ≤ cache_cap

  guarded {ℓ κ} :
      {A : Type ℓ} {B : Type κ} (bad : Bool) (m : Result A) (f : A → Result Exec)
      (k : Exec → Result B)
      → (if bad then err format else (m >>= λ a. f a >>= k))
        ≡ ((if bad then err format else (m >>= f)) >>= k)
  guarded true m f k = refl
  guarded false (err e) f k = refl
  guarded false (ok a) f k = refl

  bind_then {ℓ κ} :
      {A : Type ℓ} {B : Type κ} (m : Result A) (f : A → Result Exec) (k : Exec → Result B)
      (g : A → Result B)
      → ((a : A) → g a ≡ (f a >>= k))
      → (m >>= g) ≡ (m >>= f >>= k)
  bind_then (err e) f k g h = refl
  bind_then (ok a) f k g h = h a

  pub load_block-compile :
      (s : Session)
      → load_block fetch realloc host policy strength tramp s
        ≡ (compile (view s) >>= λ e. placed (make_room s) e (cache_insert (make_room s).slots s.pc))
  unfolding load_block compile
  load_block-compile s = bind_then (fetch s.guest s.pc) _ _ _ (λ block.
      guarded (length block.0 == 0 || ltb max_block_ops (length block.0))
        (translate_ex (realloc s.taken_steps) block.0 s.pc block.1 0 policy strength)
        (λ r. exec_map_linked (host s.taken_steps) r.0) _)

  make_room-IsCoherent :
      (s : Session)
      → IsCoherent s
      → IsCoherent (make_room s) × ((make_room s).live < cache_cap) × (view (make_room s) ≡ view s)
  unfolding make_room
  make_room-IsCoherent s h = elim (Bool-cases (leb cache_cap s.live)) [
    | inl full ↦ rw full (
      record {
        cached = unfold cache_flush in λ j used. cc;
        counted = omega (arith, used_below-cache_flush cache_slots s.slots);
        live = omega arith;
      },
      omega arith,
      refl,
    )
    | inr room ↦ rw room (h, ground arith, refl)
  ]

  module _ (s : Session) (h : IsCoherent s) (room : s.live < cache_cap) (e : Exec)
      (compiled : compile (view s) ≡ ok e) (j : ℕ) where
    -- The session with the block in slot `j`.
    abbrev filled : Session
    filled = record s {
      slots = taken s.slots j s.pc;
      execs = λ i. if i == j then e else s.execs i;
      live = s.live + 1;
    }

    filled-cached :
        (k : ℕ)
        → (filled.slots k).used ≡ true
        → compile_from (view filled) (filled.slots k).pc ≡ ok (filled.execs k)
    unfolding taken
    filled-cached k used = elim (Bool-cases (k == j)) [
      | inl same ↦ rw same compiled
      | inr apart ↦ rw apart (h.cached k (rw apart at used))
    ]

    filled-IsCoherent : IsCoherent filled
    filled-IsCoherent = record {
      cached = filled-cached;
      counted = omega (arith, used_below-taken cache_slots j s.pc s.slots, h.counted);
      live = omega arith;
    }

  -- What the lookup at the current address gives, by what compiling it gives.
  abbrev Serves : Session → Result Exec → Result (Session × Exec) → Type 0
  Serves s (err e) (err d) = d ≡ e
  Serves s (ok x) (ok (s', y)) = (y ≡ x) × IsCoherent s' × (view s' ≡ view s)
  Serves s (ok x) (err d) = ⊥
  Serves s (err e) (ok r) = ⊥

  placed-Serves :
      (s d : Session) (e : Exec)
      → compile (view s) ≡ ok e
      → IsCoherent d
      → d.live < cache_cap
      → view d ≡ view s
      → Serves s (ok e) (placed d e (cache_insert d.slots s.pc))
  unfolding placed
  placed-Serves s d e compiled h room same =
      let at : d.pc ≡ s.pc = ap (λ (v : View). v.pc) same in
      let (j, taken_slot) = cache_insert-total d.slots s.pc (omega (arith, h.counted)) in
      rw taken_slot (
        refl,
        filled-IsCoherent d h room e (subst (λ v. compile v ≡ ok e) (sym same) compiled) j,
        same,
      )

  load_block-Serves :
      (s : Session) (c : Result Exec)
      → compile (view s) ≡ c
      → IsCoherent s
      → Serves s c (c >>= λ e. placed (make_room s) e (cache_insert (make_room s).slots s.pc))
  load_block-Serves s (err e) compiled h = refl
  load_block-Serves s (ok e) compiled h =
      let (coherent, room, same) = make_room-IsCoherent s h in
      placed-Serves s (make_room s) e compiled coherent room same

  found-Serves :
      (s : Session) (o : Option ℕ)
      → ((j : ℕ) → o ≡ some j → ((s.slots j).used ≡ true) × ((s.slots j).pc ≡ s.pc))
      → IsCoherent s
      → Serves s (compile (view s)) (found fetch realloc host policy strength tramp s o)
  unfolding found
  found-Serves s none hit h =
      rw (load_block-compile s) (load_block-Serves s (compile (view s)) refl h)
  found-Serves s (some j) hit h =
      let (used, at) = hit j refl in
      let compiled : compile (view s) ≡ ok (s.execs j) =
        ap (compile_from (view s)) (sym at) ∙ h.cached j used in
      rw compiled (refl, h, refl)

  entered-IsCoherent :
      IsSteady
      → (s : Session) (e : Exec) → IsCoherent s
      → IsCoherent (entered fetch realloc host policy strength tramp s e)
  unfolding entered enter
  entered-IsCoherent steady s e h = record {
    cached = λ j used. compile-enter steady (view s) e (s.slots j).pc ∙ h.cached j used;
    counted = h.counted;
    live = h.live;
  }

  entered-enter :
      (s s' : Session) (x y : Exec)
      → view s' ≡ view s
      → y ≡ x
      → view (entered fetch realloc host policy strength tramp s' y) ≡ enter (view s) x
  unfolding entered enter
  entered-enter s s' x y still same = ap₂ enter still same

  abbrev pub Agrees : Session × Exit → View × Exit → Type 0
  Agrees a b = (view a.0 ≡ b.0) × (a.1 ≡ b.1)

  module _ (steady : IsSteady) (max_steps n : ℕ) (s : Session)
      (ih : (d : Session)
        → IsCoherent d
        → Agrees
            (run_loop fetch realloc host policy strength tramp max_steps n d)
            (run_direct max_steps n (view d))) where
    continues :
        (c : Result Exec) (r : Result (Session × Exec))
        → Serves s c r
        → Agrees
            (elim r [
              | err e ↦ (s, stopped e)
              | ok (s', e) ↦
                  run_loop fetch realloc host policy strength tramp max_steps n
                    (entered fetch realloc host policy strength tramp s' e)
            ])
            (elim c [
              | err e ↦ (view s, stopped e)
              | ok e ↦ run_direct max_steps n (enter (view s) e)
            ])
    continues (err e) (err d) h = (refl, ap stopped h)
    continues (ok x) (err d) h = absurd h
    continues (err e) (ok r) h = absurd h
    continues (ok x) (ok (s', y)) (same, h, still) =
        let after = entered fetch realloc host policy strength tramp s' y in
        subst
          (λ v.
            Agrees (run_loop fetch realloc host policy strength tramp max_steps n after)
              (run_direct max_steps n v))
          (entered-enter s s' x y still same) (ih after (entered-IsCoherent steady s' y h))

  run_loop-Agrees :
      (max_steps n : ℕ) (s : Session)
      → IsSteady
      → IsCoherent s
      → Agrees
          (run_loop fetch realloc host policy strength tramp max_steps n s)
          (run_direct max_steps n (view s))
  unfolding run_loop run_direct
  run_loop-Agrees max_steps zero s steady h = (refl, refl)
  run_loop-Agrees max_steps (suc n) s steady h = elim (Bool-cases (s.pc == halt_pc)) [
    | inl halted ↦ simp halted (refl, refl)
    | inr going ↦ elim (Bool-cases (leb max_steps s.taken_steps)) [
      | inl spent ↦ simp (going, spent) (refl, refl)
      | inr left ↦
          simp (going, left)
            (continues steady max_steps n s (λ d. run_loop-Agrees max_steps n d steady)
              (compile (view s))
              (found fetch realloc host policy strength tramp s (cache_find s.slots s.pc))
              (found-Serves s (cache_find s.slots s.pc) (cache_find-hit s.slots s.pc) h))
    ]
  ]

  session-IsCoherent : (entry_pc : ℕ) (guest : GuestState) → IsCoherent (session entry_pc guest)
  session-IsCoherent entry_pc guest = record {
    cached = λ j used. cc;
    counted = omega (arith, none_used cache_slots);
    live = omega arith;
  }

  -- The block cache does not show: if its table can be had, running a block changes no code that the fetch gives, and
  -- memory and mappings are granted at one time as at another, a program run through it takes the same steps to the same
  -- guest, address and end as one whose blocks are all compiled anew.
  pub run_program-run_direct :
      IsSteady
      → (entry_pc : ℕ) (guest : GuestState) (max_steps : ℕ)
      → Agrees
          (run_program fetch realloc host policy strength tramp true entry_pc guest max_steps)
          (run_direct
            (step_limit max_steps)
            (suc (step_limit max_steps))
            (record { pc = entry_pc; guest = guest; taken_steps = 0 }))
  unfolding run_program
  run_program-run_direct steady entry_pc guest max_steps =
      run_loop-Agrees (step_limit max_steps) (suc (step_limit max_steps)) (session entry_pc guest)
        steady (session-IsCoherent entry_pc guest)
