-- ===== src/Runtime/Stepping.antt =====
-- The dispatcher of src/liboryxrun/oryxrun.c counts its steps, keeps to its limit and stops at the halt address only.
use oryx.Prelude.{
  ltb, leb, ◌==◌, ==_iff, Bool-cases, length, ℕ, zero, suc, ◌+◌, ◌≤◌, ◌<◌, ◌≡◌, refl, ◌≢◌, inl, inr,
  Bool, true, false, ◌||◌, Option, none, some, List, arith,
}
use oryx.Errors.{Result, Ensures, Ensures-guard, Ensures-any, format, err, ok}
use oryx.Guest.{Insn, Policy, Strength}
use oryx.Translator.Block.{translate_ex}
use oryx.Runtime.Linker.{Host, Exec, exec_map_linked}
use oryx.Runtime.BlockCache.{cache_find}
use oryx.Runtime.Dispatcher.{
  halt_pc, max_block_ops, GuestState, Exit, step_limit, Session, make_room, placed, session,
  load_block, found, entered, run_loop, run_program, finished, unfinished, stopped,
}

abbrev SameSteps : Session → Session × Exec → Type 0
SameSteps s r = r.0.taken_steps ≡ s.taken_steps

make_room-SameSteps : (s : Session) → (make_room s).taken_steps ≡ s.taken_steps
unfolding make_room
make_room-SameSteps s = ground arith

placed-SameSteps :
    (s d : Session) (e : Exec) (o : Option ℕ)
    → d.taken_steps ≡ s.taken_steps
    → Ensures (placed d e o) (SameSteps s)
unfolding placed
placed-SameSteps s d e none h = tt
placed-SameSteps s d e (some j) h = h

-- Within the limit, not for want of fuel, and at the halt address if all is well.
abbrev pub Ends : ℕ → Session × Exit → Type 0
Ends limit r = (r.0.taken_steps ≤ limit) × (r.1 ≢ unfinished) × (r.1 ≡ finished → r.0.pc ≡ halt_pc)

module _ (fetch : GuestState → ℕ → Result (List Insn × ℕ)) (realloc : ℕ → ℕ → Bool)
    (host : ℕ → Host) (policy : Policy) (strength : Strength)
    (tramp : Exec → GuestState → GuestState × ℕ) where
  load_block-SameSteps :
      (s : Session) → Ensures (load_block fetch realloc host policy strength tramp s) (SameSteps s)
  unfolding load_block
  load_block-SameSteps s = Ensures-any (SameSteps s) (fetch s.guest s.pc) _ (λ block.
      Ensures-guard (SameSteps s) (length block.0 == 0 || ltb max_block_ops (length block.0)) format
        _
        (λ sized.
          Ensures-any (SameSteps s)
            (translate_ex (realloc s.taken_steps) block.0 s.pc block.1 0 policy strength) _
            (λ r.
              Ensures-any (SameSteps s) (exec_map_linked (host s.taken_steps) r.0) _
                (λ e. placed-SameSteps s (make_room s) e _ (make_room-SameSteps s)))))

  found-SameSteps :
      (s : Session) (o : Option ℕ)
      → Ensures (found fetch realloc host policy strength tramp s o) (SameSteps s)
  unfolding found
  found-SameSteps s (some i) = refl
  found-SameSteps s none = load_block-SameSteps s

  -- The fuel that the steps left need is there.
  run_loop-Ends :
      (limit n : ℕ) (s : Session)
      → s.taken_steps ≤ limit
      → limit < s.taken_steps + n
      → Ends limit (run_loop fetch realloc host policy strength tramp limit n s)
  unfolding run_loop
  run_loop-Ends limit zero s within fuel = absurd (omega arith)
  run_loop-Ends limit (suc n) s within fuel = elim (Bool-cases (s.pc == halt_pc)) [
    | inl halted ↦ simp halted (within, λ e. cc, λ h. (==_iff _ _).0 halted)
    | inr going ↦ elim (Bool-cases (leb limit s.taken_steps)) [
      | inl spent ↦ simp (going, spent) (within, λ e. cc, λ h. cc)
      | inr left ↦
          simp (going, left)
            (elim (found fetch realloc host policy strength tramp s (cache_find s.slots s.pc))
                as (λ r.
                  Ensures r (SameSteps s)
                  → Ends limit (elim r [
                    | err e ↦ (s, stopped e)
                    | ok (s', e) ↦
                        run_loop fetch realloc host policy strength tramp limit n
                          (entered fetch realloc host policy strength tramp s' e)
                  ])) [
                    | err e ↦ λ h. (within, λ q. cc, λ q. cc)
                    | ok (s', e) ↦ λ h.
                        let after = entered fetch realloc host policy strength tramp s' e in
                        let counted : after.taken_steps ≡ s.taken_steps + 1 =
                          unfold entered in (omega (arith, h)) in
                        run_loop-Ends limit n after (ground (arith, counted, left))
                          (omega (arith, counted))
                  ]
              (found-SameSteps s _))
    ]
  ]

  -- Every program ends: the loop on one unit of fuel more than its limit does not run out of it. The limit, ten million if
  -- `max_steps` is 0, is never passed, and a run without an error ended at the halt address.
  pub run_program-Ends :
      (calloc : Bool) (entry_pc : ℕ) (guest : GuestState) (max_steps : ℕ)
      → Ends
          (step_limit max_steps)
          (run_program fetch realloc host policy strength tramp calloc entry_pc guest max_steps)
  unfolding run_program
  run_program-Ends true entry_pc guest max_steps =
      run_loop-Ends (step_limit max_steps) (suc (step_limit max_steps)) (session entry_pc guest)
        (omega arith) (omega arith)
  run_program-Ends false entry_pc guest max_steps = (omega arith, λ e. cc, λ h. cc)
