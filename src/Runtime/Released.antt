-- ===== src/Runtime/Released.antt =====
-- `oryx_run_program` of src/liboryxrun/oryxrun.c unmaps all that it has mapped, and enters mapped code only.
use oryx.Prelude.{
  leb, ◌==◌, Bool-cases, Option-cases, length, ℕ, zero, suc, ◌+◌, ◌≤◌, ◌<◌, ◌≡◌, subst, refl, sym,
  ap, ◌∙◌, inl, inr, Bool, true, false, Option, none, some, List, [], arith,
}
use oryx.Errors.{Result, ◌>>=◌, Run, err, ok, returns}
use oryx.Guest.{Insn, Policy, Strength}
use oryx.Runtime.Linker.{Host, Exec}
use oryx.Runtime.BlockCache.{cache_slots, cache_find, cache_insert, cache_flush}
use oryx.Runtime.Dispatcher.{
  halt_pc, cache_cap, GuestState, Exit, step_limit, Session, make_room, placed, session, found,
  entered, run_loop, run_program, stopped,
}
use oryx.Runtime.Occupancy.{cache_find-hit}
use oryx.Runtime.Refinement.{View, view, compile, load_block-compile}
use oryx.Runtime.Regions.{
  Region, Space, is_open, ◌>>!◌, one, count, count-is_open, munmap-open, one_refl, none_open,
  one_open,
}
use oryx.Runtime.Mappings.{
  Mapped, region, Act, tramp_at, Owner, slot_region, flush_at, make_room_at, placed_at, kept_at,
  found_at, entered_at, continue_at, run_loop_at, freed, run_program_at,
}
use oryx.Runtime.Owned.{
  held, flush_loop-Holds, held-used, with_slot, with_start, held-with_slot, held-frame, held-none,
  cache_find-slot, cache_insert-slot,
}
use oryx.Runtime.Unmapped.{Maps, compile_at-Maps}

-- The slots own the open regions, and there are not too many.
pub record IsOwner (o : Owner) : Type 0 where
  pub owned : (q : Region) → count q o.space.open_regions ≡ held q o.locals o.starts cache_slots 0
  pub few : length o.space.open_regions ≤ o.locals.live
  pub live : o.locals.live ≤ cache_cap
  pub peak : o.space.peak ≤ cache_cap + 1

-- `m` is open and in no slot, and there is room for it.
record IsFresh (o : Owner) (m : Mapped) : Type 0 where
  owned :
      (q : Region)
      → count q o.space.open_regions
        ≡ one q (region m.exec m.start) + held q o.locals o.starts cache_slots 0
  few : length o.space.open_regions ≤ o.locals.live + 1
  live : o.locals.live < cache_cap
  peak : o.space.peak ≤ cache_cap + 1

-- What a step does where the model without mappings gives `r`.
abbrev Follows : Session → Result (Session × Exec) → Run (Result Mapped × Owner) → Type 0
Follows s (ok (s', e)) act =
    (o : Owner) × (start : ℕ) × (act ≡ returns (ok (record { exec = e; start = start }), o))
    × IsOwner o
    × (o.locals ≡ s')
    × (is_open (region e start) o.space.open_regions ≡ true)
Follows s (err c) act =
    (o : Owner) × (act ≡ returns (err c, o)) × IsOwner o × (view o.locals ≡ view s)

-- A run without a fault, with what the model without mappings shows, that leaves no mapping and never had more than the
-- limit of the cache and one.
abbrev pub Releases : Session × Exit → Run ((Session × Exit) × Space) → Type 0
Releases r act =
    (s : Session) × (sp : Space) × (act ≡ returns ((s, r.1), sp))
    × (view s ≡ view r.0)
    × (sp.open_regions ≡ [])
    × (sp.peak ≤ cache_cap + 1)

flushed_one :
    (o : Owner) (m : Mapped)
    → ((q : Region)
        → count q o.space.open_regions
          ≡ one q (region m.exec m.start) + held q o.locals o.starts cache_slots 0)
    → o.space.peak ≤ cache_cap + 1
    → (sp : Space) × (flush_at o ≡ returns sp)
      × IsFresh
          (record o {
            locals = record o.locals { slots = cache_flush o.locals.slots; live = 0 };
            space = sp;
          })
          m
unfolding flush_at
flushed_one o m owned peak =
    let (sp, flushed, left, same) =
      flush_loop-Holds (λ q. one q (region m.exec m.start)) o.locals o.starts cache_slots 0 o.space
        owned in
    let cleared = record o.locals { slots = cache_flush o.locals.slots; live = 0 } in
    (
      sp,
      flushed,
      record {
        owned = λ q. omega (
          arith,
          left q,
          held-none q cleared o.starts cache_slots 0 (λ j. unfold cache_flush in refl),
        );
        few = omega (arith, one_open (region m.exec m.start) sp.open_regions left);
        live = omega arith;
        peak = omega (arith, same);
      },
    )

make_room_at-IsFresh :
    (o : Owner) (m : Mapped)
    → ((q : Region)
        → count q o.space.open_regions
          ≡ one q (region m.exec m.start) + held q o.locals o.starts cache_slots 0)
    → length o.space.open_regions ≤ o.locals.live + 1
    → o.space.peak ≤ cache_cap + 1
    → (o' : Owner) × (make_room_at o ≡ returns o') × IsFresh o' m × (o'.locals ≡ make_room o.locals)
unfolding make_room_at make_room
make_room_at-IsFresh o m owned few peak = elim (Bool-cases (leb cache_cap o.locals.live)) [
  | inl full ↦
      let (sp, flushed, fresh) = flushed_one o m owned peak in
      (
        record o {
          locals = record o.locals { slots = cache_flush o.locals.slots; live = 0 };
          space = sp;
        },
        rw (full, flushed) refl,
        fresh,
        rw full refl,
      )
  | inr room ↦ (
    o,
    rw room refl,
    record { owned = owned; few = few; live = ground arith; peak = peak },
    rw room refl,
  )
]

make_room-view : (s : Session) → view (make_room s) ≡ view s
unfolding make_room
make_room-view s = elim (Bool-cases (leb cache_cap s.live)) [
  | inl full ↦ rw full refl
  | inr room ↦ rw room refl
]

-- The block goes into a slot, or is unmapped.
placed_at-Follows :
    (s : Session) (o : Owner) (m : Mapped)
    → IsFresh o m
    → view o.locals ≡ view s
    → Follows s
        (placed o.locals m.exec (cache_insert o.locals.slots o.locals.pc))
        (placed_at o m (cache_insert o.locals.slots o.locals.pc))
unfolding placed placed_at
placed_at-Follows s o m fresh same = elim (Option-cases (cache_insert o.locals.slots o.locals.pc)) [
  | inl full ↦
      let r = region m.exec m.start in
      let (sp, unmapped, left, fewer, peak) =
        munmap-open r o.space (omega (arith, fresh.owned r, one_refl r)) in
      rw full (
        record o { space = sp },
        rw unmapped refl,
        record {
          owned = λ q. omega (arith, left q, fresh.owned q);
          few = omega (arith, fewer, fresh.few);
          live = omega (arith, fresh.live);
          peak = omega (arith, peak, fresh.peak);
        },
        same,
      )
  | inr (j, slot) ↦
      let (small, free) = cache_insert-slot o.locals.slots o.locals.pc j slot in
      let r = region m.exec m.start in
      rw slot (
        record o { locals = with_slot o.locals m j; starts = with_start o.starts m j },
        m.start,
        refl,
        record {
          owned = λ q. omega (
            arith,
            fresh.owned q,
            held-with_slot q o.locals o.starts m j cache_slots 0 (omega arith) (omega arith) free,
          );
          few = omega (arith, fresh.few);
          live = omega (arith, fresh.live);
          peak = fresh.peak;
        },
        refl,
        count-is_open r o.space.open_regions (omega (arith, fresh.owned r, one_refl r)),
      )
]

module _ (fetch : GuestState → ℕ → Result (List Insn × ℕ)) (realloc : ℕ → ℕ → Bool)
    (host : ℕ → Host) (policy : Policy) (strength : Strength)
    (tramp : Exec → GuestState → GuestState × ℕ) where
  kept_at-Follows :
      (o : Owner) (c : Result Exec) (act : Act Mapped)
      → IsOwner o
      → Maps o.space c act
      → Follows o.locals
          (c >>= λ e.
            placed (make_room o.locals) e (cache_insert (make_room o.locals).slots o.locals.pc))
          (act >>! kept_at o)
  unfolding kept_at
  kept_at-Follows o (err c) act h (sp, did, same) = (
    record o { space = sp },
    rw did refl,
    record {
      owned = λ q. ap (count q) same.0 ∙ h.owned q;
      few = omega (arith, ap length same.0, h.few);
      live = h.live;
      peak = omega (arith, same.1, h.few, h.live, h.peak);
    },
    refl,
  )
  kept_at-Follows o (ok e) act h (sp, did, opened) =
      let m : Mapped = record { exec = e; start = o.space.made } in
      let (o', room, fresh, roomy) =
        make_room_at-IsFresh (record o { space = sp }) m
          (λ q. ap (count q) opened.0 ∙ (unfold count in omega (arith, h.owned q)))
          (omega (arith, ap length opened.0, h.few))
          (omega (arith, opened.1, h.few, h.live, h.peak)) in
      let make = λ (d : Session). placed d e (cache_insert d.slots d.pc) in
      let modelled =
        ap make roomy
        ∙ ap (λ (p : ℕ). placed (make_room o.locals) e (cache_insert (make_room o.locals).slots p))
            (ap (λ (v : View). v.pc) (make_room-view o.locals)) in
      subst (λ r. Follows o.locals r (act >>! kept_at o)) modelled
        (rw (did, room)
          (placed_at-Follows o.locals o' m fresh (ap view roomy ∙ make_room-view o.locals)))

  found_at-Follows :
      (o : Owner) (slot : Option ℕ)
      → ((j : ℕ) → slot ≡ some j → (j < cache_slots) × ((o.locals.slots j).used ≡ true))
      → IsOwner o
      → Follows o.locals
          (found fetch realloc host policy strength tramp o.locals slot)
          (found_at fetch realloc host policy strength tramp o slot)
  unfolding found found_at
  found_at-Follows o (some j) hit h =
      let (small, used) = hit j refl in
      let r = slot_region o.locals o.starts j in
      (
        o,
        o.starts j,
        refl,
        h,
        refl,
        count-is_open r o.space.open_regions (
            omega (
              arith,
              h.owned r,
              held-used o.locals o.starts cache_slots 0 j (omega arith) (omega arith) used,
            )),
      )
  found_at-Follows o none hit h =
      rw (load_block-compile fetch realloc host policy strength tramp o.locals) (
        kept_at-Follows o (compile fetch realloc host policy strength tramp (view o.locals)) _ h
          (compile_at-Maps fetch realloc host policy strength tramp o.locals o.space))

  entered_at-IsOwner :
      (o : Owner) (m : Mapped)
      → IsOwner o
      → is_open (region m.exec m.start) o.space.open_regions ≡ true
      → (o' : Owner) × (entered_at fetch realloc host policy strength tramp o m ≡ returns o')
        × IsOwner o'
        × (o'.locals ≡ entered fetch realloc host policy strength tramp o.locals m.exec)
  unfolding entered_at tramp_at
  entered_at-IsOwner o m h mapped_there =
      let after_run = entered fetch realloc host policy strength tramp o.locals m.exec in
      (
        record o { locals = after_run },
        rw mapped_there refl,
        record {
          owned = λ q.
              h.owned q
              ∙ sym (unfold entered in held-frame q o.locals _ _ _ o.starts cache_slots 0);
          few = unfold entered in h.few;
          live = unfold entered in h.live;
          peak = h.peak;
        },
        refl,
      )

  -- What the loop leaves where the loop without mappings leaves `r`.
  abbrev Leaves : Session × Exit → Run (Owner × Exit) → Type 0
  Leaves r act = (o : Owner) × (act ≡ returns (o, r.1)) × IsOwner o × (view o.locals ≡ view r.0)

  module _ (max_steps n : ℕ)
      (ih : (o : Owner)
        → IsOwner o
        → Leaves
            (run_loop fetch realloc host policy strength tramp max_steps n o.locals)
            (run_loop_at fetch realloc host policy strength tramp max_steps n o)) where
    continue_at-Leaves :
        (s : Session) (r : Result (Session × Exec)) (act : Run (Result Mapped × Owner))
        → Follows s r act
        → Leaves
            (elim r [
              | err e ↦ (s, stopped e)
              | ok (s', e) ↦
                  run_loop fetch realloc host policy strength tramp max_steps n
                    (entered fetch realloc host policy strength tramp s' e)
            ])
            (act
              >>! continue_at fetch realloc host policy strength tramp
                  (run_loop_at fetch realloc host policy strength tramp max_steps n))
    unfolding continue_at
    continue_at-Leaves s (err c) act (o, did, h, same) = (o, rw did refl, h, same)
    continue_at-Leaves s (ok (s', e)) act (o, start, did, h, same, open_there) =
        let m : Mapped = record { exec = e; start = start } in
        let (o', went, h', is) = entered_at-IsOwner o m h open_there in
        let to : o'.locals ≡ entered fetch realloc host policy strength tramp s' e =
          is ∙ ap (λ d. entered fetch realloc host policy strength tramp d e) same in
        subst
          (λ d. Leaves (run_loop fetch realloc host policy strength tramp max_steps n d) (
            act
            >>! continue_at fetch realloc host policy strength tramp
                (run_loop_at fetch realloc host policy strength tramp max_steps n)))
          to (rw (did, went) (ih o' h'))

  run_loop_at-Leaves :
      (max_steps n : ℕ) (o : Owner)
      → IsOwner o
      → Leaves
          (run_loop fetch realloc host policy strength tramp max_steps n o.locals)
          (run_loop_at fetch realloc host policy strength tramp max_steps n o)
  unfolding run_loop run_loop_at
  run_loop_at-Leaves max_steps zero o h = (o, refl, h, refl)
  run_loop_at-Leaves max_steps (suc n) o h = elim (Bool-cases (o.locals.pc == halt_pc)) [
    | inl halted ↦ simp halted (o, refl, h, refl)
    | inr going ↦ elim (Bool-cases (leb max_steps o.locals.taken_steps)) [
      | inl spent ↦ simp (going, spent) (o, refl, h, refl)
      | inr left ↦
          simp (going, left)
            (continue_at-Leaves max_steps n (run_loop_at-Leaves max_steps n) o.locals _ _ (
              found_at-Follows o (cache_find o.locals.slots o.locals.pc)
                (λ j hit. (
                  cache_find-slot o.locals.slots o.locals.pc j hit,
                  (cache_find-hit o.locals.slots o.locals.pc j hit).0,
                ))
                h))
    ]
  ]

  freed-Leaves :
      (r : Session × Exit) (act : Run (Owner × Exit))
      → Leaves r act
      → Releases r (act >>! freed fetch realloc host policy strength tramp)
  unfolding freed flush_at
  freed-Leaves r act (o, did, h, same) =
      let (sp, flushed, left, peak) =
        flush_loop-Holds (λ q. 0) o.locals o.starts cache_slots 0 o.space
          (λ q. omega (arith, h.owned q)) in
      (
        o.locals,
        sp,
        rw (did, flushed) refl,
        same,
        none_open sp.open_regions left,
        omega (arith, peak, h.peak),
      )

  -- A program that the dispatcher runs in a process without mappings enters mapped code only and
  -- unmaps only what is mapped; it ends at the address, with the guest, the steps and the return
  -- code of the model without mappings, at most 12289 mappings are open at once, and none is left,
  -- however it ends.
  pub run_program_at-run_program :
      (calloc : Bool) (entry_pc : ℕ) (guest : GuestState) (max_steps made : ℕ)
      → Releases
          (run_program fetch realloc host policy strength tramp calloc entry_pc guest max_steps)
          (run_program_at fetch realloc host policy strength tramp calloc entry_pc guest max_steps
            (record { made = made; open_regions = []; peak = 0 }))
  unfolding run_program run_program_at
  run_program_at-run_program true entry_pc guest max_steps made =
      freed-Leaves
        (run_loop fetch realloc host policy strength tramp (step_limit max_steps)
          (suc (step_limit max_steps)) (session entry_pc guest))
        _
        (run_loop_at-Leaves (step_limit max_steps) (suc (step_limit max_steps))
          (record {
            locals = session entry_pc guest;
            starts = λ i. 0;
            space = record { made = made; open_regions = []; peak = 0 };
          })
          (record {
            owned = λ q.
                unfold count in
                (sym (held-none q (session entry_pc guest) (λ i. 0) cache_slots 0 (λ j. refl)));
            few = omega arith;
            live = omega arith;
            peak = omega arith;
          }))
  run_program_at-run_program false entry_pc guest max_steps made = (
    session entry_pc guest,
    record { made = made; open_regions = []; peak = 0 },
    refl,
    refl,
    refl,
    omega arith,
  )
