-- ===== src/Runtime/Unmapped.antt =====
-- src/liboryxrun/oryxrun.c unmaps what it has mapped, once, and runs mapped code only.
use oryx.Prelude.{
  ltb, ◌==◌, if◌then◌else◌, Bool-cases, length, ℕ, ◌+◌, ◌≤◌, bit_and, max, ◌≡◌, refl, inl, inr,
  Bool, true, false, ◌||◌, not, List, ◌∷◌, arith,
}
use oryx.Errors.{Error, Result, ◌>>=◌, format, inval, nomem, err, ok, returns}
use oryx.Guest.{Insn, Policy, Strength}
use oryx.TransUnit.{Tu}
use oryx.Translator.Block.{translate_ex}
use oryx.Runtime.Linker.{
  Protection, Host, Exec, aarch64_ret, page_align, last_word, protected, mapped, exec_map,
  linked_code, exec_map_linked, granted, denied, failed,
}
use oryx.Runtime.Dispatcher.{max_block_ops, GuestState, Session, run_block}
use oryx.Runtime.Refinement.{view, compile}
use oryx.Runtime.Regions.{Space, is_open, closed, mapping, mmap, munmap, ◌>>!◌, same_region_refl}
use oryx.Runtime.Mappings.{
  Mapped, region, Act, protect_at, map_at, after, exec_map_at, exec_map_linked_at, tramp_at,
  run_free, run_at, compile_at,
}

-- What a mapping function does where the model without mappings gives `c`: one more region is open if and only if it succeeds.
abbrev pub Opened : Space → Exec → Space → Type 0
Opened sp e sp' =
    (sp'.open_regions ≡ region e sp.made ∷ sp.open_regions)
    × (sp'.peak ≤ max sp.peak (length sp.open_regions + 1))

abbrev pub Unchanged : Space → Space → Type 0
Unchanged sp sp' =
    (sp'.open_regions ≡ sp.open_regions) × (sp'.peak ≤ max sp.peak (length sp.open_regions + 1))

abbrev pub Maps : Space → Result Exec → Act Mapped → Type 0
Maps sp (ok e) act =
    (sp' : Space) × (act ≡ returns (ok (record { exec = e; start = sp.made }), sp'))
    × Opened sp e sp'
Maps sp (err c) act = (sp' : Space) × (act ≡ returns (err c, sp')) × Unchanged sp sp'

refused : (sp : Space) (c : Error) → Maps sp (err c) (returns (err c, sp))
refused sp c = (sp, refl, (refl, omega arith))

-- The `munmap` behind a failed `mprotect`.
unmapped_again :
    (sp : Space) (e : Exec)
    → (sp' : Space) × (munmap (region e sp.made) (mmap e.map_len sp) ≡ returns sp')
      × Unchanged sp sp'
unfolding munmap mmap is_open closed
unmapped_again sp e =
    let r = mapping sp e.map_len in
    (
      record sp { made = sp.made + 1; peak = max sp.peak (length sp.open_regions + 1) },
      rw (same_region_refl r) refl,
      (refl, omega arith),
    )

protect_at-Maps :
    (sp : Space) (e : Exec) (p : Protection)
    → Maps sp (protected e p) (protect_at e sp.made p (mmap e.map_len sp))
unfolding protected protect_at
protect_at-Maps sp e granted = (mmap e.map_len sp, refl, unfold mmap in (refl, omega arith))
protect_at-Maps sp e denied =
    let (sp', unmapped, same) = unmapped_again sp e in (sp', rw unmapped refl, same)
protect_at-Maps sp e failed =
    let (sp', unmapped, same) = unmapped_again sp e in (sp', rw unmapped refl, same)

pub map_at-Maps :
    (host : Host) (sp : Space) (code : List ℕ) → Maps sp (mapped host code) (map_at host sp code)
unfolding mapped map_at
map_at-Maps host sp code = elim (Bool-cases (host.can_map (page_align host (length code)))) [
  | inr never ↦ rw never (refused sp nomem)
  | inl room ↦ rw room (protect_at-Maps sp _ (host.protect (page_align host (length code))))
]

guard-Maps :
    (sp : Space) (bad : Bool) (c : Error) (m : Result Exec) (act : Act Mapped)
    → Maps sp m act
    → Maps sp (if bad then err c else m) (if bad then returns (err c, sp) else act)
guard-Maps sp true c m act h = refused sp c
guard-Maps sp false c m act h = h

after-Maps {ℓ} :
    {A : Type ℓ} (sp : Space) (m : Result A) (f : A → Result Exec) (g : A → Act Mapped)
    → ((a : A) → Maps sp (f a) (g a))
    → Maps sp (m >>= f) (after m sp g)
after-Maps sp (err c) f g h = refused sp c
after-Maps sp (ok a) f g h = h a

pub exec_map_at-Maps :
    (host : Host) (tu : Tu) (sp : Space) → Maps sp (exec_map host tu) (exec_map_at host tu sp)
unfolding exec_map exec_map_at
exec_map_at-Maps host tu sp = guard-Maps sp (length tu.code == 0) inval _ _ (
    guard-Maps sp (not (length tu.relocs == 0)) inval _ _ (
      guard-Maps sp (not (bit_and (length tu.code) 3 == 0)) format _ _ (
        guard-Maps sp (not (last_word tu.code == aarch64_ret)) inval _ _
          (map_at-Maps host sp tu.code))))

exec_map_linked_at-Maps :
    (host : Host) (tu : Tu) (sp : Space)
    → Maps sp (exec_map_linked host tu) (exec_map_linked_at host tu sp)
unfolding exec_map_linked exec_map_linked_at
exec_map_linked_at-Maps host tu sp = guard-Maps sp (length tu.code == 0) inval _ _ (
    guard-Maps sp (not (bit_and (length tu.code) 3 == 0)) format _ _ (
      after-Maps sp (linked_code tu.code tu.relocs tu.exits) (mapped host) (map_at host sp)
        (map_at-Maps host sp)))

module _ (fetch : GuestState → ℕ → Result (List Insn × ℕ)) (realloc : ℕ → ℕ → Bool)
    (host : ℕ → Host) (policy : Policy) (strength : Strength)
    (tramp : Exec → GuestState → GuestState × ℕ) where
  pub compile_at-Maps :
      (s : Session) (sp : Space)
      → Maps sp
          (compile fetch realloc host policy strength tramp (view s))
          (compile_at fetch realloc host policy strength tramp s sp)
  unfolding compile compile_at
  compile_at-Maps s sp = after-Maps sp (fetch s.guest s.pc) _ _ (λ block.
      guard-Maps sp (length block.0 == 0 || ltb max_block_ops (length block.0)) format _ _ (
        after-Maps sp (translate_ex (realloc s.taken_steps) block.0 s.pc block.1 0 policy strength)
          _ _ (λ r. exec_map_linked_at-Maps (host s.taken_steps) r.0 sp)))

-- Running a single unit enters mapped code only, gives the guest or the error code of the model
-- without mappings, and leaves the mappings as they were, however it ends.
pub run_at-run_block :
    (host : Host) (tramp : Exec → GuestState → GuestState × ℕ) (tu : Tu) (guest : GuestState)
    (sp : Space)
    → (sp' : Space) × (run_at host tramp tu guest sp ≡ returns (run_block host tramp tu guest, sp'))
      × (sp'.open_regions ≡ sp.open_regions)
unfolding run_at run_block run_free tramp_at munmap is_open closed
run_at-run_block host tramp tu guest sp =
    go (exec_map host tu) (exec_map_at host tu sp) (exec_map_at-Maps host tu sp)
  where
    go :
        (m : Result Exec) (act : Act Mapped)
        → Maps sp m act
        → (sp' : Space) × ((act >>! run_free tramp guest)
            ≡ returns (m >>= (λ e. ok (tramp e guest).0), sp'))
          × (sp'.open_regions ≡ sp.open_regions)
    go (err c) act (sp1, did, same) = (sp1, rw did refl, same.0)
    go (ok e) act (sp1, did, opened) = (
      record sp1 { open_regions = sp.open_regions },
      rw (did, opened.0, same_region_refl (region e sp.made)) refl,
      refl,
    )
