-- ===== src/MemoryMap/Soundness.antt =====
-- Classify a block, look an access up and decide its ordering: what the whole chain does.
use oryx.Prelude.{
  ℕ, suc, zero, ◌+◌, ◌%◌, ◌^◌, ◌≤◌, ◌<◌, ◌≡◌, refl, ◌∙◌, Bool, ◌||◌, Option, none, some, List, [],
  ◌∷◌, length, get_elem?, ◌==◌, if◌then◌else◌, Option-cases, inl, inr, arith,
}
use oryx.Errors.{ok, returns}
use oryx.Guest.{Op, Insn, load, store, atomic_add, atomic_cas, gr_rsp, gr_rbp}
use oryx.MemoryMap.Entries.{Entry, MemMap, Order, relax, tso, atomic, decide, lookup}
use oryx.MemoryMap.Classifier.{class_of_op, class_of, classify_from, classify}
use oryx.MemoryMap.Search.{IsAscending, find, lookup-find}

-- Every entry lies at or above `bound`, and so does what is put in front of it.
abbrev StartsAbove : ℕ → List Entry → Type 0
StartsAbove bound [] = Unit
StartsAbove bound (e ∷ es) = bound ≤ e.guest_pc

StartsAbove-le : (b c : ℕ) (es : List Entry) → b ≤ c → StartsAbove c es → StartsAbove b es
StartsAbove-le b c [] le h = tt
StartsAbove-le b c (e ∷ es) le h = omega arith

push-IsAscending :
    (e : Entry) (es : List Entry)
    → StartsAbove (e.guest_pc + 1) es
    → IsAscending es
    → IsAscending (e ∷ es)
push-IsAscending e [] h up = tt
push-IsAscending e (f ∷ es) h up = (omega arith, up)

module _ (pc i : ℕ) (insn : Insn) (ops : List Insn) where
  classify_from-skip :
      class_of insn ≡ none → classify_from pc i (insn ∷ ops) ≡ classify_from pc (i + 1) ops
  unfolding classify_from
  classify_from-skip e = rw (e, classify_from)

  classify_from-take :
      (cls ef : ℕ)
      → class_of insn ≡ some (cls, ef)
      → classify_from pc i (insn ∷ ops)
        ≡ record { guest_pc = (pc + i) % 2 ^ 64; mclass = cls; eflags = ef }
          ∷ classify_from pc (i + 1) ops
  unfolding classify_from
  classify_from-take cls ef e = rw (e, classify_from)

classify_from-IsAscending :
    (pc i : ℕ) (ops : List Insn)
    → pc + i + length ops ≤ 2 ^ 64
    → IsAscending (classify_from pc i ops) × StartsAbove (pc + i) (classify_from pc i ops)
unfolding classify_from
classify_from-IsAscending pc i [] fits = (tt, tt)
classify_from-IsAscending pc i (insn ∷ ops) fits =
    let (up, above) = classify_from-IsAscending pc (i + 1) ops (omega arith) in
    elim (Option-cases (class_of insn)) [
      | inl skip ↦
          rw (classify_from-skip pc i insn ops skip)
            (up, StartsAbove-le (pc + i) (pc + (i + 1)) _ (omega arith) above)
      | inr ((cls, ef), take) ↦ rw (classify_from-take pc i insn ops cls ef take) (
        push-IsAscending (record { guest_pc = (pc + i) % 2 ^ 64; mclass = cls; eflags = ef }) _
            (StartsAbove-le ((pc + i) % 2 ^ 64 + 1) (pc + (i + 1)) _ (omega arith) above) up,
        omega arith,
      )
    ]

length-classify_from : (pc i : ℕ) (ops : List Insn) → length (classify_from pc i ops) ≤ length ops
unfolding classify_from
length-classify_from pc i [] = omega arith
length-classify_from pc i (insn ∷ ops) = ground (arith, length-classify_from pc (i + 1) ops)

find-StartsAbove :
    (es : List Entry) (b p : ℕ) → IsAscending es → StartsAbove b es → p < b → find p es ≡ none
unfolding find
find-StartsAbove [] b p up h lt = refl
find-StartsAbove (e ∷ []) b p up h lt = ground arith
find-StartsAbove (e ∷ f ∷ es) b p up h lt =
    ground (arith, find-StartsAbove (f ∷ es) b p up.1 (omega arith) lt)

abbrev entry_of_class : ℕ → Option (ℕ × ℕ) → Option Entry
entry_of_class p none = none
entry_of_class p (some (cls, ef)) = some (record { guest_pc = p; mclass = cls; eflags = ef })

-- The entry that an instruction gets at address `p`.
abbrev entry_of : Insn → ℕ → Option Entry
entry_of insn p = entry_of_class p (class_of insn)

find-classify_from :
    (pc i j p : ℕ) (ops : List Insn) (insn : Insn)
    → p ≡ pc + i + j
    → pc + i + length ops ≤ 2 ^ 64
    → get_elem? ops j ≡ some insn
    → find p (classify_from pc i ops) ≡ entry_of insn p
unfolding classify_from find
find-classify_from pc i j p [] insn at fits q = cc
find-classify_from pc i zero p (d ∷ ops) insn at fits q =
    let (up, above) = classify_from-IsAscending pc (i + 1) ops (omega arith) in
    ground (arith, find-StartsAbove _ (pc + (i + 1)) p up above (omega arith))
find-classify_from pc i (suc j) p (d ∷ ops) insn at fits q =
    ground (arith, find-classify_from pc (i + 1) j p ops insn (omega arith) (omega arith) q)

-- What the header promises for each kind of access.
abbrev pub expected_order : Op → ℕ → Bool → Order
expected_order load rn confirmed =
    if rn == gr_rsp || rn == gr_rbp then (if confirmed then relax else tso) else tso
expected_order store rn confirmed =
    if rn == gr_rsp || rn == gr_rbp then (if confirmed then relax else tso) else tso
expected_order atomic_add rn confirmed = atomic
expected_order atomic_cas rn confirmed = atomic
expected_order _ rn confirmed = tso

decide-class_of_op :
    (op : Op) (rn p : ℕ) (confirmed : Bool)
    → decide (entry_of_class p (class_of_op op rn)) confirmed ≡ expected_order op rn confirmed
unfolding decide class_of_op
decide-class_of_op load rn p confirmed = ground arith
decide-class_of_op _ rn p confirmed = ground arith

entries-classify :
    (malloc : ℕ → Bool) (ops : List Insn) (pc : ℕ) (ident : Option (List ℕ)) (isa id version : ℕ)
    (m : MemMap)
    → classify malloc ops pc ident isa id version ≡ ok m
    → m.entries ≡ classify_from pc 0 ops
unfolding classify
entries-classify malloc ops pc ident isa id version m run = ground arith

-- In a block that does not wrap round the address space, the map of the reference classifier gives
-- each instruction the ordering that the header states: a stack access is relaxed if and only if the
-- runtime guard confirms it, every other load or store is ordered, an atomic stays atomic, and what is
-- not classified is ordered.
pub decide-lookup-classify :
    (malloc : ℕ → Bool) (ops : List Insn) (pc : ℕ) (ident : Option (List ℕ)) (isa id version : ℕ)
    (m : MemMap) (i : ℕ) (insn : Insn) (confirmed : Bool)
    → classify malloc ops pc ident isa id version ≡ ok m
    → pc + length ops ≤ 2 ^ 64
    → length ops < 2 ^ 32
    → get_elem? ops i ≡ some insn
    → (o : Option Entry) × (lookup m (pc + i) ≡ returns o)
      × (decide o confirmed ≡ expected_order insn.op insn.rn confirmed)
unfolding class_of
decide-lookup-classify malloc ops pc ident isa id version m i insn confirmed run fits small at =
    let same = entries-classify malloc ops pc ident isa id version m run in
    let (up, above) = classify_from-IsAscending pc 0 ops (omega arith) in
    let found = find-classify_from pc 0 i (pc + i) ops insn (omega arith) (omega arith) at in
    (
      entry_of insn (pc + i),
      lookup-find m (pc + i) (rw same up) (rw same (omega (arith, length-classify_from pc 0 ops)))
          ∙ rw (same, found),
      decide-class_of_op insn.op insn.rn (pc + i) confirmed,
    )
