-- ===== src/Litmus/Machine.antt =====
-- A machine with total store order, as x86 promises it, with the acquiring load of AArch64: the stores of a core wait in a queue and reach the memory in order; a
-- load takes the newest waiting store of its core, or the memory; a full barrier waits for an empty queue.
use oryx.Prelude.{ℕ, ◌≡◌, Bool, true, false, List, [], ◌∷◌, ◌++◌}
use oryx.Litmus.Harness.{
  Loc, Reg, Test, MapKind, Instr, thread0, thread1, thread2, Results, x, y, ra, rb, str, stlr, ldr,
  ldar, ldapr, dmb_ish, dmb_ishst, dmb_ishld,
}

pub data Who : Type 0 where
  first second third : Who

pub record Core : Type 0 where
  pub prog : List Instr
  pub queue : List (Loc × ℕ)
  pub reg_a : ℕ
  pub reg_b : ℕ

pub record State : Type 0 where
  pub mem_x : ℕ
  pub mem_y : ℕ
  pub c0 : Core
  pub c1 : Core
  pub c2 : Core

abbrev pub core : Who → State → Core
core first s = s.c0
core second s = s.c1
core third s = s.c2

abbrev pub with_core : Who → Core → State → State
with_core first c s = record s { c0 = c }
with_core second c s = record s { c1 = c }
with_core third c s = record s { c2 = c }

abbrev pub mem : State → Loc → ℕ
mem s x = s.mem_x
mem s y = s.mem_y

abbrev pub written : State → Loc → ℕ → State
written s x v = record s { mem_x = v }
written s y v = record s { mem_y = v }

-- The newest waiting store to a location, or what the memory has.
abbrev pub seen : List (Loc × ℕ) → Loc → ℕ → ℕ
seen [] l m = m
seen ((x, v) ∷ q) x m = seen q x v
seen ((y, v) ∷ q) y m = seen q y v
seen ((x, v) ∷ q) y m = seen q y m
seen ((y, v) ∷ q) x m = seen q x m

abbrev pub loaded : Core → List Instr → Reg → ℕ → Core
loaded c rest ra v = record c { prog = rest; reg_a = v }
loaded c rest rb v = record c { prog = rest; reg_b = v }

abbrev pub queued : Core → List Instr → Loc → ℕ → Core
queued c rest l v = record c { prog = rest; queue = c.queue ++ (l, v) ∷ [] }

-- What an instruction is to this machine.
pub data Access : Type 0 where
  stores : Loc → ℕ → Access
  loads : Loc → Reg → Access
  waits : Access
  nothing : Access

abbrev pub access : Instr → Access
access (str l v) = stores l v
access (stlr l v) = stores l v
access (ldr l r) = loads l r
access (ldar l r) = loads l r
access (ldapr l r) = loads l r
access dmb_ish = waits
access dmb_ishst = nothing
access dmb_ishld = nothing

-- An LDAR is ordered behind the earlier STLRs of its core: it waits until they have reached the memory.
abbrev pub is_ldar : Instr → Bool
is_ldar (ldar l r) = true
is_ldar _ = false

pub data Step (s : State) : State → Type 0 where
  issue :
      (w : Who) (i : Instr) (rest : List Instr) (l : Loc) (v : ℕ)
      → (core w s).prog ≡ i ∷ rest
      → access i ≡ stores l v
      → Step s (with_core w (queued (core w s) rest l v) s)
  read :
      (w : Who) (i : Instr) (rest : List Instr) (l : Loc) (r : Reg)
      → (core w s).prog ≡ i ∷ rest
      → access i ≡ loads l r
      → (is_ldar i ≡ true → (core w s).queue ≡ [])
      → Step s (with_core w (loaded (core w s) rest r (seen (core w s).queue l (mem s l))) s)
  wait :
      (w : Who) (i : Instr) (rest : List Instr)
      → (core w s).prog ≡ i ∷ rest
      → access i ≡ waits
      → (core w s).queue ≡ []
      → Step s (with_core w (record (core w s) { prog = rest }) s)
  skip :
      (w : Who) (i : Instr) (rest : List Instr)
      → (core w s).prog ≡ i ∷ rest
      → access i ≡ nothing
      → Step s (with_core w (record (core w s) { prog = rest }) s)
  drain :
      (w : Who) (l : Loc) (v : ℕ) (q : List (Loc × ℕ))
      → (core w s).queue ≡ (l, v) ∷ q
      → Step s (with_core w (record (core w s) { queue = q }) (written s l v))

pub data Reaches (s : State) : State → Type 0 where
  started : Reaches s s
  then_step : {t u : State} → Reaches s t → Step t u → Reaches s u

abbrev pub ready : List Instr → Core
ready prog = record { prog = prog; queue = []; reg_a = 0; reg_b = 0 }

-- A round: the harness has cleared both variables, and what was stored before has reached the memory.
abbrev pub round_start : Test → MapKind → Bool → State
round_start t k fenced = record {
  mem_x = 0;
  mem_y = 0;
  c0 = ready (thread0 t k fenced);
  c1 = ready (thread1 t k fenced);
  c2 = ready (thread2 t k);
}

abbrev pub results : State → Results
results s = record {
  t0_a = s.c0.reg_a;
  t1_a = s.c1.reg_a;
  t1_b = s.c1.reg_b;
  t2_a = s.c2.reg_a;
  t2_b = s.c2.reg_b;
}

-- The results of a round that all threads have gone through.
pub record Outcome (t : Test) (k : MapKind) (fenced : Bool) (r : Results) : Type 0 where
  pub state : State
  pub run : Reaches (round_start t k fenced) state
  pub done0 : state.c0.prog ≡ []
  pub done1 : state.c1.prog ≡ []
  pub done2 : state.c2.prog ≡ []
  pub recorded : r ≡ results state
