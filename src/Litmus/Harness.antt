-- ===== src/Litmus/Harness.antt =====
-- The threads of oryx_litmus.c as lists of instructions, and the count of the outcomes that they are run for.
use oryx.Prelude.{◌==◌, if◌then◌else◌, ℕ, ◌+◌, Bool, true, ◌&&◌, List, [], ◌∷◌, ◌++◌}

pub data Loc : Type 0 where
  x y : Loc

-- The two results that a thread records.
pub data Reg : Type 0 where
  ra rb : Reg

-- `enum test_kind` and `enum map_kind`
pub data Test : Type 0 where
  mp sb wrc : Test

pub data MapKind : Type 0 where
  plain_map rcpc_map sc_map dmb_map : MapKind

pub data Instr : Type 0 where
  str stlr : Loc → ℕ → Instr
  ldr ldar ldapr : Loc → Reg → Instr
  dmb_ish dmb_ishst dmb_ishld : Instr

-- `map_store` and `map_load`
unfoldable pub map_store : MapKind → Loc → ℕ → List Instr
map_store rcpc_map l v = stlr l v ∷ []
map_store sc_map l v = stlr l v ∷ []
map_store dmb_map l v = dmb_ishst ∷ str l v ∷ []
map_store plain_map l v = str l v ∷ []

unfoldable pub map_load : MapKind → Loc → Reg → List Instr
map_load rcpc_map l r = ldapr l r ∷ []
map_load sc_map l r = ldar l r ∷ []
map_load dmb_map l r = ldr l r ∷ dmb_ishld ∷ []
map_load plain_map l r = ldr l r ∷ []

-- `if (g_map == MAP_PLAIN && g_fenced) barrier_full();`
unfoldable pub barrier : MapKind → Bool → List Instr
barrier plain_map true = dmb_ish ∷ []
barrier _ _ = []

-- One round of each thread.
unfoldable pub thread0 : Test → MapKind → Bool → List Instr
thread0 mp k fenced = map_store k x 1 ++ (barrier k fenced ++ map_store k y 1)
thread0 wrc k fenced = map_store k x 1
thread0 sb k fenced = map_store k x 1 ++ (barrier k fenced ++ map_load k y ra)

unfoldable pub thread1 : Test → MapKind → Bool → List Instr
thread1 mp k fenced = map_load k y ra ++ (barrier k fenced ++ map_load k x rb)
thread1 wrc k fenced = map_load k x ra ++ map_store k y 1
thread1 sb k fenced = map_store k y 1 ++ (barrier k fenced ++ map_load k x ra)

unfoldable pub thread2 : Test → MapKind → List Instr
thread2 wrc k = map_load k y ra ++ map_load k x rb
thread2 _ k = []

-- What the threads have recorded after a round.
pub record Results : Type 0 where
  pub t0_a : ℕ
  pub t1_a : ℕ
  pub t1_b : ℕ
  pub t2_a : ℕ
  pub t2_b : ℕ

unfoldable pub is_witness : Test → Results → Bool
is_witness mp r = r.t1_a == 1 && r.t1_b == 0
is_witness wrc r = r.t1_a == 1 && (r.t2_a == 1 && r.t2_b == 0)
is_witness sb r = r.t0_a == 0 && r.t1_a == 0

-- The loop of `main`, over the results of its rounds.
unfoldable pub witnesses : Test → List Results → ℕ
witnesses t [] = 0
witnesses t (r ∷ rounds) = (if is_witness t r then 1 else 0) + witnesses t rounds
