-- ===== src/Litmus/Sequenced.antt =====
-- The store-buffer test of oryx_litmus.c where its loads wait for its stores, on the TSO machine: under the mapping `sc`, and
-- between full barriers.
use oryx.Prelude.{
  ◌==◌, ℕ, ◌≡◌, subst, refl, sym, ap, ◌∙◌, ◌⊎◌, inl, inr, Bool, true, false, ◌&&◌, List, [], ◌∷◌,
  arith,
}
use oryx.Litmus.Harness.{
  Loc, Reg, MapKind, Instr, map_store, map_load, barrier, thread0, thread1, thread2, Results,
  is_witness, x, y, ra, sb, plain_map, rcpc_map, sc_map, dmb_map,
}
use oryx.Litmus.Machine.{
  Who, State, core, with_core, mem, written, seen, loaded, queued, access, is_ldar, Step, Reaches,
  round_start, Outcome, first, second, third, stores, loads, waits, nothing, issue, read, wait,
  skip, drain, started, then_step,
}
use oryx.Litmus.Half.{
  Half, Half-issue, Half-load, Half-wait, Half-skip, Half-drain, Half-ends, fresh, fresh_fenced,
  ended,
}

record Inv (s : State) : Type 0 where
  half0 : Half x y s.c0.prog s.c0.queue s.mem_x
  half1 : Half y x s.c1.prog s.c1.queue s.mem_y
  crossed : s.c0.prog ≡ [] → s.c1.prog ≡ [] → (s.c0.reg_a ≡ 1) ⊎ (s.c1.reg_a ≡ 1)
  idle2 : s.c2.prog ≡ []
  quiet2 : s.c2.queue ≡ []

module _ (s : State) (inv : Inv s) where
  issued :
      (w : Who) (i : Instr) (rest : List Instr) (l : Loc) (v : ℕ)
      → (core w s).prog ≡ i ∷ rest
      → access i ≡ stores l v
      → Inv (with_core w (queued (core w s) rest l v) s)
  issued first i rest l v e f =
      let (half, more) =
        Half-issue x y i rest s.c0.queue s.mem_x l v f
          (subst (λ t. Half x y t s.c0.queue s.mem_x) e inv.half0) in
      record {
        half0 = half;
        half1 = inv.half1;
        crossed = λ end0 end1. absurd (more end0);
        idle2 = inv.idle2;
        quiet2 = inv.quiet2;
      }
  issued second i rest l v e f =
      let (half, more) =
        Half-issue y x i rest s.c1.queue s.mem_y l v f
          (subst (λ t. Half y x t s.c1.queue s.mem_y) e inv.half1) in
      record {
        half0 = inv.half0;
        half1 = half;
        crossed = λ end0 end1. absurd (more end1);
        idle2 = inv.idle2;
        quiet2 = inv.quiet2;
      }
  issued third i rest l v e f = let none_left : i ∷ rest ≡ [] = sym e ∙ inv.idle2 in cc

  loaded_first :
      (rest : List Instr)
      → s.mem_x ≡ 1
      → s.c0.queue ≡ []
      → rest ≡ []
      → Inv (with_core first (loaded s.c0 rest ra s.mem_y) s)
  loaded_first rest out quiet last = record {
    half0 = ended last quiet out;
    half1 = inv.half1;
    crossed = λ end0 end1. inl (Half-ends inv.half1 end1);
    idle2 = inv.idle2;
    quiet2 = inv.quiet2;
  }

  loaded_second :
      (rest : List Instr)
      → s.mem_y ≡ 1
      → s.c1.queue ≡ []
      → rest ≡ []
      → Inv (with_core second (loaded s.c1 rest ra s.mem_x) s)
  loaded_second rest out quiet last = record {
    half0 = inv.half0;
    half1 = ended last quiet out;
    crossed = λ end0 end1. inr (Half-ends inv.half0 end0);
    idle2 = inv.idle2;
    quiet2 = inv.quiet2;
  }

  loads_one :
      (w : Who) (i : Instr) (rest : List Instr) (l : Loc) (r : Reg)
      → (core w s).prog ≡ i ∷ rest
      → access i ≡ loads l r
      → (is_ldar i ≡ true → (core w s).queue ≡ [])
      → Inv (with_core w (loaded (core w s) rest r (seen (core w s).queue l (mem s l))) s)
  loads_one first i rest l r e f g =
      let (at, to, out, quiet, last) =
        Half-load x y i rest s.c0.queue s.mem_x l r f g
          (subst (λ t. Half x y t s.c0.queue s.mem_x) e inv.half0) in
      let value : s.mem_y ≡ seen s.c0.queue l (mem s l) =
        ap (λ q. seen q y s.mem_y) (sym quiet) ∙ ap (λ k. seen s.c0.queue k (mem s k)) (sym at) in
      subst
        (λ (k : Reg). Inv (with_core first (loaded s.c0 rest k (seen s.c0.queue l (mem s l))) s))
        (sym to)
        (subst (λ (v : ℕ). Inv (with_core first (loaded s.c0 rest ra v) s)) value
          (loaded_first rest out quiet last))
  loads_one second i rest l r e f g =
      let (at, to, out, quiet, last) =
        Half-load y x i rest s.c1.queue s.mem_y l r f g
          (subst (λ t. Half y x t s.c1.queue s.mem_y) e inv.half1) in
      let value : s.mem_x ≡ seen s.c1.queue l (mem s l) =
        ap (λ q. seen q x s.mem_x) (sym quiet) ∙ ap (λ k. seen s.c1.queue k (mem s k)) (sym at) in
      subst
        (λ (k : Reg). Inv (with_core second (loaded s.c1 rest k (seen s.c1.queue l (mem s l))) s))
        (sym to)
        (subst (λ (v : ℕ). Inv (with_core second (loaded s.c1 rest ra v) s)) value
          (loaded_second rest out quiet last))
  loads_one third i rest l r e f g = let none_left : i ∷ rest ≡ [] = sym e ∙ inv.idle2 in cc

  waited :
      (w : Who) (i : Instr) (rest : List Instr)
      → (core w s).prog ≡ i ∷ rest
      → access i ≡ waits
      → (core w s).queue ≡ []
      → Inv (with_core w (record (core w s) { prog = rest }) s)
  waited first i rest e f none_waits =
      let (half, more) =
        Half-wait x y i rest s.c0.queue s.mem_x f none_waits
          (subst (λ t. Half x y t s.c0.queue s.mem_x) e inv.half0) in
      record {
        half0 = half;
        half1 = inv.half1;
        crossed = λ end0 end1. absurd (more end0);
        idle2 = inv.idle2;
        quiet2 = inv.quiet2;
      }
  waited second i rest e f none_waits =
      let (half, more) =
        Half-wait y x i rest s.c1.queue s.mem_y f none_waits
          (subst (λ t. Half y x t s.c1.queue s.mem_y) e inv.half1) in
      record {
        half0 = inv.half0;
        half1 = half;
        crossed = λ end0 end1. absurd (more end1);
        idle2 = inv.idle2;
        quiet2 = inv.quiet2;
      }
  waited third i rest e f none_waits = let none_left : i ∷ rest ≡ [] = sym e ∙ inv.idle2 in cc

  skipped :
      (w : Who) (i : Instr) (rest : List Instr)
      → (core w s).prog ≡ i ∷ rest
      → access i ≡ nothing
      → ⊥
  skipped first i rest e f =
      Half-skip x y i rest s.c0.queue s.mem_x f
        (subst (λ t. Half x y t s.c0.queue s.mem_x) e inv.half0)
  skipped second i rest e f =
      Half-skip y x i rest s.c1.queue s.mem_y f
        (subst (λ t. Half y x t s.c1.queue s.mem_y) e inv.half1)
  skipped third i rest e f = let none_left : i ∷ rest ≡ [] = sym e ∙ inv.idle2 in cc

  drained :
      (w : Who) (l : Loc) (v : ℕ) (q : List (Loc × ℕ))
      → (core w s).queue ≡ (l, v) ∷ q
      → Inv (with_core w (record (core w s) { queue = q }) (written s l v))
  drained first l v q e =
      let (at, one, half) =
        Half-drain x y s.c0.prog l v q s.mem_x
          (subst (λ t. Half x y s.c0.prog t s.mem_x) e inv.half0) in
      subst (λ (k : Loc). Inv (with_core first (record s.c0 { queue = q }) (written s k v)))
        (sym at)
        (record {
          half0 = subst (λ (k : ℕ). Half x y s.c0.prog q k) (sym one) half;
          half1 = inv.half1;
          crossed = inv.crossed;
          idle2 = inv.idle2;
          quiet2 = inv.quiet2;
        })
  drained second l v q e =
      let (at, one, half) =
        Half-drain y x s.c1.prog l v q s.mem_y
          (subst (λ t. Half y x s.c1.prog t s.mem_y) e inv.half1) in
      subst (λ (k : Loc). Inv (with_core second (record s.c1 { queue = q }) (written s k v)))
        (sym at)
        (record {
          half0 = inv.half0;
          half1 = subst (λ (k : ℕ). Half y x s.c1.prog q k) (sym one) half;
          crossed = inv.crossed;
          idle2 = inv.idle2;
          quiet2 = inv.quiet2;
        })
  drained third l v q e = let none_waits : (l, v) ∷ q ≡ [] = sym e ∙ inv.quiet2 in cc

Step-Inv : {s s' : State} → Step s s' → Inv s → Inv s'
Step-Inv {s} (issue w i rest l v e f) inv = issued s inv w i rest l v e f
Step-Inv {s} (read w i rest l r e f g) inv = loads_one s inv w i rest l r e f g
Step-Inv {s} (wait w i rest e f g) inv = waited s inv w i rest e f g
Step-Inv {s} (skip w i rest e f) inv = absurd (skipped s inv w i rest e f)
Step-Inv {s} (drain w l v q e) inv = drained s inv w l v q e

Reaches-Inv : {s s' : State} → Reaches s s' → Inv s → Inv s'
Reaches-Inv started inv = inv
Reaches-Inv (then_step earlier step) inv = Step-Inv step (Reaches-Inv earlier inv)

-- The runs of the test in which each load waits for the store before it.
abbrev pub is_sequenced : MapKind → Bool → Bool
is_sequenced sc_map fenced = true
is_sequenced plain_map fenced = fenced
is_sequenced _ fenced = false

round_start-Inv :
    (k : MapKind) (fenced : Bool) → is_sequenced k fenced ≡ true → Inv (round_start sb k fenced)
unfolding thread0 thread1 thread2 map_store map_load barrier
round_start-Inv sc_map fenced sequenced = record {
  half0 = fresh refl refl;
  half1 = fresh refl refl;
  crossed = λ end0 end1. cc;
  idle2 = refl;
  quiet2 = refl;
}
round_start-Inv plain_map true sequenced = record {
  half0 = fresh_fenced refl refl;
  half1 = fresh_fenced refl refl;
  crossed = λ end0 end1. cc;
  idle2 = refl;
  quiet2 = refl;
}
round_start-Inv plain_map false sequenced = cc
round_start-Inv rcpc_map fenced sequenced = cc
round_start-Inv dmb_map fenced sequenced = cc

one_seen : (a b : ℕ) → (a ≡ 1) ⊎ (b ≡ 1) → (a == 0 && b == 0) ≡ false
one_seen a b h = ground arith

pub sb-is_sequenced :
    (k : MapKind) (fenced : Bool) (r : Results)
    → is_sequenced k fenced ≡ true
    → Outcome sb k fenced r
    → is_witness sb r ≡ false
unfolding is_witness
sb-is_sequenced k fenced r sequenced o =
    let inv = Reaches-Inv o.run (round_start-Inv k fenced sequenced) in
    rw o.recorded (one_seen o.state.c0.reg_a o.state.c1.reg_a (inv.crossed o.done0 o.done1))
