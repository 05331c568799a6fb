-- ===== src/Litmus/Causality.antt =====
-- Write-to-read causality on the TSO machine: the outcome that oryx_litmus.c counts in its test of three threads.
use oryx.Prelude.{◌==◌, ℕ, ◌≡◌, subst, refl, sym, ap, ◌∙◌, Bool, false, ◌&&◌, List, [], ◌∷◌, arith}
use oryx.Litmus.Harness.{Loc, Reg, MapKind, Instr, Results, is_witness, x, y, ra, wrc}
use oryx.Litmus.Machine.{
  Who, State, core, with_core, mem, written, seen, loaded, queued, Access, Step, Reaches,
  round_start, Outcome, first, second, third, stores, loads, issue, read, wait, skip, drain,
  started, then_step,
}
use oryx.Litmus.Todo.{todo, todo-next, todo-thread0-wrc, todo-thread1-wrc, todo-thread2-wrc}
use oryx.Litmus.Relay.{
  Writer, Relay, Reader, Writer-issue, Writer-load, Writer-drain, Relay-issue, Relay-load,
  Relay-drain, Relay-set, flag_then_known, Reader-store, Reader-set_data, Reader-set_flag,
  Reader-relay, Reader-load_flag, Reader-load_data,
}

record Inv (s : State) : Type 0 where
  writer : Writer (todo s.c0.prog) s.c0.queue
  relay : Relay (todo s.c1.prog) s.c1.queue s.c1.reg_a s.mem_x s.mem_y
  reader : Reader (todo s.c2.prog) s.c1.reg_a s.c2.reg_a s.c2.reg_b s.mem_x s.mem_y
  quiet2 : s.c2.queue ≡ []

module _ (s : State) (inv : Inv s) where
  same_todo :
      (w : Who) (rest : List Instr)
      → todo (core w s).prog ≡ todo rest
      → Inv (with_core w (record (core w s) { prog = rest }) s)
  same_todo first rest e = record {
    writer = subst (λ t. Writer t s.c0.queue) e inv.writer;
    relay = inv.relay;
    reader = inv.reader;
    quiet2 = inv.quiet2;
  }
  same_todo second rest e = record {
    writer = inv.writer;
    relay = subst (λ t. Relay t s.c1.queue s.c1.reg_a s.mem_x s.mem_y) e inv.relay;
    reader = inv.reader;
    quiet2 = inv.quiet2;
  }
  same_todo third rest e = record {
    writer = inv.writer;
    relay = inv.relay;
    reader = subst (λ t. Reader t s.c1.reg_a s.c2.reg_a s.c2.reg_b s.mem_x s.mem_y) e inv.reader;
    quiet2 = inv.quiet2;
  }

  issued :
      (w : Who) (rest : List Instr) (l : Loc) (v : ℕ)
      → todo (core w s).prog ≡ stores l v ∷ todo rest
      → Inv (with_core w (queued (core w s) rest l v) s)
  issued first rest l v e = record {
    writer =
        Writer-issue (todo rest) l v s.c0.queue (subst (λ t. Writer t s.c0.queue) e inv.writer);
    relay = inv.relay;
    reader = inv.reader;
    quiet2 = inv.quiet2;
  }
  issued second rest l v e = record {
    writer = inv.writer;
    relay =
        Relay-issue (todo rest) l v s.c1.queue s.c1.reg_a s.mem_x s.mem_y
          (subst (λ t. Relay t s.c1.queue s.c1.reg_a s.mem_x s.mem_y) e inv.relay);
    reader = inv.reader;
    quiet2 = inv.quiet2;
  }
  issued third rest l v e = absurd (
      Reader-store (todo rest) l v s.c1.reg_a s.c2.reg_a s.c2.reg_b s.mem_x s.mem_y
        (subst (λ t. Reader t s.c1.reg_a s.c2.reg_a s.c2.reg_b s.mem_x s.mem_y) e inv.reader))

  relay_loads :
      (rest : List Instr) (l : Loc) (r : Reg)
      → todo s.c1.prog ≡ loads l r ∷ todo rest
      → Inv (with_core second (loaded s.c1 rest r (seen s.c1.queue l (mem s l))) s)
  relay_loads rest l r e =
      let (at, to, quiet, unset, relay') =
        Relay-load (todo rest) l r s.c1.queue s.c1.reg_a s.mem_x s.mem_y
          (subst (λ t. Relay t s.c1.queue s.c1.reg_a s.mem_x s.mem_y) e inv.relay) in
      let from_x : Inv (with_core second (loaded s.c1 rest ra s.mem_x) s) = record {
        writer = inv.writer;
        relay = relay';
        reader =
            Reader-relay (todo s.c2.prog) s.c1.reg_a s.mem_x s.c2.reg_a s.c2.reg_b s.mem_x s.mem_y
              unset inv.reader;
        quiet2 = inv.quiet2;
      } in
      let value : s.mem_x ≡ seen s.c1.queue l (mem s l) =
        ap (λ q. seen q x s.mem_x) (sym quiet) ∙ ap (λ k. seen s.c1.queue k (mem s k)) (sym at) in
      subst
        (λ (k : Reg). Inv (with_core second (loaded s.c1 rest k (seen s.c1.queue l (mem s l))) s))
        (sym to) (subst (λ (v : ℕ). Inv (with_core second (loaded s.c1 rest ra v) s)) value from_x)

  reader_loads :
      (rest : List Instr) (l : Loc) (r : Reg)
      → todo s.c2.prog ≡ loads l r ∷ todo rest
      → Inv (with_core third (loaded s.c2 rest r (mem s l)) s)
  reader_loads rest y r e =
      let (to, reader') =
        Reader-load_flag (todo rest) r s.c1.reg_a s.c2.reg_a s.c2.reg_b s.mem_x s.mem_y
          (flag_then_known inv.relay)
          (subst (λ t. Reader t s.c1.reg_a s.c2.reg_a s.c2.reg_b s.mem_x s.mem_y) e inv.reader) in
      subst (λ (k : Reg). Inv (with_core third (loaded s.c2 rest k s.mem_y) s)) (sym to)
        (record { writer = inv.writer; relay = inv.relay; reader = reader'; quiet2 = inv.quiet2 })
  reader_loads rest x r e =
      let (to, reader') =
        Reader-load_data (todo rest) r s.c1.reg_a s.c2.reg_a s.c2.reg_b s.mem_x s.mem_y
          (subst (λ t. Reader t s.c1.reg_a s.c2.reg_a s.c2.reg_b s.mem_x s.mem_y) e inv.reader) in
      subst (λ (k : Reg). Inv (with_core third (loaded s.c2 rest k s.mem_x) s)) (sym to)
        (record { writer = inv.writer; relay = inv.relay; reader = reader'; quiet2 = inv.quiet2 })

  data_set :
      (q : List (Loc × ℕ)) (v : ℕ)
      → v ≡ 1
      → Writer (todo s.c0.prog) q
      → Inv (record s { mem_x = v; c0 = record s.c0 { queue = q } })
  data_set q v one writer' =
      subst (λ (k : ℕ). Inv (record s { mem_x = k; c0 = record s.c0 { queue = q } })) (sym one)
        (record {
          writer = writer';
          relay = Relay-set (todo s.c1.prog) s.c1.queue s.c1.reg_a s.mem_x s.mem_y inv.relay;
          reader =
              Reader-set_data (todo s.c2.prog) s.c1.reg_a s.c2.reg_a s.c2.reg_b s.mem_x s.mem_y
                inv.reader;
          quiet2 = inv.quiet2;
        })

  flag_set :
      (q : List (Loc × ℕ)) (v : ℕ)
      → v ≡ 1
      → Relay (todo s.c1.prog) q s.c1.reg_a s.mem_x 1
      → Inv (record s { mem_y = v; c1 = record s.c1 { queue = q } })
  flag_set q v one relay' =
      subst (λ (k : ℕ). Inv (record s { mem_y = k; c1 = record s.c1 { queue = q } })) (sym one)
        (record {
          writer = inv.writer;
          relay = relay';
          reader =
              Reader-set_flag (todo s.c2.prog) s.c1.reg_a s.c2.reg_a s.c2.reg_b s.mem_x s.mem_y
                inv.reader;
          quiet2 = inv.quiet2;
        })

  drained :
      (w : Who) (l : Loc) (v : ℕ) (q : List (Loc × ℕ))
      → (core w s).queue ≡ (l, v) ∷ q
      → Inv (with_core w (record (core w s) { queue = q }) (written s l v))
  drained first l v q e =
      let (writer', at, one) =
        Writer-drain (todo s.c0.prog) l v q (subst (Writer (todo s.c0.prog)) e inv.writer) in
      subst (λ (k : Loc). Inv (with_core first (record s.c0 { queue = q }) (written s k v)))
        (sym at) (data_set q v one writer')
  drained second l v q e =
      let (at, one, relay') =
        Relay-drain (todo s.c1.prog) l v q s.c1.reg_a s.mem_x s.mem_y
          (subst (λ p. Relay (todo s.c1.prog) p s.c1.reg_a s.mem_x s.mem_y) e inv.relay) in
      subst (λ (k : Loc). Inv (with_core second (record s.c1 { queue = q }) (written s k v)))
        (sym at) (flag_set q v one relay')
  drained third l v q e = let none_waits : (l, v) ∷ q ≡ [] = sym e ∙ inv.quiet2 in cc

Step-Inv : {s s' : State} → Step s s' → Inv s → Inv s'
Step-Inv {s} (issue w i rest l v e f) inv = issued s inv w rest l v (todo-next _ i rest _ e f)
Step-Inv {s} (read first i rest l r e f g) inv = absurd (
    Writer-load (todo rest) l r s.c0.queue
      (subst (λ t. Writer t s.c0.queue) (todo-next _ i rest _ e f) inv.writer))
Step-Inv {s} (read second i rest l r e f g) inv =
    relay_loads s inv rest l r (todo-next _ i rest _ e f)
Step-Inv {s} (read third i rest l r e f g) inv =
    subst (λ (v : ℕ). Inv (with_core third (loaded s.c2 rest r v) s))
      (sym (ap (λ q. seen q l (mem s l)) inv.quiet2))
      (reader_loads s inv rest l r (todo-next _ i rest _ e f))
Step-Inv {s} (wait w i rest e f g) inv = same_todo s inv w rest (todo-next _ i rest _ e f)
Step-Inv {s} (skip w i rest e f) inv = same_todo s inv w rest (todo-next _ i rest _ e f)
Step-Inv {s} (drain w l v q e) inv = drained s inv w l v q e

Reaches-Inv : {s s' : State} → Reaches s s' → Inv s → Inv s'
Reaches-Inv started inv = inv
Reaches-Inv (then_step earlier step) inv = Step-Inv step (Reaches-Inv earlier inv)

round_start-Inv : (k : MapKind) (fenced : Bool) → Inv (round_start wrc k fenced)
round_start-Inv k fenced = record {
  writer = Writer.fresh (todo-thread0-wrc k fenced) refl;
  relay = Relay.fresh (todo-thread1-wrc k fenced) refl refl;
  reader = Reader.fresh (todo-thread2-wrc k);
  quiet2 = refl;
}

Reader-ends :
    {t : List Access} {a c d mx my : ℕ}
    → t ≡ []
    → Reader t a c d mx my
    → (a == 1 && (c == 1 && d == 0)) ≡ false
Reader-ends none_left (Reader.fresh e) = cc
Reader-ends none_left (Reader.between e h) = cc
Reader-ends none_left (Reader.finished e h) = ground arith

-- The outcome that is not transitive is no outcome of TSO.
pub wrc-is_witness :
    (k : MapKind) (fenced : Bool) (r : Results) → Outcome wrc k fenced r → is_witness wrc r ≡ false
unfolding is_witness
wrc-is_witness k fenced r o =
    let s = o.state in
    let inv = Reaches-Inv o.run (round_start-Inv k fenced) in
    let none_left : todo s.c2.prog ≡ [] = ap todo o.done2 ∙ (unfold todo in refl) in
    rw o.recorded (Reader-ends none_left inv.reader)
