-- ===== src/Litmus/Messages.antt =====
-- The message-passing test of oryx_litmus.c on the TSO machine.
use oryx.Prelude.{
  ◌==◌, ℕ, ◌≡◌, subst, refl, sym, ap, ◌∙◌, ◌≢◌, ◌⊎◌, inl, inr, Bool, false, ◌&&◌, List, [], ◌∷◌,
  ◌++◌, arith,
}
use oryx.Litmus.Harness.{Loc, Reg, MapKind, Instr, thread2, Results, is_witness, x, y, ra, rb, mp}
use oryx.Litmus.Machine.{
  Who, State, core, with_core, mem, seen, loaded, Access, Step, Reaches, round_start, Outcome,
  first, second, third, stores, loads, issue, read, wait, skip, drain, started, then_step,
}
use oryx.Litmus.Todo.{todo, todo-next, todo-thread0-mp, todo-thread1-mp}

-- The writer, by what it has to do, what waits in its queue and what has reached the memory.
data Writer (t : List Access) (q : List (Loc × ℕ)) (mx my : ℕ) : Type 0 where
  fresh : t ≡ stores x 1 ∷ stores y 1 ∷ [] → q ≡ [] → my ≡ 0 → Writer t q mx my
  one_queued : t ≡ stores y 1 ∷ [] → q ≡ (x, 1) ∷ [] → my ≡ 0 → Writer t q mx my
  one_out : t ≡ stores y 1 ∷ [] → q ≡ [] → mx ≡ 1 → my ≡ 0 → Writer t q mx my
  both_queued : t ≡ [] → q ≡ (x, 1) ∷ (y, 1) ∷ [] → my ≡ 0 → Writer t q mx my
  second_queued : t ≡ [] → q ≡ (y, 1) ∷ [] → mx ≡ 1 → my ≡ 0 → Writer t q mx my
  finished : t ≡ [] → q ≡ [] → mx ≡ 1 → my ≡ 1 → Writer t q mx my

data Reader (t : List Access) (a b mx : ℕ) : Type 0 where
  before : t ≡ loads y ra ∷ loads x rb ∷ [] → Reader t a b mx
  between : t ≡ loads x rb ∷ [] → (a ≢ 1) ⊎ (mx ≡ 1) → Reader t a b mx
  behind : t ≡ [] → (a ≢ 1) ⊎ (b ≡ 1) → Reader t a b mx

Writer-issue :
    (t : List Access) (l : Loc) (v : ℕ) (q : List (Loc × ℕ)) (mx my : ℕ)
    → Writer (stores l v ∷ t) q mx my
    → Writer t (q ++ (l, v) ∷ []) mx my
Writer-issue t l v q mx my (fresh e f h) = one_queued (cc) (rw f (cc)) h
Writer-issue t l v q mx my (one_queued e f h) = both_queued (cc) (rw f (cc)) h
Writer-issue t l v q mx my (one_out e f h k) = second_queued (cc) (rw f (cc)) h k
Writer-issue t l v q mx my (both_queued e f h) = cc
Writer-issue t l v q mx my (second_queued e f h k) = cc
Writer-issue t l v q mx my (finished e f h k) = cc

Writer-load :
    (t : List Access) (l : Loc) (r : Reg) (q : List (Loc × ℕ)) (mx my : ℕ)
    → Writer (loads l r ∷ t) q mx my
    → ⊥
Writer-load t l r q mx my (fresh e f h) = cc
Writer-load t l r q mx my (one_queued e f h) = cc
Writer-load t l r q mx my (one_out e f h k) = cc
Writer-load t l r q mx my (both_queued e f h) = cc
Writer-load t l r q mx my (second_queued e f h k) = cc
Writer-load t l r q mx my (finished e f h k) = cc

-- The first store to reach the memory is the one to `x`.
Writer-drain_x :
    (t : List Access) (v : ℕ) (q : List (Loc × ℕ)) (mx my : ℕ)
    → Writer t ((x, v) ∷ q) mx my
    → Writer t q v my × (v ≡ 1)
Writer-drain_x t v q mx my (fresh e f h) = cc
Writer-drain_x t v q mx my (one_queued e f h) = (one_out e (cc) (cc) h, cc)
Writer-drain_x t v q mx my (one_out e f h k) = cc
Writer-drain_x t v q mx my (both_queued e f h) = (second_queued e (cc) (cc) h, cc)
Writer-drain_x t v q mx my (second_queued e f h k) = cc
Writer-drain_x t v q mx my (finished e f h k) = cc

Writer-drain_y :
    (t : List Access) (v : ℕ) (q : List (Loc × ℕ)) (mx my : ℕ)
    → Writer t ((y, v) ∷ q) mx my
    → Writer t q mx v
Writer-drain_y t v q mx my (fresh e f h) = cc
Writer-drain_y t v q mx my (one_queued e f h) = cc
Writer-drain_y t v q mx my (one_out e f h k) = cc
Writer-drain_y t v q mx my (both_queued e f h) = cc
Writer-drain_y t v q mx my (second_queued e f h k) = finished e (cc) h (cc)
Writer-drain_y t v q mx my (finished e f h k) = cc

-- Whoever sees the flag would see the data.
flag_then_data :
    {t : List Access} {q : List (Loc × ℕ)} {mx my : ℕ} → Writer t q mx my → (my ≢ 1) ⊎ (mx ≡ 1)
flag_then_data (fresh e f h) = inl (λ k. omega arith)
flag_then_data (one_queued e f h) = inl (λ k. omega arith)
flag_then_data (one_out e f h k) = inr h
flag_then_data (both_queued e f h) = inl (λ k. omega arith)
flag_then_data (second_queued e f h k) = inr h
flag_then_data (finished e f h k) = inr h

Reader-store : (t : List Access) (l : Loc) (v a b mx : ℕ) → Reader (stores l v ∷ t) a b mx → ⊥
Reader-store t l v a b mx (before e) = cc
Reader-store t l v a b mx (between e h) = cc
Reader-store t l v a b mx (behind e h) = cc

Reader-set : (t : List Access) (a b mx : ℕ) → Reader t a b mx → Reader t a b 1
Reader-set t a b mx (before e) = before e
Reader-set t a b mx (between e h) = between e (inr refl)
Reader-set t a b mx (behind e h) = behind e h

-- The results of the reader after a load.
abbrev loaded_a : Reg → ℕ → ℕ → ℕ
loaded_a ra v a = v
loaded_a rb v a = a

abbrev loaded_b : Reg → ℕ → ℕ → ℕ
loaded_b ra v b = b
loaded_b rb v b = v

abbrev at_loc : Loc → ℕ → ℕ → ℕ
at_loc x mx my = mx
at_loc y mx my = my

Reader-load :
    (t : List Access) (l : Loc) (r : Reg) (a b mx my : ℕ)
    → (my ≢ 1) ⊎ (mx ≡ 1)
    → Reader (loads l r ∷ t) a b mx
    → Reader t (loaded_a r (at_loc l mx my) a) (loaded_b r (at_loc l mx my) b) mx
Reader-load t y ra a b mx my seen_flag (before e) = between (cc) seen_flag
Reader-load t x rb a b mx my seen_flag (between e h) = behind (cc) h
Reader-load t x ra a b mx my seen_flag (before e) = cc
Reader-load t x rb a b mx my seen_flag (before e) = cc
Reader-load t y rb a b mx my seen_flag (before e) = cc
Reader-load t x ra a b mx my seen_flag (between e h) = cc
Reader-load t y ra a b mx my seen_flag (between e h) = cc
Reader-load t y rb a b mx my seen_flag (between e h) = cc
Reader-load t l r a b mx my seen_flag (behind e h) = cc

record Inv (s : State) : Type 0 where
  writer : Writer (todo s.c0.prog) s.c0.queue s.mem_x s.mem_y
  reader : Reader (todo s.c1.prog) s.c1.reg_a s.c1.reg_b s.mem_x
  quiet1 : s.c1.queue ≡ []
  idle2 : todo s.c2.prog ≡ []
  quiet2 : s.c2.queue ≡ []

at_loc-mem : (s : State) (l : Loc) → at_loc l s.mem_x s.mem_y ≡ mem s l
at_loc-mem s x = refl
at_loc-mem s y = refl

with_load :
    (s : State) (rest : List Instr) (r : Reg) (v : ℕ)
    → Inv s
    → Reader (todo rest) (loaded_a r v s.c1.reg_a) (loaded_b r v s.c1.reg_b) s.mem_x
    → Inv (with_core second (loaded s.c1 rest r v) s)
with_load s rest ra v inv h = record {
  writer = inv.writer;
  reader = h;
  quiet1 = inv.quiet1;
  idle2 = inv.idle2;
  quiet2 = inv.quiet2;
}
with_load s rest rb v inv h = record {
  writer = inv.writer;
  reader = h;
  quiet1 = inv.quiet1;
  idle2 = inv.idle2;
  quiet2 = inv.quiet2;
}

-- The reader's queue is empty, so it loads from the memory.
read_second :
    (s : State) (rest : List Instr) (l : Loc) (r : Reg)
    → todo s.c1.prog ≡ loads l r ∷ todo rest
    → Inv s
    → Inv (with_core second (loaded s.c1 rest r (seen s.c1.queue l (mem s l))) s)
read_second s rest l r e inv =
    subst (λ (v : ℕ). Inv (with_core second (loaded s.c1 rest r v) s))
      (at_loc-mem s l ∙ sym (ap (λ q. seen q l (mem s l)) inv.quiet1))
      (with_load s rest r (at_loc l s.mem_x s.mem_y) inv (
        Reader-load (todo rest) l r s.c1.reg_a s.c1.reg_b s.mem_x s.mem_y
          (flag_then_data inv.writer)
          (subst (λ t. Reader t s.c1.reg_a s.c1.reg_b s.mem_x) e inv.reader)))

-- A step that leaves what is to be done.
same_todo :
    (w : Who) (s : State) (rest : List Instr)
    → todo (core w s).prog ≡ todo rest
    → Inv s
    → Inv (with_core w (record (core w s) { prog = rest }) s)
same_todo first s rest e inv = record {
  writer = subst (λ t. Writer t s.c0.queue s.mem_x s.mem_y) e inv.writer;
  reader = inv.reader;
  quiet1 = inv.quiet1;
  idle2 = inv.idle2;
  quiet2 = inv.quiet2;
}
same_todo second s rest e inv = record {
  writer = inv.writer;
  reader = subst (λ t. Reader t s.c1.reg_a s.c1.reg_b s.mem_x) e inv.reader;
  quiet1 = inv.quiet1;
  idle2 = inv.idle2;
  quiet2 = inv.quiet2;
}
same_todo third s rest e inv = record {
  writer = inv.writer;
  reader = inv.reader;
  quiet1 = inv.quiet1;
  idle2 = sym e ∙ inv.idle2;
  quiet2 = inv.quiet2;
}

Step-Inv : {s s' : State} → Step s s' → Inv s → Inv s'
Step-Inv {s} (issue first i rest l v e f) inv = record {
  writer =
      Writer-issue (todo rest) l v s.c0.queue s.mem_x s.mem_y
        (subst (λ t. Writer t s.c0.queue s.mem_x s.mem_y) (todo-next _ i rest _ e f) inv.writer);
  reader = inv.reader;
  quiet1 = inv.quiet1;
  idle2 = inv.idle2;
  quiet2 = inv.quiet2;
}
Step-Inv {s} (issue second i rest l v e f) inv = absurd (
    Reader-store (todo rest) l v s.c1.reg_a s.c1.reg_b s.mem_x
      (subst (λ t. Reader t s.c1.reg_a s.c1.reg_b s.mem_x) (todo-next _ i rest _ e f) inv.reader))
Step-Inv {s} (issue third i rest l v e f) inv =
    let none_left : stores l v ∷ todo rest ≡ [] = sym (todo-next _ i rest _ e f) ∙ inv.idle2 in cc
Step-Inv {s} (read first i rest l r e f g) inv = absurd (
    Writer-load (todo rest) l r s.c0.queue s.mem_x s.mem_y
      (subst (λ t. Writer t s.c0.queue s.mem_x s.mem_y) (todo-next _ i rest _ e f) inv.writer))
Step-Inv {s} (read second i rest l r e f g) inv =
    read_second s rest l r (todo-next _ i rest _ e f) inv
Step-Inv {s} (read third i rest l r e f g) inv =
    let none_left : loads l r ∷ todo rest ≡ [] = sym (todo-next _ i rest _ e f) ∙ inv.idle2 in cc
Step-Inv {s} (wait w i rest e f g) inv = same_todo w s rest (todo-next _ i rest _ e f) inv
Step-Inv {s} (skip w i rest e f) inv = same_todo w s rest (todo-next _ i rest _ e f) inv
Step-Inv {s} (drain first x v q e) inv =
    let (writer', one) =
      Writer-drain_x (todo s.c0.prog) v q s.mem_x s.mem_y
        (subst (λ p. Writer (todo s.c0.prog) p s.mem_x s.mem_y) e inv.writer) in
    record {
      writer = writer';
      reader =
          subst (Reader (todo s.c1.prog) s.c1.reg_a s.c1.reg_b) (sym one)
            (Reader-set (todo s.c1.prog) s.c1.reg_a s.c1.reg_b s.mem_x inv.reader);
      quiet1 = inv.quiet1;
      idle2 = inv.idle2;
      quiet2 = inv.quiet2;
    }
Step-Inv {s} (drain first y v q e) inv = record {
  writer =
      Writer-drain_y (todo s.c0.prog) v q s.mem_x s.mem_y
        (subst (λ p. Writer (todo s.c0.prog) p s.mem_x s.mem_y) e inv.writer);
  reader = inv.reader;
  quiet1 = inv.quiet1;
  idle2 = inv.idle2;
  quiet2 = inv.quiet2;
}
Step-Inv {s} (drain second l v q e) inv =
    let none_waits : (l, v) ∷ q ≡ [] = sym e ∙ inv.quiet1 in cc
Step-Inv {s} (drain third l v q e) inv = let none_waits : (l, v) ∷ q ≡ [] = sym e ∙ inv.quiet2 in cc

Reaches-Inv : {s s' : State} → Reaches s s' → Inv s → Inv s'
Reaches-Inv started inv = inv
Reaches-Inv (then_step earlier step) inv = Step-Inv step (Reaches-Inv earlier inv)

round_start-Inv : (k : MapKind) (fenced : Bool) → Inv (round_start mp k fenced)
round_start-Inv k fenced = record {
  writer = fresh (todo-thread0-mp k fenced) refl refl;
  reader = before (todo-thread1-mp k fenced);
  quiet1 = refl;
  idle2 = unfold thread2 todo in refl;
  quiet2 = refl;
}

Reader-ends : {t : List Access} {a b mx : ℕ} → t ≡ [] → Reader t a b mx → (a == 1 && b == 0) ≡ false
Reader-ends none_left (before e) = cc
Reader-ends none_left (between e h) = cc
Reader-ends none_left (behind e h) = ground arith

-- The message-passing outcome is no outcome of TSO.
pub mp-is_witness :
    (k : MapKind) (fenced : Bool) (r : Results) → Outcome mp k fenced r → is_witness mp r ≡ false
unfolding is_witness
mp-is_witness k fenced r o =
    let s = o.state in
    let inv = Reaches-Inv o.run (round_start-Inv k fenced) in
    let none_left : todo s.c1.prog ≡ [] = ap todo o.done1 ∙ (unfold todo in refl) in
    rw o.recorded (Reader-ends none_left inv.reader)
