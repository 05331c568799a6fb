-- ===== src/Litmus/Todo.antt =====
-- What a thread of oryx_litmus.c still has to do on the TSO machine: its stores and loads, whatever instructions make them.
use oryx.Prelude.{ℕ, ◌≡◌, refl, ap, ap₂, ◌∙◌, Bool, true, false, List, [], ◌∷◌, ◌++◌}
use oryx.Litmus.Harness.{
  Loc, Reg, MapKind, Instr, map_store, map_load, barrier, thread0, thread1, thread2, x, y, ra, rb,
  mp, wrc, plain_map, rcpc_map, sc_map, dmb_map,
}
use oryx.Litmus.Machine.{Access, access, stores, loads, waits, nothing}

abbrev pub kept : Access → List Access → List Access
kept (stores l v) todos = stores l v ∷ todos
kept (loads l r) todos = loads l r ∷ todos
kept waits todos = todos
kept nothing todos = todos

unfoldable pub todo : List Instr → List Access
todo [] = []
todo (i ∷ p) = kept (access i) (todo p)

pub todo-next :
    (prog : List Instr) (i : Instr) (rest : List Instr) (a : Access)
    → prog ≡ i ∷ rest
    → access i ≡ a
    → todo prog ≡ kept a (todo rest)
unfolding todo
todo-next prog i rest a e f = ap todo e ∙ ap (λ b. kept b (todo rest)) f

todo-append : (p q : List Instr) → todo (p ++ q) ≡ todo p ++ todo q
unfolding todo
todo-append [] q = refl
todo-append (i ∷ p) q =
    ap (kept (access i)) (todo-append p q) ∙ kept-append (access i) (todo p) (todo q)
  where
    kept-append :
        (a : Access) (todos more : List Access) → kept a (todos ++ more) ≡ kept a todos ++ more
    kept-append (stores l v) todos more = refl
    kept-append (loads l r) todos more = refl
    kept-append waits todos more = refl
    kept-append nothing todos more = refl

todo-map_store : (k : MapKind) (l : Loc) (v : ℕ) → todo (map_store k l v) ≡ stores l v ∷ []
unfolding todo map_store
todo-map_store rcpc_map l v = refl
todo-map_store sc_map l v = refl
todo-map_store dmb_map l v = refl
todo-map_store plain_map l v = refl

todo-map_load : (k : MapKind) (l : Loc) (r : Reg) → todo (map_load k l r) ≡ loads l r ∷ []
unfolding todo map_load
todo-map_load rcpc_map l r = refl
todo-map_load sc_map l r = refl
todo-map_load dmb_map l r = refl
todo-map_load plain_map l r = refl

todo-barrier : (k : MapKind) (fenced : Bool) → todo (barrier k fenced) ≡ []
unfolding todo barrier
todo-barrier plain_map true = refl
todo-barrier plain_map false = refl
todo-barrier rcpc_map fenced = refl
todo-barrier sc_map fenced = refl
todo-barrier dmb_map fenced = refl

module _ (k : MapKind) (fenced : Bool) where
  around_barrier : (p q : List Instr) → todo (p ++ (barrier k fenced ++ q)) ≡ todo p ++ todo q
  around_barrier p q =
      todo-append p (barrier k fenced ++ q)
      ∙ ap (λ t. todo p ++ t)
          (todo-append (barrier k fenced) q ∙ ap (λ t. t ++ todo q) (todo-barrier k fenced))

  pub todo-thread0-mp : todo (thread0 mp k fenced) ≡ stores x 1 ∷ stores y 1 ∷ []
  unfolding thread0
  todo-thread0-mp =
      around_barrier (map_store k x 1) (map_store k y 1)
      ∙ ap₂ (λ (s t : List Access). s ++ t) (todo-map_store k x 1) (todo-map_store k y 1)

  pub todo-thread1-mp : todo (thread1 mp k fenced) ≡ loads y ra ∷ loads x rb ∷ []
  unfolding thread1
  todo-thread1-mp =
      around_barrier (map_load k y ra) (map_load k x rb)
      ∙ ap₂ (λ (s t : List Access). s ++ t) (todo-map_load k y ra) (todo-map_load k x rb)

  pub todo-thread0-wrc : todo (thread0 wrc k fenced) ≡ stores x 1 ∷ []
  unfolding thread0
  todo-thread0-wrc = todo-map_store k x 1

  pub todo-thread1-wrc : todo (thread1 wrc k fenced) ≡ loads x ra ∷ stores y 1 ∷ []
  unfolding thread1
  todo-thread1-wrc =
      todo-append (map_load k x ra) (map_store k y 1)
      ∙ ap₂ (λ (s t : List Access). s ++ t) (todo-map_load k x ra) (todo-map_store k y 1)

pub todo-thread2-wrc : (k : MapKind) → todo (thread2 wrc k) ≡ loads y ra ∷ loads x rb ∷ []
unfolding thread2
todo-thread2-wrc k =
    todo-append (map_load k y ra) (map_load k x rb)
    ∙ ap₂ (λ (s t : List Access). s ++ t) (todo-map_load k y ra) (todo-map_load k x rb)
