-- ===== src/Litmus/Counts.antt =====
-- What oryx_litmus.c counts on the TSO machine.
use oryx.Prelude.{All, ◌≡◌, refl, ◌≢◌, Bool, true, false, List, [], ◌∷◌, arith}
use oryx.Litmus.Harness.{
  Test, MapKind, map_store, map_load, barrier, thread0, thread1, thread2, Results, is_witness,
  witnesses, x, y, ra, mp, sb, wrc, plain_map, rcpc_map, sc_map, dmb_map, str, stlr, ldr, ldapr,
  dmb_ishst, dmb_ishld,
}
use oryx.Litmus.Machine.{
  State, Reaches, ready, round_start, results, Outcome, first, second, issue, read, skip, started,
  then_step,
}
use oryx.Litmus.Messages.{mp-is_witness}
use oryx.Litmus.Causality.{wrc-is_witness}
use oryx.Litmus.Sequenced.{is_sequenced, sb-is_sequenced}

none_counted :
    (t : Test) (k : MapKind) (fenced : Bool) (rounds : List Results)
    → ((r : Results) → Outcome t k fenced r → is_witness t r ≡ false)
    → All (Outcome t k fenced) rounds
    → witnesses t rounds ≡ 0
unfolding witnesses
none_counted t k fenced [] never outcomes = refl
none_counted t k fenced (r ∷ rounds) never outcomes =
    rw (never r outcomes.0) (omega (arith, none_counted t k fenced rounds never outcomes.1))

-- On a machine with total store order, under each mapping and in both modes, any number of rounds
-- of the message-passing test, and of the test of three threads, counts no witness.
pub witnesses-Outcome :
    (t : Test) (k : MapKind) (fenced : Bool) (rounds : List Results)
    → t ≢ sb
    → All (Outcome t k fenced) rounds
    → witnesses t rounds ≡ 0
witnesses-Outcome mp k fenced rounds other outcomes =
    none_counted mp k fenced rounds (mp-is_witness k fenced) outcomes
witnesses-Outcome wrc k fenced rounds other outcomes =
    none_counted wrc k fenced rounds (wrc-is_witness k fenced) outcomes
witnesses-Outcome sb k fenced rounds other outcomes = absurd (other refl)

-- On a machine with total store order, where an LDAR waits for the earlier stores of its core, any number of rounds of the
-- store-buffer test counts no witness under the mapping `sc`, and none in the mode with full barriers under the plain mapping.
pub witnesses-is_sequenced :
    (k : MapKind) (fenced : Bool) (rounds : List Results)
    → is_sequenced k fenced ≡ true
    → All (Outcome sb k fenced) rounds
    → witnesses sb rounds ≡ 0
witnesses-is_sequenced k fenced rounds sequenced outcomes =
    none_counted sb k fenced rounds (λ r. sb-is_sequenced k fenced r sequenced) outcomes

-- Both stores still wait while both loads are made.
abbrev both_wait : State
both_wait = record {
  mem_x = 0;
  mem_y = 0;
  c0 = record { prog = []; queue = (x, 1) ∷ []; reg_a = 0; reg_b = 0 };
  c1 = record { prog = []; queue = (y, 1) ∷ []; reg_a = 0; reg_b = 0 };
  c2 = ready [];
}

Reaches-both_wait : (k : MapKind) → k ≢ sc_map → Reaches (round_start sb k false) both_wait
unfolding thread0 thread1 thread2 map_store map_load barrier
Reaches-both_wait plain_map unsequenced =
    then_step
      (then_step
        (then_step (then_step started (issue first (str x 1) (ldr y ra ∷ []) x 1 refl refl))
          (issue second (str y 1) (ldr x ra ∷ []) y 1 refl refl))
        (read first (ldr y ra) [] y ra refl refl (λ e. cc)))
      (read second (ldr x ra) [] x ra refl refl (λ e. cc))
Reaches-both_wait rcpc_map unsequenced =
    then_step
      (then_step
        (then_step (then_step started (issue first (stlr x 1) (ldapr y ra ∷ []) x 1 refl refl))
          (issue second (stlr y 1) (ldapr x ra ∷ []) y 1 refl refl))
        (read first (ldapr y ra) [] y ra refl refl (λ e. cc)))
      (read second (ldapr x ra) [] x ra refl refl (λ e. cc))
Reaches-both_wait sc_map unsequenced = absurd (unsequenced refl)
Reaches-both_wait dmb_map unsequenced =
    then_step
      (then_step
        (then_step
          (then_step
            (then_step
              (then_step
                (then_step
                  (then_step started
                    (skip first dmb_ishst (str x 1 ∷ ldr y ra ∷ dmb_ishld ∷ []) refl refl))
                  (skip second dmb_ishst (str y 1 ∷ ldr x ra ∷ dmb_ishld ∷ []) refl refl))
                (issue first (str x 1) (ldr y ra ∷ dmb_ishld ∷ []) x 1 refl refl))
              (issue second (str y 1) (ldr x ra ∷ dmb_ishld ∷ []) y 1 refl refl))
            (read first (ldr y ra) (dmb_ishld ∷ []) y ra refl refl (λ e. cc)))
          (read second (ldr x ra) (dmb_ishld ∷ []) x ra refl refl (λ e. cc)))
        (skip first dmb_ishld [] refl refl))
      (skip second dmb_ishld [] refl refl)

-- On a machine with total store order, where an LDAR waits for the earlier stores of its core, a round of the store-buffer test
-- without a full barrier can give the witness under every mapping but `sc`.
pub sb-is_witness :
    (k : MapKind) → k ≢ sc_map → (r : Results) × Outcome sb k false r × (is_witness sb r ≡ true)
unfolding is_witness
sb-is_witness k unsequenced = (
  results both_wait,
  record {
    state = both_wait;
    run = Reaches-both_wait k unsequenced;
    done0 = refl;
    done1 = refl;
    done2 = refl;
    recorded = refl;
  },
  refl,
)
