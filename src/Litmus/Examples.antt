-- ===== src/Litmus/Examples.antt =====
-- A round of the message-passing test of oryx_litmus.c in which the reader sees both stores.
use oryx.Prelude.{◌≡◌, refl, ◌≢◌, true, false, [], ◌∷◌}
use oryx.Litmus.Harness.{
  map_store, map_load, barrier, thread0, thread1, thread2, Results, is_witness, witnesses, x, y, ra,
  rb, mp, sb, plain_map, sc_map, dmb_map, str, stlr, ldr, ldar, dmb_ish,
}
use oryx.Litmus.Machine.{
  State, Reaches, ready, round_start, results, Outcome, first, second, issue, read, wait, drain,
  started, then_step,
}
use oryx.Litmus.Counts.{witnesses-Outcome, witnesses-is_sequenced, sb-is_witness}

abbrev both_seen : State
both_seen = record {
  mem_x = 1;
  mem_y = 1;
  c0 = ready [];
  c1 = record { prog = []; queue = []; reg_a = 1; reg_b = 1 };
  c2 = ready [];
}

Reaches-both_seen : Reaches (round_start mp plain_map true) both_seen
unfolding thread0 thread1 thread2 map_store map_load barrier
Reaches-both_seen =
    then_step
      (then_step
        (then_step
          (then_step
            (then_step
              (then_step
                (then_step
                  (then_step started (issue first (str x 1) (dmb_ish ∷ str y 1 ∷ []) x 1 refl refl))
                  (drain first x 1 [] refl))
                (wait first dmb_ish (str y 1 ∷ []) refl refl refl))
              (issue first (str y 1) [] y 1 refl refl))
            (drain first y 1 [] refl))
          (read second (ldr y ra) (dmb_ish ∷ ldr x rb ∷ []) y ra refl refl (λ e. cc)))
        (wait second dmb_ish (ldr x rb ∷ []) refl refl refl))
      (read second (ldr x rb) [] x rb refl refl (λ e. cc))

both_seen-Outcome : Outcome mp plain_map true (results both_seen)
both_seen-Outcome = record {
  state = both_seen;
  run = Reaches-both_seen;
  done0 = refl;
  done1 = refl;
  done2 = refl;
  recorded = refl;
}

mp-ne-sb : mp ≢ sb
mp-ne-sb e = cc

witnesses-Outcome_example : witnesses mp (results both_seen ∷ results both_seen ∷ []) ≡ 0
witnesses-Outcome_example =
    witnesses-Outcome mp plain_map true (results both_seen ∷ results both_seen ∷ []) mp-ne-sb
      (both_seen-Outcome, (both_seen-Outcome, tt))

dmb-ne-sc : dmb_map ≢ sc_map
dmb-ne-sc e = cc

sb-is_witness_example : (r : Results) × Outcome sb dmb_map false r × (is_witness sb r ≡ true)
sb-is_witness_example = sb-is_witness dmb_map dmb-ne-sc

-- Both loads wait for both stores.
abbrev both_stored : State
both_stored = record {
  mem_x = 1;
  mem_y = 1;
  c0 = record { prog = []; queue = []; reg_a = 1; reg_b = 0 };
  c1 = record { prog = []; queue = []; reg_a = 1; reg_b = 0 };
  c2 = ready [];
}

Reaches-both_stored : Reaches (round_start sb sc_map false) both_stored
unfolding thread0 thread1 thread2 map_store map_load barrier
Reaches-both_stored =
    then_step
      (then_step
        (then_step
          (then_step
            (then_step (then_step started (issue first (stlr x 1) (ldar y ra ∷ []) x 1 refl refl))
              (issue second (stlr y 1) (ldar x ra ∷ []) y 1 refl refl))
            (drain first x 1 [] refl))
          (drain second y 1 [] refl))
        (read first (ldar y ra) [] y ra refl refl (λ e. refl)))
      (read second (ldar x ra) [] x ra refl refl (λ e. refl))

both_stored-Outcome : Outcome sb sc_map false (results both_stored)
both_stored-Outcome = record {
  state = both_stored;
  run = Reaches-both_stored;
  done0 = refl;
  done1 = refl;
  done2 = refl;
  recorded = refl;
}

witnesses-is_sequenced_example : witnesses sb (results both_stored ∷ []) ≡ 0
witnesses-is_sequenced_example =
    witnesses-is_sequenced sc_map false (results both_stored ∷ []) refl (both_stored-Outcome, tt)
