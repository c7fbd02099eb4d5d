-- ===== src/RunStore/Samples.antt =====
-- A session, and the theorems on histories at it.
use atomyx.Prelude.{◌≡◌, ◌≢◌, refl, List, [], ◌∷◌, ◌++◌, map, none, some, codes, pos, All}
use atomyx.RunStore.{RunRecord, new_run_store, new_bug, record_bug, run_status_running}
use atomyx.RunStore.History.{
  Call, starts, finishes, increments, records_bug, apply_all, IsValid, over, ids, ids_from,
  apply_all-IsValid, apply_all-ids, bug_ids,
}
use atomyx.RunStore.Ids.{record_bug-fresh}

abbrev session : List Call
session =
    starts (record { name = codes "login"; source = none }) (pos 5) (pos 5)
    ∷ increments
    ∷ records_bug (record { title = codes "t"; description = codes "d"; screenshot_path = none })
        (pos 7)
    ∷ starts (record { name = codes "checkout"; source = none }) (pos 9) (pos 9)
    ∷ finishes [] (pos 11)
    ∷ starts (record { name = codes "logout"; source = none }) (pos 12) (pos 13)
    ∷ []

-- The first run was never finished: the second start hands it back.
first_run_returned :
    ids ((apply_all session new_run_store).0) ≡ codes "run-5-1" ∷ codes "run-9-2" ∷ []
unfolding apply_all new_run_store
first_run_returned = refl

apply_all-IsValid_example : IsValid (apply_all session new_run_store).1
unfolding new_run_store over
apply_all-IsValid_example = apply_all-IsValid session new_run_store tt

apply_all-ids_example :
    ids ((apply_all session new_run_store).0)
      ++ ids (over (((apply_all session new_run_store).1).active))
    ≡ ids (over (new_run_store.active)) ++ ids_from (new_run_store.next_id) session
unfolding new_run_store over
apply_all-ids_example = apply_all-ids session new_run_store tt

abbrev fresh_run : RunRecord
fresh_run = record {
  id = codes "run-5-1";
  name = codes "login";
  source = codes "unknown";
  started_at = pos 5;
  finished_at = none;
  status = run_status_running;
  action_count = 0;
  findings = [];
}

abbrev crash : RunRecord
unfolding new_bug
crash = record fresh_run {
  findings =
      new_bug (record { title = codes "t"; description = codes "d"; screenshot_path = none })
        (pos 6) fresh_run
      ∷ [];
}

record_bug-fresh_example :
    (record_bug
        (record { title = codes "u"; description = codes "e"; screenshot_path = none })
        (pos 7)
        (record { active = some crash; next_id = 2 })).0
      ≡ some (
          new_bug
            (record { title = codes "u"; description = codes "e"; screenshot_path = none })
            (pos 7)
            crash)
    × All
        (λ i.
          i
          ≢ (new_bug
              (record { title = codes "u"; description = codes "e"; screenshot_path = none })
              (pos 7)
              crash).id)
        (map (λ b. b.id) crash.findings)
unfolding crash bug_ids
record_bug-fresh_example =
    record_bug-fresh (record { title = codes "u"; description = codes "e"; screenshot_path = none })
      (pos 7) crash 2 (record { running = refl; unfinished = refl; numbered = refl })
