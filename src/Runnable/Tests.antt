-- ===== src/Runnable/Tests.antt =====
-- A runnable that is stopped before it runs, and three instances of which two fail.
use srf.Base.{map, true, ◌≡◌, refl, false, [], ◌∷◌, ◌++◌, none, some, ok, throws, thrown}
use srf.Runnable.{
  owned, run, stop, order, new_runnable, Context, new_context, status, finish, kill_runnable,
  await_join,
}
use srf.Runnable.Climbing.{update_all, highest, Climbing, update_all-Climbing}
use srf.Runnable.Failure.{set_each, answer, foreign, set_each-first, await_join-first}

run_refused : (update_all (owned ∷ stop ∷ run ∷ []) new_runnable).updates ≡ owned ∷ stop ∷ []
unfolding update_all
run_refused = refl

update_all-Climbing_example :
    (order (update_all (owned ∷ stop ∷ run ∷ []) new_runnable).state
      ≡ highest 0 (owned ∷ stop ∷ run ∷ []))
    × Climbing (update_all (owned ∷ stop ∷ run ∷ []) new_runnable).updates
update_all-Climbing_example = update_all-Climbing (owned ∷ stop ∷ run ∷ [])

abbrev failed : Context
failed = record (new_context 0 1) { exception = some 7 }

set_each-first_example :
    (set_each (map foreign (6 ∷ []) ++ []) (new_context 0 1, new_runnable)
      ≡ (map answer (map foreign (6 ∷ []) ++ []), (new_context 0 1, new_runnable)))
    × (finish (new_context 0 1) ≡ (ok tt, new_context 0 1))
    × (set_each
          (map foreign (6 ∷ []) ++ ((true, 7) ∷ (false, 9) ∷ (true, 8) ∷ []))
          (new_context 0 1, new_runnable)
        ≡ (
          map answer (map foreign (6 ∷ []) ++ ((true, 7) ∷ (false, 9) ∷ (true, 8) ∷ [])),
          (failed, kill_runnable new_runnable),
        ))
    × (status failed ≡ false)
    × (finish failed ≡ (throws (thrown 7), failed))
set_each-first_example =
    set_each-first (6 ∷ []) 7 ((false, 9) ∷ (true, 8) ∷ []) (new_context 0 1) new_runnable refl

await_join-first_example :
    (await_join ((none ∷ []) ++ []) ≡ (ok tt, []))
    × (await_join ((none ∷ []) ++ (some (thrown 7) ∷ some (thrown 8) ∷ []))
        ≡ (throws (thrown 7), []))
await_join-first_example = await_join-first (none ∷ []) (some (thrown 8) ∷ []) (thrown 7) (refl, tt)
