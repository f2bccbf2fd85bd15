-- ===== src/Tests/Tasks.antt =====
-- Coroutines that await each other and events.
use luce.Prelude.{
  ◌≡◌, refl, ℕ, ◌+◌, ◌*◌, ltb, false, [], ◌∷◌, ◌++◌, some, none, ok, undefined, arith,
}
use luce.Task.{
  frame_at, final_suspend, await_suspend, await_resume, suspend, wake, destroy, Body, returns,
  awaits, suspends, new_frame, resume, run, done, Gives, gives_value, gives_event, gives_loop,
  gives_task, loops, unroll, and_then,
}
use luce.Task.Frames.{frame, gone}
use luce.Task.Finishing.{resume-result}
use luce.Task.Running.{run-ended}
use luce.Task.Owners.{Program, makes, moves, swaps, ends, no_tasks, use_task, Reached, starts, uses}
use luce.Task.Owning.{IsOwned, use_task-safe}

-- awaits a task that awaits another and an event, and then one that depends on the result
abbrev sum_up : Body ℕ
sum_up =
    awaits (awaits (returns 3) (λ n. suspends (λ e. returns (n + e))))
      (λ n. awaits (returns (n * 10)) (λ m. returns (m + n)))

-- adds up what tasks wait for, while the sum is below 5
abbrev add_up : Body ℕ
add_up =
    loops 0 (λ n. awaits (suspends (λ e. returns e)) (λ e. returns (n + e))) (λ n. ltb n 5) returns

add_up-Gives : Gives add_up (3 ∷ 4 ∷ 9 ∷ []) 7 10 2 (9 ∷ [])
unfolding unroll and_then
add_up-Gives = gives_loop _ _ _ _ _ _ _ _ _ (
    gives_task _ _ _ _ _ _ _ _ _ _ _ (gives_event _ _ _ _ _ _ _ (gives_value _ _)) (
      gives_loop _ _ _ _ _ _ _ _ _ (
        gives_task _ _ _ _ _ _ _ _ _ _ _ (gives_event _ _ _ _ _ _ _ (gives_value _ _))
          (gives_value _ _))))

resume-result_example :
    resume 11 0 (some (new_frame add_up) ∷ []) (3 ∷ 4 ∷ 9 ∷ [])
    ≡ ok ([] ++ (some (frame done (some 7) none false) ∷ gone 2))
resume-result_example = resume-result add_up (3 ∷ 4 ∷ 9 ∷ []) 7 10 2 (9 ∷ []) [] add_up-Gives

resume_on_one_event :
    resume 20 0 (some (new_frame sum_up) ∷ []) (1 ∷ [])
    ≡ ok (some (frame done (some 44) none false) ∷ gone 3)
unfolding resume new_frame frame_at final_suspend await_suspend await_resume suspend wake destroy
resume_on_one_event = refl

run-ended_example :
    run {T = ℕ} (ok 0) 4 (some 0) (some (new_frame (awaits (returns 3) returns)) ∷ []) ≡ undefined
run-ended_example =
    run-ended {T = ℕ} (ok 0) (awaits (returns 3) returns) 3 3 1 []
      (gives_task _ _ _ _ _ _ _ _ _ _ _ (gives_value _ _) (gives_value _ _))

-- two coroutines, of which the first Task has moved into a third and then changed places with the
-- second
abbrev two_made : Program ℕ
two_made = record {
  tasks = some 0 ∷ some 1 ∷ [];
  frames = some (new_frame sum_up) ∷ some (new_frame sum_up) ∷ [];
}

abbrev changed : Program ℕ
changed = record two_made { tasks = some 1 ∷ none ∷ some 0 ∷ [] }

changed-Reached : Reached changed
unfolding use_task
changed-Reached =
    uses (swaps 0 1) _ _
      (uses (moves 0) two_made _
        (uses (makes sum_up) _ _ (uses (makes sum_up) no_tasks _ starts tt refl) tt refl)
        (omega arith) refl)
      (omega arith, omega arith) refl

use_task-safe_example : (p' : Program ℕ) × (use_task (ends 2) changed ≡ ok p') × IsOwned p'
use_task-safe_example = use_task-safe (ends 2) changed changed-Reached (omega arith)
