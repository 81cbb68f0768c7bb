-- ===== src/Program/Examples.antt =====
-- Runs of the program's parts, and the theorems at them.
use the_silver_searcher.Base.{ℕ, zero, suc, ◌≤◌, ◌<◌, ◌≡◌, refl, true, false, some, [], done, arith}
use the_silver_searcher.Base.Signed.{pos, negsuc}
use the_silver_searcher.Queue.{
  finished, System, enqueue, dequeue, after_search, put, finish_adding, take, search, exit,
  add_awake, close, work, init, Reach, start, next,
}
use the_silver_searcher.Queue.Examples.{path, ended, ended-Reach, ended_finished}
use the_silver_searcher.Buffer.Examples.{files, file, abb, at_begin, abb-IsSound}
use the_silver_searcher.Program.{workers_len, run_status}
use the_silver_searcher.Program.Status.{oldest_first, run_status-any_order}

-- Two workers; the second one takes the file before any falls asleep.
abbrev added : System
added = enqueue init path

abbrev closed : System
closed = finish_adding (after_search (dequeue added 1 path []) 1 path)

abbrev both_gone : System
both_gone = put (put closed 0 finished) 1 finished

both_gone-Reach : Reach 2 both_gone
unfolding enqueue dequeue
both_gone-Reach =
    next
      (next
        (next
          (next
            (next (next start (add_awake path refl (λ i lt e. cc)))
              (work 1 (omega arith) (take path [] refl refl)))
            (work 1 (omega arith) (search path refl)))
          (close refl))
        (work 0 (omega arith) (exit refl refl refl)))
      (work 1 (omega arith) (exit refl refl refl))

both_finished : (i : ℕ) → i < 2 → both_gone.workers i ≡ finished
unfolding enqueue dequeue
both_finished zero lt = refl
both_finished (suc zero) lt = refl
both_finished (suc (suc i)) lt = absurd (omega (arith, lt))

run_status-any_order_example :
    (status : ℕ) × (status ≤ 1)
    × (run_status files (λ p. file abb) (oldest_first ended.searched) at_begin ≡ done (some status))
    × (run_status files (λ p. file abb) (oldest_first both_gone.searched) at_begin
        ≡ done (some status))
unfolding enqueue dequeue
run_status-any_order_example =
    run_status-any_order files (λ p. file abb) refl refl (omega arith) (omega arith) (λ t h. refl)
      (λ p. abb-IsSound) 1 2 ended both_gone (omega arith) (omega arith) ended-Reach both_gone-Reach
      ended_finished both_finished (λ weigh. refl) at_begin refl

eight_at_most : workers_len (pos 12) false (pos 0) ≡ 8
unfolding workers_len
eight_at_most = refl

one_left_for_literal : workers_len (pos 4) true (pos 0) ≡ 3
unfolding workers_len
one_left_for_literal = refl

one_at_least : workers_len (negsuc 0) true (negsuc 4) ≡ 1
unfolding workers_len
one_at_least = refl
