-- ===== src/Queue/Examples.antt =====
-- A run of one worker and one file, and the theorems of the queue at that run.
use the_silver_searcher.Base.{ℕ, zero, suc, ◌<◌, ◌≡◌, ◌≢◌, refl, true, [], ◌∷◌, length, arith}
use the_silver_searcher.Queue.{
  FilePath, idle, waiting, finished, System, enqueue, dequeue, after_search, put, finish_adding,
  Act, take, sleep, search, exit, Step, add_signal, close, work, init, Reach, start, next,
}
use the_silver_searcher.Queue.Count.{weight}
use the_silver_searcher.Queue.Reached.{all_searched, progress, steps_left, Step-fewer}

abbrev pub path : FilePath
path = b'a' ∷ []

-- The worker falls asleep, is woken by the file, and searches it; no other comes.
abbrev asleep : System
asleep = put init 0 waiting

abbrev added : System
added = put (enqueue asleep path) 0 idle

abbrev taken : System
taken = dequeue added 0 path []

abbrev searched : System
searched = after_search taken 0 path

abbrev closed : System
closed = finish_adding searched

abbrev pub ended : System
ended = put closed 0 finished

closed-Reach : Reach 1 closed
unfolding enqueue dequeue
closed-Reach =
    next
      (next
        (next
          (next (next start (work 0 (omega arith) (sleep refl refl refl)))
            (add_signal path 0 refl (omega arith) refl))
          (work 0 (omega arith) (take path [] refl refl)))
        (work 0 (omega arith) (search path refl)))
      (close refl)

final_move : Step 1 closed ended
unfolding enqueue dequeue
final_move = work 0 (omega arith) (exit refl refl refl)

pub ended-Reach : Reach 1 ended
ended-Reach = next closed-Reach final_move

pub ended_finished : (w : ℕ) → w < 1 → ended.workers w ≡ finished
ended_finished zero lt = refl
ended_finished (suc w) lt = absurd (omega arith)

closed_alive : closed.workers 0 ≢ finished
unfolding enqueue dequeue
closed_alive e = cc

all_searched_example : weight length ended.added ≡ weight length ended.searched
all_searched_example = all_searched (omega arith) ended-Reach ended_finished length

progress_example : (t : System) × Act closed 0 t
unfolding enqueue dequeue
progress_example = progress 0 closed-Reach refl closed_alive

Step-fewer_example : (ended.done_adding_files ≡ true) × (steps_left 1 ended < steps_left 1 closed)
unfolding enqueue dequeue
Step-fewer_example = Step-fewer closed-Reach refl final_move
