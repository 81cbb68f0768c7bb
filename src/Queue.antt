-- ===== src/Queue.antt =====
-- The work queue of src/search.c: `search_dir` puts files into it, the threads of `search_file_worker`
-- take them out. Each step is what a thread does under the mutex, or the search of one file.
pub mod Count
pub mod Reached
pub mod Examples
use the_silver_searcher.Base.{
  ℕ, ◌≡◌, ◌≢◌, ◌<◌, Bool, true, false, List, [], ◌∷◌, ◌++◌, if◌then◌else◌, update,
}

abbrev pub FilePath : Type 0
FilePath = List ℕ

-- Where a worker stands: at the test of the queue, asleep in `pthread_cond_wait`, searching a file, or gone.
pub data Worker : Type 0 where
  idle : Worker
  waiting : Worker
  searching : FilePath → Worker
  finished : Worker

-- `work_queue` as the list it leads to; `has_tail` is `work_queue_tail != NULL`. `added` and `searched`
-- are not in the code: they record the files put in and searched.
pub record System : Type 0 where
  pub queue : List FilePath
  pub has_tail : Bool
  pub done_adding_files : Bool
  pub workers : ℕ → Worker
  pub added : List FilePath
  pub searched : List FilePath

-- With no tail the item becomes the whole queue, else it is hung behind the tail.
unfoldable pub enqueue : System → FilePath → System
enqueue s path = record s {
  queue = if s.has_tail then s.queue ++ path ∷ [] else path ∷ [];
  has_tail = true;
  added = path ∷ s.added;
}

-- The first item is taken off; the tail is reset with the last one.
unfoldable pub dequeue : System → (w : ℕ) → FilePath → (rest : List FilePath) → System
dequeue s w path [] = record s {
  queue = [];
  has_tail = false;
  workers = update s.workers w (searching path);
}
dequeue s w path (p ∷ rest) = record s {
  queue = p ∷ rest;
  workers = update s.workers w (searching path);
}

abbrev pub after_search : System → (w : ℕ) → FilePath → System
after_search s w path = record s { workers = update s.workers w idle; searched = path ∷ s.searched }

abbrev pub put : System → (w : ℕ) → Worker → System
put s w k = record s { workers = update s.workers w k }

-- What `pthread_cond_signal` and `pthread_cond_broadcast` do to a worker that sleeps.
abbrev pub woken : Worker → Worker
woken idle = idle
woken waiting = idle
woken (searching path) = searching path
woken finished = finished

abbrev pub finish_adding : System → System
finish_adding s = record s { done_adding_files = true; workers = λ w. woken (s.workers w) }

-- What worker `w` does next.
pub data Act (s : System) (w : ℕ) : System → Type 0 where
  take :
      (path : FilePath) (rest : List FilePath)
      → s.workers w ≡ idle
      → s.queue ≡ path ∷ rest
      → Act s w (dequeue s w path rest)
  sleep :
      s.workers w ≡ idle → s.queue ≡ [] → s.done_adding_files ≡ false → Act s w (put s w waiting)
  search : (path : FilePath) → s.workers w ≡ searching path → Act s w (after_search s w path)
  exit : s.workers w ≡ idle → s.queue ≡ [] → s.done_adding_files ≡ true → Act s w (put s w finished)

-- `n` workers; any of them, or the thread that adds files, may go next. A signal wakes one worker that
-- sleeps, if there is one, and a worker may wake up without a signal.
pub data Step (n : ℕ) (s : System) : System → Type 0 where
  add_awake :
      (path : FilePath)
      → s.done_adding_files ≡ false
      → ((w : ℕ) → w < n → s.workers w ≢ waiting)
      → Step n s (enqueue s path)
  add_signal :
      (path : FilePath) (w : ℕ)
      → s.done_adding_files ≡ false
      → w < n
      → s.workers w ≡ waiting
      → Step n s (put (enqueue s path) w idle)
  spurious : (w : ℕ) → w < n → s.workers w ≡ waiting → Step n s (put s w idle)
  close : s.done_adding_files ≡ false → Step n s (finish_adding s)
  work : {t : System} → (w : ℕ) → w < n → Act s w t → Step n s t

abbrev pub init : System
init = record {
  queue = [];
  has_tail = false;
  done_adding_files = false;
  workers = λ _. idle;
  added = [];
  searched = [];
}

pub data Reach (n : ℕ) : System → Type 0 where
  start : Reach n init
  next : {s t : System} → Reach n s → Step n s t → Reach n t
