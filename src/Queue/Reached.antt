-- ===== src/Queue/Reached.antt =====
-- In every order of the steps no file is lost, and none is searched twice; and the workers end.
use the_silver_searcher.Base.{
  ℕ, ◌+◌, ◌*◌, ◌<◌, ◌≡◌, ◌≢◌, refl, ap, ◌∙◌, Bool, true, false, List, [], ◌∷◌, ◌++◌, length, arith,
  if◌then◌else◌,
}
use the_silver_searcher.Queue.{
  FilePath, Worker, idle, waiting, searching, finished, System, enqueue, dequeue, put, woken,
  finish_adding, Act, take, sleep, search, exit, Step, add_awake, add_signal, spurious, close, work,
  Reach, start, next,
}
use the_silver_searcher.Queue.Count.{
  weight, load, weight-append, load-woken, sum, sum-update, sum-nothing, sum-same,
}

abbrev is_some : List FilePath → Bool
is_some [] = false
is_some (p ∷ ps) = true

record Inv (n : ℕ) (s : System) : Type 0 where
  tail : s.has_tail ≡ is_some s.queue
  counted :
      (weigh : FilePath → ℕ)
      → weight weigh s.added
        ≡ weight weigh s.queue + sum (load weigh) n s.workers + weight weigh s.searched
  gone : (w : ℕ) → s.workers w ≡ finished → (s.done_adding_files ≡ true) × (s.queue ≡ [])
  awake : s.done_adding_files ≡ true → (w : ℕ) → s.workers w ≢ waiting

enqueue-Inv :
    (n : ℕ) (s : System) (path : FilePath)
    → s.done_adding_files ≡ false
    → Inv n s
    → Inv n (enqueue s path)
unfolding enqueue
enqueue-Inv n s path open_yet v = record {
  tail = ground (arith, tail_true s.has_tail s.queue path);
  counted = λ weigh. ground (
    arith,
    v.counted weigh,
    weight-append weigh s.queue (path ∷ []),
    v.tail,
    weight_nil weigh s.queue,
  );
  gone = λ w e. ground (arith, v.gone w e);
  awake = λ d w. v.awake d w;
}
  where
    tail_true :
        (b : Bool) (q : List FilePath) (path : FilePath)
        → is_some (if b then q ++ path ∷ [] else path ∷ []) ≡ true
    tail_true false q path = refl
    tail_true true [] path = refl
    tail_true true (p ∷ q) path = refl

    weight_nil : (weigh : FilePath → ℕ) (q : List FilePath) → is_some q ≡ false → weight weigh q ≡ 0
    weight_nil weigh [] h = refl
    weight_nil weigh (p ∷ q) h = cc

dequeue-Inv :
    (n : ℕ) (s : System) (w : ℕ) (path : FilePath) (rest : List FilePath)
    → w < n
    → s.workers w ≡ idle
    → s.queue ≡ path ∷ rest
    → Inv n s
    → Inv n (dequeue s w path rest)
unfolding dequeue
dequeue-Inv n s w path [] lt e q v = record {
  tail = refl;
  counted = λ weigh.
      ground (arith, v.counted weigh, sum-update (load weigh) n w s.workers (searching path) lt);
  gone = λ u f. ground (arith, v.gone u);
  awake = λ d u f. ground (arith, v.awake d u);
}
dequeue-Inv n s w path (p ∷ rest) lt e q v = record {
  tail = v.tail ∙ ap is_some q;
  counted = λ weigh.
      ground (arith, v.counted weigh, sum-update (load weigh) n w s.workers (searching path) lt);
  gone = λ u f. ground (arith, v.gone u);
  awake = λ d u f. ground (arith, v.awake d u);
}

enqueue-workers : (s : System) (path : FilePath) (w : ℕ) → (enqueue s path).workers w ≡ s.workers w
unfolding enqueue
enqueue-workers s path w = refl

-- A worker that holds no file, and is not gone, stops at the test of the queue.
put_idle-Inv :
    (n : ℕ) (s : System) (w : ℕ) → w < n → s.workers w ≡ waiting → Inv n s → Inv n (put s w idle)
put_idle-Inv n s w lt e v = record {
  tail = v.tail;
  counted = λ weigh. ground (arith, v.counted weigh, sum-update (load weigh) n w s.workers idle lt);
  gone = λ u f. ground (arith, v.gone u);
  awake = λ d u f. ground (arith, v.awake d u);
}

woken_awake : (k : Worker) → woken k ≢ waiting
woken_awake idle e = cc
woken_awake waiting e = cc
woken_awake (searching p) e = cc
woken_awake finished e = cc

woken_finished : (k : Worker) → woken k ≡ finished → k ≡ finished
woken_finished idle e = cc
woken_finished waiting e = cc
woken_finished (searching p) e = cc
woken_finished finished e = refl

finish_adding-Inv : (n : ℕ) (s : System) → Inv n s → Inv n (finish_adding s)
finish_adding-Inv n s v = record {
  tail = v.tail;
  counted = λ weigh. omega (
    arith,
    v.counted weigh,
    sum-same (load weigh) n s.workers (λ w. woken (s.workers w))
        (λ w. load-woken weigh (s.workers w)),
  );
  gone = λ w e. (refl, (v.gone w (woken_finished (s.workers w) e)).1);
  awake = λ d w. woken_awake (s.workers w);
}

Act-Inv : {n w : ℕ} {s t : System} → w < n → Act s w t → Inv n s → Inv n t
Act-Inv {n} {w} {s} lt (take path rest e q) v = dequeue-Inv n s w path rest lt e q v
Act-Inv {n} {w} {s} lt (sleep e q d) v = record {
  tail = v.tail;
  counted =
      λ weigh. ground (arith, v.counted weigh, sum-update (load weigh) n w s.workers waiting lt);
  gone = λ u f. ground (arith, v.gone u);
  awake = λ d' u f. absurd (cc);
}
Act-Inv {n} {w} {s} lt (search path e) v = record {
  tail = v.tail;
  counted = λ weigh. ground (arith, v.counted weigh, sum-update (load weigh) n w s.workers idle lt);
  gone = λ u f. ground (arith, v.gone u);
  awake = λ d u f. ground (arith, v.awake d u);
}
Act-Inv {n} {w} {s} lt (exit e q d) v = record {
  tail = v.tail;
  counted =
      λ weigh. ground (arith, v.counted weigh, sum-update (load weigh) n w s.workers finished lt);
  gone = λ u f. (d, q);
  awake = λ d u f. ground (arith, v.awake d u);
}

Step-Inv : {n : ℕ} {s t : System} → Step n s t → Inv n s → Inv n t
Step-Inv {n} {s} (add_awake path h none) v = enqueue-Inv n s path h v
Step-Inv {n} {s} (add_signal path w h lt e) v =
    put_idle-Inv n (enqueue s path) w lt (enqueue-workers s path w ∙ e) (enqueue-Inv n s path h v)
Step-Inv {n} {s} (spurious w lt e) v = put_idle-Inv n s w lt e v
Step-Inv {n} {s} (close h) v = finish_adding-Inv n s v
Step-Inv (work w lt a) v = Act-Inv lt a v

Reach-Inv : {n : ℕ} {s : System} → Reach n s → Inv n s
Reach-Inv {n} start = record {
  tail = refl;
  counted = λ weigh. omega (arith, sum-nothing (load weigh) n (λ _. idle) (λ w lt. refl));
  gone = λ w e. cc;
  awake = λ d w e. cc;
}
Reach-Inv (next r st) = Step-Inv st (Reach-Inv r)

-- Whatever the order of the steps, once every worker is gone the files searched are the files added, each
-- as often as it was added: they have the same weight, however files are weighed.
pub all_searched :
    {n : ℕ} {s : System}
    → 0 < n
    → Reach n s
    → ((w : ℕ) → w < n → s.workers w ≡ finished)
    → (weigh : FilePath → ℕ) → weight weigh s.added ≡ weight weigh s.searched
all_searched {n} {s} some_worker r all weigh =
    let v = Reach-Inv r in
    let q = (v.gone 0 (all 0 some_worker)).1 in
    omega (
      arith,
      v.counted weigh,
      ap (weight weigh) q,
      sum-nothing (load weigh) n s.workers (λ w lt. ap (load weigh) (all w lt)),
    )

-- Once no file is added any more, every worker that is not gone can take a step of its own: none sleeps
-- for good.
pub progress :
    {n : ℕ} {s : System} (w : ℕ)
    → Reach n s
    → s.done_adding_files ≡ true
    → s.workers w ≢ finished
    → (t : System) × Act s w t
progress {n} {s} w r closed alive = by_worker (s.workers w) refl
  where
    by_queue : (q : List FilePath) → s.queue ≡ q → s.workers w ≡ idle → (t : System) × Act s w t
    by_queue [] e i = (_, exit i e closed)
    by_queue (p ∷ rest) e i = (_, take p rest i e)

    by_worker : (k : Worker) → s.workers w ≡ k → (t : System) × Act s w t
    by_worker idle e = by_queue s.queue refl e
    by_worker waiting e = absurd ((Reach-Inv r).awake closed w e)
    by_worker (searching p) e = (_, search p e)
    by_worker finished e = absurd (alive e)

-- What a worker has still to do before it is gone, but for the files in the queue.
abbrev pub steps_of : Worker → ℕ
steps_of idle = 1
steps_of waiting = 1
steps_of (searching p) = 2
steps_of finished = 0

abbrev pub steps_left : ℕ → System → ℕ
steps_left n s = 3 * length s.queue + sum steps_of n s.workers

Act-fewer :
    {n w : ℕ} {s t : System}
    → w < n
    → s.done_adding_files ≡ true
    → Act s w t
    → (t.done_adding_files ≡ true) × (steps_left n t < steps_left n s)
unfolding dequeue
Act-fewer {n} {w} {s} lt closed (take path [] e q) =
    (closed, ground (arith, sum-update steps_of n w s.workers (searching path) lt, ap length q))
Act-fewer {n} {w} {s} lt closed (take path (p ∷ rest) e q) =
    (closed, ground (arith, sum-update steps_of n w s.workers (searching path) lt, ap length q))
Act-fewer lt closed (sleep e q d) = absurd (cc)
Act-fewer {n} {w} {s} lt closed (search path e) =
    (closed, ground (arith, sum-update steps_of n w s.workers idle lt))
Act-fewer {n} {w} {s} lt closed (exit e q d) =
    (closed, ground (arith, sum-update steps_of n w s.workers finished lt))

-- Once no file is added any more, every step leaves fewer steps to take, so the workers end.
pub Step-fewer :
    {n : ℕ} {s t : System}
    → Reach n s
    → s.done_adding_files ≡ true
    → Step n s t
    → (t.done_adding_files ≡ true) × (steps_left n t < steps_left n s)
Step-fewer r closed (add_awake path h none) = absurd (cc)
Step-fewer r closed (add_signal path w h lt e) = absurd (cc)
Step-fewer r closed (spurious w lt e) = absurd ((Reach-Inv r).awake closed w e)
Step-fewer r closed (close h) = absurd (cc)
Step-fewer r closed (work w lt a) = Act-fewer lt closed a
