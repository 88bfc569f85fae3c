-- ===== src/Net/EventLoop/Deferring.antt =====
-- The deferred tasks over any interleaving of threads that defer and rounds of the loop.
use api_gateway.Prelude.{
  ◌≡◌, refl, ap, sym, ◌∙◌, true, not, ◌||◌, List, [], ◌∷◌, ◌++◌, length, take, drop, is_empty, ℕ,
  zero, suc, min, arith, length-take, append_assoc, take-append-drop,
}
use mathlib.Core.List.{flat_map}
use api_gateway.Prelude.Int.{ℤ, pos, negsuc}
use api_gateway.Net.EventLoop.{EventLoop, event_loop, defer, batch, deferred_by, run_deferred_tasks}

-- How many of the waiting tasks a round runs: all of them, or as many as a positive limit allows.
abbrev pub quota : ℤ → ℕ → ℕ
quota (pos zero) total = total
quota (pos (suc k)) total = min (suc k) total
quota (negsuc k) total = total

batch-quota : (limit : ℤ) (total : ℕ) → min (batch limit total) total ≡ quota limit total
unfolding batch
batch-quota (pos zero) total = ground arith
batch-quota (pos (suc k)) total = ground arith
batch-quota (negsuc k) total = ground arith

module _ {ℓ} {Task : Type ℓ} (defers : Task → List Task) where
  -- A thread defers a task, or the loop runs a round.
  pub data Action : Type ℓ where
    deferring : Task → Action
    running : Action

  -- The loop, all tasks in the order in which threads and executed tasks have deferred them, and
  -- all that have been executed in order.
  pub record Log : Type ℓ where
    pub loop : EventLoop Task
    pub submitted : List Task
    pub executed : List Task

  unfoldable pub act : Action → Log → Log
  unfolding defer run_deferred_tasks
  act (deferring t) w = record w { loop = defer t w.loop; submitted = w.submitted ++ t ∷ [] }
  act running w =
      let (loop', done_) = run_deferred_tasks defers w.loop in
      record {
        loop = loop';
        submitted = w.submitted ++ flat_map defers done_;
        executed = w.executed ++ done_;
      }

  unfoldable pub act_all : List Action → Log → Log
  unfolding act
  act_all [] w = w
  act_all (a ∷ actions) w = act_all actions (act a w)

  abbrev pub waiting : Log → List Task
  waiting w = w.loop.pending_tasks ++ w.loop.deferred_tasks

  abbrev IsKept : Log → Type ℓ
  IsKept w =
      (w.submitted ≡ w.executed ++ waiting w) × ((w.loop.woken || is_empty (waiting w)) ≡ true)

  deferred_by_lem : (ts : List Task) → deferred_by defers ts ≡ flat_map defers ts
  unfolding deferred_by flat_map
  deferred_by_lem [] = refl
  deferred_by_lem (t ∷ ts) = ap (λ us. defers t ++ us) (deferred_by_lem ts)

  regroup : (es xs ys zs : List Task) → (es ++ (xs ++ ys)) ++ zs ≡ (es ++ xs) ++ (ys ++ zs)
  regroup es xs ys zs =
      append_assoc es (xs ++ ys) zs
      ∙ ap (λ ts. es ++ ts) (append_assoc xs ys zs)
      ∙ sym (append_assoc es xs (ys ++ zs))

  woken_or_empty :
      (xs ys : List Task) → ((not (is_empty xs) || not (is_empty ys)) || is_empty (ys ++ xs)) ≡ true
  woken_or_empty [] [] = refl
  woken_or_empty [] (y ∷ ys) = refl
  woken_or_empty (x ∷ xs) ys = refl

  act-IsKept : (a : Action) (w : Log) → IsKept w → IsKept (act a w)
  unfolding act defer run_deferred_tasks
  act-IsKept (deferring t) w (kept, woken) = (
    ap (λ ts. ts ++ t ∷ []) kept
        ∙ append_assoc w.executed (waiting w) (t ∷ [])
        ∙ ap (λ ts. w.executed ++ ts)
            (append_assoc w.loop.pending_tasks w.loop.deferred_tasks (t ∷ [])),
    refl,
  )
  act-IsKept running w (kept, woken) =
      let tasks = waiting w in
      let n = batch w.loop.max_deferred_per_round (length tasks) in
      let later = deferred_by defers (take n tasks) in
      (
        ap (λ ts. w.submitted ++ ts) (sym (deferred_by_lem (take n tasks)))
            ∙ ap (λ ts. ts ++ later)
                (kept ∙ ap (λ ts. w.executed ++ ts) (sym (take-append-drop n tasks)))
            ∙ regroup w.executed (take n tasks) (drop n tasks) later,
        woken_or_empty later (drop n tasks),
      )

  act_all-IsKept : (actions : List Action) (w : Log) → IsKept w → IsKept (act_all actions w)
  unfolding act_all
  act_all-IsKept [] w h = h
  act_all-IsKept (a ∷ actions) w h = act_all-IsKept actions (act a w) (act-IsKept a w h)

  abbrev pub new_log : ℤ → Log
  new_log max_deferred = record { loop = event_loop max_deferred; submitted = []; executed = [] }

  act_all-limit :
      (actions : List Action) (w : Log)
      → (act_all actions w).loop.max_deferred_per_round ≡ w.loop.max_deferred_per_round
  unfolding act_all act defer run_deferred_tasks
  act_all-limit [] w = refl
  act_all-limit (deferring t ∷ actions) w = act_all-limit actions (act (deferring t) w)
  act_all-limit (running ∷ actions) w = act_all-limit actions (act running w)

  length-run_deferred_tasks :
      (l : EventLoop Task)
      → length (run_deferred_tasks defers l).1
        ≡ quota l.max_deferred_per_round (length (l.pending_tasks ++ l.deferred_tasks))
  unfolding run_deferred_tasks
  length-run_deferred_tasks l =
      let tasks = l.pending_tasks ++ l.deferred_tasks in
      omega (
        arith,
        length-take (batch l.max_deferred_per_round (length tasks)) tasks,
        batch-quota l.max_deferred_per_round (length tasks),
      )

  -- Over any interleaving of threads that defer tasks and rounds of a new loop, with tasks that
  -- defer tasks themselves, the tasks executed so far and then those that wait are all that the
  -- threads and the executed tasks have deferred, in that order, while a task waits a wake-up is
  -- on its way, and the next round executes all that wait, or as many as a positive limit allows.
  pub act_all-order :
      (max_deferred : ℤ) (actions : List Action)
      → let w = act_all actions (new_log max_deferred) in
        (w.submitted ≡ w.executed ++ waiting w)
        × ((w.loop.woken || is_empty (waiting w)) ≡ true)
        × (length (run_deferred_tasks defers w.loop).1 ≡ quota max_deferred (length (waiting w)))
  act_all-order max_deferred actions =
      let w = act_all actions (new_log max_deferred) in
      let (kept, woken) = act_all-IsKept actions (new_log max_deferred) (refl, refl) in
      (
        kept,
        woken,
        length-run_deferred_tasks w.loop
            ∙ ap (λ limit. quota limit (length (waiting w)))
                (act_all-limit actions (new_log max_deferred)),
      )
