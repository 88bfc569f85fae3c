-- ===== src/Logger/Async/Stopping.antt =====
-- What `start` opens, and what `stop` waits for, in src/logger/async_logger.cpp.
use api_gateway.Prelude.{
  ◌∷◌, append-nil, inr, ap, inl, sym, refl, zero, arith, suc, ◌∙◌, replicate, ◌++◌, ◌≤◌, false,
  some, true, List, [], ◌≡◌, Bool, Bytes, ℕ,
}
use api_gateway.Logger.Async.{
  FileSystem, AsyncLogger, Phase, ended, at_loop, at_swap, at_flush, at_last_swap, at_last_flush,
  opened, standard_error, signal_stop, new_logger, start,
}
use api_gateway.Logger.Async.Flushing.{text_of, output, Fits}
use api_gateway.Logger.Async.Order.{Action, backend, lines_of, act, act_all, IsKept, Drained}
use api_gateway.Logger.Async.Stepping.{rank, IsTaken, backend_step-Stepped}
use api_gateway.Logger.Async.Runs.{never_stops, act_all-Ran}

-- What stands where the lines go before the first of them.
unfoldable pub before : Bool → Bytes → Bytes
before true file_text = file_text
before false file_text = []

ended_of : (p : Phase) → rank p ≤ 0 → p ≡ ended
unfolding rank
ended_of at_loop h = absurd (omega arith)
ended_of at_swap h = absurd (omega arith)
ended_of at_flush h = absurd (omega arith)
ended_of at_last_swap h = absurd (omega arith)
ended_of at_last_flush h = absurd (omega arith)
ended_of ended h = refl

rank_le : (p : Phase) → rank p ≤ 5
unfolding rank
rank_le at_loop = omega arith
rank_le at_swap = omega arith
rank_le at_flush = omega arith
rank_le at_last_swap = omega arith
rank_le at_last_flush = omega arith
rank_le ended = omega arith

module _ (fs : FileSystem) where
  started-IsKept :
      (roll_size : ℕ) (file_text : Bytes) (ok : Bool)
      → (a : AsyncLogger) × (start ok (new_logger roll_size file_text) ≡ some a)
        × IsKept (before ok file_text) [] a
        × (a.roll_size ≡ roll_size)
        × (a.running ≡ true)
        × (a.phase ≡ at_loop)
  unfolding start new_logger before text_of output Drained
  started-IsKept roll_size file_text true = (
    record (new_logger roll_size file_text) {
      running = true;
      phase = at_loop;
      log_file = record { fp = opened; written_bytes = 0; file_text = file_text; error_text = [] };
    },
    refl,
    record { text = refl; goes_out = inl refl; count = omega arith; drained = refl },
    refl,
    refl,
    refl,
  )
  started-IsKept roll_size file_text false = (
    record (new_logger roll_size file_text) {
      running = true;
      phase = at_loop;
      log_file = record {
        fp = standard_error;
        written_bytes = 0;
        file_text = file_text;
        error_text = [];
      };
    },
    refl,
    record { text = refl; goes_out = inr refl; count = omega arith; drained = refl },
    refl,
    refl,
    refl,
  )

  -- If rolling is off, or all lines with their ends are at most one byte longer than the size to
  -- roll at, then over any interleaving of callers that append, steps of the thread that writes,
  -- and stops, the run goes through, and what has been written and then the two buffers' lines
  -- are what the file held before and all the appended lines in their order.
  pub act_all-text :
      (roll_size : ℕ) (file_text : Bytes) (ok : Bool) (actions : List Action)
      → Fits fs roll_size 0 (lines_of actions)
      → (a b : AsyncLogger) × (start ok (new_logger roll_size file_text) ≡ some a)
        × (act_all fs actions a ≡ some b)
        × (output b.log_file ++ text_of (b.next_buf ++ b.cur_buf)
            ≡ before ok file_text ++ text_of (lines_of actions))
  act_all-text roll_size file_text ok actions fits =
      let (a, s, k, size, run, phase) = started-IsKept roll_size file_text ok in
      let (b, r, kept, size', goes) =
        act_all-Ran fs (before ok file_text) actions [] a k (rw size fits) in
      (a, b, s, r, kept.text)

  -- The thread's steps after `stop`.
  wind_down :
      (old : Bytes) (appended : List Bytes) (n : ℕ) (a : AsyncLogger)
      → IsKept old appended a
      → Fits fs a.roll_size 0 appended
      → a.running ≡ false
      → IsTaken a
      → rank a.phase ≤ n
      → (b : AsyncLogger) × (act_all fs (replicate n backend) a ≡ some b)
        × (b.phase ≡ ended)
        × (b.cur_buf ≡ [])
        × (output b.log_file ≡ old ++ text_of appended)
  unfolding act_all act Drained text_of
  wind_down old appended zero a k fits stopped taken le =
      let end = ended_of a.phase le in
      let drained = rw end at k.drained in
      let cur = taken (omega arith) in
      (a, refl, end, cur, emptied a.next_buf a.cur_buf drained cur k.text)
    where
      emptied :
          (next cur : List Bytes)
          → next ≡ []
          → cur ≡ []
          → output a.log_file ++ text_of (next ++ cur) ≡ old ++ text_of appended
          → output a.log_file ≡ old ++ text_of appended
      emptied [] [] e f h = sym (append-nil (output a.log_file)) ∙ h
      emptied [] (x ∷ xs) e f h = cc
      emptied (x ∷ xs) cur e f h = cc
  wind_down old appended (suc n) a k fits stopped taken le =
      let (c, e, s) = backend_step-Stepped fs old appended a k fits in
      let (b, r, phase, cur, out) =
        wind_down old appended n c s.kept (rw s.size fits) (s.runs ∙ stopped)
          (s.takes stopped taken) (omega (arith, s.winds_down stopped)) in
      (b, rw e r, phase, cur, out)

  -- After any run without a stop, under the same bound, a stop leads in at most five steps of the
  -- thread to its end, with nothing left to write and all the appended lines written in their
  -- order.
  pub signal_stop-written :
      (roll_size : ℕ) (file_text : Bytes) (ok : Bool) (actions : List Action)
      → never_stops actions ≡ true
      → Fits fs roll_size 0 (lines_of actions)
      → (a b c : AsyncLogger) × (start ok (new_logger roll_size file_text) ≡ some a)
        × (act_all fs actions a ≡ some b)
        × (act_all fs (replicate 5 backend) (signal_stop b) ≡ some c)
        × (c.phase ≡ ended)
        × (c.cur_buf ≡ [])
        × (output c.log_file ≡ before ok file_text ++ text_of (lines_of actions))
  unfolding signal_stop rank
  signal_stop-written roll_size file_text ok actions never fits =
      let (a, s, k, size, run, phase) = started-IsKept roll_size file_text ok in
      let (b, r, kept, size', goes) =
        act_all-Ran fs (before ok file_text) actions [] a k (rw size fits) in
      let going = goes never run (omega (arith, ap rank phase)) in
      let (c, d, end, cur, out) =
        wind_down (before ok file_text) (lines_of actions) 5 (signal_stop b)
          (record {
            text = kept.text;
            goes_out = kept.goes_out;
            count = kept.count;
            drained = kept.drained;
          })
          (rw (size' ∙ size) fits) refl (λ le. absurd (omega arith)) (rank_le b.phase) in
      (a, b, c, s, r, d, end, cur, out)
