-- ===== src/Logger/Async/Tests.antt =====
-- Runs of the asynchronous log, and its theorems on a few lines.
use api_gateway.Prelude.{
  arith, none, inl, refl, replicate, ◌++◌, some, ◌≡◌, [], Bytes, List, bytes, true, ◌∷◌,
}
use api_gateway.Logger.Async.{
  ◌∷◌, FileSystem, AsyncLogger, LogFile, opened, ended, new_logger, start, signal_stop, flush_buf,
}
use api_gateway.Logger.Async.Flushing.{text_of, output, flush_buf-none}
use api_gateway.Logger.Async.Order.{Action, appending, backend, lines_of, act_all}
use api_gateway.Logger.Async.Runs.{never_stops}
use api_gateway.Logger.Async.Stopping.{before, act_all-text, signal_stop-written}

abbrev working : FileSystem
working = record { renames = λ f. true; opens = λ f. true }

abbrev ab : Bytes
ab = bytes "ab"

abbrev fresh : LogFile
fresh = record { fp = opened; written_bytes = 0; file_text = bytes "old\n"; error_text = [] }

-- Two lines of two bytes fit into five, and three do not.
two_lines :
    flush_buf working 5 (ab ∷ ab ∷ []) fresh
    ≡ some (record fresh { written_bytes = 6; file_text = bytes "old\nab\nab\n" })
unfolding flush_buf
two_lines = refl

flush_buf-none_example : flush_buf working 5 (ab ∷ ab ∷ ab ∷ []) fresh ≡ none
unfolding text_of
flush_buf-none_example =
    flush_buf-none working 5 (ab ∷ ab ∷ ab ∷ []) fresh refl (omega arith) (omega arith)
      (omega arith)

abbrev busy : List Action
busy = appending ab ∷ backend ∷ backend ∷ appending ab ∷ backend ∷ []

act_all-text_example :
    (a b : AsyncLogger) × (start true (new_logger 0 []) ≡ some a)
    × (act_all working busy a ≡ some b)
    × (output b.log_file ++ text_of (b.next_buf ++ b.cur_buf)
        ≡ before true [] ++ text_of (lines_of busy))
act_all-text_example = act_all-text working 0 [] true busy (inl refl)

signal_stop-written_example :
    (a b c : AsyncLogger) × (start true (new_logger 0 []) ≡ some a)
    × (act_all working busy a ≡ some b)
    × (act_all working (replicate 5 backend) (signal_stop b) ≡ some c)
    × (c.phase ≡ ended)
    × (c.cur_buf ≡ [])
    × (output c.log_file ≡ before true [] ++ text_of (lines_of busy))
unfolding never_stops
signal_stop-written_example = signal_stop-written working 0 [] true busy refl (inl refl)
