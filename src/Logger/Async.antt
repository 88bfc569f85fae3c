-- ===== src/Logger/Async.antt =====
-- The asynchronous log, src/logger/async_logger.cpp: two buffers, a thread that writes one of them
use api_gateway.Prelude.Options.{◌>>=◌}
use api_gateway.Prelude.{
  true, length, ◌&&◌, ◌+◌, is_empty, ltb, none, ◌∷◌, List, [], if◌then◌else◌, some, ◌++◌, Bool,
  Bytes, Option, false, ℕ,
}
-- out while the callers fill the other, and the file. Writing to an open file succeeds.
pub mod Flushing
pub mod Order
pub mod Runs
pub mod Stopping
pub mod Stepping
mod Tests

-- What `fp_` points to; `dangling` is a file that has been closed.
pub data Fp : Type 0 where
  null opened standard_error dangling : Fp

pub record LogFile : Type 0 where
  pub fp : Fp
  pub written_bytes : ℕ
  pub file_text : Bytes
  pub error_text : Bytes

-- `fclose(fp_)`: closing a file a second time is undefined behaviour, `none`.
unfoldable pub close_file : LogFile → Option LogFile
close_file f = elim f.fp [
  | opened ↦ some (record f { fp = dangling })
  | standard_error ↦ some (record f { fp = dangling })
  | dangling ↦ none
  | null ↦ none
]

-- `if (fp_) fclose(fp_)`
unfoldable pub close_if_set : LogFile → Option LogFile
unfolding close_file
close_if_set f = elim f.fp [
  | null ↦ some f
  | opened ↦ close_file f
  | standard_error ↦ close_file f
  | dangling ↦ close_file f
]

-- Whether `fopen` succeeds is an argument. The file is opened for appending.
unfoldable pub open_file : Bool → LogFile → Option LogFile
unfolding close_if_set
open_file ok f = do
  g ← close_if_set f
  if ok
      then some (record g { fp = opened; written_bytes = 0 })
      else some (record g { fp = standard_error })

-- `rename` gives the old text to a file of another name; whether it succeeds is an argument.
unfoldable pub renamed : Bool → LogFile → LogFile
renamed moved f = if moved then record f { file_text = [] } else f

unfoldable pub roll_file : Bool → Bool → LogFile → Option LogFile
unfolding close_file renamed open_file
roll_file moved ok f = elim f.fp [
  | null ↦ some f
  | standard_error ↦ some f
  | opened ↦ do g ← close_file f; open_file ok (renamed moved g)
  | dangling ↦ do g ← close_file f; open_file ok (renamed moved g)
]

-- `fwrite` of a line and of its end; writing to no file is undefined behaviour.
unfoldable pub write_line : Bytes → LogFile → Option LogFile
write_line line f = elim f.fp [
  | opened ↦ some (record f {
    file_text = f.file_text ++ line ++ b'\n' ∷ [];
    written_bytes = f.written_bytes + (length line + 1);
  })
  | standard_error ↦ some (record f {
    error_text = f.error_text ++ line ++ b'\n' ∷ [];
    written_bytes = f.written_bytes + (length line + 1);
  })
  | null ↦ none
  | dangling ↦ none
]

-- What `rename` and `fopen` answer while a buffer is written out depends on the state they meet.
pub record FileSystem : Type 0 where
  pub renames : LogFile → Bool
  pub opens : LogFile → Bool

module _ (fs : FileSystem) (roll_size : ℕ) where
  unfoldable pub roll_if_full : Bytes → LogFile → Option LogFile
  unfolding roll_file
  roll_if_full line f =
      if ltb 0 roll_size && ltb roll_size (f.written_bytes + length line)
      then roll_file (fs.renames f) (fs.opens f) f
      else some f

  unfoldable pub flush_buf : List Bytes → LogFile → Option LogFile
  unfolding roll_if_full write_line
  flush_buf [] f = some f
  flush_buf (line ∷ lines) f = do g ← roll_if_full line f; h ← write_line line g; flush_buf lines h

-- Where the thread of `backend_loop` is.
pub data Phase : Type 0 where
  at_loop at_swap at_flush at_last_swap at_last_flush ended : Phase

pub record AsyncLogger : Type 0 where
  pub roll_size : ℕ
  pub cur_buf : List Bytes
  pub next_buf : List Bytes
  pub running : Bool
  pub phase : Phase
  pub log_file : LogFile

unfoldable pub append : Bytes → AsyncLogger → AsyncLogger
append line a = record a { cur_buf = a.cur_buf ++ line ∷ [] }

-- The second argument is what stands in the file already.
unfoldable pub new_logger : ℕ → Bytes → AsyncLogger
new_logger roll_size file_text = record {
  roll_size = roll_size;
  cur_buf = [];
  next_buf = [];
  running = false;
  phase = ended;
  log_file = record { fp = null; written_bytes = 0; file_text = file_text; error_text = [] };
}

unfoldable pub start : Bool → AsyncLogger → Option AsyncLogger
unfolding open_file
start ok a = do
  f ← open_file ok a.log_file
  some (record a { running = true; phase = at_loop; log_file = f })

-- The first half of `stop`, before it waits for the thread.
unfoldable pub signal_stop : AsyncLogger → AsyncLogger
signal_stop a = record a { running = false }

-- The second half, after the thread has ended.
unfoldable pub finish_stop : AsyncLogger → Option AsyncLogger
unfolding close_if_set
finish_stop a = do
  f ← close_if_set a.log_file
  some (record a { log_file = record f { fp = null } })

module _ (fs : FileSystem) where
  -- Write out the other buffer, if there is something in it, and go on.
  unfoldable pub flush_next : Phase → AsyncLogger → Option AsyncLogger
  unfolding flush_buf
  flush_next next a = if is_empty a.next_buf then some (record a { phase = next }) else do
    f ← flush_buf fs a.roll_size a.next_buf a.log_file
    some (record a { next_buf = []; phase = next; log_file = f })

  -- A step of `backend_loop`, from one use of what it shares with the callers to the next. The
  -- wait may end at any time, since it has a time limit.
  unfoldable pub backend_step : AsyncLogger → Option AsyncLogger
  unfolding flush_next
  backend_step a = elim a.phase [
    | at_loop ↦ some (record a { phase = if a.running then at_swap else at_last_swap })
    | at_swap ↦ some (record a { cur_buf = a.next_buf; next_buf = a.cur_buf; phase = at_flush })
    | at_flush ↦ flush_next at_loop a
    | at_last_swap ↦
        if is_empty a.cur_buf
        then some (record a { phase = at_last_flush })
        else some (record a { cur_buf = a.next_buf; next_buf = a.cur_buf; phase = at_last_flush })
    | at_last_flush ↦ flush_next ended a
    | ended ↦ some a
  ]
