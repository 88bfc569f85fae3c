-- ===== src/Logger.antt =====
-- The log, src/logger/logger.cpp: which messages are logged, and the text of a line. The time stamp
-- and the message that `vsnprintf` formats are arguments.
pub mod Async
mod Lines
mod Tests
use api_gateway.Prelude.{
  none, [], ltb, take, ◌==◌, bytes, if◌then◌else◌, some, ◌++◌, ◌∷◌, Bytes, Option, ℕ,
}
use api_gateway.Logger.Async.{AsyncLogger, append}
use api_gateway.Prelude.Decimal.{to_string, decimal}

pub data LogLevel : Type 0 where
  trace debug info warn error fatal : LogLevel

-- The value of the enumeration.
unfoldable pub level_value : LogLevel → ℕ
level_value trace = 0
level_value debug = 1
level_value info = 2
level_value warn = 3
level_value error = 4
level_value fatal = 5

unfoldable pub level_str : LogLevel → Bytes
level_str trace = bytes "TRACE"
level_str debug = bytes "DEBUG"
level_str info = bytes "INFO "
level_str warn = bytes "WARN "
level_str error = bytes "ERROR"
level_str fatal = bytes "FATAL"

-- The loop over the path of the source file: what is behind its last slash.
unfoldable pub filename_from : Bytes → Bytes → Bytes
filename_from filename [] = filename
filename_from filename (c ∷ p) = filename_from (if c == b'/' then p else filename) p

unfoldable pub filename_of : Bytes → Bytes
unfolding filename_from
filename_of file = filename_from file file

-- `msg_buf` has room for 4096 bytes with the one that ends it.
unfoldable pub log_line : Bytes → LogLevel → Bytes → ℕ → Bytes → Bytes
unfolding level_str filename_of decimal
log_line stamp level file line message =
    stamp
    ++ bytes " ["
    ++ level_str level
    ++ bytes "] "
    ++ filename_of file
    ++ bytes ":"
    ++ decimal line
    ++ bytes " "
    ++ take 4095 message

-- Lines to the standard error are kept while there is no asynchronous logger.
pub record Logger : Type 0 where
  pub level : LogLevel
  pub async_logger : Option AsyncLogger
  pub stderr_text : Bytes

unfoldable pub put_line : Bytes → Logger → Logger
unfolding append
put_line line l = elim l.async_logger [
  | some a ↦ record l { async_logger = some (append line a) }
  | none ↦ record l { stderr_text = l.stderr_text ++ line ++ b'\n' ∷ [] }
]

unfoldable pub log : Bytes → LogLevel → Bytes → ℕ → Bytes → Logger → Logger
unfolding level_value log_line put_line
log stamp level file line message l =
    if ltb (level_value level) (level_value l.level)
    then l
    else put_line (log_line stamp level file line message) l
