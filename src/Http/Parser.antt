-- ===== src/Http/Parser.antt =====
-- The incremental parser `HttpParser` of src/http/parser.cpp: `Parser.State` has its variables,
-- `Parser.Lines` the request line and the headers, `Parser.Bodies` the two kinds of body, and
-- `Parser.Process` the dispatch loop and `parse`.
pub mod State
pub mod Lines
pub mod Bodies
pub mod Process
pub mod Conservation
pub mod Totality
pub mod Stalling
pub mod Waiting
pub mod Ending
mod Tests
