-- ===== src/Core/Loader.antt =====
-- The configuration file: src/core/config_loader.cpp. `Loader.Lexer` has the tokens,
-- `Loader.Values` the reading and skipping of values, `Loader.Parsing` the walk over the file.
pub mod Lexer
pub mod Values
pub mod Parsing
pub mod Hanging
pub mod Blanks
mod Tests
