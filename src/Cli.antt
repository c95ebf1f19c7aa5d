-- ===== src/Cli.antt =====
-- The command line of FastClone/cli.cpp. A text is a native string; `strtol` and `stoull` are
-- modelled as far as the parsers use them, for a `long` of 64 bits (all the callers' bounds lie far
-- below 2^31, so a `long` of 32 bits gives the same). The texts of errors are the source's.
pub mod Numbers
pub mod Endpoints
pub mod Options
use fast_clone.Prelude.{ℕ}
