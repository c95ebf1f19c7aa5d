-- ===== src/Check.antt =====
-- FastCheck, the read-only comparison: FastCheck/check_cli.cpp, check_options.h, check_report.cpp.
pub mod Args
pub mod Report
pub mod Engine
use fast_clone.Prelude.{ℕ, Bool, String, Option, List}
use fast_clone.Compare.{CompareCategory}

pub data Mode : Type 0 where
  fast_mode : Mode
  strict_mode : Mode
  size_only_mode : Mode

pub data Format : Type 0 where
  text_format : Format
  json_format : Format

pub record FilterSet : Type 0 where
  pub diff_shown : Bool
  pub missing_shown : Bool
  pub extra_shown : Bool
  pub same_shown : Bool

pub record CheckOptions : Type 0 where
  pub server : String
  pub port : ℕ
  pub target : String
  pub password : String
  pub mode : Mode
  pub checkers : ℕ
  pub hash_workers : ℕ
  pub no_diskio_driver : Bool
  pub output : String
  pub format : Format
  pub summary_only : Bool
  pub filter : FilterSet

-- `kIdentical` and the others.
pub data ExitCode : Type 0 where
  identical diff_found conn_failed local_precond_failed interrupted : ExitCode
