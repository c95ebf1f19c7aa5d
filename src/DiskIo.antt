-- ===== src/DiskIo.antt =====
-- The unified disk driver: the requests, completions and settings of FastClone/disk_io_backend.h.
-- The children model disk_io_align.cpp, and disk_io_driver.cpp with its reader. The platform's
-- back end is the environment: it takes a request or refuses it, and completes what it took.
pub mod Align
pub mod Queues
pub mod Completions
pub mod Driver
pub mod Reader
use fast_clone.Prelude.{ℕ, Bool, List}

pub data OpKind : Type 0 where
  read : OpKind
  write : OpKind

pub data Prio : Type 0 where
  small : Prio
  large : Prio

pub data IoStatus : Type 0 where
  done : IoStatus
  eof : IoStatus
  cancelled : IoStatus
  error : IoStatus

pub record IoRequest : Type 0 where
  pub kind : OpKind
  pub file_id : ℕ
  pub offset : ℕ
  pub size : ℕ
  pub prio : Prio
  pub user_tag : ℕ
  pub bytes : List ℕ

pub record IoCompletion : Type 0 where
  pub kind : OpKind
  pub file_id : ℕ
  pub offset : ℕ
  pub requested : ℕ
  pub transferred : ℕ
  pub status : IoStatus
  pub user_tag : ℕ
  pub bytes : List ℕ

pub record IoDriverConfig : Type 0 where
  pub max_read_queue : ℕ
  pub max_write_queue : ℕ
  pub read_weight : ℕ
  pub write_weight : ℕ
  pub max_in_flight : ℕ
  pub record_schedule : Bool
