-- ===== src/ReadGate.antt =====
-- The gate of FastClone/read_gate.h. A call takes the gate's mutex for all it does but waiting, so
-- `acquire` is one step of one caller: it goes on waiting, gives up, or takes a permit.
pub mod Permits
use fast_clone.Prelude.{
  ℕ, ◌+◌, ◌-◌, ◌%◌, ◌^◌, Bool, true, false, not, ◌&&◌, ◌||◌, if◌then◌else◌, ◌==◌, ltb,
}

pub data Acquired : Type 0 where
  waits : Acquired
  refused : Acquired
  permitted : ℕ → Acquired

-- The predicate of the wait, then the code after it; a permitted caller leaves one permit fewer.
unfoldable pub acquire : Bool → ℕ → Acquired
acquire done available =
    if not (ltb 0 available || done)
    then waits
    else if available == 0
    then refused
    else permitted (available - 1)

unfoldable pub release : ℕ → ℕ
release available = (available + 1) % 2 ^ 32

-- A guard, given what its `acquire` returned.
pub record Guard : Type 0 where
  pub held : Bool

unfoldable pub guard_release : Guard → ℕ → Guard × ℕ
guard_release g available =
    if g.held then (record { held = false }, release available) else (g, available)

unfoldable pub guard_destroy : Guard → ℕ → ℕ
guard_destroy g available = if g.held then release available else available
