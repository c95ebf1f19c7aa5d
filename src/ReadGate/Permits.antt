-- ===== src/ReadGate/Permits.antt =====
-- The permits are neither lost nor made: those at hand and those held are the limit.
use fast_clone.Prelude.{
  ℕ, ◌+◌, ◌^◌, ◌<◌, ◌≡◌, Bool, true, false, List, [], ◌∷◌, arith, if◌then◌else◌, ◌++◌,
}
use fast_clone.ReadGate.{
  waits, refused, permitted, acquire, release, Guard, guard_release, guard_destroy,
}

-- The gate and the guards alive.
pub record Session : Type 0 where
  pub available : ℕ
  pub guards : List Guard

pub held_by : List Guard → ℕ
held_by [] = 0
held_by (g ∷ gs) = (if g.held then 1 else 0) + held_by gs

-- What the tasks of a session do with the gate, one after another: a guard comes to be, gives
-- its permit back, or ends.
pub data Step : Session → Session → Type 0 where
  begin :
      (done : Bool) (available after : ℕ) (gs : List Guard)
      → acquire done available ≡ permitted after
      → Step
          (record { available = available; guards = gs })
          (record { available = after; guards = record { held = true } ∷ gs })
  cancel :
      (done : Bool) (available : ℕ) (gs : List Guard)
      → acquire done available ≡ refused
      → Step
          (record { available = available; guards = gs })
          (record { available = available; guards = record { held = false } ∷ gs })
  give_back :
      (available : ℕ) (before after : List Guard) (g : Guard)
      → Step
          (record { available = available; guards = before ++ (g ∷ after) })
          (record {
            available = (guard_release g available).1;
            guards = before ++ ((guard_release g available).0 ∷ after);
          })
  end_guard :
      (available : ℕ) (before after : List Guard) (g : Guard)
      → Step
          (record { available = available; guards = before ++ (g ∷ after) })
          (record { available = guard_destroy g available; guards = before ++ after })

pub data Reach (limit : ℕ) : Session → Type 0 where
  opened : Reach limit (record { available = limit; guards = [] })
  step : (s t : Session) → Reach limit s → Step s t → Reach limit t

held_by-append : (xs ys : List Guard) → held_by (xs ++ ys) ≡ held_by xs + held_by ys
unfolding held_by
held_by-append [] ys = omega arith
held_by-append (x ∷ xs) ys = omega (arith, held_by-append xs ys)

abbrev permits : Session → ℕ
permits s = s.available + held_by s.guards

Step-keeps :
    (limit : ℕ) (s t : Session) → limit < 2 ^ 32 → permits s ≡ limit → Step s t → permits t ≡ limit
unfolding held_by acquire release guard_release guard_destroy
Step-keeps limit _ _ small kept (begin done available after gs h) = ground arith
Step-keeps limit _ _ small kept (cancel done available gs h) = ground arith
Step-keeps limit _ _ small kept (give_back available before after g) =
    let b = held_by-append before (g ∷ after) in
    let a = held_by-append before ((guard_release g available).0 ∷ after) in ground (arith, b, a)
Step-keeps limit _ _ small kept (end_guard available before after g) =
    let b = held_by-append before (g ∷ after) in
    let a = held_by-append before after in ground (arith, b, a)

-- In every state that a session reaches by guards that begin, are refused, give their permit
-- back early and end, the permits at hand and those that guards hold are together the limit, for
-- a limit below 2^32.
pub permits_kept :
    (limit : ℕ) (s : Session)
    → limit < 2 ^ 32
    → Reach limit s
    → s.available + held_by s.guards ≡ limit
unfolding held_by
permits_kept limit _ small opened = omega arith
permits_kept limit _ small (step u s r e) =
    Step-keeps limit u s small (permits_kept limit u small r) e

-- A caller is refused only when the session is done and no permit is left.
pub acquire_refused :
    (done : Bool) (available : ℕ)
    → (acquire done available ≡ refused → (done ≡ true) × (available ≡ 0))
      × (acquire done available ≡ waits → (done ≡ false) × (available ≡ 0))
unfolding acquire
acquire_refused done available = ground arith
