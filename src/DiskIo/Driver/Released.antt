-- ===== src/DiskIo/Driver/Released.antt =====
-- What `releaseFile` comes to, over all the steps behind its call.
use fast_clone.Prelude.{
  ℕ, ◌≤◌, ◌≡◌, refl, ap, ◌∙◌, true, false, if◌then◌else◌, ==_refl, List, [], ◌∷◌, arith, Bool-cases,
  inl, inr,
}
use fast_clone.DiskIo.{IoDriverConfig}
use fast_clone.DiskIo.Completions.OneQueue.{of_file, entry}
use fast_clone.DiskIo.Driver.{release_file, contains, is_outstanding}
use fast_clone.DiskIo.Driver.Outstanding.{count, counted}
use fast_clone.DiskIo.Driver.Threads.{releasing, World, sum_of, live}
use fast_clone.DiskIo.Driver.Accounting.{FitsU32, Accounts}
use fast_clone.DiskIo.Driver.Steps.{Step, releases_at_once, defers_release, Reach, after_step}
use fast_clone.DiskIo.Driver.Kept.{driver-Accounts, registered_release}
use fast_clone.DiskIo.Driver.Release.{
  Forgotten, releasing_of, Settles, awaits_operations, awaits_thread, awaits_nothing,
}
use fast_clone.DiskIo.Driver.Deliveries.{settled-zero}
use fast_clone.DiskIo.Driver.Settled.{Step-Settles}

-- What one call of `releaseFile` leaves behind its first section.
abbrev pub called : ℕ → World → World
called f w =
    let (at_once, d) = release_file f w.driver in
    record w { driver = d; threads = if at_once then releasing f ∷ w.threads else w.threads }

-- What the threads do behind a state, without a new operation of the file.
pub data Later (cfg : IoDriverConfig) (f : ℕ) (v : World) : World → Type 0 where
  here : Later cfg f v v
  then_step :
      (u w : World)
      → Later cfg f v u
      → Step cfg u w
      → count f (live w) ≤ count f (live u)
      → Later cfg f v w

Later-Reach :
    (cfg : IoDriverConfig) (f : ℕ) (v w : World) → Reach cfg v → Later cfg f v w → Reach cfg w
Later-Reach cfg f v _ r here = r
Later-Reach cfg f v _ r (then_step u w l s fewer) = after_step u w (Later-Reach cfg f v u r l) s

called-Step : (cfg : IoDriverConfig) (f : ℕ) (w : World) → Step cfg w (called f w)
unfolding release_file
called-Step cfg f w = elim (Bool-cases (is_outstanding f w.driver.file_outstanding)) [
  | inl waiting ↦
      rw (waiting, release_file)
        (defers_release f (registered_release f w.driver) (rw (waiting, release_file) refl))
  | inr settled ↦
      rw (settled, release_file) (releases_at_once f w.driver (rw (settled, release_file) refl))
]

contains-cons : (f : ℕ) (l : List ℕ) → contains f (if contains f l then l else f ∷ l) ≡ true
unfolding contains
contains-cons f l = ground (arith, ==_refl f)

called-Settles :
    (cfg : IoDriverConfig) (f : ℕ) (w : World) → Accounts cfg w → Settles f (called f w)
unfolding release_file
called-Settles cfg f w a = elim (Bool-cases (is_outstanding f w.driver.file_outstanding)) [
  | inl waiting ↦
      rw (waiting, release_file) (awaits_operations (contains-cons f w.driver.pending_release))
  | inr settled ↦
      let idle =
        settled-zero f (count f (live w)) w.driver.file_outstanding (a.tracks.tracked f) settled in
      rw (settled, release_file) (awaits_thread idle (ground (arith, ==_refl f)))
]

Later-Settles :
    (cfg : IoDriverConfig) (f : ℕ) (v w : World)
    → FitsU32 cfg
    → Reach cfg v
    → Later cfg f v w
    → Settles f v
    → Settles f w
Later-Settles cfg f v _ fits r here h = h
Later-Settles cfg f v _ fits r (then_step u w l s fewer) h =
    Step-Settles cfg f u w (driver-Accounts cfg u fits (Later-Reach cfg f v u r l)) s fewer
      (Later-Settles cfg f v u fits r l h)

-- In every state that the driver reaches, for bounds that sum below 2^32, a call of
-- `releaseFile` ends well: in every state behind it that steps reach which start no operation of
-- the file, as soon as no request of the file is queued, with the back end or held by a thread,
-- and no thread is in the middle of cleaning up after the file, nothing of the file is left: no
-- completion, no queue of its own, no count and no release to come. The threads' steps
-- interleave in any order.
pub release_file_lem :
    (cfg : IoDriverConfig) (f : ℕ) (v w : World)
    → FitsU32 cfg
    → Reach cfg v
    → Later cfg f (called f v) w
    → count f (live w) ≡ 0
    → sum_of (releasing_of f) w.threads ≡ 0
    → Forgotten f w.driver
release_file_lem cfg f v w fits r l idle no_cleaner =
    let from = after_step v (called f v) r (called-Step cfg f v) in
    let a = driver-Accounts cfg w fits (Later-Reach cfg f (called f v) w from l) in
    let h =
      Later-Settles cfg f (called f v) w fits from l
        (called-Settles cfg f v (driver-Accounts cfg v fits r)) in
    let no_wait : contains f w.driver.pending_release ≡ false =
      elim (Bool-cases (contains f w.driver.pending_release)) [
        | inl waits ↦ absurd (omega (arith, a.tracks.releases f waits))
        | inr e ↦ e
      ] in
    let own : of_file f w.driver.completions.order ≡ [] = elim h [
      | awaits_operations waits ↦ absurd (cc)
      | awaits_thread _ cleaner ↦ absurd (omega arith)
      | awaits_nothing _ e ↦ e
    ] in
    record {
      no_completion = own;
      no_entry = a.tracks.one_queue.by_file f ∙ ap entry own;
      no_operation = a.tracks.tracked f ∙ ap counted idle;
      no_pending = no_wait;
    }
