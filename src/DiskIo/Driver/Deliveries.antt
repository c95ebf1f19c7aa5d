-- ===== src/DiskIo/Driver/Deliveries.antt =====
-- A delivery brings a released file closer to its end.
use fast_clone.Prelude.{
  ℕ, zero, suc, ◌≡◌, refl, sym, ap, ◌∙◌, true, false, ◌==◌, ==_iff, List, [], ◌∷◌, arith,
  Bool-cases, inl, inr,
}
use fast_clone.Prelude.Assoc.{lookup}
use fast_clone.DiskIo.{IoCompletion, IoDriverConfig}
use fast_clone.DiskIo.Completions.{Completions, PendingCompletion, push_completion}
use fast_clone.DiskIo.Completions.OneQueue.{
  of_file, of_file-append, push_completion-IsOneQueue, IsOneQueue,
}
use fast_clone.DiskIo.Completions.Drain.{release_file_locked-Drained}
use fast_clone.DiskIo.Driver.{Driver, contains, enqueue_completion, is_outstanding, count_delivery}
use fast_clone.DiskIo.Driver.Outstanding.{
  count, counted, Tracks, contains-remove, left-tracked, Tracks-same, enqueue_completion-SameQueues,
}
use fast_clone.DiskIo.Driver.Threads.{Phase, World, live, Change}
use fast_clone.DiskIo.Driver.Accounting.{Accounts}
use fast_clone.DiskIo.Driver.Settling.{
  Delivers, live_behind, delivered_to, count-delivered, live-delivered,
}
use fast_clone.DiskIo.Driver.Release.{
  Forgotten, last_completion-Forgotten, releasing_of, Settles, awaits_operations, awaits_thread,
  awaits_nothing, Spares-Settles, not_of_file-empty,
}

push-of_file :
    (f : ℕ) (c : IoCompletion) (s : Completions)
    → (c.file_id == f) ≡ false
    → of_file f s.order ≡ []
    → of_file f (push_completion c s).order ≡ []
unfolding push_completion of_file
push-of_file f c s other h =
    let pc : PendingCompletion = record { node = s.next_node; completion = c } in
    ground (arith, of_file-append f s.order (pc ∷ []))

-- A completion of another file.
other_completion :
    (f : ℕ) (c : IoCompletion) (d : Driver)
    → (c.file_id == f) ≡ false
    → IsOneQueue d.completions
    → (of_file f d.completions.order ≡ []
        → of_file f (enqueue_completion c d).completions.order ≡ [])
      × (contains f d.pending_release ≡ true
          → contains f (enqueue_completion c d).pending_release ≡ true)
unfolding enqueue_completion
other_completion f c d other q =
    let g = c.file_id in
    let pushed = push_completion-IsOneQueue c d.completions q in
    let gone = release_file_locked-Drained g (push_completion c d.completions) pushed in
    let left = count_delivery g d.file_outstanding in
    elim (Bool-cases (is_outstanding g left)) [
      | inl waiting ↦
          rw (waiting, enqueue_completion) (push-of_file f c d.completions other, λ h. h)
      | inr settled ↦ elim (Bool-cases (contains g d.pending_release)) [
        | inl registered ↦
            rw (settled, registered, enqueue_completion)
              (
                λ h. not_of_file-empty f g _ _ gone (push-of_file f c d.completions other h),
                λ h. contains-remove g f d.pending_release ∙ ground arith,
              )
        | inr not_registered ↦
            rw (settled, not_registered, enqueue_completion)
              (push-of_file f c d.completions other, λ h. h)
      ]
    ]

still_pending :
    (c : IoCompletion) (d : Driver)
    → is_outstanding c.file_id (count_delivery c.file_id d.file_outstanding) ≡ true
    → (enqueue_completion c d).pending_release ≡ d.pending_release
unfolding enqueue_completion
still_pending c d waiting = rw (waiting, enqueue_completion) refl

pub settled-zero :
    (f n : ℕ) (m : List (ℕ × ℕ)) → lookup f m ≡ counted n → is_outstanding f m ≡ false → n ≡ 0
settled-zero f zero m h e = refl
settled-zero f (suc n) m h e = absurd (ground arith)

module _ (cfg : IoDriverConfig) (f : ℕ) (w : World) (c : IoCompletion) (us : List Phase)
    (p q : Phase) (a : Accounts cfg w) (ch : Change w.threads us (p ∷ []) (q ∷ []))
    (v : Delivers c p q) (same_cleaners : releasing_of f p ≡ releasing_of f q) where
  abbrev unsettled : List ℕ
  unsettled = live_behind cfg w c us p q a ch v

  unsettled-Tracks : Tracks (c.file_id ∷ unsettled) w.driver
  unsettled-Tracks =
      Tracks-same (live w) (c.file_id ∷ unsettled) w.driver (count-delivered cfg w c us p q a ch v)
        a.tracks

  same_live : live (delivered_to cfg w c us p q a ch v) ≡ unsettled
  same_live = live-delivered cfg w c us p q a ch v (enqueue_completion-SameQueues c w.driver)

  -- The last completion of a file whose release waits.
  last_one :
      contains c.file_id w.driver.pending_release ≡ true
      → is_outstanding c.file_id (count_delivery c.file_id w.driver.file_outstanding) ≡ false
      → (count c.file_id unsettled ≡ 0) × Forgotten c.file_id (enqueue_completion c w.driver)
  last_one waits settled =
      let g = c.file_id in
      let none_left =
        settled-zero g (count g unsettled) (count_delivery g w.driver.file_outstanding)
          (left-tracked c unsettled w.driver unsettled-Tracks g) settled in
      (none_left, last_completion-Forgotten c unsettled w.driver unsettled-Tracks none_left waits)

  still_counted : c.file_id ≡ f → ¬ (count f (live w) ≡ 0)
  still_counted e idle =
      ground (arith, count-delivered cfg w c us p q a ch v f, (==_iff c.file_id f).1 e)

  own_completion : c.file_id ≡ f → Settles f w → Settles f (delivered_to cfg w c us p q a ch v)
  own_completion e (awaits_thread idle h) = absurd (still_counted e idle)
  own_completion e (awaits_nothing idle h) = absurd (still_counted e idle)
  own_completion e (awaits_operations h) =
      elim (Bool-cases
        (is_outstanding c.file_id (count_delivery c.file_id w.driver.file_outstanding))) [
          | inl waiting ↦ awaits_operations (ap (contains f) (still_pending c w.driver waiting) ∙ h)
          | inr settled ↦
              let gone = last_one (ap (λ g. contains g w.driver.pending_release) e ∙ h) settled in
              awaits_nothing (ap (count f) same_live ∙ ap (λ g. count g unsettled) (sym e) ∙ gone.0)
                (ap (λ g. of_file g (enqueue_completion c w.driver).completions.order) (sym e)
                  ∙ gone.1.no_completion)
        ]

  pub delivered-Settles : Settles f w → Settles f (delivered_to cfg w c us p q a ch v)
  delivered-Settles h = elim (Bool-cases (c.file_id == f)) [
    | inl own ↦ own_completion ((==_iff c.file_id f).0 own) h
    | inr other ↦
        let spared = other_completion f c w.driver other a.tracks.one_queue in
        Spares-Settles f w (delivered_to cfg w c us p q a ch v)
          (record {
            empty = spared.0;
            pending = spared.1;
            cleaners = omega (arith, ch.sums (releasing_of f), same_cleaners);
          })
          (omega (arith, count-delivered cfg w c us p q a ch v f, ap (count f) same_live)) h
  ]
