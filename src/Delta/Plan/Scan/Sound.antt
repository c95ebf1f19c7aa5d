-- ===== src/Delta/Plan/Scan/Sound.antt =====
-- What the scan marks: a block of the signature whose checksum the window at the source has.
use mathlib.Core.Path.{subst, subst₂}
use fast_clone.Prelude.{
  ◌<◌, ◌^◌, ◌&&◌, leb, ltb, ltb→ge, leb→gt, ◌%◌, some, Option, ℕ, zero, suc, ◌+◌, ◌≤◌, ◌≡◌, refl,
  ap, List, [], ◌∷◌, Bool, true, false, set, length, length-set, ◌⊎◌, inl, inr, sym, ◌∙◌, arith,
  ◌==◌, if_holds,
}
use fast_clone.Delta.Signature.{SignatureSet}
use fast_clone.Delta.Plan.{BuildOptions, nth}
use fast_clone.Delta.Plan.Candidates.{Entry, Candidates, bucket_entries}
use fast_clone.Delta.Weak.{bucket_of, weak_value, weak_init, weak_roll}
use fast_clone.Delta.Project.{projected_rejected}
use fast_clone.Delta.Plan.Scan.{
  Marks, Scan, Next, go, stop, moved, window, round, scan_loop, check_early, advance_matched,
  advance_rolled, mark, count_hit, count_strong, agrees, probe,
}

-- Every marked block has a source that `P` accepts.
pub record MarksOk (P : ℕ → ℕ → Type 0) (m : Marks) : Type 0 where
  pub sizes : length m.matched ≡ length m.matched_src
  pub sound : (i : ℕ) → nth false m.matched i ≡ true → P i (nth 0 m.matched_src i)

mark_cases :
    (xs : List Bool) (ys : List ℕ) (k p i : ℕ)
    → length xs ≡ length ys
    → nth false (set xs k true) i ≡ true
    → ((nth false xs i ≡ true) × (nth 0 (set ys k p) i ≡ nth 0 ys i))
      ⊎ ((k ≡ i) × (nth 0 (set ys k p) i ≡ p))
mark_cases [] [] k p i s h = inl (h, refl)
mark_cases [] (y ∷ ys) k p i s h = absurd (omega (arith, s))
mark_cases (x ∷ xs) [] k p i s h = absurd (omega (arith, s))
mark_cases (x ∷ xs) (y ∷ ys) zero p zero s h = inr (refl, refl)
mark_cases (x ∷ xs) (y ∷ ys) zero p (suc i) s h = inl (h, refl)
mark_cases (x ∷ xs) (y ∷ ys) (suc k) p zero s h = inl (h, refl)
mark_cases (x ∷ xs) (y ∷ ys) (suc k) p (suc i) s h =
    elim (mark_cases xs ys k p i (omega (arith, s)) h)
      as (λ _.
        ((nth false xs i ≡ true) × (nth 0 (set ys k p) i ≡ nth 0 ys i))
        ⊎ ((suc k ≡ suc i) × (nth 0 (set ys k p) i ≡ p))) [
          | inl same ↦ inl same
          | inr new ↦ inr (ap suc new.0, new.1)
        ]

module _ (P : ℕ → ℕ → Type 0) where
  mark-MarksOk : (m : Marks) (k p : ℕ) → MarksOk P m → P k p → MarksOk P (mark m k p)
  unfolding mark
  mark-MarksOk m k p ok fits = record {
    sizes = length-set m.matched k true ∙ ok.sizes ∙ sym (length-set m.matched_src k p);
    sound = λ i h.
        elim (mark_cases m.matched m.matched_src k p i ok.sizes h)
          as (λ _. P i (nth 0 (set m.matched_src k p) i)) [
            | inl same ↦ subst (λ s. P i s) (sym same.1) (ok.sound i same.0)
            | inr new ↦ subst₂ (λ j s. P j s) new.0 (sym new.1) fits
          ];
  }

  count_hit-MarksOk : (m : Marks) → MarksOk P m → MarksOk P (count_hit m)
  unfolding count_hit
  count_hit-MarksOk m ok = record { sizes = ok.sizes; sound = ok.sound }

  count_strong-MarksOk : (c : Bool) (m : Marks) → MarksOk P m → MarksOk P (count_strong c m)
  unfolding count_strong
  count_strong-MarksOk c m ok = record { sizes = ok.sizes; sound = ok.sound }

  module _ (strong_hash : List ℕ → List ℕ) (sig : SignatureSet) (old : List ℕ) (p : ℕ) where
    pub probe-MarksOk :
        ((node : ℕ) → agrees strong_hash sig old p node ≡ true → P node p)
        → (weak32 : ℕ) (computed : Bool) (es : List Entry) (m : Marks) → MarksOk P m
        → MarksOk P (probe strong_hash sig old p weak32 computed es m).0
    unfolding probe
    probe-MarksOk fits weak32 computed [] m ok = ok
    probe-MarksOk fits weak32 computed (e ∷ es) m ok =
        let hit = count_hit m in
        let hit_ok = count_hit-MarksOk m ok in
        let strong = count_strong computed hit in
        let strong_ok = count_strong-MarksOk computed hit hit_ok in
        if_holds (λ (r : Marks × Bool). MarksOk P r.0) (e.weak == weak32) _ _
          (λ _.
            if_holds (λ (r : Marks × Bool). MarksOk P r.0) (nth false m.matched e.block_index) _ _
              (λ _. probe-MarksOk fits weak32 computed es hit hit_ok)
              (λ _.
                if_holds (λ (r : Marks × Bool). MarksOk P r.0)
                  (agrees strong_hash sig old p e.block_index) _ _
                  (λ same. mark-MarksOk strong e.block_index p strong_ok (fits e.block_index same))
                  (λ _. probe-MarksOk fits weak32 true es strong strong_ok)))
          (λ _. probe-MarksOk fits weak32 computed es m ok)

-- The window of the scan lies in the old file, and the marks are sound.
pub record ScanOk (P : ℕ → ℕ → Type 0) (l old_len : ℕ) (s : Scan) : Type 0 where
  pub inside : s.p + l ≤ old_len
  pub marks_ok : MarksOk P s.marks

module _ (P : ℕ → ℕ → Type 0) (strong_hash : List ℕ → List ℕ) (sig : SignatureSet)
    (old : List ℕ) where
  -- A round that goes on keeps the window inside and moves it; one that stops has sound marks.
  pub NextOk : ℕ → Next → Type 0
  NextOk p (go s) = ScanOk P sig.block_size (length old) s × (p < s.p)
  NextOk p (stop s early) = MarksOk P s.marks

  check_early-NextOk :
      (opt : BuildOptions) (p : ℕ) (s : Scan)
      → ScanOk P sig.block_size (length old) s
      → p < s.p
      → NextOk p (check_early strong_hash sig old opt s)
  unfolding check_early NextOk
  check_early-NextOk opt p s ok moves =
      if_holds (NextOk p) (opt.enable_early_stop && leb s.next_eval s.p) _ _
        (λ _.
          if_holds (NextOk p) (projected_rejected s.matched_bytes s.p (length old) sig.file_size) _
            _ (λ _. ok.marks_ok)
            (λ _. (record { inside = ok.inside; marks_ok = ok.marks_ok }, moves)))
        (λ _. (ok, moves))

  module _ (room : length old < 2 ^ 63) (narrow : sig.block_size < 2 ^ 32)
      (pos : 0 < sig.block_size)
      (fits : (node p : ℕ)
        → p + sig.block_size ≤ length old
        → agrees strong_hash sig old p node ≡ true
        → P node p) where
    advance_matched-NextOk :
        (opt : BuildOptions) (s : Scan) (m : Marks)
        → s.p + sig.block_size ≤ length old
        → MarksOk P m
        → NextOk s.p (advance_matched strong_hash sig old opt s m)
    unfolding advance_matched NextOk moved
    advance_matched-NextOk opt s m inside ok =
        let l = sig.block_size in
        let p = (s.p + l) % 2 ^ 64 in
        if_holds (NextOk s.p) (ltb (length old) ((p + l) % 2 ^ 64)) _ _ (λ _. ok)
          (λ h.
            let fits_after = ltb→ge (length old) ((p + l) % 2 ^ 64) h in
            check_early-NextOk opt s.p
              (moved s p (weak_init (window old l p)) ((s.matched_bytes + l) % 2 ^ 64) m)
              (record { inside = omega arith; marks_ok = ok }) (omega arith))

    advance_rolled-NextOk :
        (opt : BuildOptions) (s : Scan) (m : Marks)
        → s.p + sig.block_size ≤ length old
        → MarksOk P m
        → NextOk s.p (advance_rolled strong_hash sig old opt s m)
    unfolding advance_rolled NextOk moved
    advance_rolled-NextOk opt s m inside ok =
        let l = sig.block_size in
        let rolled = weak_roll s.w (nth 0 old s.p) (nth 0 old (s.p + l)) l in
        if_holds (NextOk s.p) (leb (length old) ((s.p + l) % 2 ^ 64)) _ _ (λ _. ok)
          (λ h.
            let room_after = leb→gt (length old) ((s.p + l) % 2 ^ 64) h in
            check_early-NextOk opt s.p (moved s ((s.p + 1) % 2 ^ 64) rolled s.matched_bytes m)
              (record { inside = omega arith; marks_ok = ok }) (omega arith))

    round-NextOk :
        (c : Candidates) (opt : BuildOptions) (s : Scan)
        → ScanOk P sig.block_size (length old) s
        → NextOk s.p (round strong_hash sig old c opt s)
    unfolding round
    round-NextOk c opt s ok =
        let weak32 = weak_value s.w in
        let probed =
          probe strong_hash sig old s.p weak32 false (bucket_entries c (bucket_of weak32))
            s.marks in
        let probed_ok : MarksOk P probed.0 =
          probe-MarksOk P strong_hash sig old s.p (λ node. fits node s.p ok.inside) weak32 false
            (bucket_entries c (bucket_of weak32)) s.marks ok.marks_ok in
        if_holds (NextOk s.p) probed.1 _ _
          (λ _. advance_matched-NextOk opt s probed.0 ok.inside probed_ok)
          (λ _. advance_rolled-NextOk opt s probed.0 ok.inside probed_ok)

    -- With a round for each byte of the old file, and one more, the scan ends.
    pub scan_loop-ends :
        (c : Candidates) (opt : BuildOptions) (fuel : ℕ) (s : Scan)
        → ScanOk P sig.block_size (length old) s
        → length old < s.p + fuel
        → (last : Scan) × (early : Bool) × (scan_loop strong_hash sig old c opt fuel s
            ≡ some (last, early))
          × MarksOk P last.marks
    unfolding scan_loop NextOk
    scan_loop-ends c opt zero s ok enough = absurd (omega (arith, ok.inside, pos))
    scan_loop-ends c opt (suc fuel) s ok enough =
        next_ends (round strong_hash sig old c opt s) (round-NextOk c opt s ok)
          (λ next h. scan_loop-ends c opt fuel next h.0 (omega (arith, h.1)))
      where
        Ends : Option (Scan × Bool) → Type 0
        Ends o = (last : Scan) × (early : Bool) × (o ≡ some (last, early)) × MarksOk P last.marks

        next_ends :
            (n : Next)
            → NextOk s.p n
            → ((next : Scan)
                → NextOk s.p (go next)
                → Ends (scan_loop strong_hash sig old c opt fuel next))
            → Ends (elim n as (λ _. Option (Scan × Bool)) [
              | go next ↦ scan_loop strong_hash sig old c opt fuel next
              | stop last early ↦ some (last, early)
            ])
        next_ends (go next) h later = later next h
        next_ends (stop last early) h later = (last, early, refl, h)
