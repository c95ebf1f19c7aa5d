-- ===== src/DiskIo/Reader/Pull.antt =====
-- The byte source hands out the chunks' bytes in order, as many as are asked for.
use fast_clone.Prelude.{
  ℕ, ◌+◌, ◌-◌, ◌≤◌, ◌<◌, ◌≡◌, refl, sym, ap, ◌∙◌, min, true, false, ◌==◌, leb, leb→le, leb→gt, List,
  [], ◌∷◌, ◌++◌, append_assoc, length, take, drop, take-append-drop, length-take, length-append,
  length-drop, All, arith, Bool-cases, inl, inr, drop-drop,
}
use fast_clone.DiskIo.Reader.{Carry, serve, pull}

abbrev pub join : List (List ℕ) → List ℕ
join [] = []
join (chunk ∷ chunks) = chunk ++ join chunks

-- The bytes that are to be handed out.
abbrev pub waiting : Carry → List (List ℕ) → List ℕ
waiting s chunks = drop s.carry_pos s.carry ++ join chunks

record Served (max_len : ℕ) (s : Carry) (written : List ℕ) (r : List ℕ × Carry) : Type 0 where
  bytes : r.0 ++ drop r.1.carry_pos r.1.carry ≡ written ++ drop s.carry_pos s.carry
  fits : length r.0 ≤ max_len
  full_or_empty : length r.0 < max_len → drop r.1.carry_pos r.1.carry ≡ []

nothing_left : (xs : List ℕ) → length xs ≡ 0 → xs ≡ []
nothing_left [] h = refl
nothing_left (x ∷ xs) h = absurd (omega arith)

serve-Served :
    (max_len : ℕ) (s : Carry) (written : List ℕ)
    → length written ≤ max_len
    → Served max_len s written (serve max_len s written)
unfolding serve
serve-Served max_len s written fits =
    let ready = drop s.carry_pos s.carry in
    let size = min (length s.carry - s.carry_pos) (max_len - length written) in
    let rest : drop (s.carry_pos + size) s.carry ≡ drop size ready =
      drop-drop s.carry_pos size s.carry in
    let given = length-take size ready in
    let avail = length-drop s.carry_pos s.carry in
    let sum = length-append written (take size ready) in
    record {
      bytes = rw rest (
          append_assoc written (take size ready) (drop size ready)
          ∙ ap (λ l. written ++ l) (take-append-drop size ready));
      fits = omega arith;
      full_or_empty =
          λ short. rw rest (nothing_left (drop size ready) (omega (arith, length-drop size ready)));
    }

abbrev pub NonEmpty : List (List ℕ) → Type 0
NonEmpty = All (λ chunk. 0 < length chunk)

-- What a pull gives and leaves is what was there, and it gives all that fits.
record Pulled (max_len : ℕ) (before : List ℕ) (r : List ℕ × Carry × List (List ℕ)) : Type 0 where
  whole : r.0 ++ waiting r.1 r.2 ≡ before
  most : length r.0 ≡ min max_len (length before)

full-Pulled :
    (max_len : ℕ) (given rest before : List ℕ)
    → given ++ rest ≡ before
    → length given ≡ max_len
    → length given ≡ min max_len (length before)
full-Pulled max_len given rest before whole full =
    omega (arith, ap length whole, length-append given rest)

-- Bytes that were there before the serving are there after it, before whatever follows.
Served-before :
    (max_len : ℕ) (s : Carry) (written rest : List ℕ) (r : List ℕ × Carry)
    → Served max_len s written r
    → r.0 ++ (drop r.1.carry_pos r.1.carry ++ rest) ≡ written ++ (drop s.carry_pos s.carry ++ rest)
Served-before max_len s written rest r v =
    sym (append_assoc r.0 (drop r.1.carry_pos r.1.carry) rest)
    ∙ ap (λ l. l ++ rest) v.bytes
    ∙ append_assoc written (drop s.carry_pos s.carry) rest

module _ (max_len : ℕ) (s : Carry) (chunks : List (List ℕ)) (written : List ℕ) (r : List ℕ × Carry)
    (v : Served max_len s written r) where
  full-case :
      leb max_len (length r.0) ≡ true
      → Pulled max_len (written ++ waiting s chunks) (r.0, r.1, chunks)
  full-case at_max =
      let whole = Served-before max_len s written (join chunks) r v in
      let most = leb→le max_len (length r.0) at_max in
      record {
        whole = whole;
        most = full-Pulled max_len r.0 (waiting r.1 chunks) _ whole (omega (arith, v.fits));
      }

  -- With room left, all that was carried is written.
  emptied : leb max_len (length r.0) ≡ false → r.0 ++ join chunks ≡ written ++ waiting s chunks
  emptied more =
      let whole = Served-before max_len s written (join chunks) r v in
      let none_left = v.full_or_empty (leb→gt max_len (length r.0) more) in
      ap (λ l. r.0 ++ (l ++ join chunks)) (sym none_left) ∙ whole

pull-Pulled :
    (max_len : ℕ) (s : Carry) (chunks : List (List ℕ)) (written : List ℕ)
    → length written ≤ max_len
    → NonEmpty chunks
    → Pulled max_len (written ++ waiting s chunks) (pull max_len s chunks written)
unfolding pull
pull-Pulled max_len s [] written fits full =
    let r = serve max_len s written in
    let v = serve-Served max_len s written fits in
    elim (Bool-cases (leb max_len (length r.0))) [
      | inl at_max ↦ rw (at_max, pull) (full-case max_len s [] written r v at_max)
      | inr more ↦
          let whole = emptied max_len s [] written r v more in
          rw (more, pull)
            (record {
              whole = whole;
              most = omega (arith, ap length whole, length-append r.0 [], v.fits);
            })
    ]
pull-Pulled max_len s (chunk ∷ chunks) written fits full =
    let r = serve max_len s written in
    let v = serve-Served max_len s written fits in
    let fresh : Carry = record { carry = chunk; carry_pos = 0 } in
    elim (Bool-cases (leb max_len (length r.0))) [
      | inl at_max ↦ rw (at_max, pull) (full-case max_len s (chunk ∷ chunks) written r v at_max)
      | inr more ↦
          let whole = emptied max_len s (chunk ∷ chunks) written r v more in
          let has_bytes : (length chunk == 0) ≡ false = ground (arith, full.0) in
          rw (more, has_bytes, pull)
            (rw (← whole) (pull-Pulled max_len fresh chunks r.0 v.fits full.1))
    ]

-- From chunks that are not empty, a pull that starts with nothing written hands out the next
-- bytes, as many as there is room for, or all there are; and what it leaves is what follows.
pub pull_lem :
    (max_len : ℕ) (s : Carry) (chunks : List (List ℕ))
    → NonEmpty chunks
    → ((pull max_len s chunks []).0
          ++ waiting (pull max_len s chunks []).1 (pull max_len s chunks []).2
        ≡ waiting s chunks)
      × (length (pull max_len s chunks []).0 ≡ min max_len (length (waiting s chunks)))
pull_lem max_len s chunks full =
    let p = pull-Pulled max_len s chunks [] (omega arith) full in (p.whole, p.most)
