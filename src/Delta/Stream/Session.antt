-- ===== src/Delta/Stream/Session.antt =====
-- The streaming signer over a whole session: what stays, and what `Finish` returns.
use mathlib.Core.Bool.{true≢false}
use mathlib.Core.Path.{subst, ap₂}
use fast_clone.Prelude.{
  ℕ, zero, suc, ◌+◌, ◌-◌, ◌*◌, ◌/◌, ◌%◌, ◌^◌, ◌≤◌, ◌<◌, ◌≡◌, refl, ap, sym, ◌∙◌, List, [], ◌∷◌,
  ◌++◌, length, take, drop, arith, append-nil, append_assoc, min, true, false, ◌==◌, ltb, leb, ◌||◌,
  if_holds, if◌then◌else◌, ==_iff, length-drop, length-append, Bool-cases, inl, inr, Result, ltb→lt,
  ltb→ge, ok,
}
use fast_clone.Entry.{Hash256}
use fast_clone.Delta.Signature.{BlockSig}
use fast_clone.Delta.BlockSize.{choose_strong_len, choose_block_size}
use fast_clone.Delta.Sign.{sign_blocks}
use fast_clone.Delta.Stream.{
  StreamingResult, Signer, new_signer, feed_block, close_block, span, take_piece, consume, update,
  finish, update_all,
}
use fast_clone.Delta.Stream.Fed.{Fed, begun, more}
use fast_clone.Delta.Stream.Blocks.{join, Setting, SignerOk, consume-SignerOk}

module _ (v : Setting) where
  -- What the loop leaves alone.
  Keeps : Signer v.h → Signer v.h → Type 0
  Keeps s t =
      (t.consumed ≡ s.consumed) × (t.file_state ≡ s.file_state) × (t.strong_len ≡ s.strong_len)

  take_piece-Keeps : (s : Signer v.h) (piece : List ℕ) → Keeps s (take_piece v.h s piece)
  unfolding Keeps take_piece feed_block close_block
  take_piece-Keeps s piece =
      if_holds (λ (t : Signer v.h). Keeps s t) (fed.cur_block_filled == fed.cur_block_len) _ _
        (λ _. (refl, refl, refl)) (λ _. (refl, refl, refl))
    where
      fed : Signer v.h
      fed = feed_block v.h s (take (span v.h s piece) piece)

  consume-Keeps : (fuel : ℕ) (s : Signer v.h) (piece : List ℕ) → Keeps s (consume v.h fuel s piece)
  unfolding Keeps consume
  consume-Keeps zero s piece = (refl, refl, refl)
  consume-Keeps (suc fuel) s piece =
      let first = take_piece-Keeps s piece in
      let rest = consume-Keeps fuel (take_piece v.h s piece) (drop (span v.h s piece) piece) in
      if_holds (λ (t : Signer v.h). Keeps s t)
        ((length piece == 0) || leb s.block_count s.cur_block_index) _ _ (λ _. (refl, refl, refl))
        (λ _. (rest.0 ∙ first.0, rest.1 ∙ first.1, rest.2 ∙ first.2))

  -- The signer and the whole file's hash, with `rest` of the file still to come.
  pub record SessionOk (s : Signer v.h) (rest : List ℕ) : Type 0 where
    pub signer : SignerOk v s rest
    pub taken : List ℕ
    pub parts : taken ++ rest ≡ v.bytes
    pub consumed : s.consumed ≡ length taken
    pub fed : Fed v.h s.file_state taken
    pub strong_len : s.strong_len ≡ choose_strong_len v.count

  update-SessionOk :
      (s : Signer v.h) (piece later : List ℕ)
      → SessionOk s (piece ++ later)
      → SessionOk (update v.h s piece) later
  unfolding update Keeps
  update-SessionOk s piece later good =
      let begin_with : Signer v.h = record s {
        file_state = if ltb 0 (length piece) then v.h.feed s.file_state piece else s.file_state;
        consumed = (s.consumed + length piece) % 2 ^ 64;
      } in
      let kept = consume-Keeps (length piece) begin_with piece in
      let total : length (good.taken ++ (piece ++ later)) ≡ length v.bytes = ap length good.parts in
      record {
        signer =
            consume-SignerOk v (length piece) begin_with piece later (omega arith)
              (same_signer good.signer);
        taken = good.taken ++ piece;
        parts = append_assoc good.taken piece later ∙ good.parts;
        consumed =
            kept.0
            ∙ omega (
              arith,
              good.consumed,
              total,
              length-append good.taken (piece ++ later),
              length-append piece later,
              length-append good.taken piece,
            );
        fed =
            subst (λ st. Fed v.h st (good.taken ++ piece)) (sym kept.1)
              (if_holds (λ (st : v.h.State). Fed v.h st (good.taken ++ piece))
                (ltb 0 (length piece)) _ _ (λ _. more s.file_state good.taken piece good.fed)
                (λ none_fed. no_bytes piece (ltb→ge 0 (length piece) none_fed)));
        strong_len = kept.2 ∙ good.strong_len;
      }
    where
      no_bytes : (xs : List ℕ) → length xs ≤ 0 → Fed v.h s.file_state (good.taken ++ xs)
      no_bytes [] empty = subst (Fed v.h s.file_state) (sym (append-nil good.taken)) good.fed
      no_bytes (b ∷ xs) empty = absurd (omega arith)

      same_signer :
          SignerOk v s (piece ++ later)
          → SignerOk v
              (record s {
                file_state =
                    if ltb 0 (length piece) then v.h.feed s.file_state piece else s.file_state;
                consumed = (s.consumed + length piece) % 2 ^ 64;
              })
              (piece ++ later)
      same_signer g = record {
        file_size = g.file_size;
        block_size = g.block_size;
        block_count = g.block_count;
        index = g.index;
        blocks = g.blocks;
        inside = λ below.
            let i = g.inside below in
            record {
              cur = i.cur;
              split = i.split;
              filled = i.filled;
              len = i.len;
              room = i.room;
              position = i.position;
              sums = i.sums;
              fed = i.fed;
            };
      }

  pub update_all-SessionOk :
      (s : Signer v.h) (pieces : List (List ℕ))
      → SessionOk s (join pieces)
      → SessionOk (update_all v.h s pieces) []
  unfolding update_all join
  update_all-SessionOk s [] good = good
  update_all-SessionOk s (piece ∷ pieces) good =
      update_all-SessionOk (update v.h s piece) pieces (update-SessionOk s piece (join pieces) good)

  abbrev pub result : ℕ → ℕ → ℕ → ℕ → List BlockSig → Hash256 → StreamingResult
  result file_size block_size block_count strong_len blocks hash = record {
    sig = record {
      file_size = file_size;
      block_size = block_size;
      block_count = block_count;
      strong_len = strong_len;
      blocks = blocks;
    };
    file_hash = hash;
  }

  -- With nothing to come, every block has been signed.
  all_signed : (s : Signer v.h) → SignerOk v s [] → s.cur_block_index ≡ v.count
  all_signed s good =
      elim (Bool-cases (ltb s.cur_block_index v.count)) as (λ _. s.cur_block_index ≡ v.count) [
        | inl below ↦
            let inner = good.inside (ltb→lt s.cur_block_index v.count below) in
            let start = v.starts s.cur_block_index (ltb→lt s.cur_block_index v.count below) in
            let seen : length v.bytes - s.cur_block_index * v.size ≡ length inner.cur =
              sym (length-drop (s.cur_block_index * v.size) v.bytes)
              ∙ ap length (inner.split ∙ append-nil inner.cur) in
            absurd (omega (arith, inner.room, inner.len, seen, start))
        | inr done ↦ omega (arith, ltb→ge s.cur_block_index v.count done, good.index)
      ]

  pub finish-SessionOk :
      (s : Signer v.h)
      → SessionOk s []
      → finish v.h s
        ≡ ok (
            result
              (length v.bytes)
              v.size
              v.count
              (choose_strong_len v.count)
              (sign_blocks v.strong_hash v.bytes v.size 0 v.count)
              (v.file_hash v.bytes))
  unfolding finish
  finish-SessionOk s good =
      let g = good.signer in
      let taken_all : good.taken ≡ v.bytes = sym (append-nil good.taken) ∙ good.parts in
      let counted : s.consumed ≡ s.file_size =
        good.consumed ∙ ap length taken_all ∙ sym g.file_size in
      let hash : v.h.raw s.file_state ≡ v.file_hash v.bytes =
        v.raw_is s.file_state good.taken good.fed ∙ ap v.file_hash taken_all in
      let blocks : s.blocks ≡ sign_blocks v.strong_hash v.bytes v.size 0 v.count =
        g.blocks ∙ ap (sign_blocks v.strong_hash v.bytes v.size 0) (all_signed s g) in
      let same : (s.consumed == s.file_size) ≡ true = (==_iff s.consumed s.file_size).1 counted in
      if_holds
        (λ (r : Result StreamingResult).
          r
          ≡ ok (
              result (length v.bytes) v.size v.count (choose_strong_len v.count)
                (sign_blocks v.strong_hash v.bytes v.size 0 v.count) (v.file_hash v.bytes)))
        (s.consumed == s.file_size) _ _
        (λ _. ap ok (
          ap (λ f. result f s.block_size s.block_count s.strong_len s.blocks (v.h.raw s.file_state))
            g.file_size
          ∙ ap
              (λ f.
                result (length v.bytes) f s.block_count s.strong_len s.blocks
                  (v.h.raw s.file_state))
              g.block_size
          ∙ ap (λ f. result (length v.bytes) v.size f s.strong_len s.blocks (v.h.raw s.file_state))
              g.block_count
          ∙ ap (λ f. result (length v.bytes) v.size v.count f s.blocks (v.h.raw s.file_state))
              good.strong_len
          ∙ ap₂ (result (length v.bytes) v.size v.count (choose_strong_len v.count)) blocks hash))
        (λ no. absurd (true≢false (sym same ∙ no)))

  pub new_signer-SessionOk :
      0 < length v.bytes
      → v.size ≡ choose_block_size (length v.bytes)
      → v.count ≡ (length v.bytes + v.size - 1) % 2 ^ 64 / v.size % 2 ^ 32
      → SessionOk (new_signer v.h (length v.bytes)) v.bytes
  unfolding new_signer sign_blocks
  new_signer-SessionOk pos size_is count_is =
      let count_same : (length v.bytes + choose_block_size (length v.bytes) - 1)
            % 2 ^ 64
            / choose_block_size (length v.bytes)
            % 2 ^ 32
          ≡ v.count =
        ap (λ k. (length v.bytes + k - 1) % 2 ^ 64 / k % 2 ^ 32) (sym size_is) ∙ sym count_is in
      let cur_len : (new_signer v.h (length v.bytes)).cur_block_len
          ≡ min v.size (length v.bytes - 0 * v.size) =
        pick _ _ ∙ ap (λ k. min k (length v.bytes) % 2 ^ 32) (sym size_is) ∙ omega arith in
      record {
        signer = record {
          file_size = refl;
          block_size = pick _ _ ∙ sym size_is;
          block_count = pick _ _ ∙ count_same;
          index = omega arith;
          blocks = refl;
          inside = λ below. record {
            cur = [];
            split = let origin : 0 * v.size ≡ 0 = omega arith in ap (λ k. drop k v.bytes) origin;
            filled = refl;
            len = cur_len;
            room = omega (arith, cur_len);
            position = refl;
            sums = λ ys. refl;
            fed = begun;
          };
        };
        taken = [];
        parts = refl;
        consumed = refl;
        fed = begun;
        strong_len = pick _ _ ∙ ap choose_strong_len count_same;
      }
    where
      some_bytes : (length v.bytes == 0) ≡ false
      some_bytes = ground (arith, pos)

      pick : {A : Type 0} (x y : A) → (if length v.bytes == 0 then x else y) ≡ y
      pick x y = ap (λ b. if b then x else y) some_bytes
