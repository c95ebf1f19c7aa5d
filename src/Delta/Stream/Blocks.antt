-- ===== src/Delta/Stream/Blocks.antt =====
-- The blocks of the streaming signer: a block that is seen whole is signed as `GenerateSignatures`
-- signs it.
use mathlib.Core.Bool.{true≢false}
use mathlib.Core.Path.{subst, ap₂}
use fast_clone.Prelude.{
  ℕ, zero, suc, ◌+◌, ◌-◌, ◌*◌, ◌%◌, ◌^◌, ◌≤◌, ◌<◌, ◌≡◌, refl, ap, sym, ◌∙◌, List, [], ◌∷◌, ◌++◌,
  length, take, drop, arith, append-nil, append_assoc, min, true, false, ◌==◌, ltb, leb, ◌||◌,
  if_holds, ==_iff, length-take, length-drop, length-append, take-append-drop, take_append,
  drop_append, lt→ltb, ltb→ge,
}
use fast_clone.Entry.{Hash256}
use fast_clone.Delta.Signature.{BlockSig}
use fast_clone.Delta.Weak.{weak_init, weak_value, weak_loop}
use fast_clone.Delta.Sign.{sign_block, sign_blocks}
use fast_clone.Delta.Stream.{StreamHash, Signer, feed_block, close_block, span, take_piece, consume}
use fast_clone.Delta.Stream.Fed.{
  Fed, begun, more, add_bytes-weak_loop, add_bytes-j, drop-drop, sign_blocks-suc,
}

lt_of_unequal : (a b : ℕ) → a ≤ b → (a == b) ≡ false → a < b
lt_of_unequal a b le h = ground arith

-- The pieces one after another.
unfoldable pub join : List (List ℕ) → List ℕ
join [] = []
join (piece ∷ pieces) = piece ++ join pieces

-- A hash, what its digests are, a file, and its block size and block count.
pub record Setting : Type 1 where
  pub h : StreamHash
  pub strong_hash : List ℕ → List ℕ
  pub file_hash : List ℕ → Hash256
  pub canonical_is :
      (s : h.State) (bytes : List ℕ) → Fed h s bytes → h.canonical s ≡ strong_hash bytes
  pub raw_is : (s : h.State) (bytes : List ℕ) → Fed h s bytes → h.raw s ≡ file_hash bytes
  pub bytes : List ℕ
  pub size : ℕ
  pub count : ℕ
  pub small : length bytes < 2 ^ 31
  pub size_pos : 0 < size
  pub size_bound : size ≤ 131072
  pub count_bound : count < 2 ^ 32
  pub starts : (i : ℕ) → i < count → i * size < length bytes
  pub whole : length bytes ≤ count * size

module _ (v : Setting) where
  -- Inside block `i`, with `cur` of its bytes seen, and `rest` of the file still to come.
  pub record Inside (s : Signer v.h) (rest : List ℕ) : Type 0 where
    pub cur : List ℕ
    pub split : drop (s.cur_block_index * v.size) v.bytes ≡ cur ++ rest
    pub filled : s.cur_block_filled ≡ length cur
    pub len : s.cur_block_len ≡ min v.size (length v.bytes - s.cur_block_index * v.size)
    pub room : length cur < s.cur_block_len
    pub position : s.weak.j ≡ length cur
    pub sums :
        (ys : List ℕ) → weak_loop (cur ++ ys) 0 0 0 ≡ weak_loop ys s.weak.j s.weak.s1 s.weak.s2
    pub fed : Fed v.h s.block_state cur

  pub record SignerOk (s : Signer v.h) (rest : List ℕ) : Type 0 where
    pub file_size : s.file_size ≡ length v.bytes
    pub block_size : s.block_size ≡ v.size
    pub block_count : s.block_count ≡ v.count
    pub index : s.cur_block_index ≤ v.count
    pub blocks : s.blocks ≡ sign_blocks v.strong_hash v.bytes v.size 0 s.cur_block_index
    pub inside : s.cur_block_index < v.count → Inside s rest

  -- A block that is seen whole is signed as `GenerateSignatures` signs it.
  close_block-SignerOk :
      (s : Signer v.h) (cur rest : List ℕ)
      → s.file_size ≡ length v.bytes
      → s.block_size ≡ v.size
      → s.block_count ≡ v.count
      → s.cur_block_index < v.count
      → s.blocks ≡ sign_blocks v.strong_hash v.bytes v.size 0 s.cur_block_index
      → drop (s.cur_block_index * v.size) v.bytes ≡ cur ++ rest
      → length cur ≡ min v.size (length v.bytes - s.cur_block_index * v.size)
      → ((ys : List ℕ) → weak_loop (cur ++ ys) 0 0 0 ≡ weak_loop ys s.weak.j s.weak.s1 s.weak.s2)
      → Fed v.h s.block_state cur
      → SignerOk (close_block v.h s) rest
  unfolding close_block sign_blocks sign_block weak_init weak_loop
  close_block-SignerOk s cur rest fs bz bc below done split len sums fed =
      let idx = s.cur_block_index in
      let idx' = (idx + 1) % 2 ^ 32 in
      let next : idx' ≡ idx + 1 = omega arith in
      let from_zero : idx ≡ 0 + idx = omega arith in
      let next_len : ℕ → ℕ → ℕ = λ b f. min b ((f + 2 ^ 64 - idx' * b) % 2 ^ 64) % 2 ^ 32 in
      let bs : BlockSig = record {
        weak = s.weak.s2 % 2 ^ 16 * 2 ^ 16 + s.weak.s1 % 2 ^ 16;
        strong = v.h.canonical s.block_state;
      } in
      let cut : take (min v.size (length v.bytes - idx * v.size) % 2 ^ 32)
            (drop (idx * v.size) v.bytes)
          ≡ cur =
        cut_is (min v.size (length v.bytes - idx * v.size) % 2 ^ 32) (drop (idx * v.size) v.bytes)
          cur rest split (omega (arith, len)) in
      let same_sums : weak_init cur ≡ weak_loop [] s.weak.j s.weak.s1 s.weak.s2 =
        ap (λ xs. weak_loop xs 0 0 0) (sym (append-nil cur)) ∙ sums [] in
      let same_weak : bs.weak ≡ weak_value (weak_init cur) =
        omega arith ∙ ap weak_value (sym same_sums) in
      let signed : bs ≡ sign_block v.strong_hash v.bytes v.size idx =
        ap₂ block_sig same_weak (v.canonical_is s.block_state cur fed)
        ∙ ap (λ b. block_sig (weak_value (weak_init b)) (v.strong_hash b)) (sym cut) in
      record {
        file_size = fs;
        block_size = bz;
        block_count = bc;
        index = omega arith;
        blocks =
            ap₂ (λ bs b. bs ++ (b ∷ [])) done signed
            ∙ ap
                (λ k.
                  sign_blocks v.strong_hash v.bytes v.size 0 idx
                  ++ (sign_block v.strong_hash v.bytes v.size k ∷ []))
                from_zero
            ∙ sym (sign_blocks-suc v.strong_hash v.bytes v.size 0 idx)
            ∙ ap (sign_blocks v.strong_hash v.bytes v.size 0) (sym next);
        inside = λ below_next.
            let wide : idx' * v.size ≡ idx * v.size + v.size =
              ap (λ k. k * v.size) next ∙ omega arith in
            let start = v.starts idx' below_next in
            let full : length cur ≡ v.size = omega (arith, len, wide, start) in
            let is_more : ltb idx' s.block_count ≡ true =
              lt→ltb idx' s.block_count (omega (arith, below_next, bc)) in
            let len_is : (close_block v.h s).cur_block_len
                ≡ min v.size (length v.bytes - idx' * v.size) =
              if_holds (λ (n : ℕ). n ≡ min v.size (length v.bytes - idx' * v.size))
                (ltb idx' s.block_count) _ _ (λ _. ap₂ next_len bz fs ∙ omega (arith, start))
                (λ no. absurd (true≢false (sym is_more ∙ no))) in
            record {
              cur = [];
              split =
                  ap (λ k. drop k v.bytes) wide
                  ∙ sym (drop-drop v.size (idx * v.size) v.bytes)
                  ∙ ap (drop v.size) split
                  ∙ ap (λ k. drop k (cur ++ rest)) (sym full)
                  ∙ drop_append cur rest;
              filled = refl;
              len = len_is;
              room = omega (arith, len_is, start);
              position = refl;
              sums = λ ys. refl;
              fed =
                  if_holds (λ (st : v.h.State). Fed v.h st []) (ltb idx' s.block_count) _ _
                    (λ _. begun) (λ no. absurd (true≢false (sym is_more ∙ no)));
            };
      }
    where
      block_sig : ℕ → List ℕ → BlockSig
      block_sig weak strong = record { weak = weak; strong = strong }

      cut_is :
          (n : ℕ) (xs front back : List ℕ)
          → xs ≡ front ++ back
          → n ≡ length front
          → take n xs ≡ front
      cut_is n xs front back e k = ap₂ take k e ∙ take_append front back

  take_piece-SignerOk :
      (s : Signer v.h) (piece later : List ℕ)
      → SignerOk s (piece ++ later)
      → s.cur_block_index < v.count
      → 0 < length piece
      → SignerOk (take_piece v.h s piece) (drop (span v.h s piece) piece ++ later)
  unfolding take_piece feed_block
  take_piece-SignerOk s piece later good below pos =
      let ins = good.inside below in
      let start = v.starts s.cur_block_index below in
      let sp = span v.h s piece in
      let p = take sp piece in
      let rest = drop sp piece ++ later in
      let fed = feed_block v.h s p in
      let cur = ins.cur ++ p in
      let p_len : length p ≡ sp = length-take sp piece ∙ omega arith in
      let cur_len : length cur ≡ length ins.cur + length p = length-append ins.cur p in
      let sp_is : sp ≡ min (s.cur_block_len - length ins.cur) (length piece) =
        omega (arith, ins.filled, ins.room, ins.len) in
      let filled : fed.cur_block_filled ≡ length cur =
        omega (arith, ins.filled, cur_len, p_len, sp_is, ins.room, ins.len) in
      let split : drop (s.cur_block_index * v.size) v.bytes ≡ cur ++ rest =
        ins.split
        ∙ ap (λ xs. ins.cur ++ (xs ++ later)) (sym (take-append-drop sp piece))
        ∙ ap (λ xs. ins.cur ++ xs) (append_assoc p (drop sp piece) later)
        ∙ sym (append_assoc ins.cur p rest) in
      let short : s.weak.j + length p < 2 ^ 32 =
        omega (arith, ins.position, p_len, sp_is, ins.room, ins.len) in
      let sums : (ys : List ℕ)
          → weak_loop (cur ++ ys) 0 0 0 ≡ weak_loop ys fed.weak.j fed.weak.s1 fed.weak.s2 =
        λ ys.
          ap (λ xs. weak_loop xs 0 0 0) (append_assoc ins.cur p ys)
          ∙ ins.sums (p ++ ys)
          ∙ add_bytes-weak_loop p ys s.weak short in
      let state : Fed v.h fed.block_state cur =
        if_holds (λ (st : v.h.State). Fed v.h st cur) (ltb 0 (length p)) _ _
          (λ _. more s.block_state ins.cur p ins.fed)
          (λ none_fed. absurd (
            let empty = ltb→ge 0 (length p) none_fed in
            omega (arith, p_len, sp_is, ins.room, pos, empty))) in
      if_holds (λ (t : Signer v.h). SignerOk t rest) (fed.cur_block_filled == fed.cur_block_len) _ _
        (λ full.
          let same = (==_iff fed.cur_block_filled fed.cur_block_len).0 full in
          close_block-SignerOk fed cur rest good.file_size good.block_size good.block_count below
            good.blocks split (omega (arith, filled, same, ins.len)) sums state)
        (λ open_still. record {
          file_size = good.file_size;
          block_size = good.block_size;
          block_count = good.block_count;
          index = good.index;
          blocks = good.blocks;
          inside = λ _. record {
            cur = cur;
            split = split;
            filled = filled;
            len = ins.len;
            room =
                subst (λ k. k < s.cur_block_len) filled
                  (lt_of_unequal fed.cur_block_filled s.cur_block_len
                    (omega (arith, filled, cur_len, p_len, sp_is, ins.room)) open_still);
            position = add_bytes-j p s.weak short ∙ omega (arith, ins.position, cur_len);
            sums = sums;
            fed = state;
          };
        })

  pub consume-SignerOk :
      (fuel : ℕ) (s : Signer v.h) (piece later : List ℕ)
      → length piece ≤ fuel
      → SignerOk s (piece ++ later)
      → SignerOk (consume v.h fuel s piece) later
  unfolding consume
  consume-SignerOk zero s [] later enough good = good
  consume-SignerOk zero s (b ∷ piece) later enough good = absurd (omega arith)
  consume-SignerOk (suc fuel) s piece later enough good =
      if_holds (λ (t : Signer v.h). SignerOk t later)
        ((length piece == 0) || leb s.block_count s.cur_block_index) _ _
        (λ stop. stopped s piece later good stop)
        (λ go_on.
          let below : s.cur_block_index < v.count = ground (arith, go_on, good.block_count) in
          let some_left : 0 < length piece = ground (arith, go_on) in
          let ins = good.inside below in
          let start = v.starts s.cur_block_index below in
          consume-SignerOk fuel (take_piece v.h s piece) (drop (span v.h s piece) piece) later
            (omega (
              arith,
              length-drop (span v.h s piece) piece,
              ins.filled,
              ins.room,
              ins.len,
              some_left,
            ))
            (take_piece-SignerOk s piece later good below some_left))
    where
      stopped :
          (s : Signer v.h) (piece later : List ℕ)
          → SignerOk s (piece ++ later)
          → ((length piece == 0) || leb s.block_count s.cur_block_index) ≡ true
          → SignerOk s later
      stopped s [] later good stop = good
      stopped s (b ∷ piece) later good stop = record {
        file_size = good.file_size;
        block_size = good.block_size;
        block_count = good.block_count;
        index = good.index;
        blocks = good.blocks;
        inside = λ below. absurd (ground (arith, stop, good.block_count, below));
      }
