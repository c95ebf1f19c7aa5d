-- ===== src/Wire/Frame/Receive.antt =====
-- `RecvFrame` takes apart what was sent, and keeps in step with the frames.
use fast_clone.Prelude.{
  ℕ, zero, suc, ◌+◌, ◌%◌, ◌^◌, ◌≤◌, ◌<◌, ◌≡◌, refl, sym, ◌∙◌, List, [], ◌∷◌, ◌++◌, arith, true,
  false, Result, ok, ◌>>=◌, length, take, drop, All, append_assoc, append-nil, set, bind_returns,
  ltb, length-take, length-drop, take_length, All-take, All-drop, take-append-drop, ap,
}
use fast_clone.Wire.Bytes.{le_bytes, le_value, read_chunk, IsByte}
use fast_clone.Wire.Bytes.Lists.{concat_map}
use fast_clone.Wire.Bytes.RoundTrip.{
  read_chunk-append, le_value-le_bytes, read_chunk_takes, read_chunk-prefix, le_bytes-le_value,
}
use fast_clone.Wire.Frame.{
  Frame, header_size, max_sane_frame_payload, Receiver, history_size, first_byte,
  record_recv_history, recv_payload, recv_frame, send_frame_batch, fresh_receiver,
}
use fast_clone.Wire.Frame.Send.{
  IsKnown, header_bytes, frame_bytes, frame_size, send_frame_batch_lem,
}

-- A frame that the program builds: a known type, and fields that the header can hold.
pub record IsSendable (f : Frame) : Type 0 where
  pub known : IsKnown f
  pub stream_id : f.stream_id < 2 ^ 32
  pub payload : length f.payload ≤ max_sane_frame_payload

-- The thread after it took `f`, with `rest` still to come.
pub after_frame : Receiver → Frame → List ℕ → Receiver
after_frame r f rest = record r {
  input = rest;
  history = set r.history (r.history_pos % history_size) (record {
    kind = f.kind;
    stream_id = f.stream_id;
    payload_len = length f.payload;
    used = true;
  });
  history_pos = r.history_pos + 1;
  frame_index = r.frame_index + 1;
  byte_offset = (r.byte_offset + frame_size f) % 2 ^ 64;
  net_received = (r.net_received + frame_size f) % 2 ^ 64;
}

-- The header's fields as `RecvFrame` takes them out.
header_fields :
    (f : Frame)
    → IsSendable f
    → (length (header_bytes f) ≡ header_size)
      × (first_byte (header_bytes f) ≡ f.kind)
      × (le_value (take 4 (drop 1 (header_bytes f))) ≡ f.stream_id)
      × (le_value (take 4 (drop 5 (header_bytes f))) ≡ length f.payload)
unfolding header_bytes first_byte le_bytes
header_fields f h =
    let fits : length f.payload % 2 ^ 32 ≡ length f.payload = omega (arith, h.payload) in
    (
      refl,
      refl,
      le_value-le_bytes 4 f.stream_id h.stream_id,
      le_value-le_bytes 4 (length f.payload % 2 ^ 32) (omega arith) ∙ fits,
    )

recv_payload_lem :
    (r : Receiver) (f : Frame) (rest : List ℕ)
    → r.input ≡ f.payload ++ rest
    → recv_payload r f.kind f.stream_id (length f.payload) ≡ ok (f, after_frame r f rest)
unfolding recv_payload record_recv_history after_frame frame_size
recv_payload_lem r f rest e =
    rw (e, read_chunk-append "recv failed" (length f.payload) f.payload rest refl)

-- A frame on the wire is received as it was sent, and the bytes behind it are left.
pub recv_frame_lem :
    (r : Receiver) (f : Frame) (rest : List ℕ)
    → IsSendable f
    → r.input ≡ frame_bytes f ++ rest
    → recv_frame r ≡ ok (f, after_frame r f rest)
unfolding recv_frame frame_bytes after_frame
recv_frame_lem r f rest h e =
    let (len, kind, sid, size) = header_fields f h in
    let small : ltb max_sane_frame_payload (length f.payload) ≡ false = ground (arith, h.payload) in
    rw
      (
        e,
        append_assoc (header_bytes f) f.payload rest,
        read_chunk-append "recv failed" header_size (header_bytes f) (f.payload ++ rest) (sym len),
        kind,
        sid,
        size,
        h.known,
        small,
      )
      (recv_payload_lem (record r { input = f.payload ++ rest }) f rest refl)

-- `n` frames, one call after another.
pub recv_frames : ℕ → Receiver → Result (List Frame × Receiver)
recv_frames zero r = ok ([], r)
recv_frames (suc n) r = do (f, r) ← recv_frame r; (fs, r) ← recv_frames n r; ok (f ∷ fs, r)

-- The thread after it took each of `fs`.
pub after_frames : Receiver → List Frame → List ℕ → Receiver
after_frames r [] rest = record r { input = rest }
after_frames r (f ∷ fs) rest =
    after_frames (after_frame r f (concat_map frame_bytes fs ++ rest)) fs rest

recv_frames_lem :
    (fs : List Frame) (r : Receiver) (rest : List ℕ)
    → All IsSendable fs
    → r.input ≡ concat_map frame_bytes fs ++ rest
    → recv_frames (length fs) r ≡ ok (fs, after_frames r fs rest)
unfolding recv_frames after_frames concat_map
recv_frames_lem [] r rest h e = rw (← e)
recv_frames_lem (f ∷ fs) r rest h e =
    let behind = concat_map frame_bytes fs ++ rest in
    rw (
      recv_frame_lem r f behind h.0
          (e ∙ append_assoc (frame_bytes f) (concat_map frame_bytes fs) rest),
      recv_frames_lem fs (after_frame r f behind) rest h.1 (unfold after_frame in refl),
    )

All-IsKnown : (fs : List Frame) → All IsSendable fs → All IsKnown fs
All-IsKnown [] h = tt
All-IsKnown (f ∷ fs) h = (h.0.known, All-IsKnown fs h.1)

-- A batch of frames, each of a known type and within the header's fields, that is sent on a
-- fresh connection is received frame by frame: the same frames in the same order, with nothing
-- left over.
pub batch_is_received :
    (fs : List Frame)
    → All IsSendable fs
    → recv_frames
        (length fs)
        (fresh_receiver (send_frame_batch (record { wire = []; sent = 0 }) fs).0.wire)
      ≡ ok (fs, after_frames (fresh_receiver (concat_map frame_bytes fs)) fs [])
batch_is_received fs h =
    rw (send_frame_batch_lem (record { wire = []; sent = 0 }) fs (omega arith) (All-IsKnown fs h)) (
      recv_frames_lem fs (fresh_receiver (concat_map frame_bytes fs)) [] h
        (sym (append-nil (concat_map frame_bytes fs))))

-- Nine bytes of a header are those of its fields.
header_again :
    (h : List ℕ)
    → length h ≡ header_size
    → All IsByte h
    → (first_byte h ∷ le_bytes 4 (le_value (take 4 (drop 1 h))))
        ++ le_bytes 4 (le_value (take 4 (drop 5 h)))
      ≡ h
unfolding first_byte
header_again [] len bytes = absurd (omega arith)
header_again (k ∷ t) len bytes =
    let back = drop 4 t in
    let sizes : (length (take 4 t) ≡ 4) × (length back ≡ 4) =
      ground (arith, length-take 4 t, length-drop 4 t) in
    let whole : take 4 back ≡ back = ap (λ n. take n back) (sym sizes.1) ∙ take_length back in
    let low : le_bytes 4 (le_value (take 4 t)) ≡ take 4 t =
      ap (λ n. le_bytes n (le_value (take 4 t))) (sym sizes.0)
      ∙ le_bytes-le_value (take 4 t) (All-take IsByte 4 t bytes.1) in
    let high : le_bytes 4 (le_value back) ≡ back =
      ap (λ n. le_bytes n (le_value back)) (sym sizes.1)
      ∙ le_bytes-le_value back (All-drop IsByte 4 t bytes.1) in
    ap (◌∷◌ k) (cc (whole, low, high, take-append-drop 4 t))

recv_payload_takes :
    (r r' : Receiver) (f : Frame) (kind sid len : ℕ)
    → recv_payload r kind sid len ≡ ok (f, r')
    → (f.kind ≡ kind)
      × (f.stream_id ≡ sid)
      × (length f.payload ≡ len)
      × (r.input ≡ f.payload ++ r'.input)
unfolding recv_payload
recv_payload_takes r r' f kind sid len e =
    let ((payload, rest), q, p) = bind_returns (read_chunk "recv failed" len r.input) e in
    let size = read_chunk_takes "recv failed" len r.input payload rest p in
    let whole = read_chunk-prefix "recv failed" len r.input payload rest p in
    (ground arith, ground arith, ground (arith, size), ground (arith, whole.1))

header_bytes-again :
    (f : Frame) (h : List ℕ)
    → length h ≡ header_size
    → All IsByte h
    → f.kind ≡ first_byte h
    → f.stream_id ≡ le_value (take 4 (drop 1 h))
    → length f.payload ≡ le_value (take 4 (drop 5 h))
    → length f.payload ≤ max_sane_frame_payload
    → header_bytes f ≡ h
unfolding header_bytes
header_bytes-again f h size bytes kind sid len small =
    let fits : length f.payload % 2 ^ 32 ≡ le_value (take 4 (drop 5 h)) = omega arith in
    rw (kind, sid, fits) (header_again h size bytes)

-- Whatever the bytes of the input, a frame that is received has a known type and a payload of at
-- most one gibibyte, and the input is the header of that frame, its payload, and what is left.
pub recv_frame_takes :
    (r r' : Receiver) (f : Frame)
    → All IsByte r.input
    → recv_frame r ≡ ok (f, r')
    → IsKnown f
      × (length f.payload ≤ max_sane_frame_payload)
      × (r.input ≡ frame_bytes f ++ r'.input)
unfolding recv_frame
recv_frame_takes r r' f bytes e =
    let ((header, rest), q, p) = bind_returns (read_chunk "recv failed" header_size r.input) e in
    let size = read_chunk_takes "recv failed" header_size r.input header rest p in
    let whole = read_chunk-prefix "recv failed" header_size r.input header rest p in
    let bytes_of_header : All IsByte header =
      rw whole.0 (All-take IsByte header_size r.input bytes) in
    let t =
      recv_payload_takes (record r { input = rest }) r' f (first_byte header)
        (le_value (take 4 (drop 1 header))) (le_value (take 4 (drop 5 header)))
        (ground (arith, q)) in
    let passed : IsKnown f × (length f.payload ≤ max_sane_frame_payload) = ground (arith, q, t) in
    let same = header_bytes-again f header size.0 bytes_of_header t.0 t.1 t.2 passed.1 in
    (
      passed.0,
      passed.1,
      whole.1
          ∙ unfold frame_bytes in
            (ap (λ h. h ++ rest) (sym same)
              ∙ ap (λ xs. header_bytes f ++ xs) t.3
              ∙ sym (append_assoc (header_bytes f) f.payload r'.input)),
    )
