-- ===== src/Wire/Frame/Send.antt =====
-- What the two send functions and `AppendEncodedFrame` put on the wire.
use fast_clone.Prelude.{
  All-take, All-drop, ℕ, zero, suc, ◌+◌, ◌%◌, ◌^◌, ◌≤◌, ◌<◌, ◌≡◌, refl, sym, ap, ◌∙◌, List, [], ◌∷◌,
  ◌++◌, arith, true, Option, some, Result, ok, length, take, drop, All, append_assoc, append-nil,
  take-append-drop, length-drop,
}
use fast_clone.Wire.Bytes.{le_bytes}
use fast_clone.Wire.Bytes.Lists.{concat_map}
use fast_clone.Wire.Bytes.RoundTrip.{append_u32_lem}
use fast_clone.Wire.MsgType.{is_known_msg_type}
use fast_clone.Wire.Frame.{
  Frame, header_size, encode_header, append_encoded_frame, Net, frame_buffers, send_buffers_all,
  send_frame, gather, send_groups, frame_chunk, send_frame_batch,
}

abbrev pub IsKnown : Frame → Type 0
IsKnown f = is_known_msg_type f.kind ≡ true

unfoldable pub header_bytes : Frame → List ℕ
header_bytes f = (f.kind ∷ le_bytes 4 f.stream_id) ++ le_bytes 4 (length f.payload % 2 ^ 32)

-- A frame as it stands on the wire.
unfoldable pub frame_bytes : Frame → List ℕ
frame_bytes f = header_bytes f ++ f.payload

unfoldable pub frame_size : Frame → ℕ
frame_size f = header_size + length f.payload

pub total_size : List Frame → ℕ
total_size [] = 0
total_size (f ∷ fs) = frame_size f + total_size fs

encode_header_known : (f : Frame) → IsKnown f → encode_header f ≡ ok (header_bytes f)
unfolding encode_header header_bytes
encode_header_known f h = rw (h, append_u32_lem, append_u32_lem)

-- `AppendEncodedFrame` adds the bytes of the frame, and does not look at its type.
pub append_encoded_frame_lem :
    (out : List ℕ) (f : Frame) → append_encoded_frame out f ≡ out ++ frame_bytes f
unfolding append_encoded_frame frame_bytes header_bytes
append_encoded_frame_lem out f = simp (append_u32_lem, append_assoc)

flatten_buffers : List (List ℕ) → List ℕ
flatten_buffers [] = []
flatten_buffers (b ∷ bs) = b ++ flatten_buffers bs

send_buffers_all_lem :
    (wire : List ℕ) (bs : List (List ℕ)) → send_buffers_all wire bs ≡ wire ++ flatten_buffers bs
unfolding send_buffers_all flatten_buffers
send_buffers_all_lem wire [] = sym (append-nil wire)
send_buffers_all_lem wire (b ∷ bs) =
    send_buffers_all_lem (wire ++ b) bs ∙ append_assoc wire b (flatten_buffers bs)

flatten-append :
    (bs cs : List (List ℕ)) → flatten_buffers (bs ++ cs) ≡ flatten_buffers bs ++ flatten_buffers cs
unfolding flatten_buffers
flatten-append [] cs = refl
flatten-append (b ∷ bs) cs =
    rw (flatten-append bs cs) (sym (append_assoc b (flatten_buffers bs) (flatten_buffers cs)))

flatten-frame_buffers :
    (header payload : List ℕ) → flatten_buffers (frame_buffers header payload) ≡ header ++ payload
unfolding flatten_buffers frame_buffers
flatten-frame_buffers header [] = refl
flatten-frame_buffers header (b ∷ bs) = rw append-nil

-- A known frame goes out whole behind what was sent before, and is counted.
pub send_frame_lem :
    (net : Net) (f : Frame)
    → IsKnown f
    → send_frame net f
      ≡ ok (record { wire = net.wire ++ frame_bytes f; sent = (net.sent + frame_size f) % 2 ^ 64 })
unfolding send_frame frame_bytes frame_size
send_frame_lem net f h = rw (
  encode_header_known f h,
  send_buffers_all_lem net.wire (frame_buffers (header_bytes f) f.payload),
  flatten-frame_buffers (header_bytes f) f.payload,
)

gather_lem :
    (fs : List Frame)
    → All IsKnown fs
    → (bs : List (List ℕ)) × (gather fs ≡ ok (bs, total_size fs))
      × (flatten_buffers bs ≡ concat_map frame_bytes fs)
unfolding gather total_size frame_size concat_map flatten_buffers frame_bytes
gather_lem [] h = ([], refl, refl)
gather_lem (f ∷ fs) h =
    let (bs, e, b) = gather_lem fs h.1 in
    (
      frame_buffers (header_bytes f) f.payload ++ bs,
      rw (encode_header_known f h.0, e),
      rw (
        flatten-append (frame_buffers (header_bytes f) f.payload) bs,
        flatten-frame_buffers (header_bytes f) f.payload,
        b,
      ),
    )

bytes-append :
    (fs gs : List Frame)
    → concat_map frame_bytes (fs ++ gs) ≡ concat_map frame_bytes fs ++ concat_map frame_bytes gs
unfolding concat_map
bytes-append [] gs = refl
bytes-append (f ∷ fs) gs =
    rw (bytes-append fs gs)
      (sym (append_assoc (frame_bytes f) (concat_map frame_bytes fs) (concat_map frame_bytes gs)))

total_size-append : (fs gs : List Frame) → total_size (fs ++ gs) ≡ total_size fs + total_size gs
unfolding total_size
total_size-append [] gs = omega arith
total_size-append (f ∷ fs) gs = omega (arith, total_size-append fs gs)

-- The bytes of the first `n` frames and of the rest, put together.
bytes-split :
    (n : ℕ) (fs : List Frame)
    → concat_map frame_bytes (take n fs) ++ concat_map frame_bytes (drop n fs)
      ≡ concat_map frame_bytes fs
bytes-split n fs =
    sym (bytes-append (take n fs) (drop n fs)) ∙ ap (concat_map frame_bytes) (take-append-drop n fs)

total_size-split :
    (n : ℕ) (fs : List Frame) → total_size (take n fs) + total_size (drop n fs) ≡ total_size fs
total_size-split n fs =
    sym (total_size-append (take n fs) (drop n fs)) ∙ ap total_size (take-append-drop n fs)

-- The state and the result after a whole batch.
sent_all : List ℕ → ℕ → Net × Option (Result (Unit {0}))
sent_all wire sent = (record { wire = wire; sent = sent % 2 ^ 64 }, some (ok tt))

sent_all_eq : {v w : List ℕ} {m n : ℕ} → v ≡ w → m ≡ n → sent_all v m ≡ sent_all w n
sent_all_eq p q = cc

wire_split :
    (n : ℕ) (wire : List ℕ) (fs : List Frame) (bs : List (List ℕ))
    → flatten_buffers bs ≡ concat_map frame_bytes (take n fs)
    → send_buffers_all wire bs ++ concat_map frame_bytes (drop n fs)
      ≡ wire ++ concat_map frame_bytes fs
wire_split n wire fs bs b =
    rw (send_buffers_all_lem wire bs, b, append_assoc) (ap (◌++◌ wire) (bytes-split n fs))

send_groups_lem :
    (fuel : ℕ) (net : Net) (total : ℕ) (fs : List Frame)
    → length fs ≤ fuel
    → All IsKnown fs
    → send_groups fuel net total fs
      ≡ sent_all (net.wire ++ concat_map frame_bytes fs) (net.sent + (total + total_size fs))
unfolding send_groups sent_all
send_groups_lem fuel net total [] le h =
    sent_all_eq {m = net.sent + total} (unfold concat_map in sym (append-nil net.wire))
      (unfold total_size in omega arith)
send_groups_lem zero net total (f ∷ fs) le h = absurd (omega arith)
send_groups_lem (suc fuel) net total (f ∷ fs) le h =
    let frames = f ∷ fs in
    let (bs, e, b) = gather_lem (take frame_chunk frames) (All-take IsKnown frame_chunk frames h) in
    let shorter : length (drop frame_chunk frames) ≤ fuel =
      omega (arith, length-drop frame_chunk frames) in
    let known = All-drop IsKnown frame_chunk frames h in
    rw (e, send_groups)
      (send_groups_lem fuel _ _ (drop frame_chunk frames) shorter known
        ∙ sent_all_eq (wire_split frame_chunk net.wire frames bs b)
            (omega (arith, total_size-split frame_chunk frames)))

-- A batch of known frames, with the byte counter within 64 bits, is put on the wire whole and in
-- order behind what was sent before, whatever the grouping, and the counter grows by the size of
-- the batch.
pub send_frame_batch_lem :
    (net : Net) (fs : List Frame)
    → net.sent < 2 ^ 64
    → All IsKnown fs
    → send_frame_batch net fs ≡ (
      record {
        wire = net.wire ++ concat_map frame_bytes fs;
        sent = (net.sent + total_size fs) % 2 ^ 64;
      },
      some (ok tt),
    )
unfolding send_frame_batch sent_all
send_frame_batch_lem net [] b h =
    unfold concat_map total_size in ground (arith, append-nil net.wire)
send_frame_batch_lem net (f ∷ fs) b h =
    let frames = f ∷ fs in
    send_groups_lem (length frames) net 0 frames (omega arith) h
    ∙ sent_all_eq {v = net.wire ++ concat_map frame_bytes frames}
        {m = net.sent + (0 + total_size frames)} refl (omega arith)
