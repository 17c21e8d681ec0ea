-- ===== src/Relay/Frame/Truncated.antt =====
-- A frame that arrives without its end.
use turnfly.Prelude.{
  ◌+◌, ◌-◌, ◌≤◌, ◌<◌, ◌≡◌, sym, ap, ◌∙◌, [], ◌++◌, append-nil, arith, length, length-append, ltb,
  inl, inr, Bool-cases, if◌then◌else◌,
}
use turnfly.Result.{ok, err}
use turnfly.Text.{Bytes, slice}
use turnfly.Text.BigEndian.{get_be}
use turnfly.Text.Slices.{slice_front}
use turnfly.Relay.Frame.{
  Frame, IsFrame, frame_too_short, length_exceeds_data, frame_magic, frame_bytes, encode,
  decode_frame,
}
use turnfly.Relay.Frame.Checks.{encode_sound}
use turnfly.Relay.Frame.RoundTrip.{
  whole, frame_bytes-whole, whole-IsFramed, payload_length, length-whole,
}

-- A buffer of fewer bytes than a header.
short :
    (bytes : Bytes) → length bytes < 33 → decode_frame bytes ≡ err (frame_too_short (length bytes))
unfolding decode_frame
short bytes h = ground arith

-- A header that announces more than there is.
exceeding :
    (bytes : Bytes)
    → 33 ≤ length bytes
    → get_be (slice 0 4 bytes) ≡ frame_magic
    → length bytes < 33 + get_be (slice 31 33 bytes)
    → decode_frame bytes
      ≡ err (length_exceeds_data (get_be (slice 31 33 bytes)) (length bytes - 33))
unfolding decode_frame
exceeding bytes h m e = ground arith

-- An encoded frame that loses bytes at its end is refused: as too short if less than a header is
-- left, and otherwise because its announced payload, which is that of the frame, exceeds the bytes
-- behind the header.
pub decode_frame-cut :
    (f : Frame) (bytes front back : Bytes)
    → IsFrame f
    → encode f ≡ ok bytes
    → bytes ≡ front ++ back
    → 0 < length back
    → decode_frame front
      ≡ err (
          if ltb (length front) 33
          then frame_too_short (length front)
          else length_exceeds_data (length f.payload) (length front - 33))
decode_frame-cut f bytes front back v h parts lost = elim (Bool-cases (ltb (length front) 33)) [
  | inl e ↦ rw e (short front (ground (arith, e)))
  | inr e ↦
      let (fits, is_bytes) = encode_sound f bytes h in
      let all = whole f [] v fits in
      let spelt : front ++ back ≡ all =
        sym parts ∙ is_bytes ∙ sym (append-nil (frame_bytes f)) ∙ frame_bytes-whole f [] v fits in
      let header : 33 ≤ length front = ground (arith, e) in
      let magic : get_be (slice 0 4 front) ≡ frame_magic =
        ap get_be (sym (slice_front 0 4 front back (omega arith) (omega (arith, header))))
        ∙ ap (λ b. get_be (slice 0 4 b)) spelt
        ∙ (whole-IsFramed f [] v fits).magic in
      let announced : get_be (slice 31 33 front) ≡ length f.payload =
        ap get_be (sym (slice_front 31 33 front back (omega arith) header))
        ∙ ap (λ b. get_be (slice 31 33 b)) spelt
        ∙ payload_length f [] v fits in
      let size : length front + length back ≡ 33 + length f.payload + 0 =
        sym (length-append front back) ∙ ap length spelt ∙ length-whole f [] v fits in
      rw e (
        exceeding front header magic (omega (arith, announced, size, lost))
        ∙ ap (λ n. err (length_exceeds_data n (length front - 33))) announced)
]
