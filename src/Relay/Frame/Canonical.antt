-- ===== src/Relay/Frame/Canonical.antt =====
-- A buffer that is decoded is what its frame encodes to.
use turnfly.Prelude.{
  ℕ, ◌+◌, ◌-◌, ◌%◌, ◌^◌, ◌≤◌, ◌<◌, ◌≡◌, sym, ◌∙◌, ap, ◌++◌, [], ◌∷◌, arith, length, take, All,
  All-take, All-drop,
}
use turnfly.Int.{to_u64, to_u64-of_u64}
use turnfly.Result.{ok}
use turnfly.Text.{Bytes, IsByte, slice}
use turnfly.Text.BigEndian.{put_be, get_be, put_be-get_be, get_be-lt, capacity}
use turnfly.Text.Slices.{slice-append_slice, length-slice}
use turnfly.Relay.Frame.{
  Frame, encode, decode_frame, max_payload_size, unix_micro, frame_magic, frame_bytes, read_frame,
}
use turnfly.Relay.Frame.Checks.{
  IsFramed, decode_frame_sound, encode_complete, unix_micro-of_unix_micro,
}

put_be-slice :
    (lo hi width : ℕ) (bytes : Bytes)
    → All IsByte bytes
    → hi ≤ length bytes
    → hi - lo ≡ width
    → put_be width (get_be (slice lo hi bytes)) ≡ slice lo hi bytes
put_be-slice lo hi width bytes h k w =
    let size : length (slice lo hi bytes) ≡ width = length-slice lo hi bytes k ∙ w in
    ap (λ n. put_be n (get_be (slice lo hi bytes))) (sym size)
    ∙ put_be-get_be _ (All-take IsByte _ _ (All-drop IsByte lo bytes h))

module _ (bytes : Bytes) (h : All IsByte bytes) (v : IsFramed bytes) where
  abbrev end : ℕ
  end = 33 + get_be (slice 31 33 bytes)

  -- Six fields and the payload, side by side, are the frame.
  slices_join :
      slice 0 4 bytes
        ++ (slice 4 20 bytes
            ++ (slice 20 22 bytes
                ++ (slice 22 23 bytes
                    ++ (slice 23 31 bytes ++ (slice 31 33 bytes ++ slice 33 end bytes)))))
      ≡ take end bytes
  slices_join =
      rw
        (
          slice-append_slice 31 33 end bytes (omega arith) (omega arith),
          slice-append_slice 23 31 end bytes (omega arith) (omega arith),
          slice-append_slice 22 23 end bytes (omega arith) (omega arith),
          slice-append_slice 20 22 end bytes (omega arith) (omega arith),
          slice-append_slice 4 20 end bytes (omega arith) (omega arith),
          slice-append_slice 0 4 end bytes (omega arith) (omega arith),
        )
        (let e : end - 0 ≡ end = omega arith in ap (λ n. take n bytes) e)

  payload_size : length (read_frame bytes).payload ≡ get_be (slice 31 33 bytes)
  payload_size = length-slice 33 end bytes v.payload ∙ omega arith

  magic_again : put_be 4 frame_magic ≡ slice 0 4 bytes
  magic_again =
      ap (put_be 4) (sym v.magic)
      ∙ put_be-slice 0 4 4 bytes h (omega (arith, v.header)) (omega arith)

  field_lt : (lo hi : ℕ) → hi ≤ length bytes → get_be (slice lo hi bytes) < capacity (hi - lo)
  field_lt lo hi k =
      let bytes_h = All-take IsByte (hi - lo) _ (All-drop IsByte lo bytes h) in
      rw (length-slice lo hi bytes k) at (get_be-lt (slice lo hi bytes) bytes_h)

  direction_again : (read_frame bytes).direction ∷ [] ≡ slice 22 23 bytes
  unfolding put_be
  direction_again =
      let small : get_be (slice 22 23 bytes) < 256 = field_lt 22 23 (omega (arith, v.header)) in
      let low : get_be (slice 22 23 bytes) ≡ get_be (slice 22 23 bytes) % 256 = omega arith in
      ap (λ n. n ∷ []) low ∙ put_be-slice 22 23 1 bytes h (omega (arith, v.header)) (omega arith)

  time_again : put_be 8 (to_u64 (unix_micro (read_frame bytes).timestamp)) ≡ slice 23 31 bytes
  time_again =
      ap (λ t. put_be 8 (to_u64 t)) (unix_micro-of_unix_micro _)
      ∙ (ap (put_be 8) (to_u64-of_u64 _ (field_lt 23 31 (omega (arith, v.header))))
          ∙ put_be-slice 23 31 8 bytes h (omega (arith, v.header)) (omega arith))

  length_again : put_be 2 (length (read_frame bytes).payload % 2 ^ 16) ≡ slice 31 33 bytes
  length_again =
      let small : get_be (slice 31 33 bytes) < 65536 = field_lt 31 33 v.header in
      let low : length (read_frame bytes).payload % 2 ^ 16 ≡ get_be (slice 31 33 bytes) =
        omega (arith, payload_size) in
      ap (put_be 2) low ∙ put_be-slice 31 33 2 bytes h v.header (omega arith)

  flow_again : put_be 2 (read_frame bytes).flow_id ≡ slice 20 22 bytes
  flow_again = put_be-slice 20 22 2 bytes h (omega (arith, v.header)) (omega arith)

  frame_bytes-read_frame : frame_bytes (read_frame bytes) ≡ take end bytes
  frame_bytes-read_frame =
      (λ i.
        magic_again i
        ++ (slice 4 20 bytes
            ++ (flow_again i
                ++ (direction_again i
                    ++ (time_again i ++ (length_again i ++ slice 33 end bytes))))))
      ∙ slices_join

-- A buffer of bytes that is decoded is, up to what follows the frame, what the frame encodes to.
pub encode-decode_frame :
    (bytes : Bytes) (f : Frame)
    → All IsByte bytes
    → decode_frame bytes ≡ ok f
    → length f.payload ≤ max_payload_size
    → encode f ≡ ok (take (33 + length f.payload) bytes)
encode-decode_frame bytes f h e fits =
    encode_complete f fits ∙ ap ok (ap frame_bytes same ∙ frame_bytes-read_frame bytes h v ∙ cut)
  where
    v : IsFramed bytes
    v = (decode_frame_sound bytes f e).0

    same : f ≡ read_frame bytes
    same = (decode_frame_sound bytes f e).1

    size : length f.payload ≡ get_be (slice 31 33 bytes)
    size = ap (λ (g : Frame). length g.payload) same ∙ payload_size bytes h v

    cut : take (33 + get_be (slice 31 33 bytes)) bytes ≡ take (33 + length f.payload) bytes
    cut = ap (λ n. take (33 + n) bytes) (sym size)
