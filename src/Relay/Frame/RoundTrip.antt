-- ===== src/Relay/Frame/RoundTrip.antt =====
-- A frame that is encoded is decoded to itself.
use turnfly.Prelude.{
  ◌+◌, ◌%◌, ◌^◌, ◌≤◌, ◌≡◌, refl, ◌∙◌, ap, ◌++◌, [], ◌∷◌, arith, length, append_assoc, length-append,
}
use turnfly.Int.{to_u64, of_u64, of_u64-to_u64, to_u64-lt}
use turnfly.Result.{ok}
use turnfly.Text.{Bytes, slice}
use turnfly.Text.BigEndian.{put_be, get_be, length-put_be, get_be-put_be}
use turnfly.Relay.Frame.{
  Frame, IsFrame, on_wire, encode, decode_frame, max_payload_size, unix_micro, of_unix_micro,
  frame_magic, frame_bytes, read_frame,
}
use turnfly.Relay.Frame.Fields.{
  HasSizes, buffer, magic_field, id_field, flow_field, direction_field, time_field, length_field,
  payload_field, length-buffer,
}
use turnfly.Relay.Frame.Checks.{IsFramed, decode_frame_complete, encode_sound}

module _ (f : Frame) (rest : Bytes) (v : IsFrame f)
    (fits : length f.payload ≤ max_payload_size) where
  abbrev magic_bytes : Bytes
  magic_bytes = put_be 4 frame_magic

  abbrev flow_bytes : Bytes
  flow_bytes = put_be 2 f.flow_id

  abbrev time_bytes : Bytes
  time_bytes = put_be 8 (to_u64 (unix_micro f.timestamp))

  abbrev length_bytes : Bytes
  length_bytes = put_be 2 (length f.payload % 2 ^ 16)

  abbrev pub whole : Bytes
  whole =
      buffer magic_bytes f.session_id flow_bytes (f.direction ∷ []) time_bytes length_bytes
        (f.payload ++ rest)

  pub frame_bytes-whole : frame_bytes f ++ rest ≡ whole
  frame_bytes-whole = simp append_assoc

  whole-HasSizes :
      HasSizes magic_bytes f.session_id flow_bytes (f.direction ∷ []) time_bytes length_bytes
  whole-HasSizes = record {
    magic_size = length-put_be 4 frame_magic;
    id_size = v.id_size;
    flow_size = length-put_be 2 f.flow_id;
    direction_size = refl;
    time_size = length-put_be 8 (to_u64 (unix_micro f.timestamp));
    length_size = length-put_be 2 (length f.payload % 2 ^ 16);
  }

  pub payload_length : get_be (slice 31 33 whole) ≡ length f.payload
  payload_length =
      ap get_be (length_field _ _ _ _ _ _ _ whole-HasSizes)
      ∙ (get_be-put_be 2 _ (omega arith) ∙ omega arith)

  pub whole-IsFramed : IsFramed whole
  whole-IsFramed = record {
    header = omega (arith, length-buffer _ _ _ _ _ _ (f.payload ++ rest) whole-HasSizes);
    magic =
        ap get_be (magic_field _ _ _ _ _ _ _ whole-HasSizes)
        ∙ get_be-put_be 4 frame_magic (omega arith);
    payload = omega (
      arith,
      payload_length,
      length-buffer _ _ _ _ _ _ (f.payload ++ rest) whole-HasSizes,
      length-append f.payload rest,
    );
  }

  pub length-whole : length whole ≡ 33 + length f.payload + length rest
  length-whole = omega (
    arith,
    length-buffer _ _ _ _ _ _ (f.payload ++ rest) whole-HasSizes,
    length-append f.payload rest,
  )

  flow_read : get_be (slice 20 22 whole) ≡ f.flow_id
  flow_read =
      ap get_be (flow_field _ _ _ _ _ _ _ whole-HasSizes)
      ∙ get_be-put_be 2 _ (omega (arith, v.flow_range))

  direction_read : get_be (slice 22 23 whole) ≡ f.direction
  unfolding get_be
  direction_read = ap get_be (direction_field _ _ _ _ _ _ _ whole-HasSizes) ∙ omega arith

  time_read : of_u64 (get_be (slice 23 31 whole)) ≡ unix_micro f.timestamp
  time_read =
      ap (λ b. of_u64 (get_be b)) (time_field _ _ _ _ _ _ _ whole-HasSizes)
      ∙ (ap of_u64 (get_be-put_be 8 _ (to_u64-lt _)) ∙ of_u64-to_u64 _ v.time_range)

  payload_read : slice 33 (33 + get_be (slice 31 33 whole)) whole ≡ f.payload
  payload_read =
      payload_field _ _ _ _ _ _ _ whole-HasSizes f.payload rest _ refl
        (omega (arith, payload_length))

  read_frame-whole : read_frame whole ≡ on_wire f
  read_frame-whole = λ i. record {
    session_id = id_field _ _ _ _ _ _ (f.payload ++ rest) whole-HasSizes i;
    flow_id = flow_read i;
    direction = direction_read i;
    timestamp = of_unix_micro (time_read i);
    payload = payload_read i;
  }

-- A valid frame that is encoded is decoded to itself, its time cut to whole microseconds, also
-- when bytes follow it.
pub decode_frame-encode :
    (f : Frame) (bytes rest : Bytes)
    → IsFrame f
    → encode f ≡ ok bytes
    → decode_frame (bytes ++ rest) ≡ ok (on_wire f)
decode_frame-encode f bytes rest v h =
    let (fits, e) = encode_sound f bytes h in
    rw (e, frame_bytes-whole f rest v fits)
      (decode_frame_complete _ (whole-IsFramed f rest v fits)
        ∙ ap ok (read_frame-whole f rest v fits))
