-- ===== src/Relay/Frame/Tests.antt =====
-- The frame codec at concrete frames and buffers.
use turnfly.Prelude.{
  ltb, take, ◌-◌, length, if◌then◌else◌, ◌+◌, ◌≡◌, refl, [], ◌∷◌, ◌++◌, arith, replicate,
}
use turnfly.Int.{pos, to_u64, of_u64}
use turnfly.Result.{ok, err}
use turnfly.Text.{Bytes, codes}
use turnfly.Relay.Frame.{
  Frame, unix_micro, of_unix_micro, IsFrame, frame_too_short, length_exceeds_data, encode,
  decode_frame, on_wire,
}
use turnfly.Relay.Frame.Truncated.{decode_frame-cut}
use turnfly.Relay.Frame.RoundTrip.{decode_frame-encode}
use turnfly.Relay.Frame.Canonical.{encode-decode_frame}
use turnfly.Text.BigEndian.{put_be, get_be}

abbrev pub sample_frame : Frame
sample_frame = record {
  session_id = 1 ∷ 2 ∷ 3 ∷ 4 ∷ 5 ∷ 6 ∷ 7 ∷ 8 ∷ 9 ∷ 10 ∷ 11 ∷ 12 ∷ 13 ∷ 14 ∷ 15 ∷ 255 ∷ [];
  flow_id = 513;
  direction = 1;
  timestamp = pos 1_700_000_000_123_456_789;
  payload = codes "hi";
}

abbrev pub sample_bytes : Bytes
sample_bytes =
    codes "TURN"
    ++ (sample_frame.session_id
        ++ (2 ∷ 1 ∷ 1 ∷ 0 ∷ 6 ∷ 10 ∷ 36 ∷ 24 ∷ 32 ∷ 34 ∷ 64 ∷ 0 ∷ 2 ∷ codes "hi"))

abbrev long_payload : Bytes
long_payload = replicate 1201 0

sample_encoded : encode sample_frame ≡ ok sample_bytes
unfolding encode put_be to_u64 unix_micro
sample_encoded = refl

sample_decoded : decode_frame sample_bytes ≡ ok (on_wire sample_frame)
unfolding decode_frame get_be of_u64 of_unix_micro unix_micro
sample_decoded = refl

sample-IsFrame : IsFrame sample_frame
unfolding unix_micro
sample-IsFrame = omega arith

decode_frame-encode_example : decode_frame (sample_bytes ++ (9 ∷ [])) ≡ ok (on_wire sample_frame)
decode_frame-encode_example =
    decode_frame-encode sample_frame sample_bytes (9 ∷ []) sample-IsFrame sample_encoded

encode-decode_frame_example : encode (on_wire sample_frame) ≡ ok (take (33 + 2) sample_bytes)
encode-decode_frame_example =
    encode-decode_frame sample_bytes (on_wire sample_frame) (omega arith) sample_decoded
      (omega arith)

-- The sample without its last byte.
abbrev cut_bytes : Bytes
cut_bytes = take 34 sample_bytes

decode_frame-cut_example :
    decode_frame cut_bytes
    ≡ err (
        if ltb (length cut_bytes) 33
        then frame_too_short (length cut_bytes)
        else length_exceeds_data 2 (length cut_bytes - 33))
unfolding unix_micro
decode_frame-cut_example =
    decode_frame-cut sample_frame sample_bytes cut_bytes (105 ∷ []) (omega arith) sample_encoded
      refl (omega arith)
