-- ===== src/Relay/Frame/Checks.antt =====
-- When `DecodeFrame` and `Encode` succeed, and with which result.
use turnfly.Prelude.{◌+◌, ◌≤◌, ◌≡◌, ap, arith, length}
use turnfly.Int.{ℤ, pos, negsuc}
use turnfly.Result.{ok}
use turnfly.Text.{Bytes, slice}
use turnfly.Text.BigEndian.{get_be}
use turnfly.Relay.Frame.{
  Frame, encode, decode_frame, max_payload_size, unix_micro, of_unix_micro, frame_magic,
  frame_bytes, read_frame,
}

-- The three tests of `DecodeFrame`.
pub record IsFramed (bytes : Bytes) : Type 0 where
  pub header : 33 ≤ length bytes
  pub magic : get_be (slice 0 4 bytes) ≡ frame_magic
  pub payload : 33 + get_be (slice 31 33 bytes) ≤ length bytes

pub decode_frame_complete :
    (bytes : Bytes) → IsFramed bytes → decode_frame bytes ≡ ok (read_frame bytes)
unfolding decode_frame
decode_frame_complete bytes h = ground arith

pub decode_frame_sound :
    (bytes : Bytes) (f : Frame)
    → decode_frame bytes ≡ ok f
    → IsFramed bytes × (f ≡ read_frame bytes)
unfolding decode_frame
decode_frame_sound bytes f h = ground arith

pub encode_sound :
    (f : Frame) (bytes : Bytes)
    → encode f ≡ ok bytes
    → (length f.payload ≤ max_payload_size) × (bytes ≡ frame_bytes f)
unfolding encode
encode_sound f bytes h = ground arith

pub encode_complete :
    (f : Frame) → length f.payload ≤ max_payload_size → encode f ≡ ok (frame_bytes f)
unfolding encode
encode_complete f h = ground arith

pub unix_micro-of_unix_micro : (t : ℤ) → unix_micro (of_unix_micro t) ≡ t
unfolding unix_micro of_unix_micro
unix_micro-of_unix_micro (pos n) = ap pos (omega arith)
unix_micro-of_unix_micro (negsuc n) = ap negsuc (omega arith)
