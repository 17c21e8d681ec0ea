-- ===== src/Relay/Frame.antt =====
-- internal/relay/frame.go: the binary frame of a relayed packet.
mod Fields
pub mod Checks
pub mod RoundTrip
pub mod Canonical
pub mod Truncated
pub mod Tests
use turnfly.Prelude.{
  ℕ, ◌+◌, ◌-◌, ◌*◌, ◌/◌, ◌%◌, ◌^◌, ◌≤◌, ◌<◌, ◌≡◌, ◌++◌, [], ◌∷◌, Bool, not, Option, none, some, ltb,
  ◌==◌, length, take, drop, All, if◌then◌else◌,
}
use turnfly.Int.{ℤ, pos, negsuc, to_u64, of_u64, IsInt64}
use turnfly.Result.{Result, ok, err, fail_if, ◌>>=◌, ◌>>◌}
use turnfly.Text.{Bytes, IsByte, codes, slice}
use turnfly.Text.Decimal.{format_int}
use turnfly.Text.BigEndian.{put_be, get_be}

-- "TURN"
abbrev pub frame_magic : ℕ
frame_magic = 0x5455524E

abbrev pub frame_header_size : ℕ
frame_header_size = 33

abbrev pub max_payload_size : ℕ
max_payload_size = 1200

-- `DirClientToPeer` and `DirPeerToClient`; a `Direction` is any uint8.
abbrev pub dir_client_to_peer : ℕ
dir_client_to_peer = 0

abbrev pub dir_peer_to_client : ℕ
dir_peer_to_client = 1

-- `(Direction).String`
pub direction_string : ℕ → Bytes
direction_string d =
    if d == dir_client_to_peer
    then codes "client_to_peer"
    else if d == dir_peer_to_client
    then codes "peer_to_client"
    else codes "unknown(" ++ format_int (pos d) ++ codes ")"

-- `NewFrameID`: the first 16 bytes; a shorter slice makes the code panic.
pub new_frame_id : Bytes → Option Bytes
new_frame_id bytes = if ltb (length bytes) 16 then none else some (take 16 bytes)

-- A time.Time is its distance from the Unix epoch in nanoseconds.
pub record Frame : Type 0 where
  pub session_id : Bytes
  pub flow_id : ℕ
  pub direction : ℕ
  pub timestamp : ℤ
  pub payload : Bytes

pub data FrameError : Type 0 where
  invalid_magic : ℕ → FrameError
  payload_too_large : ℕ → FrameError
  frame_too_short : ℕ → FrameError
  length_exceeds_data : ℕ → ℕ → FrameError

-- `Time.UnixMicro`: whole microseconds, rounded down.
unfoldable pub unix_micro : ℤ → ℤ
unix_micro (pos n) = pos (n / 1000)
unix_micro (negsuc n) = negsuc (n / 1000)

-- `time.UnixMicro`
unfoldable pub of_unix_micro : ℤ → ℤ
of_unix_micro (pos n) = pos (n * 1000)
of_unix_micro (negsuc n) = negsuc (n * 1000 + 999)

-- The fields of a frame one after the other, from offset 0.
abbrev pub frame_bytes : Frame → Bytes
frame_bytes f =
    put_be 4 frame_magic
    ++ (f.session_id
        ++ (put_be 2 f.flow_id
            ++ ((f.direction ∷ [])
                ++ (put_be 8 (to_u64 (unix_micro f.timestamp))
                    ++ (put_be 2 (length f.payload % 2 ^ 16) ++ f.payload)))))

-- `(*Frame).Encode`
pub encode : Frame → Result FrameError Bytes
encode f =
    if ltb max_payload_size (length f.payload)
    then err (payload_too_large (length f.payload))
    else ok (frame_bytes f)

-- The frame that the fields of a buffer spell.
abbrev pub read_frame : Bytes → Frame
read_frame bytes = record {
  session_id = slice 4 20 bytes;
  flow_id = get_be (slice 20 22 bytes);
  direction = get_be (slice 22 23 bytes);
  timestamp = of_unix_micro (of_u64 (get_be (slice 23 31 bytes)));
  payload = slice 33 (33 + get_be (slice 31 33 bytes)) bytes;
}

pub decode_frame : Bytes → Result FrameError Frame
decode_frame bytes = do
  fail_if (ltb (length bytes) frame_header_size) (frame_too_short (length bytes))
  let magic = get_be (slice 0 4 bytes)
  fail_if (not (magic == frame_magic)) (invalid_magic magic)
  let payload_len = get_be (slice 31 33 bytes)
  let remaining = length bytes - frame_header_size
  fail_if (ltb remaining payload_len) (length_exceeds_data payload_len remaining)
  ok (read_frame bytes)

-- What the Go types guarantee of a frame, and a time that `UnixMicro` can express.
pub record IsFrame (f : Frame) : Type 0 where
  pub id_size : length f.session_id ≡ 16
  pub id_bytes : All IsByte f.session_id
  pub flow_range : f.flow_id < 2 ^ 16
  pub direction_range : IsByte f.direction
  pub time_range : IsInt64 (unix_micro f.timestamp)
  pub payload_bytes : All IsByte f.payload

-- The frame as the peer sees it: the time is cut to whole microseconds.
abbrev pub on_wire : Frame → Frame
on_wire f = record f { timestamp = of_unix_micro (unix_micro f.timestamp) }
