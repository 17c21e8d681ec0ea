-- ===== src/Relay/Proxy/Delivery.antt =====
-- One packet through the proxy: forwarded at one end, received at the other.
use turnfly.Prelude.{ℕ, ◌+◌, ◌≡◌, none, some, inl, inr, Option-cases, arith, length, if◌then◌else◌}
use turnfly.Text.{Bytes, beq}
use turnfly.Clock.{Reading}
use turnfly.Relay.Frame.{Frame, frame_bytes}
use turnfly.Relay.Session.{Session, new_session, get, record_packet_in, u64}
use turnfly.Relay.Session.Expiry.{get-store, get-create, create-session}
use turnfly.Relay.Proxy.{Proxy, ensure_session, count_forwarded, receive_frame}

-- The session that a packet for `id` is counted in.
abbrev pub session_for : Proxy → Bytes → ℕ → Session
session_for p id now = elim (get p.sessions id) [
  | none ↦ new_session p.sessions id p.tunnel.peer now
  | some s ↦ s
]

-- The sender behind a packet that was sent.
abbrev pub forwarded : Proxy → Frame → Reading → Proxy
forwarded p f now = record p {
  bytes_out = u64 (p.bytes_out + length (frame_bytes f));
  sessions = count_forwarded p.sessions f.session_id (length f.payload) now.mono;
}

-- A received frame is counted in the session that it names, which is created if it is not there;
-- no other session changes.
pub receive_frame_lem :
    (p : Proxy) (size : ℕ) (f : Frame) (now : Reading) (id : Bytes)
    → get (receive_frame p size f now).sessions id ≡ (
        if beq f.session_id id
        then some
            (record_packet_in (length f.payload) now.mono (session_for p f.session_id now.mono))
        else get p.sessions id)
unfolding receive_frame
receive_frame_lem p size f now id = elim (Option-cases (get p.sessions f.session_id)) [
  | inl e ↦
      rw (e, session_for, ensure_session, receive_frame)
        (simp (get-store, get-create, create-session) (ground arith))
  | inr (s, e) ↦ rw (e, session_for, ensure_session, receive_frame) (simp get-store)
]
