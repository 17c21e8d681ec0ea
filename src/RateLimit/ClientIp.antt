-- ===== src/RateLimit/ClientIp.antt =====
-- The key of the limiter for a request.
use turnfly.Prelude.{
  ℕ, zero, suc, ◌+◌, ◌<◌, ◌≤◌, if◌then◌else◌, ◌≡◌, refl, false, [], ◌∷◌, ◌++◌, length, drop, ◌==◌,
  arith, length-append, take-append,
}
use turnfly.Text.{Bytes, is_empty}
use turnfly.Text.Splitting.{Lacks}
use turnfly.RateLimit.{strip_port, client_ip}

drop-beyond : (xs ys : Bytes) (i : ℕ) → drop (length xs + i) (xs ++ ys) ≡ drop i ys
drop-beyond [] ys i = let e : 0 + i ≡ i = omega arith in rw e
drop-beyond (x ∷ xs) ys i =
    let e : suc (length xs) + i ≡ suc (length xs + i) = omega arith in rw e (drop-beyond xs ys i)

drop-Lacks :
    (i : ℕ) (port : Bytes)
    → Lacks b':' port
    → i < length port
    → (c : ℕ) × (rest : Bytes) × (drop i port ≡ c ∷ rest) × ((c == b':') ≡ false)
drop-Lacks i [] h lt = absurd (omega arith)
drop-Lacks zero (c ∷ port) h lt = (c, port, refl, h.0)
drop-Lacks (suc i) (c ∷ port) h lt = drop-Lacks i port h.1 (omega arith)

-- The loop passes the bytes of the port, from its end, and stops at the colon before it.
strip_port_lem :
    (host port : Bytes) (i : ℕ)
    → Lacks b':' port
    → i ≤ length port
    → strip_port (host ++ (b':' ∷ port)) (length host + suc i) ≡ host
unfolding strip_port
strip_port_lem host port zero h fits =
    let e : length host + 1 ≡ suc (length host + 0) = omega arith in
    let e' : length host + 0 ≡ length host = omega arith in
    rw (e, strip_port, drop-beyond host (b':' ∷ port) 0, e', take-append host (b':' ∷ port))
strip_port_lem host port (suc i) h fits =
    let e : length host + suc (suc i) ≡ suc (length host + suc i) = omega arith in
    let (c, rest, is, other) = drop-Lacks i port h (omega arith) in
    rw (e, strip_port, drop-beyond host (b':' ∷ port) (suc i), is, other)
      (strip_port_lem host port i h (omega arith))

-- Behind no proxy a client is known by its address without the port, whose last colon is the one
-- before the port; a request with an X-Forwarded-For header is known by that header, whatever it
-- says.
pub client_ip_lem :
    (host port header : Bytes)
    → Lacks b':' port
    → client_ip (record { forwarded_for = header; remote_addr = host ++ (b':' ∷ port) })
      ≡ (if is_empty header then host else header)
unfolding client_ip
client_ip_lem host port [] h =
    rw (length-append host (b':' ∷ port)) (strip_port_lem host port (length port) h (omega arith))
client_ip_lem host port (c ∷ cs) h = refl
