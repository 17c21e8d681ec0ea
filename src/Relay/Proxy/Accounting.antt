-- ===== src/Relay/Proxy/Accounting.antt =====
-- What the counters and the window of round-trip times hold after any run of the loop.
use turnfly.Prelude.{
  ℕ, zero, suc, ◌+◌, ◌-◌, ◌^◌, ◌≤◌, ◌<◌, ◌≡◌, sym, ap, ◌∙◌, refl, List, [], ◌∷◌, ◌++◌, arith,
  length, drop, length-append, append_assoc, append-nil, ltb, Bool-cases, inl, inr, length-drop,
}
use turnfly.Int.{ℤ}
use turnfly.Text.{Bytes}
use turnfly.Result.{Result, ok, err, Result-cases}
use turnfly.Clock.{Reading, wall_sub}
use turnfly.Relay.Frame.{Frame, FrameError, decode_frame}
use turnfly.Relay.Session.{u64}
use turnfly.Relay.Proxy.{
  Proxy, Event, tick, datagram, receive_failed, cancelled, push_rtt, max_rtt_samples, receive_frame,
  handle_datagram, step, run,
}

-- What one datagram adds: to the bytes received, to the packets dropped, and to the samples.
abbrev pub Outcome : Type 0
Outcome = Result FrameError Frame

abbrev pub accepted_size : Outcome → ℕ → ℕ
accepted_size (ok f) size = size
accepted_size (err e) size = 0

abbrev pub refused : Outcome → ℕ
refused (ok f) = 0
refused (err e) = 1

abbrev pub sampled : Outcome → Reading → List ℤ
sampled (ok f) now = wall_sub now.wall f.timestamp ∷ []
sampled (err e) now = []

-- The same over the events until the context is cancelled.
abbrev pub received_bytes : List Event → ℕ
received_bytes [] = 0
received_bytes (datagram bytes now ∷ es) =
    accepted_size (decode_frame bytes) (length bytes) + received_bytes es
received_bytes (cancelled ∷ es) = 0
received_bytes (_ ∷ es) = received_bytes es

abbrev pub refused_datagrams : List Event → ℕ
refused_datagrams [] = 0
refused_datagrams (datagram bytes now ∷ es) = refused (decode_frame bytes) + refused_datagrams es
refused_datagrams (cancelled ∷ es) = 0
refused_datagrams (_ ∷ es) = refused_datagrams es

abbrev pub samples : List Event → List ℤ
samples [] = []
samples (datagram bytes now ∷ es) = sampled (decode_frame bytes) now ++ samples es
samples (cancelled ∷ es) = []
samples (_ ∷ es) = samples es

-- The last `n` elements of a list.
abbrev pub last_n {ℓ} : {A : Type ℓ} → ℕ → List A → List A
last_n n xs = drop (length xs - n) xs

-- Go's counters are 64-bit words.
pub record IsCounted (p : Proxy) : Type 0 where
  pub bytes_word : p.bytes_in < 2 ^ 64
  pub dropped_word : p.packets_dropped < 2 ^ 64

module _ (p : Proxy) (v : IsCounted p) where
  step_bytes : (e : Event) → (step p e).0.bytes_in ≡ u64 (p.bytes_in + received_bytes (e ∷ []))
  unfolding step handle_datagram receive_frame
  step_bytes (tick now) = omega arith
  step_bytes (datagram bytes now) = ground arith
  step_bytes receive_failed = omega arith
  step_bytes cancelled = omega arith

  step_dropped :
      (e : Event)
      → (step p e).0.packets_dropped ≡ u64 (p.packets_dropped + refused_datagrams (e ∷ []))
  unfolding step handle_datagram receive_frame
  step_dropped (tick now) = omega arith
  step_dropped (datagram bytes now) = ground arith
  step_dropped receive_failed = omega arith
  step_dropped cancelled = omega arith

  step-IsCounted : (e : Event) → IsCounted (step p e).0
  step-IsCounted e = omega (arith, step_bytes e, step_dropped e)

-- After any run the counter of received bytes has grown, modulo 2^64, by the sizes of the datagrams
-- that were accepted, and the counter of dropped packets by the number of those refused; nothing
-- after the cancellation counts.
pub run_counts :
    (p : Proxy) (es : List Event)
    → IsCounted p
    → ((run p es).bytes_in ≡ u64 (p.bytes_in + received_bytes es))
      × ((run p es).packets_dropped ≡ u64 (p.packets_dropped + refused_datagrams es))
unfolding run step
run_counts p [] v = omega arith
run_counts p (tick now ∷ es) v =
    omega (arith, run_counts (step p (tick now)).0 es (step-IsCounted p v (tick now)))
run_counts p (datagram bytes now ∷ es) v =
    let e = datagram bytes now in
    omega (
      arith,
      run_counts (step p e).0 es (step-IsCounted p v e),
      step_bytes p v e,
      step_dropped p v e,
    )
run_counts p (receive_failed ∷ es) v = run_counts p es v
run_counts p (cancelled ∷ es) v = omega arith

drop_one_more {ℓ} :
    {A : Type ℓ} (n : ℕ) (xs : List A) → n < length xs → drop 1 (drop n xs) ≡ drop (suc n) xs
drop_one_more zero (x ∷ xs) h = refl
drop_one_more zero [] h = refl
drop_one_more (suc n) [] h = refl
drop_one_more (suc n) (x ∷ xs) h = drop_one_more n xs (omega arith)

drop_before {ℓ} :
    {A : Type ℓ} (n : ℕ) (xs ys : List A) → n ≤ length xs → drop n (xs ++ ys) ≡ drop n xs ++ ys
drop_before zero xs ys h = refl
drop_before (suc n) [] ys h = absurd (omega arith)
drop_before (suc n) (x ∷ xs) ys h = drop_before n xs ys (omega arith)

push_rtt_full :
    (ys : List ℤ) (rtt : ℤ) → 100 ≤ length ys → push_rtt ys rtt ≡ drop 1 (ys ++ (rtt ∷ []))
unfolding push_rtt
push_rtt_full ys rtt h = ground (arith, length-append ys (rtt ∷ []))

push_rtt_room : (ys : List ℤ) (rtt : ℤ) → length ys < 100 → push_rtt ys rtt ≡ ys ++ (rtt ∷ [])
unfolding push_rtt
push_rtt_room ys rtt h = ground (arith, length-append ys (rtt ∷ []))

-- Pushing a sample into the last hundred gives the last hundred.
push_rtt_lem :
    (xs : List ℤ) (rtt : ℤ)
    → push_rtt (last_n max_rtt_samples xs) rtt ≡ last_n max_rtt_samples (xs ++ (rtt ∷ []))
push_rtt_lem xs rtt = elim (Bool-cases (ltb (length xs) 100)) [
  | inl few ↦
      let old : length xs - 100 ≡ 0 = ground arith in
      let new : length (xs ++ (rtt ∷ [])) - 100 ≡ 0 = ground (arith, length-append xs (rtt ∷ [])) in
      rw (old, new) (push_rtt_room xs rtt (ground arith))
  | inr many ↦
      let n = length xs - 100 in
      let enough : 100 ≤ length xs = ground arith in
      let full : 100 ≤ length (drop n xs) = omega (arith, length-drop n xs) in
      let new : length (xs ++ (rtt ∷ [])) - 100 ≡ suc n =
        omega (arith, length-append xs (rtt ∷ [])) in
      let inside : n < length (xs ++ (rtt ∷ [])) = omega (arith, length-append xs (rtt ∷ [])) in
      push_rtt_full (drop n xs) rtt full
      ∙ (ap (drop 1) (sym (drop_before n xs (rtt ∷ []) (omega arith)))
          ∙ (drop_one_more n (xs ++ (rtt ∷ [])) inside
              ∙ ap (λ k. drop k (xs ++ (rtt ∷ []))) (sym new)))
]

-- The window after one datagram.
datagram_window :
    (p : Proxy) (history : List ℤ) (bytes : Bytes) (now : Reading)
    → p.rtt_samples ≡ last_n max_rtt_samples history
    → (step p (datagram bytes now)).0.rtt_samples
      ≡ last_n max_rtt_samples (history ++ sampled (decode_frame bytes) now)
unfolding step handle_datagram receive_frame
datagram_window p history bytes now h = elim (Result-cases (decode_frame bytes)) [
  | inl (e, refusal) ↦
      rw (refusal, step, handle_datagram)
        (h ∙ ap (last_n max_rtt_samples) (sym (append-nil history)))
  | inr (f, accepted) ↦
      rw (accepted, step, handle_datagram, receive_frame, h) (push_rtt_lem history _)
]

-- After any run the window holds the last hundred of the round-trip times that were sampled,
-- those from before the run included.
pub run_window :
    (p : Proxy) (history : List ℤ) (es : List Event)
    → p.rtt_samples ≡ last_n max_rtt_samples history
    → (run p es).rtt_samples ≡ last_n max_rtt_samples (history ++ samples es)
unfolding run step
run_window p history [] h = h ∙ ap (last_n max_rtt_samples) (sym (append-nil history))
run_window p history (tick now ∷ es) h = run_window (step p (tick now)).0 history es h
run_window p history (datagram bytes now ∷ es) h =
    run_window (step p (datagram bytes now)).0 (history ++ sampled (decode_frame bytes) now) es
      (datagram_window p history bytes now h)
    ∙ ap (last_n max_rtt_samples) (append_assoc history _ (samples es))
run_window p history (receive_failed ∷ es) h = run_window p history es h
run_window p history (cancelled ∷ es) h = h ∙ ap (last_n max_rtt_samples) (sym (append-nil history))
