-- ===== src/Udp/Drain.antt =====
-- What the loop of UDP_Server sends, and how it ends.
use sdr_plugin_txlink_wsjt_x.Base.{
  ℕ, ◌+◌, ◌≡◌, refl, sym, ◌∙◌, ◌⊎◌, inl, inr, List, [], ◌∷◌, ◌++◌, map, append-nil, append_assoc,
  some, true, false, not, Bytes, arith, Bool-cases, Option-cases, ◌==◌, if◌then◌else◌,
}
use sdr_plugin_txlink_wsjt_x.Type17.{SetFreqCommand}
use sdr_plugin_txlink_wsjt_x.Encode.{Paths, ChildRun}
use sdr_plugin_txlink_wsjt_x.Udp.{process_packet}
use sdr_plugin_txlink_wsjt_x.Udp.Loop.{
  Received, timed_out, failed, closed, datagram, Round, Server, set_freq, send_pending, running,
  stopped, receive, round,
}

abbrev pub nonzero : List ℕ → List ℕ
nonzero [] = []
nonzero (f ∷ fs) = if not (f == 0) then f ∷ nonzero fs else nonzero fs

send_pending-append :
    (fs : List ℕ) (sent : List SetFreqCommand)
    → send_pending fs sent ≡ sent ++ map set_freq (nonzero fs)
unfolding send_pending
send_pending-append [] sent = sym (append-nil sent)
send_pending-append (f ∷ fs) sent = elim (Bool-cases (f == 0)) [
  | inl e ↦ rw e (send_pending-append fs sent)
  | inr e ↦ rw e (send_pending-append fs (sent ++ set_freq f ∷ []) ∙ append_assoc sent _ _)
]

module _ (paths : Paths) (child : Bytes → ChildRun) where
  -- A round that receives a datagram, sees no exit request and goes on, sends the queued
  -- frequencies that are not zero, in their order and behind what was sent before, leaves the queue
  -- empty and counts its waits from 0.
  pub round_sends :
      (r : Round) (message : Bytes) (s s' : Server)
      → r.received ≡ datagram message
      → r.exit_before ≡ false
      → r.exit_after ≡ false
      → round paths child r s ≡ some (running s')
      → (s'.sent ≡ s.sent ++ map set_freq (nonzero s.udp_out_q.queue))
        × (s'.udp_out_q.queue ≡ [])
        × (s'.wait_count ≡ 0)
  unfolding round
  round_sends r message s s' d b a e =
      let sends = send_pending-append s.udp_out_q.queue s.sent in
      elim (Option-cases (process_packet paths child r.other_threads message s.globals)) [
        | inl n ↦ ground (arith, n)
        | inr (x, n) ↦ ground (arith, n, sends)
      ]

  -- A round with a timeout sends nothing and keeps the queue: what is queued waits for a datagram.
  pub round_timed_out :
      (r : Round) (s : Server)
      → r.received ≡ timed_out
      → r.exit_before ≡ false
      → round paths child r s ≡ some (running (record s { wait_count = s.wait_count + 1 }))
  unfolding round
  round_timed_out r s d b = ground arith

  receive-stopped :
      (v : Received) (r : Round) (s s' : Server)
      → receive paths child v r s ≡ some (stopped s')
      → (s' ≡ s)
        × ((v ≡ failed)
            ⊎ ((v ≡ closed) ⊎ ((r.exit_after ≡ true) × ((m : Bytes) × (v ≡ datagram m)))))
  unfolding receive
  receive-stopped timed_out r s s' e = absurd (ground arith)
  receive-stopped failed r s s' e = (ground arith, inl refl)
  receive-stopped closed r s s' e = (ground arith, inr (inl refl))
  receive-stopped (datagram m) r s s' e = elim (Bool-cases r.exit_after) [
    | inl a ↦ (ground (arith, a), inr (inr (a, (m, refl))))
    | inr a ↦ absurd (elim (Option-cases (process_packet paths child r.other_threads m s.globals)) [
      | inl n ↦ ground (arith, a, n)
      | inr (x, n) ↦ ground (arith, a, n)
    ])
  ]

  -- If a round ends the loop, the state is as it was, and an exit request was read before or behind
  -- the receive, the receive failed, or the connection was closed.
  pub round-stopped :
      (r : Round) (s s' : Server)
      → round paths child r s ≡ some (stopped s')
      → (s' ≡ s)
        × ((r.exit_before ≡ true)
            ⊎ ((r.received ≡ failed)
                ⊎ ((r.received ≡ closed)
                    ⊎ ((r.exit_after ≡ true) × ((m : Bytes) × (r.received ≡ datagram m))))))
  unfolding round
  round-stopped r s s' e = elim (Bool-cases r.exit_before) [
    | inl b ↦ (ground (arith, b), inl b)
    | inr b ↦
        let (same, why) = receive-stopped r.received r s s' (ground (arith, b)) in (same, inr why)
  ]
