-- ===== src/Udp/Dispatch.antt =====
-- ProcessPacket by the type of the datagram, and its wait for the form.
use sdr_plugin_txlink_wsjt_x.Base.{
  ℕ, zero, suc, ◌<◌, ◌^◌, ◌*◌, ◌≡◌, ◌≢◌, refl, ◌⊎◌, inl, inr, ◌++◌, some, Bool, true, false, Bytes,
  codes, to_string, arith, Option-cases, leb, if◌then◌else◌, length,
}
use sdr_plugin_txlink_wsjt_x.Packet.{Packet, M, new_packet, decode_header}
use sdr_plugin_txlink_wsjt_x.Packet.Header.{header_bytes, decode_header-header_bytes}
use sdr_plugin_txlink_wsjt_x.Packet.Messages.{decode_decode, decode_set_freq}
use sdr_plugin_txlink_wsjt_x.Packet.Status.{StatusPacket}
use sdr_plugin_txlink_wsjt_x.Encode.{Paths, ChildRun}
use sdr_plugin_txlink_wsjt_x.Udp.{
  Globals, wait_event, with_body, update_status, status_reply, process_status, process_type,
  process_packet, str_packet_type,
}

-- From `g` with `n` sleeps left to `h` with `m` left: the event is up before each sleep, and no
-- exit request is seen behind it.
pub data Sleeps (other : ℕ → Globals → Globals) : ℕ → Globals → ℕ → Globals → Type 0 where
  awake : {n : ℕ} {g : Globals} → Sleeps other n g n g
  asleep :
      {n m : ℕ} {g h : Globals}
      → g.udp_event ≡ true
      → (other n g).udp_exit_request ≡ false
      → Sleeps other n (other n g) m h
      → Sleeps other (suc n) g m h

-- How the wait ends: with the exit request behind one more sleep, or with the event's being taken
-- or no sleep left.
pub data Waited (other : ℕ → Globals → Globals) (n : ℕ) (g : Globals)
    : Globals × Bool → Type 0 where
  leaves :
      {m : ℕ} {h : Globals}
      → Sleeps other n g (suc m) h
      → h.udp_event ≡ true
      → (other m h).udp_exit_request ≡ true
      → Waited other n g (other m h, true)
  stays :
      {m : ℕ} {h : Globals}
      → Sleeps other n g m h
      → (h.udp_event ≡ false) ⊎ (m ≡ 0)
      → Waited other n g (h, false)

module _ (other : ℕ → Globals → Globals) (n : ℕ) (g : Globals) where
  Waited-asleep :
      (w : Globals × Bool)
      → g.udp_event ≡ true
      → (other n g).udp_exit_request ≡ false
      → Waited other n (other n g) w
      → Waited other (suc n) g w
  Waited-asleep _ e f (leaves l u x) = leaves (asleep e f l) u x
  Waited-asleep _ e f (stays l u) = stays (asleep e f l) u

  Waited-round :
      (b x : Bool) (w : Globals × Bool)
      → g.udp_event ≡ b
      → (other n g).udp_exit_request ≡ x
      → Waited other n (other n g) w
      → Waited other (suc n) g (if b then (if x then (other n g, true) else w) else (g, false))
  Waited-round false x w e f v = stays awake (inl e)
  Waited-round true true w e f v = leaves awake e f
  Waited-round true false w e f v = Waited-asleep w e f v

wait_event-Waited :
    (other : ℕ → Globals → Globals) (n : ℕ) (g : Globals) → Waited other n g (wait_event other n g)
unfolding wait_event
wait_event-Waited other zero g = stays awake (inr refl)
wait_event-Waited other (suc n) g =
    Waited-round other n g g.udp_event (other n g).udp_exit_request (wait_event other n (other n g))
      refl refl (wait_event-Waited other n (other n g))

module _ (paths : Paths) (child : Bytes → ChildRun) (other : ℕ → Globals → Globals) where
  with_body_keeps :
      {A : Type 0} (m : M A) (p : Packet) (g g' : Globals) (f : A → Bytes) (r : Bytes)
      → with_body paths child other m p (λ a. (g, f a)) ≡ some (g', r)
      → g' ≡ g
  with_body_keeps m p g g' f r e = elim (Option-cases (m (new_packet p.packet p.index))) [
    | inl n ↦ ground (arith, n)
    | inr (a, n) ↦ ground (arith, n)
  ]

  -- Only status messages change the globals.
  pub process_type_keeps :
      (p : Packet) (g g' : Globals) (r : Bytes)
      → p.packet_type ≢ 1
      → process_type paths child other p g ≡ some (g', r)
      → g' ≡ g
  unfolding process_type
  process_type_keeps p g g' r h e = ground (
    arith,
    with_body_keeps decode_decode p g g' (λ d. codes "Decode: " ++ d.message) r,
    with_body_keeps decode_set_freq p g g' (λ s. codes "SetFreq") r,
  )

  -- A datagram whose header is not that of a status message leaves the globals as they were.
  pub process_packet_keeps :
      (message : Bytes) (p : Packet) (g g' : Globals) (r : Bytes)
      → decode_header (new_packet message 0) ≡ some p
      → p.packet_type ≢ 1
      → process_packet paths child other message g ≡ some (g', r)
      → g' ≡ g
  unfolding process_packet
  process_packet_keeps message p g g' r d h e =
      process_type_keeps p g g' r h (rw (d, process_packet) at e)

  -- The types that are answered by name alone: whatever follows the header, and for the types
  -- from 6 on but 17, known to `strPacketType` or not, the answer is "Unknown" and the number.
  pub process_packet_named :
      (magic schema type : ℕ) (id rest : Bytes) (g : Globals)
      → magic < 256 ^ 4
      → schema < 256 ^ 4
      → type < 256 ^ 4
      → 2 * length id < 256 ^ 4
      → type ≢ 1
      → type ≢ 2
      → type ≢ 17
      → process_packet paths child other (header_bytes magic schema type id rest) g
        ≡ some (g, if leb type 5 then str_packet_type type else codes "Unknown " ++ to_string type)
  unfolding process_packet str_packet_type
  process_packet_named magic schema type id rest g hm hs ht hi n1 n2 n17 =
      let (q, read, _, _, same, _, _, _) =
        decode_header-header_bytes magic schema type id rest hm hs ht hi in
      rw (read, process_packet) (rw same (ground arith))

  abbrev answer : StatusPacket → Globals × Bool → Globals × Bytes
  answer s w =
      if w.1
      then (w.0, codes "UDP_Server: UDPExitRequest")
      else (update_status paths child s w.0, status_reply paths child s w.0)

  -- The exit request is answered with the globals in which it was seen; the update is applied to
  -- those in which the event was taken, or to those behind all the sleeps.
  abbrev pub Ends : StatusPacket → Globals → Globals × Bytes → Type 0
  Ends s g r =
      (m : ℕ) × (h : Globals) × ((Sleeps other 50 g (suc m) h
          × h.udp_event ≡ true
          × (other m h).udp_exit_request ≡ true
          × r ≡ (other m h, codes "UDP_Server: UDPExitRequest"))
        ⊎ (Sleeps other 50 g m h
            × ((h.udp_event ≡ false) ⊎ (m ≡ 0))
            × r ≡ (update_status paths child s h, status_reply paths child s h)))

  answer-Ends :
      (s : StatusPacket) (g : Globals) (w : Globals × Bool)
      → Waited other 50 g w
      → Ends s g (answer s w)
  answer-Ends s g _ (leaves {m} {h} l u x) = (m, h, inl (l, u, x, refl))
  answer-Ends s g _ (stays {m} {h} l u) = (m, h, inr (l, u, refl))

  -- For a status message there is a state `h` that is reached from the first globals by sleeps that
  -- each began with the event up and ended without an exit request, at most 50 of them. Either the
  -- event is up in `h` and one more sleep shows an exit request: then this is answered, with the
  -- globals of that moment. Or the event is down in `h`, or no sleep is left: then the update is
  -- applied to `h`.
  pub process_status_waits :
      (s : StatusPacket) (g : Globals) → Ends s g (process_status paths child other s g)
  unfolding process_status
  process_status_waits s g = answer-Ends s g (wait_event other 50 g) (wait_event-Waited other 50 g)
