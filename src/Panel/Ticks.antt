-- ===== src/Panel/Ticks.antt =====
-- The ticks of OnTimer behind an exception.
use sdr_plugin_txlink_wsjt_x.Base.{
  ℕ, ◌≡◌, ◌≢◌, refl, sym, ap, ◌∙◌, List, [], ◌∷◌, Option, Bool, true, false, Bytes, arith, codes,
  str_eq, if◌then◌else◌,
}
use sdr_plugin_txlink_wsjt_x.Form.{Device}
use sdr_plugin_txlink_wsjt_x.Form.UdpEvent.{process_udp_event}
use sdr_plugin_txlink_wsjt_x.Panel.{
  Panel, on_message, process_incoming_serial, take_messages, process_message_queue,
}
use sdr_plugin_txlink_wsjt_x.Panel.Timer.{close_down, Timer, await_exit, serve, on_timer}
use sdr_plugin_txlink_wsjt_x.Panel.Frames.{
  AllNoBraces, reads_of, frames, handle_all, process_incoming_serial-frames,
}
use sdr_plugin_txlink_wsjt_x.Panel.Init.{IsNoNumber, behind_levels, init_tx_throws}

-- The timer of a form that is not being unloaded.
abbrev pub running : Panel → Timer
running p = record {
  panel = p;
  busy = false;
  prepare_request = false;
  unload_in_progress = false;
  exit_all_request = false;
  back_from_exit = false;
}

on_timer_busy :
    (d : Device) (now : ℕ) (reads : List (Option ℕ)) (t : Timer)
    → t.busy ≡ true
    → on_timer d now reads t ≡ t
unfolding on_timer
on_timer_busy d now reads t b = by_flag t.busy b
  where
    by_flag :
        (c : Bool)
        → c ≡ true
        → (if c
            then t
            else if t.prepare_request
            then record t {
              panel = close_down d t.panel;
              unload_in_progress = true;
              prepare_request = false;
            }
            else if t.unload_in_progress
            then await_exit t
            else serve d now reads t)
          ≡ t
    by_flag true e = refl
    by_flag false e = absurd (ground (arith, e))

-- The ticks in turn: the clock and the bytes of each.
abbrev pub ticks : Device → List (ℕ × List (Option ℕ)) → Timer → Timer
ticks d [] t = t
ticks d ((now, reads) ∷ later) t = ticks d later (on_timer d now reads t)

module _ (d : Device) where
  ticks_busy :
      (later : List (ℕ × List (Option ℕ))) (t : Timer) → t.busy ≡ true → ticks d later t ≡ t
  unfolding on_timer
  ticks_busy [] t b = refl
  ticks_busy ((now, reads) ∷ later) t b =
      ap (ticks d later) (on_timer_busy d now reads t b) ∙ ticks_busy later t b

  process_message_queue_empty :
      (p : Panel) → p.message_queue.queue ≡ [] → process_message_queue d p ≡ p
  unfolding process_message_queue take_messages
  process_message_queue_empty p e =
      ap (λ ms. take_messages d ms p) e
      ∙ ap (λ ms. record p { message_queue = record { queue = ms } }) (sym e)

  handle_all_throws :
      (bodies : List Bytes) (p : Panel)
      → p.stored.ft8_tx_delay ≢ []
      → IsNoNumber p.stored.ft8_tx_delay
      → handle_all d (codes "~TX" ∷ bodies) p ≡ (behind_levels d p, true)
  unfolding on_message str_eq
  handle_all_throws bodies p some_text bad =
      ap
        (λ (x : Panel × Bool).
          let rest : Panel × Bool = handle_all d bodies x.0 in if x.1 then (x.0, true) else rest)
        (init_tx_throws d p some_text bad)

  serve_throws :
      (now : ℕ) (reads : List (Option ℕ)) (t : Timer) (q : Panel)
      → process_incoming_serial d reads (process_message_queue d t.panel) ≡ (q, true)
      → serve d now reads t ≡ record t { panel = q; busy = true }
  unfolding serve
  serve_throws now reads t q e =
      ap
        (λ (x : Panel × Bool).
          if x.1
          then record t { panel = x.0; busy = true }
          else record t { panel = record (x.0) { desk = process_udp_event d now x.0.desk } })
        e

  -- With no unload, an empty queue and a stored delay that is not empty and no number: a tick whose
  -- bytes begin with the frame of ~TX, before whole frames without braces inside, ends by an
  -- exception behind the levels, and no later tick changes anything, since the busy flag stays set.
  pub on_timer_stuck :
      (now : ℕ) (bodies : List Bytes) (later : List (ℕ × List (Option ℕ))) (p : Panel)
      → p.message_queue.queue ≡ []
      → AllNoBraces bodies
      → p.stored.ft8_tx_delay ≢ []
      → IsNoNumber p.stored.ft8_tx_delay
      → ticks d ((now, reads_of (frames (codes "~TX" ∷ bodies))) ∷ later) (running p)
        ≡ record (running (behind_levels d p)) { busy = true }
  unfolding on_timer
  on_timer_stuck now bodies later p e h some_text bad =
      ap (ticks d later) (
        serve_throws now (reads_of (frames (codes "~TX" ∷ bodies))) (running p) (behind_levels d p)
          (ap (process_incoming_serial d (reads_of (frames (codes "~TX" ∷ bodies))))
              (process_message_queue_empty p e)
            ∙ process_incoming_serial-frames d (codes "~TX" ∷ bodies) p
                ((refl, refl, (refl, refl, (refl, refl, tt))), h)
            ∙ handle_all_throws bodies p some_text bad))
      ∙ ticks_busy later (record (running (behind_levels d p)) { busy = true }) refl
