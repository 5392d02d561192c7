-- ===== src/Udp/Loop.antt =====
-- SDRunoPlugin_TXLink/UDP_Server.cpp: the loop of UDP_Server, and its queue of frequencies.
-- What `recvfrom` returns and what the loop reads of UDPExitRequest are inputs of each round.
use sdr_plugin_txlink_wsjt_x.Base.{
  ℕ, ◌+◌, List, [], ◌∷◌, ◌++◌, Option, none, some, Bool, true, false, not, Bytes, codes, ◌==◌,
  if◌then◌else◌,
}
use sdr_plugin_txlink_wsjt_x.Queue.{MessageQueue}
use sdr_plugin_txlink_wsjt_x.Type17.{SetFreqCommand}
use sdr_plugin_txlink_wsjt_x.Encode.{Paths, ChildRun}
use sdr_plugin_txlink_wsjt_x.Udp.{Globals, process_packet}

pub data Received : Type 0 where
  timed_out failed closed : Received
  datagram : Bytes → Received

-- One round: what the loop's test and the test behind a receive read of the exit request, what
-- was received, and what the other threads do while ProcessPacket sleeps.
pub record Round : Type 0 where
  pub exit_before : Bool
  pub received : Received
  pub exit_after : Bool
  pub other_threads : ℕ → Globals → Globals

pub record Server : Type 0 where
  pub globals : Globals
  pub udp_out_q : MessageQueue ℕ
  pub wait_count : ℕ
  pub sent : List SetFreqCommand

-- The arguments with which the loop calls sendSetFreqCommand.
abbrev pub set_freq : ℕ → SetFreqCommand
set_freq dial_frequency_hz = record {
  session_id = codes "MyClientApp";
  dial_frequency_hz = dial_frequency_hz;
  tx_enabled = true;
  mode = codes "FT8";
  freq_tolerance = 2500;
  sub_mode = [];
  fast_mode = false;
  tr_period = 15;
  rx_df = 1500;
  tx_df = 1500;
  dx_call = codes "DX_CALL";
  dx_grid = codes "GRID";
  generate_messages = true;
  tx_even = false;
}

-- `while (!WSJTX_UDPOutQ.empty())`: the loop is the queue's only consumer.
unfoldable pub send_pending : List ℕ → List SetFreqCommand → List SetFreqCommand
send_pending [] sent = sent
send_pending (f ∷ fs) sent =
    send_pending fs (if not (f == 0) then sent ++ set_freq f ∷ [] else sent)

pub data Outcome : Type 0 where
  running : Server → Outcome
  stopped : Server → Outcome

module _ (paths : Paths) (child : Bytes → ChildRun) where
  -- The rest of a round in which a datagram was received.
  unfoldable pub take_datagram : Round → Bytes → Server → Option Outcome
  unfolding send_pending
  take_datagram r message s =
      if r.exit_after
      then some (stopped s)
      else elim (process_packet paths child r.other_threads message s.globals) [
        | none ↦ none
        | some x ↦ some (
            running (record {
              globals = x.0;
              udp_out_q = record { queue = [] };
              wait_count = 0;
              sent = send_pending s.udp_out_q.queue s.sent;
            }))
      ]

  -- A timeout goes straight to the next round: what is queued is not sent.
  unfoldable pub receive : Received → Round → Server → Option Outcome
  unfolding take_datagram
  receive timed_out r s = some (running (record s { wait_count = s.wait_count + 1 }))
  receive failed r s = some (stopped s)
  receive closed r s = some (stopped s)
  receive (datagram message) r s = take_datagram r message s

  unfoldable pub round : Round → Server → Option Outcome
  unfolding receive
  round r s = if r.exit_before then some (stopped s) else receive r.received r s

  -- The rounds in turn, until the loop ends or the input does.
  unfoldable pub run : List Round → Server → Option Outcome
  unfolding round
  run [] s = some (running s)
  run (r ∷ rs) s = elim (round r s) [
    | none ↦ none
    | some o ↦ elim o [ running s' ↦ run rs s' | stopped s' ↦ some (stopped s') ]
  ]
