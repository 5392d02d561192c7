-- ===== src/Rtty.antt =====
-- SDRunoPlugin_TXLink/RTTY_Server.cpp: the inner loop of RTTY_Server_Loop, which is connected to the
-- RTTY program by a named pipe. What the pipe reads and whether a write succeeds are inputs.
pub mod Forward
pub mod Examples
use sdr_plugin_txlink_wsjt_x.Base.{
  ℕ, List, [], ◌∷◌, ◌++◌, Bool, true, false, not, ◌&&◌, ◌||◌, Bytes, codes, str_eq, starts_with,
  if◌then◌else◌,
}
use sdr_plugin_txlink_wsjt_x.Queue.{MessageQueue}
use sdr_plugin_txlink_wsjt_x.Encode.{is_nil}

-- `readMessage` throws, or returns a text, which is empty behind its timeout.
pub data PipeRead : Type 0 where
  runtime_error : PipeRead
  message : Bytes → PipeRead

pub record RttyServer : Type 0 where
  pub posted : List Bytes
  pub out_q : MessageQueue Bytes
  pub sent : List Bytes

-- A command of the client: those for the Arduino are posted to the form with their prefix.
unfoldable pub take_command : Bytes → RttyServer → RttyServer
take_command msg s =
    let known = not (is_nil msg) && not (str_eq msg (codes "GET_STATUS")) in
    if known && starts_with (codes "RTTY:") msg
    then record s { posted = s.posted ++ msg ∷ [] }
    else s

-- The loop over RTTYmsgOutQ. A failed write ends it, with its message already taken.
unfoldable pub send_out : (List Bytes → Bytes → Bool) → List Bytes → RttyServer → RttyServer
send_out write_ok [] s = record s { out_q = record { queue = [] } }
send_out write_ok (m ∷ ms) s =
    let skipped = send_out write_ok ms s in
    let next = send_out write_ok ms (record s { sent = s.sent ++ m ∷ [] }) in
    let broken = record s { out_q = record { queue = ms } } in
    if is_nil m then skipped else if write_ok s.sent m then next else broken

-- What a turn of the loop finds: its two tests, and the read.
pub record Turn : Type 0 where
  pub is_connected : Bool
  pub exit_request : Bool
  pub read : PipeRead

module _ (write_ok : List Bytes → Bytes → Bool) where
  -- The Boolean says that the loop is left.
  unfoldable pub take_read : PipeRead → RttyServer → RttyServer × Bool
  unfolding take_command send_out
  take_read runtime_error s = (s, true)
  take_read (message msg) s =
      let taken = take_command msg s in (send_out write_ok taken.out_q.queue taken, false)

  unfoldable pub turn : Turn → RttyServer → RttyServer × Bool
  unfolding take_read
  turn t s = if t.is_connected && not t.exit_request then take_read t.read s else (s, true)

  unfoldable pub serve_client : List Turn → RttyServer → RttyServer
  unfolding turn
  serve_client [] s = s
  serve_client (t ∷ ts) s =
      let x = turn t s in let rest = serve_client ts x.0 in if x.1 then x.0 else rest
