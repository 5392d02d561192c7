-- ===== src/Transmitter/Texts.antt =====
-- TXlink4_Nano/rtty_queue.ino: the ring of four texts that wait to be sent in RTTY.
pub mod Ring
use sdr_plugin_txlink_wsjt_x.Base.{
  ℕ, zero, suc, ◌+◌, ◌-◌, ◌%◌, List, [], ◌∷◌, Option, none, some, Bool, true, false, Bytes, ◌==◌,
  take, set, replicate, if◌then◌else◌,
}

abbrev pub max_queue_messages : ℕ
max_queue_messages = 4

abbrev pub max_message_length : ℕ
max_message_length = 72

-- `message_buffer` holds C strings, each without its NUL.
pub record Fifo : Type 0 where
  pub message_buffer : List Bytes
  pub queue_head : ℕ
  pub queue_tail : ℕ

unfoldable pub next : ℕ → ℕ
next i = (i + 1) % max_queue_messages

-- `initialiseQueue`.
unfoldable pub initialise_queue : Fifo
initialise_queue = record {
  message_buffer = replicate max_queue_messages [];
  queue_head = 0;
  queue_tail = 0;
}

-- `enqueueMessage`, with its result; `strncpy` cuts the text.
unfoldable pub enqueue_message : Bytes → Fifo → Fifo × Bool
unfolding next
enqueue_message text q = if next q.queue_head == q.queue_tail then (q, false) else (
  record q {
    message_buffer = set q.message_buffer q.queue_head (take (max_message_length - 1) text);
    queue_head = next q.queue_head;
  },
  true,
)

-- `dequeueMessage`: the pointer is the index of its slot.
unfoldable pub dequeue_message : Fifo → Fifo × Option ℕ
unfolding next
dequeue_message q =
    if q.queue_head == q.queue_tail
    then (q, none)
    else (record q { queue_tail = next q.queue_tail }, some q.queue_tail)

-- `clearQueue`.
unfoldable pub clear_queue : Fifo → Fifo
clear_queue q = record q { queue_head = 0; queue_tail = 0 }

unfoldable pub is_queue_empty : Fifo → Bool
is_queue_empty q = q.queue_head == q.queue_tail

-- The text that a pointer into the buffer stands for.
abbrev pub slot : List Bytes → ℕ → Bytes
slot [] i = []
slot (x ∷ xs) zero = x
slot (x ∷ xs) (suc i) = slot xs i
