-- ===== src/Queue/Examples.antt =====
-- MessageQueue.h on concrete histories.
use sdr_plugin_txlink_wsjt_x.Base.{ℕ, List, [], ◌∷◌, ◌++◌, ◌≡◌, refl}
use sdr_plugin_txlink_wsjt_x.Queue.{
  MessageQueue, push, wait_and_pop, pushes, pops, History, start, next,
}
use sdr_plugin_txlink_wsjt_x.Queue.Fifo.{History-queue}

abbrev queue_of : List ℕ → MessageQueue ℕ
queue_of xs = record { queue = xs }

-- Two pushes with a pop between them.
traffic : History (queue_of (1 ∷ [])) (queue_of (2 ∷ 3 ∷ [])) (2 ∷ 3 ∷ []) (1 ∷ [])
unfolding push wait_and_pop
traffic =
    next
      (next (next start (pushes (queue_of (1 ∷ [])) 2))
        (pops (queue_of (1 ∷ 2 ∷ [])) (queue_of (2 ∷ [])) 1 refl))
      (pushes (queue_of (2 ∷ [])) 3)

abbrev pushed : List ℕ
pushed = 2 ∷ 3 ∷ []

abbrev popped : List ℕ
popped = 1 ∷ []

History-queue_example :
    (queue_of (1 ∷ [])).queue ++ pushed ≡ popped ++ (queue_of (2 ∷ 3 ∷ [])).queue
History-queue_example = History-queue traffic
