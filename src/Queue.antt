-- ===== src/Queue.antt =====
-- SDRunoPlugin_TXLink/MessageQueue.h: ThreadSafeMessageQueue. Each method holds the mutex from its
-- first to its last access of `queue_`, so a history of the queue is a sequence of whole calls.
pub mod Fifo
pub mod Examples
use sdr_plugin_txlink_wsjt_x.Base.{
  ℕ, suc, List, [], ◌∷◌, ◌++◌, ◌≡◌, Option, none, some, Bool, true, false, length,
}

-- `queue_`, the front first.
pub record MessageQueue {ℓ} (T : Type ℓ) : Type ℓ where
  pub queue : List T

module _ {ℓ} {T : Type ℓ} where
  unfoldable pub push : MessageQueue T → T → MessageQueue T
  push q message = record q { queue = q.queue ++ message ∷ [] }

  abbrev pub pop_front : List T → Option (T × MessageQueue T)
  pop_front [] = none
  pop_front (x ∷ xs) = some (x, record { queue = xs })

  -- `none` while the caller is blocked in `cv_.wait`.
  unfoldable pub wait_and_pop : MessageQueue T → Option (T × MessageQueue T)
  wait_and_pop q = pop_front q.queue

  abbrev is_nil : List T → Bool
  is_nil [] = true
  is_nil (x ∷ xs) = false

  unfoldable pub empty : MessageQueue T → Bool
  empty q = is_nil q.queue

  unfoldable pub size : MessageQueue T → ℕ
  size q = length q.queue

  -- One completed call of some thread: a producer's `push`, or a consumer's `waitAndPop`.
  pub data Step : MessageQueue T → MessageQueue T → List T → List T → Type ℓ where
    pushes : (q : MessageQueue T) (x : T) → Step q (push q x) (x ∷ []) []
    pops : (q r : MessageQueue T) (x : T) → wait_and_pop q ≡ some (x, r) → Step q r [] (x ∷ [])

  -- Any interleaving, with all that was pushed and all that was popped, each in its order.
  pub data History : MessageQueue T → MessageQueue T → List T → List T → Type ℓ where
    start : {q : MessageQueue T} → History q q [] []
    next :
        {q r s : MessageQueue T} {ins outs i o : List T}
        → History q r ins outs
        → Step r s i o
        → History q s (ins ++ i) (outs ++ o)
