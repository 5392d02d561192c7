-- ===== src/Queue/Fifo.antt =====
-- The queue hands out every message once, in the order of the pushes, whatever the interleaving.
use sdr_plugin_txlink_wsjt_x.Base.{
  ◌+◌, List, [], ◌∷◌, ◌++◌, ◌≡◌, ◌⊎◌, inl, inr, refl, sym, ap, ◌∙◌, none, some, true, false, arith,
  append-nil, append_assoc,
}
use sdr_plugin_txlink_wsjt_x.Queue.{
  MessageQueue, push, wait_and_pop, empty, size, Step, pushes, pops, History, start, next,
}

module _ {ℓ} {T : Type ℓ} where
  wait_and_pop-queue :
      (q r : MessageQueue T) (x : T) → wait_and_pop q ≡ some (x, r) → q.queue ≡ x ∷ r.queue
  unfolding wait_and_pop
  wait_and_pop-queue q r x e = go q.queue refl
    where
      go : (xs : List T) → q.queue ≡ xs → q.queue ≡ x ∷ r.queue
      go [] h = ground arith
      go (y ∷ ys) h = ground arith

  Step-queue : {q r : MessageQueue T} {i o : List T} → Step q r i o → q.queue ++ i ≡ o ++ r.queue
  unfolding push
  Step-queue (pushes q x) = refl
  Step-queue (pops q r x e) = append-nil q.queue ∙ wait_and_pop-queue q r x e

  -- Over any interleaving of calls, what was in the queue followed by what was pushed is what was
  -- popped followed by what is left in it, each in its order.
  pub History-queue :
      {q r : MessageQueue T} {ins outs : List T}
      → History q r ins outs
      → q.queue ++ ins ≡ outs ++ r.queue
  History-queue {q} start = append-nil q.queue
  History-queue {q} (next {r = r} {s = s} {ins = ins} {outs = outs} {i = i} {o = o} h st) =
      sym (append_assoc q.queue ins i)
      ∙ ap (λ l. l ++ i) (History-queue h)
      ∙ append_assoc outs r.queue i
      ∙ ap (◌++◌ outs) (Step-queue st)
      ∙ sym (append_assoc outs o s.queue)

  -- How a call of `waitAndPop` ends on a queue.
  abbrev pub Popped : MessageQueue T → Type ℓ
  Popped q =
      ((empty q ≡ true) × (size q ≡ 0) × (wait_and_pop q ≡ none))
      ⊎ ((x : T) × (r : MessageQueue T) × (wait_and_pop q ≡ some (x, r))
          × (empty q ≡ false)
          × (size q ≡ size r + 1)
          × (q.queue ≡ x ∷ r.queue))

  -- A consumer is blocked while the queue is empty; otherwise it gets the front, and one message
  -- fewer is left.
  pub wait_and_pop_blocks : (q : MessageQueue T) → Popped q
  unfolding empty wait_and_pop size
  wait_and_pop_blocks q = go q.queue refl
    where
      go : (xs : List T) → q.queue ≡ xs → Popped q
      go [] h = inl (ground arith, ground arith, ground arith)
      go (y ∷ ys) h = inr (y, record { queue = ys }, ground arith, ground arith, ground arith, h)
