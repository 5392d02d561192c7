-- ===== src/Transmitter/Texts/Ring.antt =====
-- TXlink4_Nano/rtty_queue.ino: the ring is a bounded first-in first-out list.
use sdr_plugin_txlink_wsjt_x.Base.{
  ℕ, zero, suc, ◌+◌, ◌-◌, ◌%◌, ◌≤◌, ◌<◌, ◌≡◌, refl, sym, ap, ◌∙◌, inl, inr, List, [], ◌∷◌, ◌++◌,
  Option, none, some, Bool, true, false, Bytes, arith, Bool-cases, ◌==◌, length-set, ltb, length,
  take, set, if◌then◌else◌,
}
use sdr_plugin_txlink_wsjt_x.Transmitter.Texts.{
  Fifo, slot, next, initialise_queue, enqueue_message, dequeue_message, clear_queue,
}

-- A call of the queue, and what it gives back.
pub data Call : Type 0 where
  enqueue : Bytes → Call
  dequeue : Call
  clear : Call

pub data Reply : Type 0 where
  stored : Bool → Reply
  text : Option Bytes → Reply
  done : Reply

text_of : Fifo × Option ℕ → Option Bytes
text_of (q, none) = none
text_of (q, some i) = some (slot q.message_buffer i)

unfoldable pub call : Call → Fifo → Fifo × Reply
unfolding text_of
call (enqueue t) q = let r = enqueue_message t q in (r.0, stored r.1)
call dequeue q = let r = dequeue_message q in (r.0, text (text_of r))
call clear q = (clear_queue q, done)

-- What is promised: a list of at most three texts, each cut to 71 characters.
pub promise : Call → List Bytes → List Bytes × Reply
promise (enqueue t) l =
    if ltb (length l) 3 then (l ++ take 71 t ∷ [], stored true) else (l, stored false)
promise dequeue [] = ([], text none)
promise dequeue (t ∷ l) = (l, text (some t))
promise clear l = ([], done)

read : ℕ → ℕ → List Bytes → List Bytes
read zero i b = []
read (suc n) i b = slot b i ∷ read n (next i) b

-- The texts that wait, the oldest first.
pub waiting : Fifo → List Bytes
unfolding read
waiting q = read ((q.queue_head + 4 - q.queue_tail) % 4) q.queue_tail q.message_buffer

-- Every text lies in its slot, with a NUL.
pub data AllShort : List Bytes → Type 0 where
  no_slot : AllShort []
  one_slot : {t : Bytes} {l : List Bytes} → length t ≤ 71 → AllShort l → AllShort (t ∷ l)

pub record IsRing (q : Fifo) : Type 0 where
  pub size : length q.message_buffer ≡ 4
  pub head : q.queue_head < 4
  pub tail : q.queue_tail < 4
  pub short : AllShort q.message_buffer

abbrev at_ring : List Bytes → ℕ → ℕ → Fifo
at_ring b h t = record { message_buffer = b; queue_head = h; queue_tail = t }

abbrev AllFour {ℓ} : (ℕ → Type ℓ) → Type ℓ
AllFour P = P 0 × P 1 × P 2 × P 3

below_four {ℓ} : (P : ℕ → Type ℓ) → AllFour P → (n : ℕ) → n < 4 → P n
below_four P all zero h = all.0
below_four P all (suc zero) h = all.1
below_four P all (suc (suc zero)) h = all.2
below_four P all (suc (suc (suc zero))) h = all.3
below_four P all (suc (suc (suc (suc n)))) h = absurd (omega arith)

-- A property of every valid ring, from the sixteen cases of its ends.
of_ring {ℓ} :
    (P : Fifo → Type ℓ)
    → ((a b c d : Bytes) → AllFour λ h. AllFour λ t. P (at_ring (a ∷ b ∷ c ∷ d ∷ []) h t))
    → (q : Fifo) → IsRing q
    → P q
of_ring P all q v = of_buffer q.message_buffer v.size
  where
    of_buffer : (l : List Bytes) → length l ≡ 4 → P (at_ring l q.queue_head q.queue_tail)
    of_buffer [] h = absurd (omega arith)
    of_buffer (a ∷ []) h = absurd (omega arith)
    of_buffer (a ∷ b ∷ []) h = absurd (omega arith)
    of_buffer (a ∷ b ∷ c ∷ []) h = absurd (omega arith)
    of_buffer (a ∷ b ∷ c ∷ d ∷ []) h =
        below_four (λ t. P (at_ring (a ∷ b ∷ c ∷ d ∷ []) q.queue_head t))
          (below_four (λ h. AllFour (λ t. P (at_ring (a ∷ b ∷ c ∷ d ∷ []) h t))) (all a b c d)
            q.queue_head v.head)
          q.queue_tail v.tail
    of_buffer (a ∷ b ∷ c ∷ d ∷ e ∷ l) h = absurd (omega arith)

length-take : {A : Type 0} (n : ℕ) (l : List A) → length (take n l) ≤ n
length-take zero l = omega arith
length-take (suc n) [] = omega arith
length-take (suc n) (x ∷ l) = omega (arith, length-take n l)

set-AllShort :
    (l : List Bytes) (i : ℕ) (t : Bytes) → length t ≤ 71 → AllShort l → AllShort (set l i t)
set-AllShort [] i t h s = s
set-AllShort (x ∷ l) zero t h (one_slot a s) = one_slot h s
set-AllShort (x ∷ l) (suc i) t h (one_slot a s) = one_slot a (set-AllShort l i t h s)

pub slot-short : (l : List Bytes) (i : ℕ) → AllShort l → length (slot l i) ≤ 71
slot-short [] i s = omega arith
slot-short (x ∷ l) zero (one_slot a s) = a
slot-short (x ∷ l) (suc i) (one_slot a s) = slot-short l i s

-- @
pub call-promise :
    (c : Call) (q : Fifo) → IsRing q → (waiting (call c q).0, (call c q).1) ≡ promise c (waiting q)
unfolding call promise waiting read next enqueue_message dequeue_message text_of clear_queue
call-promise (enqueue x) = of_ring _ λ a b c d. (
  (refl, refl, refl, refl),
  (refl, refl, refl, refl),
  (refl, refl, refl, refl),
  (refl, refl, refl, refl),
)
call-promise dequeue = of_ring _ λ a b c d. (
  (refl, refl, refl, refl),
  (refl, refl, refl, refl),
  (refl, refl, refl, refl),
  (refl, refl, refl, refl),
)
call-promise clear = λ q v. refl

pub call-IsRing : (c : Call) (q : Fifo) → IsRing q → IsRing (call c q).0
unfolding call next enqueue_message dequeue_message clear_queue
call-IsRing (enqueue x) q v = elim (Bool-cases (next q.queue_head == q.queue_tail)) [
  | inl e ↦ rw e v
  | inr e ↦ rw e (record {
    size = length-set q.message_buffer q.queue_head (take 71 x) ∙ v.size;
    head = omega arith;
    tail = v.tail;
    short = set-AllShort q.message_buffer q.queue_head (take 71 x) (length-take 71 x) v.short;
  })
]
call-IsRing dequeue q v = elim (Bool-cases (q.queue_head == q.queue_tail)) [
  | inl e ↦ rw e v
  | inr e ↦ rw e (record { size = v.size; head = v.head; tail = omega arith; short = v.short })
]
call-IsRing clear q v = record {
  size = v.size;
  head = omega arith;
  tail = omega arith;
  short = v.short;
}

-- A history of calls, with the replies.
pub history : List Call → Fifo → List Reply
history [] q = []
history (c ∷ l) q = let r = call c q in r.1 ∷ history l r.0

pub promised : List Call → List Bytes → List Reply
promised [] w = []
promised (c ∷ l) w = let r = promise c w in r.1 ∷ promised l r.0

history-waiting : (l : List Call) (q : Fifo) → IsRing q → history l q ≡ promised l (waiting q)
unfolding history promised
history-waiting [] q v = refl
history-waiting (c ∷ l) q v =
    ap (◌∷◌ (call c q).1) (history-waiting l (call c q).0 (call-IsRing c q v))
    ∙ ap (λ r. r.1 ∷ promised l r.0) (call-promise c q v)

pub initialise_queue-IsRing : IsRing initialise_queue
unfolding initialise_queue
initialise_queue-IsRing = record {
  size = refl;
  head = omega arith;
  tail = omega arith;
  short =
      one_slot (omega arith)
        (one_slot (omega arith) (one_slot (omega arith) (one_slot (omega arith) no_slot)));
}

-- From the initial queue every history of calls gives the replies of a list that keeps at most
-- three texts, each cut to 71 characters, in their order.
pub history-promised : (l : List Call) → history l initialise_queue ≡ promised l []
unfolding initialise_queue waiting read
history-promised l = history-waiting l initialise_queue initialise_queue-IsRing

-- The slot before the tail: the one that was taken last.
abbrev taken : Fifo → ℕ
taken q = (q.queue_tail + 3) % 4

pub enqueue_all : List Bytes → Fifo → Fifo
enqueue_all [] q = q
enqueue_all (t ∷ l) q = enqueue_all l (enqueue_message t q).0

enqueue_message-slot :
    (t : Bytes) (q : Fifo)
    → IsRing q
    → slot (enqueue_message t q).0.message_buffer (taken q) ≡ slot q.message_buffer (taken q)
unfolding next enqueue_message
enqueue_message-slot t = of_ring _ λ a b c d. (
  (refl, refl, refl, refl),
  (refl, refl, refl, refl),
  (refl, refl, refl, refl),
  (refl, refl, refl, refl),
)

enqueue_message-tail : (t : Bytes) (q : Fifo) → (enqueue_message t q).0.queue_tail ≡ q.queue_tail
unfolding enqueue_message
enqueue_message-tail t q = elim (Bool-cases (next q.queue_head == q.queue_tail)) [
  | inl e ↦ rw e refl
  | inr e ↦ rw e refl
]

enqueue_all-slot :
    (l : List Bytes) (q : Fifo) (i : ℕ)
    → IsRing q
    → i ≡ taken q
    → slot (enqueue_all l q).message_buffer i ≡ slot q.message_buffer i
unfolding enqueue_all call
enqueue_all-slot [] q i v e = refl
enqueue_all-slot (t ∷ l) q i v e =
    enqueue_all-slot l (enqueue_message t q).0 i (call-IsRing (enqueue t) q v)
      (e ∙ ap (λ n. (n + 3) % 4) (sym (enqueue_message-tail t q)))
    ∙ rw e (enqueue_message-slot t q v)

dequeue_message-taken :
    (q : Fifo) (i : ℕ)
    → IsRing q
    → (dequeue_message q).1 ≡ some i
    → i ≡ taken (dequeue_message q).0 × (dequeue_message q).0.message_buffer ≡ q.message_buffer
unfolding dequeue_message next
dequeue_message-taken q i v e = elim (Bool-cases (q.queue_head == q.queue_tail)) [
  | inl h ↦ absurd (let e' : none ≡ some i = rw h at e in cc)
  | inr h ↦
      let e' : some q.queue_tail ≡ some i = rw h at e in
      let same : q.queue_tail ≡ i = cc in let t = v.tail in rw h (omega arith, refl)
]

-- In a valid ring, the slot whose text was taken last keeps its text through any texts that are
-- added behind.
pub dequeue_message-kept :
    (l : List Bytes) (q : Fifo) (i : ℕ)
    → IsRing q
    → (dequeue_message q).1 ≡ some i
    → slot (enqueue_all l (dequeue_message q).0).message_buffer i ≡ slot q.message_buffer i
unfolding call
dequeue_message-kept l q i v e =
    let t = dequeue_message-taken q i v e in
    enqueue_all-slot l (dequeue_message q).0 i (call-IsRing dequeue q v) t.0
    ∙ ap (λ b. slot b i) t.1
