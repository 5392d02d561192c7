-- ===== src/Panel/Queued.antt =====
-- The messages of the other threads: which are written, in what order, and where a call stops.
use sdr_plugin_txlink_wsjt_x.Base.{
  ◌≡◌, refl, sym, ap, ◌∙◌, ◌⊎◌, inl, inr, List, [], ◌∷◌, ◌++◌, map, append-nil, append_assoc, true,
  false, Bytes, codes, str_eq, starts_with, drop, Bool-cases, if◌then◌else◌,
}
use sdr_plugin_txlink_wsjt_x.Form.{Device, Form}
use sdr_plugin_txlink_wsjt_x.Panel.{
  Panel, on_form, process_rtty_command, send_message, take_messages, process_message_queue,
}

abbrev pub special_texts : List Bytes
special_texts = codes "$SendRXfreq$" ∷ codes "$SendTXfreq$" ∷ codes "$SaveIniData$" ∷ []

-- A message for the Arduino.
abbrev pub IsPlain : Bytes → Type 0
IsPlain m =
    (str_eq m (codes "$SendRXfreq$") ≡ false)
    × (str_eq m (codes "$SendTXfreq$") ≡ false)
    × (str_eq m (codes "$SaveIniData$") ≡ false)

abbrev pub AllPlain : List Bytes → Type 0
AllPlain [] = Unit {0}
AllPlain (m ∷ ms) = IsPlain m × AllPlain ms

-- One of the three messages that the form serves itself.
abbrev pub IsSpecial : Bytes → Type 0
IsSpecial m =
    (m ≡ codes "$SendRXfreq$") ⊎ ((m ≡ codes "$SendTXfreq$") ⊎ (m ≡ codes "$SaveIniData$"))

-- What is written for a message: an RTTY command loses its prefix.
abbrev pub text_of : Bytes → Bytes
text_of m = if starts_with (codes "RTTY:") m then drop 5 m else m

-- The port stays open behind every write.
abbrev pub StaysOpen : Device → Type 0
StaysOpen d = (written : List Bytes) (text : Bytes) → d.stays_open written text ≡ true

module _ (d : Device) where
  take_messages-plain :
      (m : Bytes) (ms : List Bytes) (p : Panel)
      → IsPlain m
      → take_messages d (m ∷ ms) p
        ≡ take_messages d ms
            (on_form (send_message d m) (record p { message_queue = record { queue = ms } }))
  unfolding take_messages
  take_messages-plain m ms p (a, b, c) = rw (a, b, c) refl

  take_messages-special :
      (m : Bytes) (ms : List Bytes) (p : Panel)
      → IsSpecial m
      → (take_messages d (m ∷ ms) p).message_queue.queue ≡ ms
  unfolding take_messages str_eq
  take_messages-special m ms p (inl e) = rw e refl
  take_messages-special m ms p (inr (inl e)) = rw e refl
  take_messages-special m ms p (inr (inr e)) = rw e refl

  take_messages_stops :
      (front : List Bytes) (m : Bytes) (rest : List Bytes) (p : Panel)
      → AllPlain front
      → IsSpecial m
      → (take_messages d (front ++ m ∷ rest) p).message_queue.queue ≡ rest
  take_messages_stops [] m rest p h s = take_messages-special m rest p s
  take_messages_stops (b ∷ front) m rest p (h, hs) s =
      rw (take_messages-plain b (front ++ m ∷ rest) p h) (take_messages_stops front m rest _ hs s)

  -- If a special message stands behind plain ones in the queue, one call leaves exactly the
  -- messages behind it queued.
  pub process_message_queue_stops :
      (front : List Bytes) (m : Bytes) (rest : List Bytes) (p : Panel)
      → AllPlain front
      → IsSpecial m
      → p.message_queue.queue ≡ front ++ m ∷ rest
      → (process_message_queue d p).message_queue.queue ≡ rest
  unfolding process_message_queue
  process_message_queue_stops front m rest p h s e =
      ap (λ ms. (take_messages d ms p).message_queue.queue) e
      ∙ take_messages_stops front m rest p h s

  send_message-written :
      (m : Bytes) (f : Form)
      → StaysOpen d
      → f.serial.connected ≡ true
      → ((send_message d m f).serial.written ≡ f.serial.written ++ text_of m ∷ [])
        × ((send_message d m f).serial.connected ≡ true)
  unfolding send_message process_rtty_command
  send_message-written m f kept c = elim (Bool-cases (starts_with (codes "RTTY:") m)) [
    | inl e ↦ rw (e, c) (refl, kept f.serial.written (drop 5 m))
    | inr e ↦ rw (e, c) (refl, kept f.serial.written m)
  ]

  take_messages-written :
      (ms : List Bytes) (p : Panel)
      → StaysOpen d
      → AllPlain ms
      → p.desk.form.serial.connected ≡ true
      → ((take_messages d ms p).desk.form.serial.written
          ≡ p.desk.form.serial.written ++ map text_of ms)
        × ((take_messages d ms p).message_queue.queue ≡ [])
  unfolding take_messages
  take_messages-written [] p kept h c = (sym (append-nil p.desk.form.serial.written), refl)
  take_messages-written (m ∷ ms) p kept (h, hs) c =
      let (w, c') = send_message-written m p.desk.form kept c in
      let (written, empty) =
        take_messages-written ms
          (on_form (send_message d m) (record p { message_queue = record { queue = ms } })) kept hs
          c' in
      rw (take_messages-plain m ms p h) (
        written
            ∙ ap (λ l. l ++ map text_of ms) w
            ∙ append_assoc p.desk.form.serial.written (text_of m ∷ []) (map text_of ms),
        empty,
      )

  -- With the port open and staying open, and no special message in the queue, one call writes the
  -- text of all the messages in the order of the queue and leaves it empty.
  pub process_message_queue-written :
      (p : Panel)
      → StaysOpen d
      → AllPlain p.message_queue.queue
      → p.desk.form.serial.connected ≡ true
      → ((process_message_queue d p).desk.form.serial.written
          ≡ p.desk.form.serial.written ++ map text_of p.message_queue.queue)
        × ((process_message_queue d p).message_queue.queue ≡ [])
  unfolding process_message_queue
  process_message_queue-written p kept h c = take_messages-written p.message_queue.queue p kept h c
