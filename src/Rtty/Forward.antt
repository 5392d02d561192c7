-- ===== src/Rtty/Forward.antt =====
-- What is forwarded to the form, and what to the RTTY program.
use sdr_plugin_txlink_wsjt_x.Base.{
  ◌≡◌, refl, sym, ap, ◌∙◌, ◌⊎◌, inl, inr, List, [], ◌∷◌, ◌++◌, append-nil, append_assoc, Bool, true,
  false, not, ◌&&◌, Bytes, codes, str_eq, str_eq_iff, starts_with, Bool-cases, if◌then◌else◌,
}
use sdr_plugin_txlink_wsjt_x.Encode.{is_nil}
use sdr_plugin_txlink_wsjt_x.Rtty.{
  PipeRead, runtime_error, message, RttyServer, take_command, send_out, Turn, take_read, turn,
  serve_client,
}

-- The commands that are meant for the Arduino.
abbrev pub rtty_only : List Bytes → List Bytes
rtty_only [] = []
rtty_only (m ∷ ms) = if starts_with (codes "RTTY:") m then m ∷ rtty_only ms else rtty_only ms

abbrev pub texts_only : List Bytes → List Bytes
texts_only [] = []
texts_only (m ∷ ms) = if is_nil m then texts_only ms else m ∷ texts_only ms

-- What the loop reads: up to the first turn that is not connected, is asked to leave, or throws.
abbrev pub heard : List Turn → List Bytes
heard [] = []
heard (t ∷ ts) =
    let rest = heard ts in
    let here : List Bytes = elim t.read [ runtime_error ↦ [] | message m ↦ m ∷ rest ] in
    if t.is_connected && not t.exit_request then here else []

-- How the outgoing queue ends: all sent, or a message lost at a failed write and the rest kept.
abbrev pub SentOut : (List Bytes → Bytes → Bool) → List Bytes → RttyServer → RttyServer → Type 0
SentOut write_ok queue s s' =
    ((s'.sent ≡ s.sent ++ texts_only queue) × (s'.out_q.queue ≡ []))
    ⊎ ((front : List Bytes) × (lost : Bytes) × (queue ≡ front ++ lost ∷ s'.out_q.queue)
        × (s'.sent ≡ s.sent ++ texts_only front)
        × (write_ok s'.sent lost ≡ false))

module _ (write_ok : List Bytes → Bytes → Bool) where
  SentOut-skip :
      (m : Bytes) (ms : List Bytes) (s s' : RttyServer)
      → is_nil m ≡ true
      → SentOut write_ok ms s s'
      → SentOut write_ok (m ∷ ms) s s'
  SentOut-skip m ms s s' e (inl (a, b)) = inl (rw e a, b)
  SentOut-skip m ms s s' e (inr (front, lost, a, b, c)) =
      inr (m ∷ front, lost, ap (◌∷◌ m) a, rw e b, c)

  SentOut-next :
      (m : Bytes) (ms : List Bytes) (s s' : RttyServer)
      → is_nil m ≡ false
      → SentOut write_ok ms (record s { sent = s.sent ++ m ∷ [] }) s'
      → SentOut write_ok (m ∷ ms) s s'
  SentOut-next m ms s s' e (inl (a, b)) =
      inl (rw e (a ∙ append_assoc s.sent (m ∷ []) (texts_only ms)), b)
  SentOut-next m ms s s' e (inr (front, lost, a, b, c)) =
      inr (
        m ∷ front,
        lost,
        ap (◌∷◌ m) a,
        rw e (b ∙ append_assoc s.sent (m ∷ []) (texts_only front)),
        c,
      )

  send_out_nil :
      (m : Bytes) (ms : List Bytes) (s : RttyServer)
      → is_nil m ≡ true
      → send_out write_ok (m ∷ ms) s ≡ send_out write_ok ms s
  unfolding send_out
  send_out_nil m ms s e = rw e refl

  send_out_next :
      (m : Bytes) (ms : List Bytes) (s : RttyServer)
      → is_nil m ≡ false
      → write_ok s.sent m ≡ true
      → send_out write_ok (m ∷ ms) s ≡ send_out write_ok ms (record s { sent = s.sent ++ m ∷ [] })
  unfolding send_out
  send_out_next m ms s e w = rw (e, w) refl

  send_out_broken :
      (m : Bytes) (ms : List Bytes) (s : RttyServer)
      → is_nil m ≡ false
      → write_ok s.sent m ≡ false
      → send_out write_ok (m ∷ ms) s ≡ record s { out_q = record { queue = ms } }
  unfolding send_out
  send_out_broken m ms s e w = rw (e, w) refl

  SentOut-empty : (s : RttyServer) → SentOut write_ok [] s (send_out write_ok [] s)
  unfolding send_out
  SentOut-empty s = inl (sym (append-nil s.sent), refl)

  -- The outgoing queue is sent in its order without its empty messages and is left empty; or a
  -- write fails, and then what stands before that message is sent, the message is lost, and what
  -- stands behind it stays queued.
  pub send_out-SentOut :
      (queue : List Bytes) (s : RttyServer) → SentOut write_ok queue s (send_out write_ok queue s)
  send_out-SentOut [] s = SentOut-empty s
  send_out-SentOut (m ∷ ms) s = elim (Bool-cases (is_nil m)) [
    | inl e ↦
        rw (send_out_nil m ms s e)
          (SentOut-skip m ms s (send_out write_ok ms s) e (send_out-SentOut ms s))
    | inr e ↦ elim (Bool-cases (write_ok s.sent m)) [
      | inl w ↦
          let more = record s { sent = s.sent ++ m ∷ [] } in
          rw (send_out_next m ms s e w)
            (SentOut-next m ms s (send_out write_ok ms more) e (send_out-SentOut ms more))
      | inr w ↦ rw (send_out_broken m ms s e w) (inr ([], m, refl, sym (append-nil s.sent), w))
    ]
  ]

  send_out-posted :
      (queue : List Bytes) (s : RttyServer) → (send_out write_ok queue s).posted ≡ s.posted
  send_out-posted [] s = unfold send_out in refl
  send_out-posted (m ∷ ms) s = elim (Bool-cases (is_nil m)) [
    | inl e ↦ rw (send_out_nil m ms s e) (send_out-posted ms s)
    | inr e ↦ elim (Bool-cases (write_ok s.sent m)) [
      | inl w ↦
          rw (send_out_next m ms s e w) (send_out-posted ms (record s { sent = s.sent ++ m ∷ [] }))
      | inr w ↦ rw (send_out_broken m ms s e w) refl
    ]
  ]

status_is_no_command : starts_with (codes "RTTY:") (codes "GET_STATUS") ≡ false
unfolding starts_with
status_is_no_command = refl

status_posts_nothing : (s : RttyServer) → take_command (codes "GET_STATUS") s ≡ s
unfolding take_command str_eq
status_posts_nothing s = refl

take_command_other :
    (m : Bytes) (s : RttyServer)
    → str_eq m (codes "GET_STATUS") ≡ false
    → (take_command m s).posted ≡ s.posted ++ rtty_only (m ∷ [])
unfolding take_command starts_with
take_command_other [] s e = sym (append-nil s.posted)
take_command_other (c ∷ m) s e = elim (Bool-cases (starts_with (codes "RTTY:") (c ∷ m))) [
  | inl b ↦ rw (e, b) refl
  | inr b ↦ rw (e, b) (sym (append-nil s.posted))
]

take_command-posted :
    (m : Bytes) (s : RttyServer) → (take_command m s).posted ≡ s.posted ++ rtty_only (m ∷ [])
take_command-posted m s = elim (Bool-cases (str_eq m (codes "GET_STATUS"))) [
  | inl e ↦
      rw ((str_eq_iff m (codes "GET_STATUS")).0 e)
        (rw (status_posts_nothing s, status_is_no_command) (sym (append-nil s.posted)))
  | inr e ↦ take_command_other m s e
]

rtty_only-cons :
    (m : Bytes) (ms : List Bytes) → rtty_only (m ∷ ms) ≡ rtty_only (m ∷ []) ++ rtty_only ms
rtty_only-cons m ms = elim (Bool-cases (starts_with (codes "RTTY:") m)) [
  | inl e ↦ rw e refl
  | inr e ↦ rw e refl
]

module _ (write_ok : List Bytes → Bytes → Bool) where
  -- Whatever the writes to the client do, the messages posted to the form are those posted before
  -- followed by the RTTY commands that are read until the loop is left, in their order.
  pub serve_client-rtty_only :
      (ts : List Turn) (s : RttyServer)
      → (serve_client write_ok ts s).posted ≡ s.posted ++ rtty_only (heard ts)
  unfolding serve_client turn take_read
  serve_client-rtty_only [] s = sym (append-nil s.posted)
  serve_client-rtty_only (t ∷ ts) s =
      by_read (λ s'. serve_client-rtty_only ts s') (t.is_connected && not t.exit_request) t.read
    where
      by_read :
          ((s' : RttyServer)
            → (serve_client write_ok ts s').posted ≡ s'.posted ++ rtty_only (heard ts))
          → (b : Bool) (v : PipeRead)
          → let x : RttyServer × Bool = if b then take_read write_ok v s else (s, true) in
            let y : RttyServer = if x.1 then x.0 else serve_client write_ok ts x.0 in
            let here : List Bytes = elim v [ runtime_error ↦ [] | message m ↦ m ∷ heard ts ] in
            y.posted ≡ s.posted ++ rtty_only (if b then here else [])
      by_read next false v = sym (append-nil s.posted)
      by_read next true runtime_error = sym (append-nil s.posted)
      by_read next true (message m) =
          let taken = take_command m s in
          next (send_out write_ok taken.out_q.queue taken)
          ∙ ap (λ l. l ++ rtty_only (heard ts))
              (send_out-posted write_ok taken.out_q.queue taken ∙ take_command-posted m s)
          ∙ append_assoc s.posted (rtty_only (m ∷ [])) (rtty_only (heard ts))
          ∙ ap (◌++◌ s.posted) (sym (rtty_only-cons m (heard ts)))
