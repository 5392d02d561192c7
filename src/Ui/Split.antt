-- ===== src/Ui/Split.antt =====
-- What a frequency event leaves in each split mode.
use sdr_plugin_txlink_wsjt_x.Base.{
  ◌≡◌, ◌≢◌, refl, sym, ap, ◌∙◌, ◌⊎◌, inl, inr, List, [], ◌∷◌, ◌++◌, Bool, true, false, not, ◌&&◌,
  Bytes, ℤ, pos, negsuc, arith, codes, Bool-cases, ltb_ℤ, ◌==◌, if◌then◌else◌,
}
use sdr_plugin_txlink_wsjt_x.Queue.{push}
use sdr_plugin_txlink_wsjt_x.Settings.{split_none, split_tx_rx, split_ft8}
use sdr_plugin_txlink_wsjt_x.Annotator.{update_rx_anno_entry}
use sdr_plugin_txlink_wsjt_x.Form.{Form, Controller}
use sdr_plugin_txlink_wsjt_x.Form.Frequency.{eq_ℤ, is_ft8}
use sdr_plugin_txlink_wsjt_x.Panel.{Panel, on_form, post_message}
use sdr_plugin_txlink_wsjt_x.Ui.{
  Ui, whole, is_none, note_rx_freq, set_vfo1, take_vfo1, follow, frequency_changed,
}

abbrev pub form_of : Ui → Form
form_of u = u.panel.desk.form

abbrev pub messages_of : Ui → List Bytes
messages_of u = u.panel.message_queue.queue

-- One of the two frequencies is not the one of the event before.
abbrev pub HasMoved : Ui → Type 0
HasMoved u =
    (whole (form_of u).controller.vfo0 ≢ u.last_f0)
    ⊎ (whole (form_of u).controller.vfo1 ≢ u.last_f1)

moved0 : Ui → Bool
moved0 u = not (whole (form_of u).controller.vfo0 == u.last_f0)

moved1 : Ui → Bool
moved1 u = not (whole (form_of u).controller.vfo1 == u.last_f1)

frequency_changed-follow :
    (u : Ui)
    → HasMoved u
    → (frequency_changed u).panel ≡ follow (moved0 u) (moved1 u) (on_form note_rx_freq u.panel)
unfolding frequency_changed moved0 moved1
frequency_changed-follow u (inl h) =
    let same : (whole (form_of u).controller.vfo0 == u.last_f0) ≡ false = ground (arith, h) in
    rw same refl
frequency_changed-follow u (inr h) =
    let same : (whole (form_of u).controller.vfo1 == u.last_f1) ≡ false = ground (arith, h) in
    elim (Bool-cases (whole (form_of u).controller.vfo0 == u.last_f0)) [
      | inl e ↦ rw (same, e) refl
      | inr e ↦ rw (same, e) refl
    ]

-- What `note_rx_freq` leaves as it was.
abbrev pub SameTuning : Form → Form → Type 0
SameTuning f g =
    (f.current_tx_freq ≡ g.current_tx_freq)
    × (f.controller ≡ g.controller)
    × (f.split_mode ≡ g.split_mode)

note_rx_freq-SameTuning : (f : Form) → SameTuning (note_rx_freq f) f
unfolding note_rx_freq
note_rx_freq-SameTuning f = by_test (
    not (eq_ℤ f.controller.vfo0 (pos 0))
    && not (eq_ℤ f.controller.vfo0 f.current_rx_freq)
    && not (is_ft8 f.split_mode))
  where
    by_test :
        (b : Bool)
        → let g : Form =
            if b
            then record f {
              current_rx_freq = f.controller.vfo0;
              annotations = update_rx_anno_entry (codes "RX") [] f.controller.vfo0 f.annotations;
            }
            else f in
          SameTuning g f
    by_test true = (refl, refl, refl)
    by_test false = (refl, refl, refl)

eq_ℤ_refl : (x : ℤ) → eq_ℤ x x ≡ true
eq_ℤ_refl (pos n) = ground arith
eq_ℤ_refl (negsuc n) = ground arith

module _ (m0 m1 : Bool) (p : Panel) where
  follow-ft8 :
      p.desk.form.split_mode ≡ split_ft8
      → (eq_ℤ (follow m0 m1 p).desk.form.controller.vfo0 p.desk.form.current_tx_freq ≡ true)
        × ((follow m0 m1 p).desk.form.current_tx_freq ≡ p.desk.form.current_tx_freq)
        × ((follow m0 m1 p).message_queue.queue ≡ p.message_queue.queue)
  unfolding follow
  follow-ft8 e =
      let data_mode : is_ft8 p.desk.form.split_mode ≡ true = ap is_ft8 e in
      let split : is_none p.desk.form.split_mode ≡ false = ap is_none e in
      elim (Bool-cases (eq_ℤ p.desk.form.controller.vfo0 p.desk.form.current_tx_freq)) [
        | inl s ↦ rw (split, data_mode, s) (s, refl, refl)
        | inr s ↦ rw (split, data_mode, s) (eq_ℤ_refl p.desk.form.current_tx_freq, refl, refl)
      ]

  follow-none :
      p.desk.form.split_mode ≡ split_none
      → ((m1 ≡ true) × (follow m0 m1 p ≡ on_form (set_vfo1 p.desk.form.controller.vfo0) p))
        ⊎ (((m1 ≡ false) × (m0 ≡ true) × (follow m0 m1 p ≡ post_message (codes "$SendRXfreq$") p))
            ⊎ ((m1 ≡ false) × (m0 ≡ false)))
  unfolding follow
  follow-none e =
      let split : is_none p.desk.form.split_mode ≡ true = ap is_none e in
      elim (Bool-cases m1) [
        | inl a ↦ inl (a, rw (split, a) refl)
        | inr a ↦ elim (Bool-cases m0) [
          | inl b ↦ inr (inl (a, b, rw (split, a, b) refl))
          | inr b ↦ inr (inr (a, b))
        ]
      ]

  follow-tx_rx :
      p.desk.form.split_mode ≡ split_tx_rx
      → let freq1 = p.desk.form.controller.vfo1 in
        let differs = not (eq_ℤ freq1 p.desk.form.current_tx_freq) && ltb_ℤ (pos 0) freq1 in
        ((differs ≡ true)
          × (follow m0 m1 p
              ≡ post_message
                  (codes "$SendTXfreq$")
                  (on_form (λ f. record f { current_tx_freq = freq1 }) p)))
        ⊎ ((differs ≡ false) × (follow m0 m1 p ≡ p))
  unfolding follow take_vfo1
  follow-tx_rx e =
      let split : is_none p.desk.form.split_mode ≡ false = ap is_none e in
      let data_mode : is_ft8 p.desk.form.split_mode ≡ false = ap is_ft8 e in
      let freq1 = p.desk.form.controller.vfo1 in
      elim (Bool-cases (not (eq_ℤ freq1 p.desk.form.current_tx_freq))) [
        | inl a ↦ elim (Bool-cases (ltb_ℤ (pos 0) freq1)) [
          | inl b ↦ inl (rw (a, b) refl, rw (split, data_mode, a, b) refl)
          | inr b ↦ inr (rw (a, b) refl, rw (split, data_mode, a, b) refl)
        ]
        | inr a ↦ inr (rw a refl, rw (split, data_mode, a) refl)
      ]

-- If a frequency has moved and the form is in data mode, VRX 0 is on the TX frequency behind the
-- event, the TX frequency stays, and no message is posted.
pub frequency_changed-ft8 :
    (u : Ui)
    → HasMoved u
    → (form_of u).split_mode ≡ split_ft8
    → (eq_ℤ (form_of (frequency_changed u)).controller.vfo0 (form_of u).current_tx_freq ≡ true)
      × ((form_of (frequency_changed u)).current_tx_freq ≡ (form_of u).current_tx_freq)
      × (messages_of (frequency_changed u) ≡ messages_of u)
frequency_changed-ft8 u h e =
    let (tx, same, mode) = note_rx_freq-SameTuning (form_of u) in
    let (put_back, stays, nothing) =
      follow-ft8 (moved0 u) (moved1 u) (on_form note_rx_freq u.panel) (mode ∙ e) in
    let after = frequency_changed-follow u h in
    (
      ap (λ (q : Panel). eq_ℤ q.desk.form.controller.vfo0 (form_of u).current_tx_freq) after
          ∙ ap
              (eq_ℤ
                (follow (moved0 u) (moved1 u)
                  (on_form note_rx_freq u.panel)).desk.form.controller.vfo0)
              (sym tx)
          ∙ put_back,
      ap (λ (q : Panel). q.desk.form.current_tx_freq) after ∙ stays ∙ tx,
      ap (λ (q : Panel). q.message_queue.queue) after ∙ nothing,
    )

-- If a frequency has moved and there is no split: a moved VRX 1 is put on the frequency of VRX 0
-- and no message is posted, even if VRX 0 has moved as well; if VRX 0 alone has moved, one request
-- to send its frequency is posted.
pub frequency_changed-none :
    (u : Ui)
    → HasMoved u
    → (form_of u).split_mode ≡ split_none
    → ((whole (form_of u).controller.vfo1 ≢ u.last_f1)
        × ((form_of (frequency_changed u)).controller.vfo1 ≡ (form_of u).controller.vfo0)
        × (messages_of (frequency_changed u) ≡ messages_of u))
      ⊎ ((whole (form_of u).controller.vfo1 ≡ u.last_f1)
          × (messages_of (frequency_changed u) ≡ messages_of u ++ codes "$SendRXfreq$" ∷ []))
unfolding moved0 moved1 post_message push
frequency_changed-none u h e =
    let (tx, same, mode) = note_rx_freq-SameTuning (form_of u) in
    let after = frequency_changed-follow u h in
    elim (follow-none (moved0 u) (moved1 u) (on_form note_rx_freq u.panel) (mode ∙ e)) [
      | inl (a, q) ↦ inl (
        (λ s. ground (arith, a, s)),
        ap (λ (x : Panel). x.desk.form.controller.vfo1) (after ∙ q)
            ∙ ap (λ (c : Controller). c.vfo0) same,
        ap (λ (x : Panel). x.message_queue.queue) (after ∙ q),
      )
      | inr (inl (a, b, q)) ↦
          inr (ground (arith, a), ap (λ (x : Panel). x.message_queue.queue) (after ∙ q))
      | inr (inr (a, b)) ↦ absurd (ground (arith, a, b, h))
    ]

-- If a frequency has moved and the form is in TX/RX split: a VRX 1 above 0 Hz that is not on the TX
-- frequency becomes the TX frequency, and one request to send it is posted; otherwise the TX
-- frequency stays and nothing is posted.
pub frequency_changed-tx_rx :
    (u : Ui)
    → HasMoved u
    → (form_of u).split_mode ≡ split_tx_rx
    → let freq1 = (form_of u).controller.vfo1 in
      let differs = not (eq_ℤ freq1 (form_of u).current_tx_freq) && ltb_ℤ (pos 0) freq1 in
      ((differs ≡ true)
        × ((form_of (frequency_changed u)).current_tx_freq ≡ freq1)
        × (messages_of (frequency_changed u) ≡ messages_of u ++ codes "$SendTXfreq$" ∷ []))
      ⊎ ((differs ≡ false)
          × ((form_of (frequency_changed u)).current_tx_freq ≡ (form_of u).current_tx_freq)
          × (messages_of (frequency_changed u) ≡ messages_of u))
unfolding post_message push
frequency_changed-tx_rx u h e =
    let (tx, same, mode) = note_rx_freq-SameTuning (form_of u) in
    let after = frequency_changed-follow u h in
    let same_test =
      ap
        (λ (t : ℤ).
          not (eq_ℤ (form_of u).controller.vfo1 t) && ltb_ℤ (pos 0) (form_of u).controller.vfo1)
        (sym tx)
      ∙ ap
          (λ (c : Controller).
            not (eq_ℤ c.vfo1 (note_rx_freq (form_of u)).current_tx_freq) && ltb_ℤ (pos 0) c.vfo1)
          (sym same) in
    elim (follow-tx_rx (moved0 u) (moved1 u) (on_form note_rx_freq u.panel) (mode ∙ e)) [
      | inl (a, q) ↦ inl (
        same_test ∙ a,
        ap (λ (x : Panel). x.desk.form.current_tx_freq) (after ∙ q)
            ∙ ap (λ (c : Controller). c.vfo1) same,
        ap (λ (x : Panel). x.message_queue.queue) (after ∙ q),
      )
      | inr (a, q) ↦ inr (
        same_test ∙ a,
        ap (λ (x : Panel). x.desk.form.current_tx_freq) (after ∙ q) ∙ tx,
        ap (λ (x : Panel). x.message_queue.queue) (after ∙ q),
      )
    ]
