-- ===== src/Form/Once.antt =====
-- SendTXfreq sends a frequency once.
use sdr_plugin_txlink_wsjt_x.Base.{
  ◌≡◌, refl, sym, ap, ◌∙◌, ◌⊎◌, inl, inr, [], ◌∷◌, ◌++◌, append-nil, Bool, true, false, ℤ, pos,
  negsuc, arith, Bool-cases, codes, if◌then◌else◌,
}
use sdr_plugin_txlink_wsjt_x.Form.{Device, Serial, Form, signed_to_string, command}
use sdr_plugin_txlink_wsjt_x.Form.Frequency.{
  eq_ℤ, is_ft8, reopen, frequency_command, write_frequency, annotate, force_vfo1, send_tx_freq,
}

eq_ℤ_self : (x : ℤ) → eq_ℤ x x ≡ true
eq_ℤ_self (pos n) = ground arith
eq_ℤ_self (negsuc n) = ground arith

-- What the parts of SendTXfreq behind the write leave as it was.
abbrev pub SameSent : Form → Form → Type 0
SameSent f g =
    (f.current_tx_freq ≡ g.current_tx_freq)
    × (f.last_tx_freq ≡ g.last_tx_freq)
    × (f.serial ≡ g.serial)

force_vfo1-SameSent : (f : Form) → SameSent (force_vfo1 f) f
unfolding force_vfo1
force_vfo1-SameSent f = ground arith

module _ (d : Device) where
  -- The form whose frequency is noted and whose port has been tried again.
  abbrev pub noted : Form → Form
  noted f = reopen d (record f { last_tx_freq = f.current_tx_freq })

  reopen-freqs :
      (f : Form)
      → ((noted f).current_tx_freq ≡ f.current_tx_freq)
        × ((noted f).last_tx_freq ≡ f.current_tx_freq)
        × ((noted f).serial.written ≡ f.serial.written)
  reopen-freqs f = elim (Bool-cases f.serial.connected) [
    | inl c ↦ rw c (refl, refl, refl)
    | inr c ↦ rw c (refl, refl, refl)
  ]

  write_frequency-freqs :
      (f : Form)
      → ((write_frequency d f).current_tx_freq ≡ f.current_tx_freq)
        × ((write_frequency d f).last_tx_freq ≡ f.last_tx_freq)
        × ((write_frequency d f).serial.written
            ≡ f.serial.written ++ (if f.serial.connected then frequency_command f ∷ [] else []))
  unfolding write_frequency
  write_frequency-freqs f = elim (Bool-cases f.serial.connected) [
    | inl c ↦ rw c (refl, refl, refl)
    | inr c ↦ rw c (refl, refl, sym (append-nil f.serial.written))
  ]

  -- What is behind the write, for a form that has been written.
  abbrev shown : Form → Form
  shown sent =
      if is_ft8 sent.split_mode
      then annotate (codes "FT8base") (codes "FTX") sent
      else annotate (codes "TX") (codes "RX") sent

  shown-SameSent : (f : Form) → SameSent (shown f) f
  unfolding annotate
  shown-SameSent f = by_mode (is_ft8 f.split_mode)
    where
      by_mode :
          (b : Bool)
          → let g : Form =
              if b
              then annotate (codes "FT8base") (codes "FTX") f
              else annotate (codes "TX") (codes "RX") f in
            SameSent g f
      by_mode true = (refl, refl, refl)
      by_mode false = (refl, refl, refl)

  send_tx_freq_same :
      (f : Form) → eq_ℤ f.current_tx_freq f.last_tx_freq ≡ true → send_tx_freq d f ≡ f
  unfolding send_tx_freq
  send_tx_freq_same f e = rw e refl

  send_tx_freq_other :
      (f : Form)
      → eq_ℤ f.current_tx_freq f.last_tx_freq ≡ false
      → send_tx_freq d f ≡ force_vfo1 (shown (write_frequency d (noted f)))
  unfolding send_tx_freq
  send_tx_freq_other f e = rw e refl

  -- How a call ends: with nothing done, or with the frequency noted and, if the port is open or
  -- opens again, written once.
  abbrev pub Sent : Form → Form → Type 0
  Sent f g =
      ((eq_ℤ f.current_tx_freq f.last_tx_freq ≡ true) × (g ≡ f))
      ⊎ ((eq_ℤ f.current_tx_freq f.last_tx_freq ≡ false)
          × (g.last_tx_freq ≡ f.current_tx_freq)
          × (g.serial.written
              ≡ f.serial.written
                ++ (if (noted f).serial.connected then frequency_command f ∷ [] else [])))

  send_tx_freq-parts :
      (f : Form)
      → let g = force_vfo1 (shown (write_frequency d (noted f))) in
        (g.current_tx_freq ≡ f.current_tx_freq)
        × (g.last_tx_freq ≡ f.current_tx_freq)
        × (g.serial.written
            ≡ f.serial.written
              ++ (if (noted f).serial.connected then frequency_command f ∷ [] else []))
  send_tx_freq-parts f =
      let w = write_frequency d (noted f) in
      let (a, b, c) = force_vfo1-SameSent (shown w) in
      let (a', b', c') = shown-SameSent w in
      let (x, y, z) = write_frequency-freqs (noted f) in
      let (p, q, r) = reopen-freqs f in
      (
        a ∙ a' ∙ x ∙ p,
        b ∙ b' ∙ y ∙ q,
        ap (λ (s : Serial). s.written) (c ∙ c') ∙ z ∙ (λ i.
            r i
            ++ (if (noted f).serial.connected
                then command b'F' (signed_to_string (p i)) ∷ []
                else [])),
      )

  -- SendTXfreq does nothing if the TX frequency is the last one that was noted; otherwise it notes
  -- it and, if the port is open or opens again, writes its command once. A second call does
  -- nothing.
  pub send_tx_freq-Sent :
      (f : Form)
      → Sent f (send_tx_freq d f) × (send_tx_freq d (send_tx_freq d f) ≡ send_tx_freq d f)
  send_tx_freq-Sent f = elim (Bool-cases (eq_ℤ f.current_tx_freq f.last_tx_freq)) [
    | inl e ↦ let same = send_tx_freq_same f e in (inl (e, same), ap (send_tx_freq d) same)
    | inr e ↦
        let g = force_vfo1 (shown (write_frequency d (noted f))) in
        let other = send_tx_freq_other f e in
        let (now, last, written) = send_tx_freq-parts f in
        let settled : eq_ℤ g.current_tx_freq g.last_tx_freq ≡ true =
          (λ i. eq_ℤ (now i) (last i)) ∙ eq_ℤ_self f.current_tx_freq in
        (
          inr (
            e,
            ap (λ (h : Form). h.last_tx_freq) other ∙ last,
            ap (λ (h : Form). h.serial.written) other ∙ written,
          ),
          ap (send_tx_freq d) other ∙ send_tx_freq_same g settled ∙ sym other,
        )
  ]
