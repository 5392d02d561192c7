-- ===== src/Panel/Frames.antt =====
-- How the bytes of the Arduino become messages: whole frames in order, and a frame that is cut.
use sdr_plugin_txlink_wsjt_x.Base.{
  ℕ, ◌≡◌, refl, sym, ap, ◌∙◌, List, [], ◌∷◌, ◌++◌, append-nil, append_assoc, Option, some, Bool,
  true, false, Bytes, ◌==◌, if◌then◌else◌,
}
use sdr_plugin_txlink_wsjt_x.Form.{Device}
use sdr_plugin_txlink_wsjt_x.Panel.{Panel, on_message, read_serial, process_incoming_serial}

abbrev pub NoBraces : Bytes → Type 0
NoBraces [] = Unit {0}
NoBraces (c ∷ s) = ((c == b'{') ≡ false) × ((c == b'}') ≡ false) × NoBraces s

abbrev pub AllNoBraces : List Bytes → Type 0
AllNoBraces [] = Unit {0}
AllNoBraces (b ∷ bs) = NoBraces b × AllNoBraces bs

-- Bytes that are all read without a failure.
abbrev pub reads_of : Bytes → List (Option ℕ)
reads_of [] = []
reads_of (c ∷ s) = some c ∷ reads_of s

-- The frames of the messages, one behind the other.
abbrev pub frames : List Bytes → Bytes
frames [] = []
frames (b ∷ bs) = b'{' ∷ (b ++ b'}' ∷ frames bs)

-- The messages taken in order, until an exception.
abbrev pub handle_all : Device → List Bytes → Panel → Panel × Bool
handle_all d [] p = (p, false)
handle_all d (b ∷ bs) p =
    let x : Panel × Bool = on_message d b p in
    let rest : Panel × Bool = handle_all d bs x.0 in if x.1 then (x.0, true) else rest

settled : (x : Panel × Bool) → (if x.1 then (x.0, true) else (x.0, false)) ≡ x
settled (q, true) = refl
settled (q, false) = refl

module _ (d : Device) where
  read_serial-body :
      (body rest new_msg : Bytes) (p : Panel)
      → NoBraces body
      → read_serial d (reads_of (body ++ rest)) new_msg p
        ≡ read_serial d (reads_of rest) (new_msg ++ body) p
  unfolding read_serial
  read_serial-body [] rest new_msg p h = rw (append-nil new_msg)
  read_serial-body (c ∷ body) rest new_msg p (l, r, h) =
      rw (l, r)
        (read_serial-body body rest (new_msg ++ c ∷ []) p h
          ∙ ap (λ m. read_serial d (reads_of rest) m p) (append_assoc new_msg (c ∷ []) body))

  read_serial-end :
      (rest msg : Bytes) (p : Panel)
      → read_serial d (reads_of (b'}' ∷ rest)) msg p ≡ (
          if (on_message d msg p).1
          then ((on_message d msg p).0, true)
          else read_serial d (reads_of rest) [] (on_message d msg p).0)
  unfolding read_serial
  read_serial-end rest msg p = refl

  read_serial-frames :
      (bodies : List Bytes) (new_msg : Bytes) (p : Panel)
      → AllNoBraces bodies
      → read_serial d (reads_of (frames bodies)) new_msg p ≡ handle_all d bodies p
  unfolding read_serial
  read_serial-frames [] new_msg p h = refl
  read_serial-frames (b ∷ bs) new_msg p (h, hs) =
      read_serial-body b (b'}' ∷ frames bs) [] p h
      ∙ read_serial-end (frames bs) b p
      ∙ ap (λ (z : Panel × Bool). if (on_message d b p).1 then ((on_message d b p).0, true) else z)
          (read_serial-frames bs [] (on_message d b p).0 hs)

  -- Frames around messages without braces that arrive whole in one call are taken message by
  -- message, in their order, until one of them throws.
  pub process_incoming_serial-frames :
      (bodies : List Bytes) (p : Panel)
      → AllNoBraces bodies
      → process_incoming_serial d (reads_of (frames bodies)) p ≡ handle_all d bodies p
  unfolding process_incoming_serial
  process_incoming_serial-frames bodies p h = read_serial-frames bodies [] p h

  -- A frame without braces inside that is cut between two calls is lost: the first call does
  -- nothing with its front, and the second takes its back for the whole message.
  pub process_incoming_serial_cut :
      (front back : Bytes) (p : Panel)
      → NoBraces front
      → NoBraces back
      → (process_incoming_serial d (reads_of (b'{' ∷ front)) p ≡ (p, false))
        × (process_incoming_serial d (reads_of (back ++ b'}' ∷ [])) p ≡ on_message d back p)
  unfolding process_incoming_serial read_serial
  process_incoming_serial_cut front back p f b = (
    ap (λ s. read_serial d (reads_of s) [] p) (sym (append-nil front))
        ∙ read_serial-body front [] [] p f,
    read_serial-body back (b'}' ∷ []) [] p b
        ∙ read_serial-end [] back p
        ∙ settled (on_message d back p),
  )
