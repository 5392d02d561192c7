-- ===== src/Rtty/Examples.antt =====
-- The RTTY server on concrete turns.
use sdr_plugin_txlink_wsjt_x.Base.{
  ◌≡◌, refl, List, [], ◌∷◌, ◌++◌, Bool, true, false, not, Bytes, codes, str_eq,
}
use sdr_plugin_txlink_wsjt_x.Rtty.{
  PipeRead, runtime_error, message, RttyServer, send_out, Turn, serve_client,
}
use sdr_plugin_txlink_wsjt_x.Rtty.Forward.{rtty_only, heard, serve_client-rtty_only}

-- A pipe on which every write but that of "{F2}" succeeds.
abbrev pipe : List Bytes → Bytes → Bool
pipe sent m = not (str_eq m (codes "{F2}"))

abbrev server : RttyServer
server = record {
  posted = [];
  out_q = record { queue = codes "{F1}" ∷ codes "{F2}" ∷ codes "{F3}" ∷ [] };
  sent = [];
}

abbrev read_turn : PipeRead → Turn
read_turn r = record { is_connected = true; exit_request = false; read = r }

abbrev turns : List Turn
turns =
    read_turn (message (codes "RTTY:{M1}"))
    ∷ read_turn (message (codes "GET_STATUS"))
    ∷ read_turn runtime_error
    ∷ read_turn (message (codes "RTTY:{X1}"))
    ∷ []

serve_client-rtty_only_example :
    (serve_client pipe turns server).posted ≡ [] ++ rtty_only (heard turns)
serve_client-rtty_only_example = serve_client-rtty_only pipe turns server

second_lost :
    send_out pipe (codes "{F1}" ∷ codes "{F2}" ∷ codes "{F3}" ∷ []) server
    ≡ record server { out_q = record { queue = codes "{F3}" ∷ [] }; sent = codes "{F1}" ∷ [] }
unfolding send_out str_eq
second_lost = refl
