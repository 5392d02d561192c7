-- ===== src/Annotator/Examples.antt =====
-- The annotations on a concrete sequence of calls.
use sdr_plugin_txlink_wsjt_x.Base.{◌≡◌, refl, inl, List, [], ◌∷◌, pos, codes}
use sdr_plugin_txlink_wsjt_x.Annotator.{no_annotations, Update, add, tx, rx, apply_all}
use sdr_plugin_txlink_wsjt_x.Annotator.Order.{IsValid, applied_all, apply_all-applied_all}

abbrev calls : List Update
calls =
    tx (codes "TX") [] (pos 14250000)
    ∷ rx (codes "RX") [] (pos 14251000)
    ∷ add (codes "G4AHN") (codes "1200") (pos 14260000)
    ∷ []

apply_all-applied_all_example :
    IsValid (apply_all calls no_annotations)
    × ((apply_all calls no_annotations).entries ≡ applied_all calls [])
apply_all-applied_all_example = apply_all-applied_all calls no_annotations (inl refl)
