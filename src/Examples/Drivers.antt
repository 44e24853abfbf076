-- ===== src/Examples/Drivers.antt =====
-- The keys of three drivers.
use ember_csi.Base.{ℕ, ◌≡◌, refl, true, false, [], ◌∷◌}
use ember_csi.Base.Dict.{insert}
use ember_csi.Drivers.{get_key, insert_sorted, sorted, simple, detailed, names, details, result_of}

simple_names :
    result_of {V = ℕ} false (("LVMVolumeDriver", 1) ∷ ("RBDDriver", 2) ∷ ("Fake", 3) ∷ [])
    ≡ names ("Fake" ∷ "LVMVolume" ∷ "RBD" ∷ [])
unfolding get_key insert_sorted sorted simple result_of
simple_names = refl

-- The first of two drivers of one key is lost.
lost_driver :
    result_of {V = ℕ} true (("RBDDriver", 2) ∷ ("RBD", 3) ∷ []) ≡ details (("RBD", 3) ∷ [])
unfolding get_key detailed result_of insert
lost_driver = refl
