-- ===== src/Rpc/Required.antt =====
-- What the decorator `common.require` of ember_csi/common.py lets through.
use ember_csi.Base.{
  String, ◌<>◌, ◌≡◌, refl, elem, join, true, false, List, [], ◌∷◌, All, arith, eq_iff,
}
use ember_csi.Rpc.{
  Exec, err, abort, invalid_argument, IsAbort, Fault, missing_fields, check_missing, require,
}

missing-none :
    (fields present : List String)
    → All (λ f. elem f present ≡ true) fields
    → missing_fields fields present ≡ []
unfolding missing_fields
missing-none [] present h = refl
missing-none (f ∷ fs) present h = ground (arith, missing-none fs present)

missing-all :
    (f : String) (fields present : List String)
    → elem f fields ≡ true
    → missing_fields fields present ≡ []
    → elem f present ≡ true
unfolding missing_fields
missing-all f [] present isin none_missing = absurd (cc isin)
missing-all f (h ∷ fields) present isin none_missing =
    ground (arith, eq_iff f h, missing-all f fields present)

-- A request that lacks a required field is refused with INVALID_ARGUMENT before the handler runs.
pub require-missing :
    {W Req A : Type 0} (fields : List String) (list_fields : Req → List String)
    (handler : Req → Exec W A) (r : Req) (f : String) (w : W)
    → elem f fields ≡ true
    → elem f (list_fields r) ≡ false
    → (e : Fault) × IsAbort invalid_argument e
      × (require fields list_fields handler r w ≡ (err e, w))
unfolding require check_missing
require-missing fields list_fields handler r f w isin out =
    go (missing_fields fields (list_fields r)) refl
  where
    go :
        (gs : List String)
        → missing_fields fields (list_fields r) ≡ gs
        → (e : Fault) × IsAbort invalid_argument e
          × (require fields list_fields handler r w ≡ (err e, w))
    go [] eq = absurd (cc (missing-all f fields (list_fields r) isin eq))
    go (g ∷ gs) eq =
        (abort invalid_argument ("Missing required fields: " <> join ", " (g ∷ gs)), refl, rw eq)

-- A request that has all required fields is handed to the handler as it is.
pub require-present :
    {W Req A : Type 0} (fields : List String) (list_fields : Req → List String)
    (handler : Req → Exec W A) (r : Req) (w : W)
    → All (λ f. elem f (list_fields r) ≡ true) fields
    → require fields list_fields handler r w ≡ handler r w
unfolding require check_missing
require-present fields list_fields handler r w h = rw (missing-none fields (list_fields r) h)
