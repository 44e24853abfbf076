-- ===== src/Controller/Size/Bounds.antt =====
-- What `_calculate_size` of ember_csi/base.py returns and when it aborts.
use ember_csi.Base.{◌≡◌, ◌⊎◌, arith}
use ember_csi.Base.Int.{ℤ, ◌≤ℤ◌}
use ember_csi.Rpc.{invalid_argument, out_of_range, ok, err, Fault, IsAbort}
use ember_csi.Csi.{CapacityRange}
use ember_csi.Controller.Size.{Sizes, gb, get_size, calculate_size}

-- The sizes that the request asks for, with the defaults for what it leaves out.
abbrev pub lower : CapacityRange → ℤ
lower range = get_size range.required_bytes gb

abbrev pub upper : CapacityRange → ℤ
upper range = get_size range.limit_bytes (lower range)

-- A size that is accepted lies between the two bounds and is at least 1 GB, and the state is not
-- changed.
pub calculate_size_bounds :
    {W : Type 0} (range : CapacityRange) (w w' : W) (z : Sizes)
    → calculate_size range w ≡ (ok z, w')
    → (gb ≤ℤ z.vol_size) × (lower range ≤ℤ z.vol_size) × (z.vol_size ≤ℤ upper range) × (w' ≡ w)
unfolding calculate_size
calculate_size_bounds range w w' z h = ground arith

-- The call raises exactly where the range is empty or ends below 1 GB: INVALID_ARGUMENT in the
-- first case, and OUT_OF_RANGE in the second.
pub calculate_size_errors :
    {W : Type 0} (range : CapacityRange) (w w' : W) (e : Fault)
    → calculate_size range w ≡ (err e, w')
    → (IsAbort invalid_argument e × (¬ (lower range ≤ℤ upper range)))
      ⊎ (IsAbort out_of_range e × (lower range ≤ℤ upper range) × (¬ (gb ≤ℤ upper range)))
unfolding calculate_size
calculate_size_errors range w w' e h = ground arith
