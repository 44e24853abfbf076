-- ===== src/Controller/Size.antt =====
-- `_get_size` and `_calculate_size` of ember_csi/base.py. A size in GB is counted in units of 2^-30
-- GB, so a byte count divided by `constants.GB` is that same number; the floats of the source hold
-- it exactly below 2^53 bytes.
pub mod Bounds
use ember_csi.Base.{zero, if◌then◌else◌}
use ember_csi.Base.Int.{ℤ, pos, ltb_ℤ, min_ℤ}
use ember_csi.Rpc.{invalid_argument, out_of_range, Exec, pure, abort_if, ◌>>◌}
use ember_csi.Csi.{CapacityRange}

-- 1 GB, which is also `defaults.VOLUME_SIZE`.
abbrev pub gb : ℤ
gb = pos 1073741824

-- A field that is 0 is not set.
unfoldable pub get_size : ℤ → ℤ → ℤ
get_size (pos zero) default = default
get_size bytes default = bytes

pub record Sizes : Type 0 where
  pub vol_size : ℤ
  pub min_size : ℤ
  pub max_size : ℤ

-- The part after the first check.
unfoldable pub pick_size : {W : Type 0} → ℤ → ℤ → Exec W Sizes
pick_size min_size max_size =
    let vol_size = min_ℤ min_size max_size in
    if ltb_ℤ vol_size gb
    then (abort_if (ltb_ℤ max_size gb) out_of_range "Unsupported capacity_range (min size is 1GB)"
        >> pure (record { vol_size = max_size; min_size = min_size; max_size = max_size }))
    else pure (record { vol_size = vol_size; min_size = min_size; max_size = max_size })

unfoldable pub calculate_size : {W : Type 0} → CapacityRange → Exec W Sizes
unfolding get_size pick_size
calculate_size range = do
  let min_size = get_size range.required_bytes gb
  let max_size = get_size range.limit_bytes min_size
  abort_if (ltb_ℤ max_size min_size) invalid_argument "Limit_bytes is greater than required_bytes"
  pick_size min_size max_size
