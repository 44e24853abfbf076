-- ===== src/Examples/Stats.antt =====
-- The usage of a volume at concrete values.
use ember_csi.Base.{◌≡◌, refl, some}
use ember_csi.Base.Int.{pos}
use ember_csi.Node.Stats.{basename, fs_usage}

last_part : basename "/dev/mapper/vol" ≡ "vol"
last_part = refl

used_blocks :
    (fs_usage (record { f_frsize = 512; f_blocks = 10; f_bavail = 4 })).used ≡ some (pos 3072)
used_blocks = refl
