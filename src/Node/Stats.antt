-- ===== src/Node/Stats.antt =====
-- `NodeGetVolumeStats` of ember_csi/v1_0_0/csi.py.
use Prim.Native.Char.{code}
use ember_csi.Base.{
  ℕ, suc, ◌-◌, ◌*◌, String, ◌==◌, ◌<>◌, Bool, true, not, Option, none, some, eqb, ltb,
  if◌then◌else◌,
}
use ember_csi.Base.Int.{ℤ, pos, negsuc}
use ember_csi.Rpc.{not_found, Exec, pure, abort_with, abort_if, ◌>>=◌, ◌>>◌}
use ember_csi.Node.Host.{FileType, Host, NodeConf, try_os_error, join_path}
use ember_csi.Node.Mounts.{get_device, get_vol_device}
use ember_csi.Node.Paths.{is_directory}

-- `os.statvfs(path)`, and the number in a block device's size file.
pub record VfsStats : Type 0 where
  pub f_frsize : ℕ
  pub f_blocks : ℕ
  pub f_bavail : ℕ

pub record Gauges (W : Type 0) : Type 0 where
  pub statvfs : String → Exec W VfsStats
  pub read_blocks : String → Exec W ℕ

pub record StatsRequest : Type 0 where
  pub volume_id : String
  pub volume_path : String

-- A block device has no count of what is used.
pub record VolumeUsage : Type 0 where
  pub total : ℕ
  pub used : Option ℤ
  pub available : Option ℕ

-- `m - n` for two numbers.
abbrev pub minus : ℕ → ℕ → ℤ
minus m n = if ltb m n then negsuc (n - suc m) else pos (m - n)

-- `os.path.basename(path)`: what follows the last slash.
abbrev after_slash : String → String → String
after_slash cur String.[] = cur
after_slash cur (String.◌∷◌ c s) =
    let here = after_slash s s in
    let there = after_slash cur s in if eqb (code c) b'/' then here else there

abbrev pub basename : String → String
basename path = after_slash path path

abbrev pub fs_usage : VfsStats → VolumeUsage
fs_usage v = record {
  total = v.f_frsize * v.f_blocks;
  used = some (minus (v.f_frsize * v.f_blocks) (v.f_frsize * v.f_bavail));
  available = some (v.f_frsize * v.f_bavail);
}

-- `device_for_path != private_bind`
abbrev pub is_other : Option String → String → Bool
is_other none private_bind = true
is_other (some d) private_bind = not (d == private_bind)

module _ {W : Type 0} (h : Host W) (g : Gauges W) (c : NodeConf) where
  unfoldable pub block_usage : String → Exec W VolumeUsage
  block_usage device = do
    blocks ← g.read_blocks (join_path (join_path "/sys/class/block" (basename device)) "size")
    pure (record { total = 512 * blocks; used = none; available = none })

  unfoldable pub usage_of : String → String → FileType → Exec W VolumeUsage
  usage_of path device t =
      if is_directory t then (g.statvfs path >>= λ v. pure (fs_usage v)) else block_usage device

  unfoldable pub checked_usage :
      String → FileType → Option String → Option String → String → Exec W VolumeUsage
  checked_usage path t at_path none private_bind =
      abort_with not_found "Path does not match with requested volume"
  checked_usage path t at_path (some device) private_bind = do
    abort_if (is_other at_path private_bind) not_found "Path does not match with requested volume"
    usage_of path device t

  -- The body of `NodeGetVolumeStats`; its response has this usage only.
  unfoldable pub stats_body : StatsRequest → Exec W VolumeUsage
  stats_body r = do
    t ←
        try_os_error (h.stat_file r.volume_path)
          (abort_with not_found ("Cannot access path " <> r.volume_path))
    at_path ← get_device h c r.volume_path
    (device, private_bind) ← get_vol_device h c r.volume_id
    checked_usage r.volume_path t at_path device private_bind
