-- ===== src/Node/Stage.antt =====
-- `NodeStageVolume` of ember_csi/base.py, with `_format_device`, `_check_mount_exists` and `_mount`.
pub mod Formats
pub mod Keeps
use Prim.Native.Char.{Char, code}
use ember_csi.Base.{
  ℕ, zero, suc, String, ◌<>◌, ◌==◌, ◌||◌, ◌&&◌, ◌-◌, truthy, elem, join, starts_with, Bool, true,
  false, not, Option, some, none, List, [], ◌∷◌, ◌++◌, eqb, leb, if◌then◌else◌,
}
use ember_csi.Base.Split.{words, commas}
use ember_csi.Rpc.{
  not_found, already_exists, attribute_error, index_error, type_error, Exec, ok, err, pure, raise,
  abort_with, abort_if, ◌>>=◌, ◌>>◌,
}
use ember_csi.Cinder.{Volume, Connection, Cinder}
use ember_csi.Csi.{AccessType, unset, block, mount, MountVolume, VolumeCapability, Servicer}
use ember_csi.Identity.Lookup.{Found, one, many, get_vol}
use ember_csi.Identity.Capabilities.{validate_capabilities}
use ember_csi.Identity.Sudo.{Retry, default_retry, sudo}
use ember_csi.Node.Host.{Attached, Host, NodeConf}
use ember_csi.Node.Mounts.{field, lift, get_device, get_mount, get_vol_device}
use ember_csi.Node.Paths.{check_staging_path}

pub record StageRequest : Type 0 where
  pub volume_id : String
  pub staging_target_path : String
  pub volume_capability : VolumeCapability

-- `capability.mount`, which is empty where the field is not set.
abbrev pub mount_of : AccessType → MountVolume
mount_of (mount m) = m
mount_of _ = record { fs_type = ""; mount_flags = [] }

-- `requested_flags.difference(flags)`
abbrev pub difference : List String → List String → List String
difference [] flags = []
difference (f ∷ fs) flags =
    let rest = difference fs flags in if elem f flags then rest else f ∷ rest

-- `if missing_flags`
abbrev pub some_flag : List String → Bool
some_flag [] = false
some_flag (_ ∷ _) = true

-- `self.MKFS_ARGS.get(fs_type, self.DEFAULT_MKFS_ARGS)`
abbrev pub mkfs_args : String → List String
mkfs_args fs_type = if fs_type == "ext4" then "-F" ∷ [] else []

-- `constants.MULTIPATH_FIND_RETRIES`
abbrev pub multipath_find_retries : ℕ
multipath_find_retries = 3

-- `stdout, stderr = self.sudo(...)`: `None` is not a pair.
abbrev pub output : {W : Type 0} → Option String → Exec W String
output none = raise type_error
output (some out) = pure out

abbrev pub skip : {W A : Type 0} → Exec W A → Exec W (Unit {0})
skip m = m >>= λ _. pure tt

module _ {W : Type 0} (h : Host W) (c : NodeConf) where
  unfoldable pub sudo_once : List String → Exec W (Unit {0})
  sudo_once cmd = skip (sudo h.execute h.sleep default_retry cmd)

  -- The device gets a file system only where it has none.
  unfoldable pub make_fs : String → String → List String → Exec W (Unit {0})
  make_fs fs_type device [] =
      sudo_once ((("/sbin/mkfs." <> fs_type) ∷ mkfs_args fs_type) ++ device ∷ [])
  make_fs fs_type device (t ∷ ts) =
      if t == fs_type
      then pure tt
      else abort_with already_exists (
          "Cannot stage filesystem "
          <> (fs_type <> (" on device that already has filesystem " <> t)))

  unfoldable pub format_device : String → String → Exec W (Unit {0})
  format_device fs_type device = do
    found ←
        sudo h.execute h.sleep
          (record { retries = 5; delay = 2; backoff = 2; errors = 1 ∷ 32 ∷ [] })
          ("lsblk" ∷ "-nlfoFSTYPE" ∷ device ∷ [])
    stdout ← output found
    make_fs fs_type device (words stdout)

  unfoldable pub check_first_mount : VolumeCapability → String → List (List String) → Exec W Bool
  check_first_mount cap target [] = pure false
  check_first_mount cap target (m ∷ ms) = do
    path ← lift (field m 1)
    abort_if (not (target == path)) already_exists ("Filesystem already mounted on " <> path)
    flags ← lift (field m 3)
    abort_if (some_flag (difference (mount_of cap.access_type).mount_flags (commas flags)))
        already_exists "Already mounted with different flags"
    pure true

  unfoldable pub check_mount_exists : VolumeCapability → String → String → Exec W Bool
  check_mount_exists cap private_bind target = do
    mounts ← get_mount h c private_bind
    check_first_mount cap target mounts

  unfoldable pub mount_command : String → List String → String → String → List String
  mount_command fs_type [] private_bind target =
      "mount" ∷ "-t" ∷ fs_type ∷ private_bind ∷ target ∷ []
  mount_command fs_type (f ∷ fs) private_bind target =
      "mount" ∷ "-t" ∷ fs_type ∷ "-o" ∷ join "," (f ∷ fs) ∷ private_bind ∷ target ∷ []

  unfoldable pub mount_fs : String → List String → String → String → Exec W (Unit {0})
  mount_fs fs_type flags private_bind target =
      sudo_once (mount_command fs_type flags private_bind target)

  -- The loop over `range(MULTIPATH_FIND_RETRIES)`, after the first of its rounds.
  unfoldable pub attach_again : ℕ → Connection → Attached → Exec W Attached
  attach_again zero conn a w = (ok a, w)
  attach_again (suc n) conn a w = elim (not a.use_multipath || starts_with a.path "/dev/dm") [
    | true ↦ (ok a, w)
    | false ↦ (h.attach conn >>= λ b. attach_again n conn b) w
  ]

  unfoldable pub attach_volume : Connection → Exec W Attached
  attach_volume conn = do a ← h.attach conn; attach_again (multipath_find_retries - 1) conn a

  unfoldable pub first_connection : List Connection → Exec W Connection
  first_connection [] = raise index_error
  first_connection (conn ∷ conns) = pure conn

  -- `if not device: ...`
  unfoldable pub bind_private : Cinder W → Volume → Option String → String → Exec W (Unit {0})
  bind_private cl vol (some device) private_bind = pure tt
  bind_private cl vol none private_bind = do
    conns ← cl.connections vol
    conn ← first_connection conns
    a ← attach_volume conn
    h.touch private_bind
    sudo_once ("mount" ∷ "--bind" ∷ a.path ∷ private_bind ∷ [])

  unfoldable pub bind_block : String → String → Option String → Exec W (Unit {0})
  bind_block private_bind target (some device) = pure tt
  bind_block private_bind target none = do
    h.touch target
    sudo_once ("mount" ∷ "--bind" ∷ private_bind ∷ target ∷ [])

  unfoldable pub wanted_fs : VolumeCapability → String
  wanted_fs cap =
      let fs = (mount_of cap.access_type).fs_type in if truthy fs then fs else c.default_mount_fs

  unfoldable pub stage_fs : VolumeCapability → String → String → Bool → Exec W (Unit {0})
  stage_fs cap private_bind target true = pure tt
  stage_fs cap private_bind target false = do
    format_device (wanted_fs cap) private_bind
    mount_fs (wanted_fs cap) (mount_of cap.access_type).mount_flags private_bind target

  -- A device is bound to the target, a file system is mounted on it.
  unfoldable pub stage_target : VolumeCapability → String → String → Bool → Exec W (Unit {0})
  stage_target cap private_bind target true = do
    device ← get_device h c target
    bind_block private_bind target device
  stage_target cap private_bind target false = do
    exists ← check_mount_exists cap private_bind target
    stage_fs cap private_bind target exists

  -- `if not vol: context.abort(...)`
  unfoldable pub abort_if_absent : String → Found → Exec W (Unit {0})
  abort_if_absent id (many []) = abort_with not_found ("Volume " <> (id <> " does not exist"))
  abort_if_absent id _ = pure tt

  -- A list of volumes has no `id`.
  unfoldable pub the_volume : Found → Exec W Volume
  the_volume (one v) = pure v
  the_volume (many _) = raise (attribute_error "id")

  -- The body of `NodeStageVolume`; its response has no content.
  unfoldable pub stage_body : Cinder W → Servicer → StageRequest → Exec W (Unit {0})
  stage_body cl s r = do
    found ← get_vol cl s (some r.volume_id) none
    abort_if_absent r.volume_id found
    validate_capabilities s (r.volume_capability ∷ [])
    (target, blk) ← check_staging_path h r.volume_capability r.staging_target_path
    vol ← the_volume found
    (device, private_bind) ← get_vol_device h c vol.id
    bind_private cl vol device private_bind
    stage_target r.volume_capability private_bind target blk
