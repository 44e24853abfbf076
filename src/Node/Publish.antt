-- ===== src/Node/Publish.antt =====
-- `NodePublishVolume` and `NodeUnpublishVolume` of ember_csi/base.py.
pub mod Outcomes
use ember_csi.Base.{
  String, ◌==◌, ◌||◌, Bool, true, false, not, Option, some, none, List, [], ◌∷◌, if◌then◌else◌,
}
use ember_csi.Rpc.{failed_precondition, already_exists, Exec, pure, abort_if, ◌>>=◌, ◌>>◌}
use ember_csi.Csi.{VolumeCapability, Servicer}
use ember_csi.Identity.Capabilities.{validate_capabilities}
use ember_csi.Node.Host.{Host, NodeConf}
use ember_csi.Node.Mounts.{get_device, is_ro_mount, get_vol_device}
use ember_csi.Node.Paths.{check_staging_path, check_target_path, clean_file_or_dir}
use ember_csi.Node.Stage.{check_mount_exists, sudo_once}
use ember_csi.Node.Unstage.{umount}

pub record NodePublishRequest : Type 0 where
  pub volume_id : String
  pub staging_target_path : String
  pub target_path : String
  pub volume_capability : VolumeCapability
  pub readonly : Bool

pub record NodeUnpublishRequest : Type 0 where
  pub volume_id : String
  pub target_path : String

abbrev pub same_option : Option String → Option String → Bool
same_option none none = true
same_option (some a) (some b) = a == b
same_option _ _ = false

-- `device in (volume_device, staging_target, private_bind)`
unfoldable pub is_published : Option String → Option String → String → String → Bool
is_published device volume_device staging_target private_bind =
    same_option device volume_device
    || (same_option device (some staging_target) || same_option device (some private_bind))

-- `request.readonly != ro_mode`, where the mode is `None` for a path that is not mounted.
abbrev pub other_mode : Bool → Option Bool → Bool
other_mode readonly none = true
other_mode true (some m) = not m
other_mode false (some m) = m

abbrev pub is_none : Option String → Bool
is_none none = true
is_none (some _) = false

module _ {W : Type 0} (h : Host W) (c : NodeConf) where
  -- The value of `error`, whose parts are evaluated from left to right while they are needed.
  unfoldable pub not_staged :
      VolumeCapability → Option String → String → String → Bool → Exec W Bool
  not_staged cap none private_bind staging_target blk = pure true
  not_staged cap (some device) private_bind staging_target true = do
    bound ← get_device h c staging_target
    pure (is_none bound)
  not_staged cap (some device) private_bind staging_target false = do
    mounted ← check_mount_exists h c cap private_bind staging_target
    pure (not mounted)

  unfoldable pub bind_target : NodePublishRequest → String → String → Bool → Exec W (Unit {0})
  bind_target r staging_target target true = do
    mode ← is_ro_mount h c target
    abort_if (other_mode r.readonly mode) already_exists
        "Incompatible readonly mode requested, volume is already present"
  bind_target r staging_target target false =
      sudo_once h c
        ("mount" ∷ "-o" ∷ (if r.readonly then "bind,ro" else "bind") ∷ staging_target ∷ target ∷ [])

  -- The body of `NodePublishVolume`; its response has no content.
  unfoldable pub node_publish_body : Servicer → NodePublishRequest → Exec W (Unit {0})
  node_publish_body s r = do
    validate_capabilities s (r.volume_capability ∷ [])
    (staging_target, blk) ← check_staging_path h r.volume_capability r.staging_target_path
    (device, private_bind) ← get_vol_device h c r.volume_id
    error ← not_staged r.volume_capability device private_bind staging_target blk
    abort_if error failed_precondition "Staging was not been successfully called"
    target ← check_target_path h r.volume_capability r.target_path
    present ← get_device h c target
    (volume_device, bind) ← get_vol_device h c r.volume_id
    bind_target r staging_target target (is_published present volume_device staging_target bind)

  unfoldable pub unpublish_device : NodeUnpublishRequest → Option String → Exec W (Unit {0})
  unpublish_device r none = pure tt
  unpublish_device r (some device) = do umount h c r.target_path; clean_file_or_dir h r.target_path

  -- The body of `NodeUnpublishVolume`; its response has no content.
  unfoldable pub node_unpublish_body : NodeUnpublishRequest → Exec W (Unit {0})
  node_unpublish_body r = do device ← get_device h c r.target_path; unpublish_device r device
