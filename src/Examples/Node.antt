-- ===== src/Examples/Node.antt =====
-- The node servicer on a concrete machine.
use ember_csi.Base.{ℕ, ◌≡◌, refl, ◌≤◌, ◌⊎◌, String, true, false, List, [], ◌∷◌}
use ember_csi.Rpc.{ok, err, abort, already_exists, aborted, failed_precondition}
use ember_csi.Cinder.{Connection}
use ember_csi.Csi.{v1_0_0}
use ember_csi.Identity.Capabilities.{
  validate_capabilities, capabilities_message, unsupported_mode, unsupported_fs_type,
}
use ember_csi.Identity.Lookup.{get_vol, get_vols, live, single}
use ember_csi.Identity.Sudo.{sudo, attempts, after_attempt}
use ember_csi.Node.Host.{Attached, directory}
use ember_csi.Node.Mounts.{
  get_device, device_in, device_of, get_mount, mounts_of, is_ro_mount, ro_in, matches_ro,
  get_vol_device, private_location,
}
use ember_csi.Node.Paths.{check_path, check_or_create, check_staging_path, check_target_path}
use ember_csi.Node.Stage.{
  make_fs, abort_if_absent, the_volume, format_device, attach_volume, attach_again,
  multipath_find_retries, check_mount_exists, check_first_mount,
}
use ember_csi.Node.Stage.Formats.{is_final, Attaches, attach_volume_rounds}
use ember_csi.Node.Unstage.{UnstageRequest, count_uses, uses, unstage_body, unstage_device, release}
use ember_csi.Node.Publish.{
  NodePublishRequest, not_staged, is_published, node_publish_body, bind_target,
}
use ember_csi.Samples.{Machine, empty_machine, Store, store, volume, fake, servicer, ext4}
use ember_csi.Samples.Machines.{
  add_command, add_file, node_host, node_conf, mount_line, with_machine,
}

abbrev connection : Connection
connection = record { id = "c1"; volume_id = "v1"; attached_host = "n1"; attach_mode = "rw" }

abbrev on_machine : Machine → Store
on_machine m = with_machine m (store (volume "v1" "data" "in-use" ∷ []) [] (connection ∷ []) [])

abbrev bind : String
bind = "/var/lib/ember-csi/vols/v1"

abbrev bind_line : List String
bind_line = mount_line "/sdb" bind "rw,relatime" "devtmpfs"

abbrev staged_line : List String
staged_line = mount_line "/" "/staging/stage" "rw" "/dev/sdb"

abbrev published_line : List String
published_line = mount_line "/" "/target" "ro,relatime" "/dev/sdb"

abbrev other_line : List String
other_line = mount_line "/sdb" "/elsewhere" "rw" "devtmpfs"

abbrev formatted : Store
formatted = on_machine (record empty_machine { file_system = "xfs " })

-- The device has another file system.
other_file_system : format_device node_host node_conf "ext4" bind formatted ≡ (
  err (
      abort already_exists
        "Cannot stage filesystem ext4 on device that already has filesystem xfs"),
  add_command ("lsblk" ∷ "-nlfoFSTYPE" ∷ bind ∷ []) formatted,
)
unfolding format_device make_fs sudo attempts after_attempt
other_file_system = refl

abbrev attachment : Attached
attachment = record { use_multipath = false; path = "/dev/sdb" }

attached_once :
    attach_volume node_host node_conf connection formatted
    ≡ (ok attachment, add_command ("attach" ∷ []) formatted)
unfolding attach_volume attach_again
attached_once = refl

attach_volume_rounds_example :
    (k : ℕ) × Attaches node_host node_conf connection k formatted attachment
      (add_command ("attach" ∷ []) formatted)
    × (k ≤ multipath_find_retries)
    × ((is_final node_host node_conf attachment ≡ true) ⊎ (k ≡ multipath_find_retries))
attach_volume_rounds_example =
    attach_volume_rounds node_host node_conf connection formatted
      (add_command ("attach" ∷ []) formatted) attachment attached_once

abbrev unstage_request : UnstageRequest
unstage_request = record { volume_id = "v1"; staging_target_path = "/staging" }

-- The private bind, the staging path and a target that is still published.
abbrev busy : Store
busy = on_machine (record empty_machine {
  mountinfo = bind_line ∷ mount_line "/sdb" "/staging/stage" "rw" "devtmpfs" ∷ other_line ∷ [];
})

still_published :
    unstage_body node_host node_conf fake (servicer v1_0_0) unstage_request busy
    ≡ (err (abort aborted "Operation pending for volume"), busy)
unfolding unstage_body abort_if_absent the_volume unstage_device release get_vol get_vols live
    single get_vol_device private_location get_device device_in device_of uses count_uses get_mount
    mounts_of
still_published = refl

abbrev bare : Store
bare = on_machine empty_machine

abbrev publish_request : NodePublishRequest
publish_request = record {
  volume_id = "v1";
  staging_target_path = "/staging";
  target_path = "/target";
  volume_capability = ext4;
  readonly = false;
}

abbrev made : Store
made = add_file "/staging/stage" directory bare

unstaged_volume :
    node_publish_body node_host node_conf (servicer v1_0_0) publish_request bare
    ≡ (err (abort failed_precondition "Staging was not been successfully called"), made)
unfolding node_publish_body validate_capabilities capabilities_message unsupported_mode
    unsupported_fs_type check_staging_path check_path check_or_create get_vol_device
    private_location get_device device_in device_of not_staged check_mount_exists check_first_mount
    get_mount mounts_of
unstaged_volume = refl

-- A volume that is published read only.
abbrev published : Store
published = on_machine (record {
  mountinfo = bind_line ∷ mount_line "/sdb" "/target" "ro,relatime" "devtmpfs" ∷ [];
  mounts = (bind ∷ "/staging/stage" ∷ "ext4" ∷ "rw" ∷ []) ∷ [];
  files = ("/staging/stage", directory) ∷ ("/target", directory) ∷ [];
  file_system = "ext4";
  commands = [];
})

published_again :
    node_publish_body node_host node_conf (servicer v1_0_0) publish_request published ≡ (
      err (abort already_exists "Incompatible readonly mode requested, volume is already present"),
      published,
    )
unfolding node_publish_body bind_target check_target_path is_published is_ro_mount ro_in matches_ro
    validate_capabilities capabilities_message unsupported_mode unsupported_fs_type
    check_staging_path check_path check_or_create get_vol_device private_location get_device
    device_in device_of not_staged check_mount_exists check_first_mount get_mount mounts_of
published_again = refl
