-- ===== src/Node/Paths.antt =====
-- `_check_path`, `_check_staging_path`, `_check_target_path` and `_clean_file_or_dir` of
-- ember_csi/base.py.
use ember_csi.Base.{String, ◌<>◌, Bool, true, false, not, if◌then◌else◌}
use ember_csi.Rpc.{invalid_argument, Exec, pure, abort_with, abort_if, ◌>>=◌, ◌>>◌}
use ember_csi.Csi.{AccessType, block, VolumeCapability}
use ember_csi.Node.Host.{FileType, directory, regular, block_device, Host, try_os_error, join_path}

-- `request.volume_capability.HasField('block')`
abbrev pub is_block : AccessType → Bool
is_block block = true
is_block _ = false

abbrev pub is_directory : FileType → Bool
is_directory directory = true
is_directory _ = false

-- The file at the path can be a target of the access type.
abbrev pub suits : Bool → FileType → Bool
suits true regular = true
suits true block_device = true
suits true _ = false
suits false t = is_directory t

-- `NodeBase.STAGED_NAME`
abbrev pub staged_name : String
staged_name = "stage"

module _ {W : Type 0} (h : Host W) where
  -- The checks of an existing file, or its creation: a file to bind a device to, or a directory.
  unfoldable pub check_or_create : Bool → String → Exec W (Unit {0})
  check_or_create blk path =
      try_os_error
        (h.stat_file path >>= λ t.
          abort_if (not (suits blk t)) invalid_argument "Invalid existing path")
        (if blk then h.touch path else h.mkdir path)

  unfoldable pub check_path : VolumeCapability → String → Exec W Bool
  check_path cap path = do
    parent ←
        try_os_error (h.stat_parent path)
          (abort_with invalid_argument ("Parent directory for " <> (path <> " doesn't exist")))
    abort_if (not (is_directory parent)) invalid_argument
        ("Parent path " <> (path <> " is not a directory"))
    check_or_create (is_block cap.access_type) path
    pure (is_block cap.access_type)

  unfoldable pub check_staging_path : VolumeCapability → String → Exec W (String × Bool)
  check_staging_path cap staging_target_path = do
    blk ← check_path cap (join_path staging_target_path staged_name)
    pure (join_path staging_target_path staged_name, blk)

  unfoldable pub check_target_path : VolumeCapability → String → Exec W String
  check_target_path cap target_path = do check_path cap target_path; pure target_path

  -- The error that is caught is only logged.
  unfoldable pub clean_file_or_dir : String → Exec W (Unit {0})
  clean_file_or_dir path =
      try_os_error (h.isfile path >>= λ f. if f then h.remove_file path else h.rmdir path) (pure tt)
