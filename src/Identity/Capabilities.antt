-- ===== src/Identity/Capabilities.antt =====
-- `_unsupported_mode`, `_unsupported_fs_type` and `_validate_capabilities` of ember_csi/base.py.
pub mod Supported
use ember_csi.Base.{
  String, truthy, elem, Bool, true, false, not, ◌&&◌, List, [], ◌∷◌, if◌then◌else◌,
}
use ember_csi.Rpc.{invalid_argument, Exec, abort_if}
use ember_csi.Csi.{
  AccessMode, single_node_writer, single_node_reader_only, AccessType, mount, VolumeCapability,
  Servicer,
}

-- `mode not in self.SUPPORTED_ACCESS`
unfoldable pub unsupported_mode : AccessMode → Bool
unsupported_mode single_node_writer = false
unsupported_mode single_node_reader_only = false
unsupported_mode _ = true

module _ (s : Servicer) where
  -- Only a mount volume is looked at, and an empty type stands for the default one.
  unfoldable pub unsupported_fs_type : AccessType → Bool
  unsupported_fs_type (mount m) = truthy m.fs_type && not (elem m.fs_type s.supported_fs_types)
  unsupported_fs_type _ = false

  -- The loop, which stops at the first capability that is not supported.
  unfoldable pub capabilities_message : List VolumeCapability → String
  capabilities_message [] = ""
  capabilities_message (c ∷ cs) =
      let rest = capabilities_message cs in
      if unsupported_mode c.access_mode
      then "Unsupported access mode"
      else if unsupported_fs_type c.access_type
      then "Unsupported file system type"
      else rest

  -- `_validate_capabilities(capabilities, context)`; with no context it is `capabilities_message`.
  unfoldable pub validate_capabilities : {W : Type 0} → List VolumeCapability → Exec W (Unit {0})
  validate_capabilities cs =
      abort_if (truthy (capabilities_message cs)) invalid_argument (capabilities_message cs)
