-- ===== src/Node/Publish/Outcomes.antt =====
-- `NodeUnpublishVolume` of ember_csi/base.py where nothing is mounted.
use ember_csi.Base.{◌≡◌, refl, String, List, All}
use ember_csi.Rpc.{ok}
use ember_csi.Node.Host.{Host, NodeConf}
use ember_csi.Node.Mounts.{get_device}
use ember_csi.Node.Mounts.Tables.{IsElsewhere, device_in_unmounted}
use ember_csi.Node.Publish.{NodeUnpublishRequest, unpublish_device, node_unpublish_body}

module _ {W : Type 0} (h : Host W) (c : NodeConf) where
  -- Unpublishing a path on which nothing is mounted succeeds, and does nothing but read the mount
  -- table.
  pub node_unpublish_body_unmounted :
      (r : NodeUnpublishRequest) (lines : List (List String)) (w u : W)
      → h.mountinfo w ≡ (ok lines, u)
      → All (IsElsewhere r.target_path) lines
      → node_unpublish_body h c r w ≡ (ok tt, u)
  unfolding node_unpublish_body get_device unpublish_device
  node_unpublish_body_unmounted r lines w u read others =
      rw (read, device_in_unmounted c r.target_path lines others) refl
