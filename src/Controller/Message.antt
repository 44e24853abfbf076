-- ===== src/Controller/Message.antt =====
-- `_convert_volume_type` of the three controllers: the message that describes a volume.
use ember_csi.Base.{String, truthy, Option, none, some, List, [], if◌then◌else◌}
use ember_csi.Rpc.{value_error, Exec, pure, raise, ◌>>=◌}
use ember_csi.Cinder.{Volume}
use ember_csi.Csi.{
  Topology, ContentSource, from_snapshot, from_volume, VolumeMessage, SpecVersion, v0_2_0, v0_3_0,
  v1_0_0, Servicer,
}

-- `vol.source_vol_id`, which the v1.0.0 controller reads where `vol.source_volid` is set, is an
-- attribute of cinderlib's volume that may be missing: `source_vol_id` reads it or raises.
module _ {W : Type 0} (source_vol_id : Volume → Exec W String) (s : Servicer) where
  -- The generated `SnapshotSource` of spec v0.3.0 has no field `snapshot_id`, and refuses it.
  unfoldable pub content_source : SpecVersion → Volume → Exec W (Option ContentSource)
  content_source v0_2_0 vol = pure none
  content_source v0_3_0 vol = if truthy vol.snapshot_id then raise value_error else pure none
  content_source v1_0_0 vol =
      if truthy vol.source_volid
      then (source_vol_id vol >>= λ id. pure (some (from_volume id)))
      else if truthy vol.snapshot_id
      then pure (some (from_snapshot vol.snapshot_id))
      else pure none

  -- `if self.GRPC_TOPOLOGIES`; the v0.2.0 message has no topology.
  abbrev reported_topology : SpecVersion → List Topology
  reported_topology v0_2_0 = []
  reported_topology v0_3_0 = s.grpc_topologies
  reported_topology v1_0_0 = s.grpc_topologies

  -- `int(vol.size * constants.GB)` is the size in bytes, which is the unit that is kept.
  unfoldable pub convert_volume_type : Volume → Exec W VolumeMessage
  unfolding content_source
  convert_volume_type vol = do
    source ← content_source s.version vol
    pure (record {
      capacity_bytes = vol.size;
      volume_id = vol.id;
      volume_context = vol.extra_specs;
      content_source = source;
      accessible_topology = reported_topology s.version;
    })
