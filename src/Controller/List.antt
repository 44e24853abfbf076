-- ===== src/Controller/List.antt =====
-- `_paginate`, `ListVolumes` and `GetCapacity` of ember_csi/base.py.
pub mod Crawl
use ember_csi.Base.{ℕ, String, truthy, Option, none, some, List, [], ◌∷◌, if◌then◌else◌}
use ember_csi.Base.Int.{ℤ}
use ember_csi.Rpc.{aborted, Exec, pure, abort_with, ◌>>=◌, ◌>>◌}
use ember_csi.Cinder.{Volume, Cinder}
use ember_csi.Csi.{
  ListRequest, CapacityRequest, VolumeMessage, ListResponse, SpecVersion, v0_2_0, Servicer,
}
use ember_csi.Identity.Capabilities.{validate_capabilities}
use ember_csi.Identity.Lookup.{get_vols}
use ember_csi.Topology.Requirements.{validate_accessibility}
use ember_csi.Controller.Message.{convert_volume_type}
use ember_csi.Controller.Paginate.{
  FloatTime, date_to_nano, nano_to_date, sort_by_date, start_after, page_by,
}

module _ {A : Type 0} (ft : FloatTime) (created_at : A → ℕ) where
  unfoldable pub from_marker :
      ListRequest → List A → Option ℕ → {W : Type 0} → Exec W (List A × Option String)
  from_marker r resources none w = abort_with aborted "Invalid starting_token" w
  from_marker r resources (some marker) w = (
    page_by created_at (date_to_nano ft) r.max_entries (start_after created_at marker resources)
        resources,
    w,
  )

  unfoldable pub page_of_sorted :
      ListRequest → List A → {W : Type 0} → Exec W (List A × Option String)
  page_of_sorted r resources =
      if truthy r.starting_token
      then from_marker r resources (nano_to_date ft r.starting_token)
      else (λ w. (page_by created_at (date_to_nano ft) r.max_entries 0 resources, w))

  unfoldable pub paginate : ListRequest → List A → {W : Type 0} → Exec W (List A × Option String)
  paginate r resources = page_of_sorted r (sort_by_date created_at resources)

-- `[convert(x) for x in selected]`
unfoldable pub convert_all : {W A B : Type 0} → (A → Exec W B) → List A → Exec W (List B)
convert_all f [] = pure []
convert_all f (x ∷ xs) = f x >>= λ y. convert_all f xs >>= λ ys. pure (y ∷ ys)

-- `if token: fields['next_token'] = token`
abbrev pub token_field : Option String → Option String
token_field none = none
token_field (some t) = if truthy t then some t else none

module _ {W : Type 0} (ft : FloatTime) (cl : Cinder W) (source_vol_id : Volume → Exec W String)
    (s : Servicer) where
  unfoldable pub list_volumes : ListRequest → Exec W (ListResponse VolumeMessage)
  list_volumes r = do
    vols ← get_vols cl s none none
    (selected, token) ← paginate ft (λ (v : Volume). v.created_at) r vols
    entries ← convert_all (convert_volume_type source_vol_id s) selected
    pure (record { entries = entries; next_token = token_field token })

  -- `_validate_requirements` at a capacity request.
  unfoldable pub validate_capacity : SpecVersion → CapacityRequest → Exec W (Unit {0})
  validate_capacity v0_2_0 r = validate_capabilities s r.volume_capabilities
  validate_capacity _ r =
      validate_capabilities s r.volume_capabilities
      >> validate_accessibility s none r.accessible_topology

  -- The free capacity in bytes, of the first pool where the driver reports pools.
  unfoldable pub get_capacity : CapacityRequest → Exec W ℤ
  get_capacity r = validate_capacity s.version r >> cl.free_capacity
