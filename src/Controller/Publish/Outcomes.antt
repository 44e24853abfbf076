-- ===== src/Controller/Publish/Outcomes.antt =====
-- `ControllerPublishVolume` and `ControllerUnpublishVolume` of ember_csi/base.py, by what the request
-- finds.
use ember_csi.Base.{
  not, fun_ext, if◌then◌else◌, truthy, String, ◌≡◌, refl, sym, ap, ◌∙◌, ◌↔◌, ◌==◌, ◌<>◌, eq_iff,
  elem, true, some, none, Option, List, [], ◌∷◌, All, ◌⊎◌, inl, inr, Bool-cases, arith,
}
use mathlib.Core.Option
use ember_csi.Rpc.{not_found, abort_with, abort_if, aborted, ok, Exec, pure, ◌>>◌}
use ember_csi.Rpc.Inversion.{bind-eq-ok}
use ember_csi.Cinder.{Volume, Connection, Cinder}
use ember_csi.Csi.{PublishRequest, Servicer}
use ember_csi.Base.Dict.{Dict}
use ember_csi.Identity.Lookup.{get_vol, or_absent}
use ember_csi.Controller.Publish.{
  NodeInfo, get_vol_node, mode_of, check_connections, publish_body, disconnect_all, is_target,
  requested_node, get_node, first_value, node_or_absent,
}

module _ {W : Type 0} (cl : Cinder W) (json_loads : String → Option (Dict String))
    (s : Servicer) where
  -- The connection is the one that the request asks for.
  abbrev pub IsRequested : PublishRequest → Connection → Type 0
  IsRequested r c =
      (c.attached_host ≡ r.node_id) × (c.attach_mode ≡ mode_of cl json_loads s r.readonly)

  check_connections-ok :
      (r : PublishRequest) (conns : List Connection) (w : W)
      → All (IsRequested r) conns
      → check_connections cl json_loads s r conns w ≡ (ok tt, w)
  unfolding check_connections
  check_connections-ok r [] w h = refl
  check_connections-ok r (c ∷ cs) w h = ground (
    arith,
    eq_iff c.attached_host r.node_id,
    eq_iff c.attach_mode (mode_of cl json_loads s r.readonly),
    check_connections-ok r cs w,
  )

  check_connections-state :
      (r : PublishRequest) (conns : List Connection) (w : W)
      → (check_connections cl json_loads s r conns w).1 ≡ w
  unfolding check_connections
  check_connections-state r [] w = refl
  check_connections-state r (c ∷ cs) w = ground (arith, check_connections-state r cs w)

  check_connections-inv :
      (r : PublishRequest) (conns : List Connection) (w u : W)
      → check_connections cl json_loads s r conns w ≡ (ok tt, u)
      → All (IsRequested r) conns
  unfolding check_connections
  check_connections-inv r [] w u h = tt
  check_connections-inv r (c ∷ cs) w u h = ground (
    arith,
    eq_iff c.attached_host r.node_id,
    eq_iff c.attach_mode (mode_of cl json_loads s r.readonly),
    check_connections-inv r cs w u,
  )

  -- A volume that is in use is never attached again: the request succeeds exactly where every
  -- connection is to the requested node and in the requested mode, and whatever the answer, the
  -- state is the one after the connections were read.
  pub publish_body-in_use :
      (r : PublishRequest) (v : Volume) (n : Option NodeInfo) (conns : List Connection) (w u u' : W)
      → get_vol_node cl json_loads s r.volume_id r.node_id w ≡ (ok (v, n), u)
      → v.status ≡ "in-use"
      → cl.connections v u ≡ (ok conns, u')
      → ((publish_body cl json_loads s r w ≡ (ok tt, u')) ↔ All (IsRequested r) conns)
        × ((publish_body cl json_loads s r w).1 ≡ u')
  unfolding publish_body
  publish_body-in_use r v n conns w u u' found st read =
      let used : (v.status == "in-use") ≡ true = ap (λ t. t == "in-use") st in
      let checks : publish_body cl json_loads s r w ≡ check_connections cl json_loads s r conns u' =
        ground arith in
      (
        (
          λ h. check_connections-inv r conns u' u' (sym checks ∙ h),
          λ h. checks ∙ check_connections-ok r conns u' h,
        ),
        rw checks (check_connections-state r conns u'),
      )

  requested_node_id :
      (node_id : String) (n : Option NodeInfo) (w u : W)
      → requested_node cl json_loads s node_id w ≡ (ok n, u)
      → Option.map (λ (x : NodeInfo). x.id) n ≡ (if truthy node_id then some node_id else none)
  unfolding requested_node get_node first_value node_or_absent
  requested_node_id node_id n w u h = ground arith

  checked_status :
      (v v' : Volume) (n n' : Option NodeInfo) (w u : W)
      → (let done : Exec W (Volume × Option NodeInfo) = pure (v', n') in
            abort_if
              (not (elem v'.status ("in-use" ∷ "available" ∷ [])))
              aborted
              ("Operation pending for volume " <> v'.status)
            >> done)
          w
        ≡ (ok (v, n), u)
      → ((v.status ≡ "in-use") ⊎ (v.status ≡ "available")) × (n' ≡ n)
  checked_status v v' n n' w u h =
      ground (arith, eq_iff v'.status "in-use", eq_iff v'.status "available")

  -- What `_get_vol_node` hands on: a volume that is in use or available, and the node of the
  -- request's `node_id`, or no node where the request names none.
  pub get_vol_node_found :
      (volume_id node_id : String) (v : Volume) (n : Option NodeInfo) (w u : W)
      → get_vol_node cl json_loads s volume_id node_id w ≡ (ok (v, n), u)
      → ((v.status ≡ "in-use") ⊎ (v.status ≡ "available"))
        × (Option.map (λ (x : NodeInfo). x.id) n ≡ (if truthy node_id then some node_id else none))
  unfolding get_vol_node
  get_vol_node_found volume_id node_id v n w u h =
      let (n', a, e1, k1) = bind-eq-ok (requested_node cl json_loads s node_id) _ w h in
      let (f, b, e2, k2) = bind-eq-ok (get_vol cl s (some volume_id) none) _ a k1 in
      let (v', c, e3, k3) =
        bind-eq-ok
          (or_absent f "status"
            (abort_with not_found ("Volume " <> (volume_id <> " does not exist"))))
          _ b k2 in
      let (st, same) = checked_status v v' n n' c u k3 in
      (st, rw same at (requested_node_id node_id n' w a e1))

  -- The connections that an unpublish request is about: those to its node, or all of them.
  abbrev pub targets : Option NodeInfo → List Connection → List Connection
  targets n [] = []
  targets n (c ∷ cs) =
      let rest = targets n cs in if is_target cl json_loads s n c then c ∷ rest else rest

  abbrev pub disconnect_each : List Connection → Exec W (Unit {0})
  disconnect_each [] = pure tt
  disconnect_each (c ∷ cs) = cl.disconnect c >> disconnect_each cs

  -- An unpublish request disconnects the connections to its node, all of them where it names no
  -- node, in order and up to the first that fails, and touches no other connection.
  pub disconnect_all-targets :
      (n : Option NodeInfo) (conns : List Connection) (w : W)
      → disconnect_all cl json_loads s n conns w ≡ disconnect_each (targets n conns) w
  unfolding disconnect_all
  disconnect_all-targets n [] w = refl
  disconnect_all-targets n (c ∷ cs) w = elim (Bool-cases (is_target cl json_loads s n c)) [
    | inl yes' ↦ rw (yes', fun_ext (disconnect_all-targets n cs))
    | inr no' ↦ rw no' (disconnect_all-targets n cs w)
  ]
