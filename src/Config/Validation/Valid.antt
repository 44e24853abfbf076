-- ===== src/Config/Validation/Valid.antt =====
-- What holds of a configuration that `Config.validate` of ember_csi/config.py accepts.
use ember_csi.Base.{
  subst, Bool-cases, inl, inr, ◌≤◌, ◌≡◌, ◌⊎◌, String, ◌==◌, truthy, elem, Bool, true, false, ◌||◌,
  Option, List, [], ◌∷◌, arith, codes, length,
}
use ember_csi.Base.Dict.{Dict}
use ember_csi.Rpc.{Outcome, ok, pure}
use ember_csi.Rpc.Inversion.{bind-eq-ok}
use ember_csi.Csi.{SpecVersion}
use ember_csi.Config.Backend.{Setting, map_backend_config}
use ember_csi.Config.Environment.{Settings, Workers, check_settings}
use ember_csi.Config.Names.{Text, matches_name, get_names}
use ember_csi.Config.Reading.{Config}
use ember_csi.Config.Topologies.{Decoder, Topologies, set_topology_config}
use ember_csi.Config.Topologies.Usable.{is_complete, set_topology_config_complete}
use ember_csi.Config.Version.{check_spec, is_reverse}
use ember_csi.Config.Validation.{
  Files, Validated, spec_text, name_text, is_given, untar_file, create_default_dirs_files,
  settings_of, validate,
}
use ember_csi.Node.Mounts.{lift}

check_settings_sound :
    (c : Settings)
    → check_settings c ≡ ok tt
    → (elem c.mode ("controller" ∷ "node" ∷ "all" ∷ []) ≡ true)
      × ((c.mode == "node") || c.has_backend ≡ true)
      × (elem c.default_mount_fs c.supported_fs_types ≡ true)
unfolding check_settings
check_settings_sound c h = ground arith

get_names_sound :
    (reverse : Bool) (plugin name project : Text)
    → get_names reverse plugin ≡ ok (name, project)
    → (length name ≤ 63) × (matches_name reverse name ≡ true)
unfolding get_names
get_names_sound reverse plugin name project h = ground arith

complete_topologies :
    (d : Decoder) (spec mode raw raw_node : String) (t : Topologies d)
    → set_topology_config d spec mode raw raw_node ≡ ok t
    → (truthy raw || truthy raw_node ≡ false) ⊎ (is_complete d mode raw_node t ≡ true)
complete_topologies d spec mode raw raw_node t h =
    elim (Bool-cases (truthy raw || truthy raw_node)) [
      | inl given ↦ inr (set_topology_config_complete d spec mode raw raw_node t given h).1
      | inr absent ↦ inl absent
    ]

-- What an action returns that only hands on an outcome.
lifted : {W A : Type 0} (r : Outcome A) (w u : W) (a : A) → lift r w ≡ (ok a, u) → r ≡ ok a
lifted r w u a e = ground arith

returned : {W A : Type 0} (a b : A) (w u : W) → pure a w ≡ (ok b, u) → a ≡ b
returned a b w u e = ground arith

module _ {W J : Type 0} (files : Files W) (d : Decoder) (drivers : Option (List (String × String)))
    (as_workers : Setting J → Workers) (as_name : J → Outcome String) (vol_binds_dir : String) where
  -- What the validation promises of a configuration and what it leaves.
  abbrev pub IsSound : Config J → Validated J d → Type 0
  IsSound c v =
      (elem c.mode ("controller" ∷ "node" ∷ "all" ∷ []) ≡ true)
      × ((c.mode == "node") || is_given c.backend_config ≡ true)
      × (elem c.default_mount_fs c.supported_fs_types ≡ true)
      × (length v.name ≤ 63)
      × (matches_name (is_reverse v.csi_spec) v.name ≡ true)
      × ((truthy c.topologies || truthy c.node_topology ≡ false)
          ⊎ (is_complete d c.mode c.node_topology v.topologies ≡ true))

  conclude :
      (c : Config J) (v : Validated J d) (spec : SpecVersion) (plugin : Text) (names : Text × Text)
      (backend : Dict (Setting J)) (topologies : Topologies d)
      → check_settings (settings_of files d drivers as_workers as_name vol_binds_dir c) ≡ ok tt
      → get_names (is_reverse spec) plugin ≡ ok names
      → set_topology_config d (spec_text spec) c.mode c.topologies c.node_topology ≡ ok topologies
      → ◌≡◌ {A = Validated J d}
          (record {
            csi_spec = spec;
            name = names.0;
            project_name = names.1;
            backend_config = backend;
            topologies = topologies;
          })
          v
      → IsSound c v
  conclude c v spec plugin (name, project) backend topologies checked named placed same =
      let (mode, backed, fs) =
        check_settings_sound (settings_of files d drivers as_workers as_name vol_binds_dir c)
          checked in
      let (short, formed) = get_names_sound (is_reverse spec) plugin name project named in
      let complete =
        complete_topologies d (spec_text spec) c.mode c.topologies c.node_topology topologies
          placed in
      subst (IsSound c) same (mode, backed, fs, short, formed, complete)

  -- An accepted configuration has a known mode, a backend unless it is for a node, a default file
  -- system that the host can make, and a name of at most 63 characters in the notation of the
  -- version. Where a topology is configured, a node with topologies has a topology of its own, a controller
  -- with a node's topology has topologies, and a server of both has at least one topology, none of which is
  -- the text of the environment if a node's topology was configured. That topologies are JSON objects is not
  -- checked.
  pub validate-IsSound :
      (c : Config J) (v : Validated J d) (w u : W)
      → validate files d drivers as_workers as_name vol_binds_dir c w ≡ (ok v, u)
      → IsSound c v
  unfolding validate
  validate-IsSound c v w u h =
      let (t1, w1, e1, k1) =
        bind-eq-ok (untar_file files d drivers as_workers as_name vol_binds_dir c.system_files) _ w
          h in
      let (t2, w2, e2, k2) =
        bind-eq-ok
          (lift (check_settings (settings_of files d drivers as_workers as_name vol_binds_dir c))) _
          w1 k1 in
      let (spec, w3, e3, k3) = bind-eq-ok (lift (check_spec (codes c.csi_spec))) _ w2 k2 in
      let (plugin, w4, e4, k4) =
        bind-eq-ok (lift (name_text files d drivers as_workers as_name vol_binds_dir c.plugin_name))
          _ w3 k3 in
      let (names, w5, e5, k5) =
        bind-eq-ok (lift (get_names (is_reverse spec) (codes plugin))) _ w4 k4 in
      let (backend, w6, e6, k6) =
        bind-eq-ok (lift (map_backend_config drivers c.backend_config)) _ w5 k5 in
      let (topologies, w7, e7, k7) =
        bind-eq-ok
          (lift (set_topology_config d (spec_text spec) c.mode c.topologies c.node_topology)) _ w6
          k6 in
      let (t8, w8, e8, k8) =
        bind-eq-ok
          (create_default_dirs_files files d drivers as_workers as_name vol_binds_dir
            c.ember_config)
          _ w7 k7 in
      conclude c v spec (codes plugin) names backend topologies
        (lifted (check_settings (settings_of files d drivers as_workers as_name vol_binds_dir c)) w1
          w2 t2 e2)
        (lifted (get_names (is_reverse spec) (codes plugin)) w4 w5 names e5)
        (lifted (set_topology_config d (spec_text spec) c.mode c.topologies c.node_topology) w6 w7
          topologies e7)
        (returned _ v w8 u k8)
