-- ===== src/Node/Unstage.antt =====
-- `NodeUnstageVolume` of ember_csi/base.py.
use ember_csi.Base.{
  ℕ, suc, ◌+◌, String, ◌==◌, ◌||◌, Option, some, none, List, [], ◌∷◌, ltb, eqb, if◌then◌else◌,
}
use ember_csi.Rpc.{aborted, Outcome, ok, err, Exec, pure, abort_if, ◌>>=◌, ◌>>◌}
use ember_csi.Cinder.{Volume, Cinder}
use ember_csi.Csi.{Servicer}
use ember_csi.Identity.Lookup.{get_vol}
use ember_csi.Identity.Sudo.{default_retry, sudo}
use ember_csi.Node.Host.{Host, NodeConf, join_path}
use ember_csi.Node.Mounts.{field, lift, get_mount, get_vol_device}
use ember_csi.Node.Paths.{staged_name, clean_file_or_dir}
use ember_csi.Node.Stage.{skip, first_connection, abort_if_absent, the_volume}

pub record UnstageRequest : Type 0 where
  pub volume_id : String
  pub staging_target_path : String

-- The loop that counts the mounts whose root is the device or the private bind.
unfoldable pub count_uses : String → String → List (List String) → Outcome ℕ
count_uses device private_bind [] = ok 0
count_uses device private_bind (line ∷ lines) =
    let rest = count_uses device private_bind lines in
    elim (field line 3) [
      | err e ↦ err e
      | ok root ↦
          if (root == device) || (root == private_bind)
          then (elim rest [ err e ↦ err e | ok n ↦ ok (suc n) ])
          else rest
    ]

abbrev pub is_mounted : List (List String) → ℕ
is_mounted [] = 0
is_mounted (_ ∷ _) = 1

module _ {W : Type 0} (h : Host W) (c : NodeConf) where
  -- `self.sudo('umount', path, retries=4)`
  unfoldable pub umount : String → Exec W (Unit {0})
  umount path =
      skip (sudo h.execute h.sleep (record default_retry { retries = 4 }) ("umount" ∷ path ∷ []))

  unfoldable pub uses : String → String → Exec W ℕ
  uses device private_bind = do
    lines ← h.mountinfo
    n ← lift (count_uses device private_bind lines)
    ms ← get_mount h c private_bind
    pure (n + is_mounted ms)

  unfoldable pub unmount_staged : UnstageRequest → Exec W (Unit {0})
  unmount_staged r = do
    umount (join_path r.staging_target_path staged_name)
    clean_file_or_dir h (join_path r.staging_target_path staged_name)

  -- The part after the count.
  unfoldable pub release : Cinder W → UnstageRequest → Volume → String → ℕ → Exec W (Unit {0})
  release cl r vol private_bind count = do
    abort_if (ltb 2 count) aborted "Operation pending for volume"
    if eqb count 2 then unmount_staged r else pure tt
    if ltb 0 count then umount private_bind else pure tt
    h.remove_file private_bind
    conns ← cl.connections vol
    conn ← first_connection h c conns
    h.detach conn

  -- `if device: ...`
  unfoldable pub unstage_device :
      Cinder W → UnstageRequest → Volume → Option String → String → Exec W (Unit {0})
  unstage_device cl r vol none private_bind = pure tt
  unstage_device cl r vol (some device) private_bind = do
    count ← uses device private_bind
    release cl r vol private_bind count

  -- The body of `NodeUnstageVolume`; its response has no content.
  unfoldable pub unstage_body : Cinder W → Servicer → UnstageRequest → Exec W (Unit {0})
  unstage_body cl s r = do
    found ← get_vol cl s (some r.volume_id) none
    abort_if_absent h c r.volume_id found
    vol ← the_volume h c found
    (device, private_bind) ← get_vol_device h c vol.id
    unstage_device cl r vol device private_bind
