-- ===== src/Node/Mounts/Tables.antt =====
-- What the readers of the mount tables of ember_csi/base.py find: the first line of a mount point.
use ember_csi.Base.{
  ◌≡◌, ◌∙◌, refl, String, ◌==◌, true, false, none, List, [], ◌∷◌, ◌++◌, All, eq_iff, arith,
  if◌then◌else◌,
}
use ember_csi.Rpc.{ok}
use ember_csi.Node.Host.{Host, NodeConf}
use ember_csi.Node.Mounts.{field, found, device_of, device_in, get_device}

-- A line of the table that is about another mount point.
abbrev pub IsElsewhere : String → List String → Type 0
IsElsewhere path line = (p : String) × (field line 4 ≡ ok p) × ((p == path) ≡ false)

device_in_step :
    (c : NodeConf) (path p : String) (line : List String) (lines : List (List String))
    → field line 4 ≡ ok p
    → device_in c path (line ∷ lines)
      ≡ (if p == path then found (device_of c line) else device_in c path lines)
unfolding device_in
device_in_step c path p line lines at = ground arith

device_in_skips :
    (c : NodeConf) (path : String) (before after : List (List String))
    → All (IsElsewhere path) before
    → device_in c path (before ++ after) ≡ device_in c path after
device_in_skips c path [] after h = refl
device_in_skips c path (line ∷ before) after ((p, at, other), h) =
    device_in_step c path p line (before ++ after) at
    ∙ rw other (device_in_skips c path before after h)

-- A path on which nothing is mounted has no device.
pub device_in_unmounted :
    (c : NodeConf) (path : String) (lines : List (List String))
    → All (IsElsewhere path) lines
    → device_in c path lines ≡ ok none
unfolding device_in
device_in_unmounted c path [] h = refl
device_in_unmounted c path (line ∷ lines) ((p, at, other), h) =
    device_in_step c path p line lines at ∙ rw other (device_in_unmounted c path lines h)

module _ {W : Type 0} (h : Host W) (c : NodeConf) where
  -- The device of a path is read from the first line of the mount table with that mount point,
  -- whatever the lines after it say.
  pub get_device_first :
      (path : String) (before after : List (List String)) (line : List String) (w u : W)
      → h.mountinfo w ≡ (ok (before ++ line ∷ after), u)
      → All (IsElsewhere path) before
      → field line 4 ≡ ok path
      → get_device h c path w ≡ (found (device_of c line), u)
  unfolding get_device
  get_device_first path before after line w u read others here =
      let same : (path == path) ≡ true = ground (arith, eq_iff path path) in
      let whole : device_in c path (before ++ line ∷ after) ≡ found (device_of c line) =
        device_in_skips c path before (line ∷ after) others
        ∙ device_in_step c path path line after here
        ∙ rw same refl in
      rw (read, whole) refl
