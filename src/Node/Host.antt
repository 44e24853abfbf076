-- ===== src/Node/Host.antt =====
-- What the node servicer uses of its host and of cinderlib's connections: actions on an unknown state.
use Prim.Native.Char.{code}
use ember_csi.Base.{ℕ, String, ◌<>◌, ◌==◌, ◌||◌, starts_with, Bool, false, List, eqb, if◌then◌else◌}
use ember_csi.Rpc.{Outcome, ok, err, os_error, Exec}
use ember_csi.Cinder.{Connection}

-- `stat.S_ISDIR`, `S_ISREG` and `S_ISBLK` of a file's mode.
pub data FileType : Type 0 where
  directory regular block_device other_file : FileType

-- What `conn.attach()` leaves in `conn`.
pub record Attached : Type 0 where
  pub use_multipath : Bool
  pub path : String

pub record Host (W : Type 0) : Type 0 where
  -- The lines of /proc/self/mountinfo and of /proc/self/mounts, each split into its fields.
  pub mountinfo : Exec W (List (List String))
  pub mounts : Exec W (List (List String))
  -- `os.stat(path)` and `os.stat(os.path.dirname(path))`, which raise `os_error` if there is no file.
  pub stat_file : String → Exec W FileType
  pub stat_parent : String → Exec W FileType
  -- `open(path, 'a').close()`, `os.mkdir`, `os.path.isfile`, `os.remove`, `os.rmdir`
  pub touch : String → Exec W (Unit {0})
  pub mkdir : String → Exec W (Unit {0})
  pub isfile : String → Exec W Bool
  pub remove_file : String → Exec W (Unit {0})
  pub rmdir : String → Exec W (Unit {0})
  -- `processutils.execute` and `time.sleep`, on which `sudo` stands.
  pub execute : List String → Exec W String
  pub sleep : ℕ → Exec W (Unit {0})
  -- `conn.attach()` and `conn.detach()`
  pub attach : Connection → Exec W Attached
  pub detach : Connection → Exec W (Unit {0})

-- `CONTAINERIZED`, `defaults.VOL_BINDS_DIR` and `CONF.DEFAULT_MOUNT_FS`.
pub record NodeConf : Type 0 where
  pub containerized : Bool
  pub vol_binds_dir : String
  pub default_mount_fs : String

-- `try: m except OSError: handler`
abbrev pub handle_os_error : {W A : Type 0} → Outcome A → Exec W A → Exec W A
handle_os_error (ok a) handler w = (ok a, w)
handle_os_error (err os_error) handler w = handler w
handle_os_error (err e) handler w = (err e, w)

abbrev pub try_os_error : {W A : Type 0} → Exec W A → Exec W A → Exec W A
try_os_error m handler w = let (r, u) = m w in handle_os_error r handler u

abbrev pub ends_with_slash : String → Bool
ends_with_slash String.[] = false
ends_with_slash (String.◌∷◌ c String.[]) = eqb (code c) b'/'
ends_with_slash (String.◌∷◌ c (String.◌∷◌ d s)) = ends_with_slash (String.◌∷◌ d s)

-- `os.path.join(a, b)`
abbrev pub join_path : String → String → String
join_path a b =
    if starts_with b "/"
    then b
    else if (a == "") || ends_with_slash a
    then a <> b
    else a <> ("/" <> b)
