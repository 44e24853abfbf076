-- ===== src/Examples/Disk.antt =====
-- A machine whose disk has a file system, and on which `lsblk` fails the first time.
use ember_csi.Base.{◌≡◌, ◌≢◌, ◌⊎◌, refl, sym, ap, String, ◌==◌, List, [], ◌∷◌, arith, if◌then◌else◌}
use ember_csi.Base.Split.{words}
use ember_csi.Rpc.{Outcome, ok, err, abort, already_exists, process_error}
use ember_csi.Identity.Sudo.{sudo, attempts, after_attempt, elem_code}
use ember_csi.Node.Host.{Host}
use ember_csi.Node.Stage.{format_device, make_fs, sudo_once}
use ember_csi.Node.Stage.Keeps.{FsLaws, lsblk, format_device_safe}
use ember_csi.Samples.{empty_machine, Store, store}
use ember_csi.Samples.Machines.{node_host, node_conf, add_command, with_machine}

abbrev list_disk : List (List String) → List String → Store → Outcome String × Store
list_disk [] cmd w = (err (process_error 32), add_command cmd w)
list_disk (_ ∷ _) cmd w = (ok w.machine.file_system, add_command cmd w)

-- Every command but `lsblk` is taken for one that makes ext4.
abbrev run_disk : List String → Store → Outcome String × Store
run_disk [] w = (ok "", w)
run_disk (program ∷ args) w =
    if program == "lsblk"
    then list_disk w.machine.commands (program ∷ args) w
    else (ok "", with_machine (record w.machine { file_system = "ext4" }) w)

abbrev disk_host : Host Store
disk_host = record node_host { execute = run_disk }

abbrev on_disk : Store → List String
on_disk w = words w.machine.file_system

abbrev disk : String → Store
disk fs = with_machine (record empty_machine { file_system = fs }) (store [] [] [] [])

disk_laws : FsLaws disk_host "ext4" "/dev/sdb" on_disk
disk_laws = record {
  prints = λ {w} {u} {out} ran. listed w.machine.commands w u out ran;
  quiet = λ w. unchanged w.machine.commands w;
  slept = λ d w. refl;
  makes = λ ran. sym (ap (λ p. on_disk p.1) ran);
}
  where
    listed :
        (cs : List (List String)) (w u : Store) (out : String)
        → ◌≡◌ {A = Outcome String × Store} (list_disk cs (lsblk "/dev/sdb") w) (ok out, u)
        → words out ≡ on_disk w
    listed [] w u out ran = absurd (cc ran)
    listed (c ∷ cs) w u out ran = ground arith

    unchanged :
        (cs : List (List String)) (w : Store)
        → on_disk (list_disk cs (lsblk "/dev/sdb") w).1 ≡ on_disk w
    unchanged [] w = refl
    unchanged (c ∷ cs) w = refl

format_device_safe_example :
    ((on_disk (disk "xfs ") ≡ [])
      ⊎ (on_disk (format_device disk_host node_conf "ext4" "/dev/sdb" (disk "xfs ")).1
          ≡ on_disk (disk "xfs ")))
    × (((format_device disk_host node_conf "ext4" "/dev/sdb" (disk "xfs ")).0 ≢ ok tt)
        ⊎ ((others : List String) × (on_disk
                (format_device disk_host node_conf "ext4" "/dev/sdb" (disk "xfs ")).1
              ≡ "ext4" ∷ others)))
format_device_safe_example =
    format_device_safe disk_host node_conf "ext4" "/dev/sdb" on_disk disk_laws (disk "xfs ")

-- The second attempt of `lsblk` finds the other file system.
other_after_retry :
    (format_device disk_host node_conf "ext4" "/dev/sdb" (disk "xfs ")).0
    ≡ err (
        abort already_exists
          "Cannot stage filesystem ext4 on device that already has filesystem xfs")
unfolding format_device make_fs sudo attempts after_attempt elem_code
other_after_retry = refl

-- An empty disk gets the file system.
made_on_empty :
    on_disk (format_device disk_host node_conf "ext4" "/dev/sdb" (disk "")).1 ≡ "ext4" ∷ []
unfolding format_device make_fs sudo_once sudo attempts after_attempt elem_code
made_on_empty = refl
