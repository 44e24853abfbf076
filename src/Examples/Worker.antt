-- ===== src/Examples/Worker.antt =====
-- Threads of the server in concrete interleavings.
use ember_csi.Base.{ℕ, ◌≡◌, ◌↔◌, refl, false, true, some, none}
use ember_csi.Worker.{
  System, running, waiting, start_unlocked, start, miss_lock, create_lock, claim, pick, init, Reach,
  here, next, update_at, update_key, entered,
}
use ember_csi.Worker.Exclusive.{RunsAt, mutual_exclusion, entries_exact}

-- Two steps of one thread.
abbrev after_claim : System
after_claim = record {
  shared = record init.shared {
    current_workers = update_key init.shared.current_workers "v1" (some ("DeleteVolume", 4));
  };
  pc =
      update_at (update_at init.pc 4 (entered "DeleteVolume" "v1" none)) 4
        (running "DeleteVolume" "v1" none);
}

-- Thread 4 deletes the volume `v1`, with `X_CSI_ABORT_DUPLICATES` on.
deleting : Reach true after_claim
deleting = next (next here (pick 4 (start_unlocked "DeleteVolume" "v1" refl))) (pick 4 (claim refl))

mutual_exclusion_example : ◌≡◌ {A = ℕ} 4 4
mutual_exclusion_example =
    mutual_exclusion deleting 4 4 "DeleteVolume" "DeleteVolume" "v1" (refl, refl) (refl, refl)

entries_exact_example :
    (after_claim.shared.current_workers "v1" ≡ some ("DeleteVolume", 4))
    ↔ RunsAt (after_claim.pc 4) "DeleteVolume" "v1"
entries_exact_example = entries_exact deleting 4 "DeleteVolume" "v1"

-- Two threads that both miss the lock of a method create a lock each, and wait for different ones.
locks_race :
    (s : System) × Reach false s
    × (s.pc 1 ≡ waiting "DeleteVolume" "v1" 0)
    × (s.pc 2 ≡ waiting "DeleteVolume" "v1" 1)
locks_race = (
  _,
  next
      (next
        (next
          (next
            (next (next here (pick 1 (start "DeleteVolume" "v1" refl)))
              (pick 2 (start "DeleteVolume" "v1" refl)))
            (pick 1 (miss_lock refl)))
          (pick 2 (miss_lock refl)))
        (pick 1 create_lock))
      (pick 2 create_lock),
  refl,
  refl,
)
