-- ===== src/Node/Stage/Keeps.antt =====
-- What `_format_device` of ember_csi/base.py does to the file system of a device, on a machine where
-- `lsblk` tells the truth and changes nothing.
use ember_csi.Base.{
  ◌≡◌, ◌≢◌, refl, sym, ap, ◌∙◌, ℕ, String, ◌<>◌, ◌==◌, ◌++◌, eq_iff, none, some, Option, List, [],
  ◌∷◌, arith, Bool-cases, inl, inr, ◌⊎◌,
}
use ember_csi.Base.Split.{words}
use ember_csi.Rpc.{Outcome, ok, err, Exec, ◌>>=◌, continue}
use ember_csi.Rpc.Inversion.{bind-eq-ok}
use ember_csi.Identity.Sudo.{Retry, default_retry, sudo}
use ember_csi.Identity.Sudo.Attempts.{sudo-some}
use ember_csi.Identity.Sudo.Views.{sudo-view, sudo-last}
use ember_csi.Node.Host.{Host, NodeConf}
use ember_csi.Node.Stage.{mkfs_args, output, sudo_once, make_fs, format_device}

-- The two commands about the file system of a device.
abbrev pub lsblk : String → List String
lsblk device = "lsblk" ∷ "-nlfoFSTYPE" ∷ device ∷ []

abbrev pub mkfs : String → String → List String
mkfs fs_type device = (("/sbin/mkfs." <> fs_type) ∷ mkfs_args fs_type) ++ device ∷ []

-- `on_device w` is what the device holds in the state `w`: its file system, or nothing.
pub record FsLaws {W : Type 0} (h : Host W) (fs_type device : String) (on_device : W → List String)
    : Type 0 where
  -- `lsblk` prints what is there, where it succeeds, and changes nothing.
  pub prints :
      {w u : W} {out : String} → h.execute (lsblk device) w ≡ (ok out, u) → words out ≡ on_device w
  pub quiet : (w : W) → on_device (h.execute (lsblk device) w).1 ≡ on_device w
  pub slept : (d : ℕ) (w : W) → on_device (h.sleep d w).1 ≡ on_device w
  -- `mkfs` makes the wanted file system, where it succeeds.
  pub makes :
      {w u : W} {out : String}
      → h.execute (mkfs fs_type device) w ≡ (ok out, u)
      → on_device u ≡ fs_type ∷ []

empty_or_not : {A : Type 0} (xs : List A) → (xs ≡ []) ⊎ (xs ≢ [])
empty_or_not [] = inl refl
empty_or_not (x ∷ xs) = inr λ e. cc e

ok_or_not : (r : Outcome (Unit {0})) → (r ≡ ok tt) ⊎ (r ≢ ok tt)
ok_or_not (ok x) = inl refl
ok_or_not (err e) = inr λ h. cc h

module _ {W : Type 0} (h : Host W) (c : NodeConf) (fs_type device : String)
    (on_device : W → List String) (laws : FsLaws h fs_type device on_device) where
  open laws use {prints, quiet, slept, makes}

  make_fs-present : (ts : List String) (w : W) → ts ≢ [] → (make_fs h c fs_type device ts w).1 ≡ w
  unfolding make_fs
  make_fs-present [] w some_fs = absurd (some_fs refl)
  make_fs-present (t ∷ ts) w some_fs = ground arith

  make_fs-ok :
      (ts : List String) (w u : W)
      → on_device w ≡ ts
      → make_fs h c fs_type device ts w ≡ (ok tt, u)
      → (others : List String) × (on_device u ≡ fs_type ∷ others)
  unfolding make_fs sudo_once
  make_fs-ok [] w u here done =
      let (a, v, ran, same) =
        bind-eq-ok (sudo h.execute h.sleep default_retry (mkfs fs_type device)) _ w done in
      made a v ran (cc same)
    where
      made :
          (a : Option String) (v : W)
          → sudo h.execute h.sleep default_retry (mkfs fs_type device) w ≡ (ok a, v)
          → v ≡ u
          → (others : List String) × (on_device u ≡ fs_type ∷ others)
      made none v ran same = absurd (
          sudo-some h.execute h.sleep default_retry (mkfs fs_type device) w (omega arith)
            (ap (λ p. p.0) ran))
      made (some out) v ran same =
          let (x, last) =
            sudo-last h.execute h.sleep default_retry (mkfs fs_type device) w v out ran in
          ([], ap on_device (sym same) ∙ makes last)
  make_fs-ok (t ∷ ts) w u here done = elim (Bool-cases (t == fs_type)) [
    | inl same ↦ (ts, ground (arith, eq_iff t fs_type))
    | inr other ↦ absurd (ground arith)
  ]

  abbrev probe_retry : Retry
  probe_retry = record { retries = 5; delay = 2; backoff = 2; errors = 1 ∷ 32 ∷ [] }

  abbrev probe : Exec W (Option String)
  probe = sudo h.execute h.sleep probe_retry (lsblk device)

  probe-quiet : (w : W) → on_device (probe w).1 ≡ on_device w
  probe-quiet w = sudo-view h.execute h.sleep on_device (lsblk device) quiet slept probe_retry w

  -- What `lsblk` printed is what the device holds afterwards.
  probe-prints : (w u : W) (out : String) → probe w ≡ (ok (some out), u) → words out ≡ on_device u
  probe-prints w u out ran =
      let (v, last) = sudo-last h.execute h.sleep probe_retry (lsblk device) w u out ran in
      prints last ∙ sym (quiet v) ∙ ap (λ p. on_device p.1) last

  present_after :
      (p : Outcome (Option String) × W)
      → ((out : String) → p.0 ≡ ok (some out) → words out ≢ [])
      → (continue p.0
          (λ found. output found >>= λ stdout. make_fs h c fs_type device (words stdout))
          p.1).1
        ≡ p.1
  present_after (err e, u) holds = refl
  present_after (ok none, u) holds = refl
  present_after (ok (some out), u) holds = make_fs-present (words out) u (holds out refl)

  format_device_present :
      (w : W) → on_device w ≢ [] → on_device (format_device h c fs_type device w).1 ≡ on_device w
  unfolding format_device
  format_device_present w some_fs = ap on_device (present_after (probe w) still) ∙ probe-quiet w
    where
      still : (out : String) → (probe w).0 ≡ ok (some out) → words out ≢ []
      still out printed none_there = some_fs (
          sym (probe-quiet w)
          ∙ sym (probe-prints w (probe w).1 out (ap (λ r. (r, (probe w).1)) printed))
          ∙ none_there)

  format_device_ok :
      (w u : W)
      → format_device h c fs_type device w ≡ (ok tt, u)
      → (others : List String) × (on_device u ≡ fs_type ∷ others)
  unfolding format_device
  format_device_ok w u done =
      let (a, v, ran, rest) = bind-eq-ok probe _ w done in
      let (out, v', is_out, made) = bind-eq-ok (output a) _ v rest in
      formatted a out v v' ran is_out made
    where
      formatted :
          (a : Option String) (out : String) (v v' : W)
          → probe w ≡ (ok a, v)
          → output a v ≡ (ok out, v')
          → make_fs h c fs_type device (words out) v' ≡ (ok tt, u)
          → (others : List String) × (on_device u ≡ fs_type ∷ others)
      formatted none out v v' ran is_out made = absurd (cc is_out)
      formatted (some o) out v v' ran is_out made =
          let (same, here) : (o ≡ out) × (v ≡ v') = ground arith in
          make_fs-ok (words out) v' u
            (ap on_device (sym here) ∙ sym (probe-prints w v o ran) ∙ ap words same) made

  -- On a machine where `lsblk` prints the file system of the device and changes nothing, and `mkfs` makes the
  -- wanted file system where it succeeds: the device was empty, or it holds the same file system after
  -- the call, whether that succeeds, is refused or fails in any attempt of its commands; and the call does
  -- not succeed, or the device holds the wanted file system afterwards.
  pub format_device_safe :
      (w : W)
      → ((on_device w ≡ []) ⊎ (on_device (format_device h c fs_type device w).1 ≡ on_device w))
        × (((format_device h c fs_type device w).0 ≢ ok tt)
            ⊎ ((others : List String) × (on_device (format_device h c fs_type device w).1
                  ≡ fs_type ∷ others)))
  format_device_safe w = (
    elim (empty_or_not (on_device w)) [
      | inl none_there ↦ inl none_there
      | inr some_fs ↦ inr (format_device_present w some_fs)
    ],
    elim (ok_or_not (format_device h c fs_type device w).0) [
      | inl done ↦ inr (
          format_device_ok w (format_device h c fs_type device w).1
            (ap (λ r. (r, (format_device h c fs_type device w).1)) done))
      | inr failed ↦ inl failed
    ],
  )
