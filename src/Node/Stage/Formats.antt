-- ===== src/Node/Stage/Formats.antt =====
-- `_format_device` and the loop of attachments of `NodeStageVolume`, of ember_csi/base.py.
use ember_csi.Base.{
  ℕ, zero, suc, ◌≤◌, ◌≡◌, refl, sym, ap, ◌∙◌, ◌||◌, starts_with, Bool, true, false, not, Bool-cases,
  inl, inr, ◌⊎◌, arith,
}
use ember_csi.Rpc.{ok, ◌>>=◌}
use ember_csi.Rpc.Inversion.{bind-eq-ok}
use ember_csi.Cinder.{Connection}
use ember_csi.Node.Host.{Host, NodeConf, Attached}
use ember_csi.Node.Stage.{attach_again, attach_volume, multipath_find_retries}

module _ {W : Type 0} (h : Host W) (c : NodeConf) where
  -- The loop ends with this attachment.
  abbrev pub is_final : Attached → Bool
  is_final a = not a.use_multipath || starts_with a.path "/dev/dm"

  -- `Attaches conn n w a u`: from `w`, `conn` is attached `n` times in a row, the last time with `a`,
  -- and none but the last attachment is final.
  pub data Attaches (conn : Connection) : ℕ → W → Attached → W → Type 0 where
    once : {w u : W} {a : Attached} → h.attach conn w ≡ (ok a, u) → Attaches conn 1 w a u
    again :
        {n : ℕ} {w v u : W} {a b : Attached}
        → h.attach conn w ≡ (ok a, v)
        → is_final a ≡ false
        → Attaches conn n v b u
        → Attaches conn (suc n) w b u

  attach_loop :
      (n : ℕ) (conn : Connection) (w v u : W) (a b : Attached)
      → h.attach conn w ≡ (ok a, v)
      → attach_again h c n conn a v ≡ (ok b, u)
      → (k : ℕ) × Attaches conn k w b u × (k ≤ suc n) × ((is_final b ≡ true) ⊎ (k ≡ suc n))
  unfolding attach_again
  attach_loop zero conn w v u a b first rest = (1, once (first ∙ rest), omega arith, inr refl)
  attach_loop (suc n) conn w v u a b first rest = elim (Bool-cases (is_final a)) [
    | inl final ↦
        let (same, here) : (a ≡ b) × (v ≡ u) = ground arith in
        (1, once (rw (sym same, sym here) first), omega arith, inl (ap is_final (sym same) ∙ final))
    | inr more ↦
        let on : (h.attach conn >>= λ x. attach_again h c n conn x) v ≡ (ok b, u) = ground arith in
        let (a', v', e, k) = bind-eq-ok (h.attach conn) _ v on in
        let (m, steps, few, why) = attach_loop n conn v v' u a' b e k in
        (
          suc m,
          again first more steps,
          omega arith,
          elim why [ inl f ↦ inl f | inr e ↦ inr (ap suc e) ],
        )
  ]

  -- Where the connection is attached at all, it has been attached at most three times, each time but
  -- the last because a multipath was wanted and not found, and fewer times than three only if the
  -- last attachment needs no multipath or has one.
  pub attach_volume_rounds :
      (conn : Connection) (w u : W) (b : Attached)
      → attach_volume h c conn w ≡ (ok b, u)
      → (k : ℕ) × Attaches conn k w b u
        × (k ≤ multipath_find_retries)
        × ((is_final b ≡ true) ⊎ (k ≡ multipath_find_retries))
  unfolding attach_volume
  attach_volume_rounds conn w u b done =
      let (a, v, first, rest) = bind-eq-ok (h.attach conn) _ w done in
      attach_loop 2 conn w v u a b first rest
