-- ===== src/Audit/Rotation/Converge.antt =====
-- A rotation, from the disk before it to the disk behind it.
use hp_guardian.Prelude.{
  ℕ, zero, suc, ◌+◌, ◌*◌, ◌≤◌, some, ◌≡◌, refl, sym, ap, ◌∙◌, subst, arith, nat_eq, string_eq, ok,
}
use hp_guardian.Prelude.Map.{get}
use hp_guardian.Audit.Disk.{
  ManagedPath, live, staged, manifest, temporary, lock, path_eq, regular, regular_node, Disk, World,
  then_run,
}
use hp_guardian.Audit.Rotation.{
  Codec, contains, write_manifest, recover_manifest, present_backups, rotate_current,
}
use hp_guardian.Audit.Rotation.Outcomes.{Outcome, Runs-bind, Runs-weaken}
use hp_guardian.Audit.Rotation.Layouts.{
  Plan, IsPlan, Lays, Lays-ext, put, start_at, staging_at, final_at,
}
use hp_guardian.Audit.Rotation.Staging.{
  manifest_of, Resumable, staging, Interrupted, untouched, resumable,
}
use hp_guardian.Audit.Rotation.Manifests.{ReadsBack, Written, write_manifest-Runs}
use hp_guardian.Audit.Rotation.Indices.{IsSound, present_in}
use hp_guardian.Audit.Rotation.Recovery.{written-HoldsManifest, recover_manifest-Runs}

module _ (codec : Codec) (now : ℕ) (plan : Plan) (reads_back : ReadsBack codec plan)
    (is_plan : IsPlan plan) (is_sound : IsSound plan) where
  present_backups-ok :
      (w : World)
      → Lays (start_at plan) w.disk
      → (n j : ℕ) → 1 ≤ j
      → j + n ≡ suc plan.count
      → present_backups codec now j n w ≡ (ok (present_in plan.backups j n), w)
  unfolding present_backups present_in
  present_backups-ok w lays zero j pos sum = refl
  present_backups-ok w lays (suc n) j pos sum =
      let here : regular_node (get w.disk (live j)) ≡ ok (contains plan.backups j) =
        ap regular_node (lays (live j))
        ∙ is_plan j (omega (arith, sum))
        ∙ ap ok (ground (arith, pos)) in
      rw (here, present_backups-ok w lays n (j + 1) (omega arith) (omega (arith, sum))) refl

  rotate_current-step :
      (w : World)
      → Lays (start_at plan) w.disk
      → rotate_current codec now plan.transaction plan.count w
        ≡ then_run
            (write_manifest codec now (manifest_of plan "staging") w)
            (λ u. recover_manifest codec now)
  unfolding rotate_current
  rotate_current-step w lays =
      rw (present_backups-ok w lays plan.count 1 (omega arith) (omega arith), ← is_sound.listed)
        refl

  first_staged :
      (d : Disk)
      → Written codec now plan "staging" reads_back.staging (start_at plan) refl d
      → Resumable codec plan d
  first_staged d (bytes, e, h) =
      staging 0 (regular bytes now) (omega arith)
        (written-HoldsManifest codec now plan reads_back is_plan is_sound "staging" bytes
          reads_back.staging e)
        (Lays-ext _ _ d same h)
    where
      same :
          (p : ManagedPath)
          → put (start_at plan) manifest (some (regular bytes now)) p
            ≡ staging_at plan (regular bytes now) 0 p
      same (live i) = ground arith
      same (staged t i) = ground arith
      same manifest = refl
      same (temporary t) = refl
      same lock = refl

  -- A rotation of a sound plan makes at most 4 calls for each backup and 18 more. On a machine that
  -- makes so many, it moves every slot to the next one, drops the oldest backup and leaves nothing
  -- else. Where the machine stops, at whichever call, the disk is untouched, can be recovered, is
  -- complete, or holds a temporary manifest. The JSON library reads back the two manifests.
  pub rotate_current-Outcome :
      (w : World)
      → Lays (start_at plan) w.disk
      → Outcome
          (4 * plan.count + 18)
          (λ u. Lays (final_at plan))
          (Interrupted codec plan)
          w.steps
          (rotate_current codec now plan.transaction plan.count w)
  rotate_current-Outcome w lays =
      subst
        (Outcome (4 * plan.count + 18) (λ u. Lays (final_at plan)) (Interrupted codec plan) w.steps)
        (sym (rotate_current-step w lays))
        ((Runs-weaken _
            (Runs-bind {d = 4 * plan.count + 12}
              (write_manifest codec now (manifest_of plan "staging"))
              (λ u. recover_manifest codec now)
              (write_manifest-Runs codec now plan "staging" reads_back.staging (start_at plan) refl
                (λ d h. untouched h) (λ d h. resumable (first_staged d h)))
              (λ u.
                Runs-weaken (recover_manifest codec now)
                  (recover_manifest-Runs codec now plan reads_back is_plan is_sound) (omega arith)
                  first_staged (λ u d s. s)))
            (omega arith) (λ d s. s) (λ u d s. s)).at
          w lays)
