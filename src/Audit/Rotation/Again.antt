-- ===== src/Audit/Rotation/Again.antt =====
-- A recovery that finds all slots installed and the oldest dropped: it changes no slot.
use hp_guardian.Prelude.{
  ℕ, String, zero, suc, ◌+◌, ◌<◌, Bool, true, false, ◌≡◌, sym, ap, ◌∙◌, subst, arith,
}
use hp_guardian.Prelude.Map.{get}
use hp_guardian.Audit.Disk.{
  live, staged, manifest, path_eq, regular_node, World, ◌>>=◌, sync, remove_file,
}
use hp_guardian.Audit.Rotation.{
  Codec, install_slot, install_step, install_backups, drop_oldest, install_all,
}
use hp_guardian.Audit.Rotation.Outcomes.{Outcome, finished, Runs, Runs-bind, Runs-done}
use hp_guardian.Audit.Rotation.Layouts.{Plan, expected, IsPlan}
use hp_guardian.Audit.Rotation.Staging.{manifest_of}
use hp_guardian.Audit.Rotation.Installing.{Cleaned, install_slot-step}
use hp_guardian.Audit.Rotation.Finishing.{Stops, Final, drop_oldest-step, remove_manifest-Runs}

module _ (codec : Codec) (now : ℕ) (plan : Plan) (is_plan : IsPlan plan) (phase : String) where
  install_slot-Keeps :
      (j : ℕ)
      → j < plan.count
      → Runs 0
          (Cleaned codec plan)
          (install_slot plan.transaction j (j + 1) (expected plan.backups j))
          (λ u. Cleaned codec plan)
          (Stops codec now plan is_plan phase)
  install_slot-Keeps j lt = record {
    at = λ w c.
        let there : get w.disk (live (j + 1)) ≡ plan.slots j =
          c.lays (live (j + 1)) ∙ grind (arith, lt) in
        subst (Outcome 0 (λ u. Cleaned codec plan) (Stops codec now plan is_plan phase) w.steps)
          (sym (
            install_slot-step codec plan j (expected plan.backups j) false (expected plan.backups j)
              w (ap regular_node (c.lays (staged plan.transaction j)))
              (ap regular_node there ∙ is_plan j (omega (arith, lt)))))
          (left w c (expected plan.backups j));
  }
    where
      left :
          (w : World)
          → Cleaned codec plan w.disk
          → (b : Bool)
          → Outcome 0
              (λ u. Cleaned codec plan)
              (Stops codec now plan is_plan phase)
              w.steps
              (install_step plan.transaction j (j + 1) b false b w)
      left w c true = finished c (omega arith)
      left w c false = finished c (omega arith)

  install_backups-Keeps :
      (n j : ℕ)
      → j + n ≡ plan.count
      → Runs 0
          (Cleaned codec plan)
          (install_backups plan.transaction plan.backups j n)
          (λ u. Cleaned codec plan)
          (Stops codec now plan is_plan phase)
  unfolding install_backups
  install_backups-Keeps zero j sum = Runs-done tt (λ d s. s)
  install_backups-Keeps (suc n) j sum =
      Runs-bind (install_slot plan.transaction j (j + 1) (expected plan.backups j))
        (λ u. install_backups plan.transaction plan.backups (j + 1) n)
        (install_slot-Keeps j (omega (arith, sum)))
        (λ u. install_backups-Keeps n (j + 1) (omega (arith, sum)))

  drop_oldest-Keeps :
      Runs 0
        (Cleaned codec plan)
        (drop_oldest codec now (manifest_of plan phase))
        (λ u. Cleaned codec plan)
        (Stops codec now plan is_plan phase)
  drop_oldest-Keeps = record {
    at = λ w c.
        subst (Outcome 0 (λ u. Cleaned codec plan) (Stops codec now plan is_plan phase) w.steps)
          (sym (
            drop_oldest-step codec now plan is_plan phase false w
              (ap regular_node (c.lays (staged plan.transaction plan.count)))))
          (finished c (omega arith));
  }

  pub install_all-Runs_again :
      Runs 2
        (Cleaned codec plan)
        (install_all codec now (manifest_of plan phase))
        (Final codec now plan is_plan phase)
        (Stops codec now plan is_plan phase)
  unfolding install_all
  install_all-Runs_again =
      Runs-bind (install_backups plan.transaction plan.backups 0 plan.count)
        (λ u. do
          dropped ← drop_oldest codec now (manifest_of plan phase)
          removed ← remove_file manifest
          sync)
        (install_backups-Keeps plan.count 0 (omega arith))
        (λ u.
          Runs-bind (drop_oldest codec now (manifest_of plan phase))
            (λ u. do removed ← remove_file manifest; sync) drop_oldest-Keeps
            (λ u. remove_manifest-Runs codec now plan is_plan phase))
