-- ===== src/Audit/Rotation/Finishing.antt =====
-- The end of a rotation: the backups installed, the oldest dropped, the manifest removed.
use hp_guardian.Prelude.{
  ℕ, ◌+◌, ◌*◌, String, Bool, true, false, ◌≡◌, refl, sym, ap, ◌∙◌, subst, arith, if◌then◌else◌,
  ==_refl, string_eq, ok,
}
use hp_guardian.Prelude.Map.{get}
use hp_guardian.Audit.Disk.{
  staged, manifest, path_eq, regular_node, Disk, World, Io, ◌>>=◌, done, sync, remove_file,
}
use hp_guardian.Audit.Rotation.{Codec, install_backups, drop_oldest, install_all}
use hp_guardian.Audit.Rotation.Outcomes.{
  Outcome, finished, Runs, Runs-bind, Runs-change, Runs-weaken,
}
use hp_guardian.Audit.Rotation.Layouts.{
  Plan, expected, IsPlan, Lays, Lays-remove, Lays-ext, installing_at, cleaned_at, final_at,
  clean-at, clean_none-at, final-at,
}
use hp_guardian.Audit.Rotation.Staging.{
  manifest_of, regular_node-false, Interrupted, resumable, installing, completed,
}
use hp_guardian.Audit.Rotation.Installing.{
  InstalledTo, Cleaned, Cleaned-Interrupted, install_backups-Runs,
}

module _ (codec : Codec) (now : ℕ) (plan : Plan) (is_plan : IsPlan plan) (phase : String) where
  abbrev pub Ends : Unit {0} → Disk → Type 0
  Ends u = Cleaned codec plan

  abbrev pub Stops : Disk → Type 0
  Stops = Interrupted codec plan

  abbrev pub drop_step : Bool → Io (Unit {0})
  drop_step b =
      if b then (do removed ← remove_file (staged plan.transaction plan.count); sync) else done tt

  pub drop_oldest-step :
      (b : Bool) (w : World)
      → regular_node (get w.disk (staged plan.transaction plan.count)) ≡ ok b
      → drop_oldest codec now (manifest_of plan phase) w ≡ drop_step b w
  unfolding drop_oldest
  drop_oldest-step b w a = rw a refl

  drop-Outcome :
      (b : Bool) (w : World)
      → expected plan.backups plan.count ≡ b
      → (h : InstalledTo codec plan plan.count w.disk)
      → Lays (installing_at plan h.node plan.count) w.disk
      → Outcome 2 Ends Stops w.steps (drop_step b w)
  drop-Outcome false w missing h lays =
      finished
        (record {
          node = h.node;
          holds = h.holds;
          lays =
              Lays-ext _ _ w.disk
                (λ p.
                  clean_none-at plan h.node p
                    (regular_node-false _ (is_plan plan.count (omega arith) ∙ ap ok missing)))
                lays;
        })
        (omega arith)
  drop-Outcome true w held h lays =
      (Runs-bind {P = λ d. Lays (installing_at plan h.node plan.count) d}
          (remove_file (staged plan.transaction plan.count)) (λ u. sync)
          (Runs-change _
            (λ d l. record {
              node = h.node;
              holds = h.holds;
              lays =
                  Lays-ext _ _ _ (clean-at plan h.node)
                    (Lays-remove (installing_at plan h.node plan.count) d _ l);
            })
            (λ d l. resumable (installing plan.count h.node (omega arith) h.holds l)))
          (λ u. Runs-change (λ d. d) (λ d c. c) (λ d c. Cleaned-Interrupted codec plan d c))).at
        w lays

  drop_oldest-Runs :
      Runs 2
        (InstalledTo codec plan plan.count)
        (drop_oldest codec now (manifest_of plan phase))
        Ends
        Stops
  drop_oldest-Runs = record {
    at = λ w h.
        let at_end : h.reached ≡ plan.count = omega (arith, h.far, h.within) in
        let lays : Lays (installing_at plan h.node plan.count) w.disk =
          subst (λ k. Lays (installing_at plan h.node k) w.disk) at_end h.lays in
        let there : get w.disk (staged plan.transaction plan.count) ≡ plan.slots plan.count =
          lays (staged plan.transaction plan.count) ∙ ground (arith, ==_refl plan.transaction) in
        subst (Outcome 2 Ends Stops w.steps)
          (sym (
            drop_oldest-step (expected plan.backups plan.count) w
              (ap regular_node there ∙ is_plan plan.count (omega arith))))
          (drop-Outcome (expected plan.backups plan.count) w refl h lays);
  }

  abbrev pub Final : Unit {0} → Disk → Type 0
  Final u d = Lays (final_at plan) d

  pub remove_manifest-Runs :
      Runs 2 (Cleaned codec plan) (do removed ← remove_file manifest; sync) Final Stops
  remove_manifest-Runs =
      Runs-bind (remove_file manifest) (λ u. sync)
        (Runs-change _
          (λ d c.
            Lays-ext _ _ _ (final-at plan c.node)
              (Lays-remove (cleaned_at plan c.node) d manifest c.lays))
          (λ d c. Cleaned-Interrupted codec plan d c))
        (λ u. Runs-change (λ d. d) (λ d c. c) (λ d c. completed c))

  pub install_all-Runs :
      Runs
        (2 * plan.count + 4)
        (InstalledTo codec plan 0)
        (install_all codec now (manifest_of plan phase))
        Final
        Stops
  unfolding install_all
  install_all-Runs =
      Runs-weaken _
        (Runs-bind (install_backups plan.transaction plan.backups 0 plan.count)
          (λ u. do
            dropped ← drop_oldest codec now (manifest_of plan phase)
            removed ← remove_file manifest
            sync)
          (install_backups-Runs codec plan is_plan plan.count 0 (omega arith))
          (λ u.
            Runs-bind (drop_oldest codec now (manifest_of plan phase))
              (λ u. do removed ← remove_file manifest; sync) drop_oldest-Runs
              (λ u. remove_manifest-Runs)))
        (omega arith) (λ d s. s) (λ u d s. s)
