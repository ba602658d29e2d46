-- ===== src/Audit/Rotation/Installing.antt =====
-- The loop that installs the staged slots, from any disk on which a run of it was interrupted.
use hp_guardian.Prelude.{
  ℕ, zero, suc, ◌+◌, ◌*◌, ◌≤◌, ◌<◌, Bool, true, false, none, ◌≡◌, refl, sym, ap, ◌∙◌, subst, arith,
  inl, inr, ==_refl, nat_eq, string_eq, ok,
}
use hp_guardian.Prelude.Map.{get}
use hp_guardian.Audit.Disk.{live, staged, path_eq, Node, regular_node, Disk, World, rename, sync}
use hp_guardian.Audit.Rotation.{Codec, install_step, install_slot, install_backups}
use hp_guardian.Audit.Rotation.Outcomes.{
  Outcome, finished, Runs, Runs-bind, Runs-change, Runs-weaken, Runs-done,
}
use hp_guardian.Audit.Rotation.Layouts.{
  Plan, expected, IsPlan, Lays, Lays-move, Lays-ext, installing_at, cleaned_at, install-at,
  install_none-at,
}
use hp_guardian.Audit.Rotation.Staging.{
  regular_node-true, regular_node-false, order, HoldsManifest, installing, cleaned, Interrupted,
  resumable,
}

module _ (codec : Codec) (plan : Plan) where
  abbrev pub Stops : Disk → Type 0
  Stops = Interrupted codec plan

  -- The staged slots below `j`, at least, are installed.
  pub record InstalledTo (j : ℕ) (d : Disk) : Type 0 where
    pub reached : ℕ
    pub node : Node
    pub far : j ≤ reached
    pub within : reached ≤ plan.count
    pub holds : HoldsManifest codec plan "installing" node
    pub lays : Lays (installing_at plan node reached) d

  pub record Cleaned (d : Disk) : Type 0 where
    pub node : Node
    pub holds : HoldsManifest codec plan "installing" node
    pub lays : Lays (cleaned_at plan node) d

  pub InstalledTo-Interrupted : {j : ℕ} (d : Disk) → InstalledTo j d → Stops d
  InstalledTo-Interrupted d s = resumable (installing s.reached s.node s.within s.holds s.lays)

  pub Cleaned-Interrupted : (d : Disk) → Cleaned d → Stops d
  Cleaned-Interrupted d s = resumable (cleaned s.node s.holds s.lays)

  pub install_slot-step :
      (j : ℕ) (e s t : Bool) (w : World)
      → regular_node (get w.disk (staged plan.transaction j)) ≡ ok s
      → regular_node (get w.disk (live (j + 1))) ≡ ok t
      → install_slot plan.transaction j (j + 1) e w
        ≡ install_step plan.transaction j (j + 1) e s t w
  unfolding install_slot
  install_slot-step j e s t w a b = rw (a, b) refl

  module _ (is_plan : IsPlan plan) (j : ℕ) (lt : j < plan.count) where
    abbrev wanted : Bool
    wanted = expected plan.backups j

    holds_slot : regular_node (plan.slots j) ≡ ok wanted
    holds_slot = is_plan j (omega (arith, lt))

    -- A slot that was installed before is left.
    install_again :
        (w : World) (s : InstalledTo j w.disk)
        → j < s.reached
        → Outcome 2
            (λ u. InstalledTo (suc j))
            Stops
            w.steps
            (install_slot plan.transaction j (j + 1) wanted w)
    install_again w s before =
        let gone : get w.disk (staged plan.transaction j) ≡ none =
          s.lays (staged plan.transaction j) ∙ ground (arith, before) in
        let there : get w.disk (live (j + 1)) ≡ plan.slots j =
          s.lays (live (j + 1)) ∙ grind (arith, before) in
        subst (Outcome 2 (λ u. InstalledTo (suc j)) Stops w.steps)
          (sym (
            install_slot-step j wanted false wanted w (ap regular_node gone)
              (ap regular_node there ∙ holds_slot)))
          (left wanted)
      where
        further : InstalledTo (suc j) w.disk
        further = record {
          reached = s.reached;
          node = s.node;
          far = omega (arith, before);
          within = s.within;
          holds = s.holds;
          lays = s.lays;
        }

        left :
            (b : Bool)
            → Outcome 2
                (λ u. InstalledTo (suc j))
                Stops
                w.steps
                (install_step plan.transaction j (j + 1) b false b w)
        left true = finished further (omega arith)
        left false = finished further (omega arith)

    -- A slot that is not installed yet is moved, if it was staged.
    install_new :
        (w : World) (s : InstalledTo j w.disk)
        → j ≡ s.reached
        → Outcome 2
            (λ u. InstalledTo (suc j))
            Stops
            w.steps
            (install_slot plan.transaction j (j + 1) wanted w)
    install_new w s same =
        let here : Lays (installing_at plan s.node j) w.disk =
          subst (λ k. Lays (installing_at plan s.node k) w.disk) (sym same) s.lays in
        let there : get w.disk (staged plan.transaction j) ≡ plan.slots j =
          here (staged plan.transaction j) ∙ ground (arith, ==_refl plan.transaction, lt) in
        let free : get w.disk (live (j + 1)) ≡ none = here (live (j + 1)) ∙ ground (arith, lt) in
        subst (Outcome 2 (λ u. InstalledTo (suc j)) Stops w.steps)
          (sym (
            install_slot-step j wanted wanted false w (ap regular_node there ∙ holds_slot)
              (ap regular_node free)))
          (moved wanted refl here)
      where
        after : {d : Disk} → Lays (installing_at plan s.node (suc j)) d → InstalledTo (suc j) d
        after h = record {
          reached = suc j;
          node = s.node;
          far = omega arith;
          within = omega (arith, lt);
          holds = s.holds;
          lays = h;
        }

        moved :
            (b : Bool)
            → wanted ≡ b
            → Lays (installing_at plan s.node j) w.disk
            → Outcome 2
                (λ u. InstalledTo (suc j))
                Stops
                w.steps
                (install_step plan.transaction j (j + 1) b b false w)
        moved false missing here =
            finished
              (after (
                Lays-ext _ _ w.disk
                  (λ p.
                    install_none-at plan s.node j p lt
                      (regular_node-false _ (holds_slot ∙ ap ok missing)))
                  here))
              (omega arith)
        moved true held here =
            let (n, found) = regular_node-true _ (holds_slot ∙ ap ok held) in
            (Runs-bind {P = λ d. Lays (installing_at plan s.node j) d}
                (rename (staged plan.transaction j) (live (j + 1))) (λ u. sync)
                (Runs-change _
                  (λ d h. after (
                    Lays-ext _ _ _ (λ p. install-at plan s.node j p n lt found)
                      (Lays-move (installing_at plan s.node j) d (staged plan.transaction j)
                        (live (j + 1)) n h (ground (arith, found, ==_refl plan.transaction, lt)))))
                  (λ d h. resumable (installing j s.node (omega (arith, lt)) s.holds h)))
                (λ u. Runs-change (λ d. d) (λ d h. h) (λ d h. InstalledTo-Interrupted d h))).at
              w here

    install_slot-Runs :
        Runs 2
          (InstalledTo j)
          (install_slot plan.transaction j (j + 1) (expected plan.backups j))
          (λ u. InstalledTo (suc j))
          Stops
    install_slot-Runs = record {
      at = λ w s. elim (order j s.reached s.far) [
        | inl before ↦ install_again w s before
        | inr same ↦ install_new w s same
      ];
    }

  pub install_backups-Runs :
      IsPlan plan
      → (n j : ℕ) → j + n ≡ plan.count
      → Runs
          (2 * n)
          (InstalledTo j)
          (install_backups plan.transaction plan.backups j n)
          (λ u. InstalledTo plan.count)
          Stops
  unfolding install_backups
  install_backups-Runs is_plan zero j sum =
      let there : j ≡ plan.count = omega (arith, sum) in
      Runs-weaken _ (Runs-done tt (λ d s. s)) (omega arith) (λ d s. s)
        (λ u d s. subst (λ k. InstalledTo k d) there s)
  install_backups-Runs is_plan (suc n) j sum =
      let slot = install_slot-Runs is_plan j (omega (arith, sum)) in
      let one : suc j ≡ j + 1 = omega arith in
      Runs-weaken _
        (Runs-bind (install_slot plan.transaction j (j + 1) (expected plan.backups j))
          (λ u. install_backups plan.transaction plan.backups (j + 1) n)
          (subst
            (λ k.
              Runs 2 (InstalledTo j)
                (install_slot plan.transaction j (j + 1) (expected plan.backups j))
                (λ u. InstalledTo k) Stops)
            one slot)
          (λ u. install_backups-Runs is_plan n (j + 1) (omega (arith, sum))))
        (omega arith) (λ d s. s) (λ u d s. s)
