-- ===== src/Audit/Rotation/Staging.antt =====
-- The loop that stages the slots, from any disk on which a run of it was interrupted.
use hp_guardian.Prelude.{
  ℕ, zero, suc, ◌+◌, ◌*◌, ◌≤◌, ◌<◌, String, Bool, true, false, Option, none, some, List, ◌≡◌, refl,
  sym, ap, ◌∙◌, subst, arith, ◌⊎◌, inl, inr, ==_refl, nat_eq, string_eq, ok,
}
use hp_guardian.Prelude.Map.{get}
use hp_guardian.Audit.Disk.{
  live, staged, temporary, path_eq, Node, regular, symlink, other, regular_node, Disk, World,
  rename, sync,
}
use hp_guardian.Audit.Rotation.{
  RotationManifest, Codec, contains, stage_step, stage_slot, stage_backups,
}
use hp_guardian.Audit.Rotation.Outcomes.{
  Outcome, finished, Runs, Runs-bind, Runs-change, Runs-weaken, Runs-done,
}
use hp_guardian.Audit.Rotation.Layouts.{
  Plan, expected, IsPlan, Lays, Lays-move, Lays-ext, start_at, staging_at, installing_at,
  cleaned_at, final_at, stage-at, skip-at,
}

-- The manifest of the rotation in a phase.
abbrev pub manifest_of : Plan → String → RotationManifest
manifest_of plan phase = record {
  format_version = 1;
  transaction_id = plan.transaction;
  max_rotated_files = plan.count;
  operation = "rotate";
  phase = phase;
  present = record { active = true; backups = plan.backups };
}

-- A slot that is a regular file, and one that is not there.
pub regular_node-true : (o : Option Node) → regular_node o ≡ ok true → (n : Node) × (o ≡ some n)
regular_node-true none h = cc
regular_node-true (some n) h = (n, refl)

pub regular_node-false : (o : Option Node) → regular_node o ≡ ok false → o ≡ none
regular_node-false none h = refl
regular_node-false (some (regular bytes time)) h = cc
regular_node-false (some symlink) h = cc
regular_node-false (some other) h = cc

pub order : (j k : ℕ) → j ≤ k → (j < k) ⊎ (j ≡ k)
order j k le = omega arith

module _ (codec : Codec) (plan : Plan) where
  -- The node under the manifest's name holds the manifest of a phase.
  pub record HoldsManifest (phase : String) (node : Node) : Type 0 where
    pub bytes : List ℕ
    pub time : ℕ
    pub is_file : node ≡ regular bytes time
    pub decodes : codec.decode bytes ≡ some (manifest_of plan phase)

  -- A disk from which a recovery can start: some slots staged, or all staged and some installed, or
  -- all installed with the manifest left.
  pub data Resumable (d : Disk) : Type 0 where
    staging :
        (k : ℕ) (m : Node)
        → k ≤ suc plan.count
        → HoldsManifest "staging" m
        → Lays (staging_at plan m k) d
        → Resumable d
    installing :
        (k : ℕ) (m : Node)
        → k ≤ plan.count
        → HoldsManifest "installing" m
        → Lays (installing_at plan m k) d
        → Resumable d
    cleaned : (m : Node) → HoldsManifest "installing" m → Lays (cleaned_at plan m) d → Resumable d

  -- What a rotation leaves where it stops: nothing done, a disk to resume from, everything done, or a
  -- manifest's temporary file.
  pub data Interrupted (d : Disk) : Type 0 where
    untouched : Lays (start_at plan) d → Interrupted d
    resumable : Resumable d → Interrupted d
    completed : Lays (final_at plan) d → Interrupted d
    leftover : (n : Node) → get d (temporary plan.transaction) ≡ some n → Interrupted d

  -- The slots below `j`, at least, are staged.
  pub record StagedTo (j : ℕ) (d : Disk) : Type 0 where
    pub reached : ℕ
    pub node : Node
    pub far : j ≤ reached
    pub within : reached ≤ suc plan.count
    pub holds : HoldsManifest "staging" node
    pub lays : Lays (staging_at plan node reached) d

  pub StagedTo-Interrupted : {j : ℕ} (d : Disk) → StagedTo j d → Interrupted d
  StagedTo-Interrupted d s = resumable (staging s.reached s.node s.within s.holds s.lays)

  stage_slot-step :
      (j : ℕ) (e s t : Bool) (w : World)
      → regular_node (get w.disk (live j)) ≡ ok s
      → regular_node (get w.disk (staged plan.transaction j)) ≡ ok t
      → stage_slot plan.transaction j e w ≡ stage_step plan.transaction j e s t w
  unfolding stage_slot
  stage_slot-step j e s t w a b = rw (a, b) refl

  module _ (is_plan : IsPlan plan) (j : ℕ) (le : j ≤ plan.count) where
    abbrev wanted : Bool
    wanted = expected plan.backups j

    -- A slot that was staged before is left.
    stage_again :
        (w : World) (s : StagedTo j w.disk)
        → j < s.reached
        → Outcome 2
            (λ u. StagedTo (suc j))
            Interrupted
            w.steps
            (stage_slot plan.transaction j wanted w)
    stage_again w s lt =
        let gone : get w.disk (live j) ≡ none = s.lays (live j) ∙ ground arith in
        let there : get w.disk (staged plan.transaction j) ≡ plan.slots j =
          s.lays (staged plan.transaction j) ∙ ground (arith, ==_refl plan.transaction) in
        subst (Outcome 2 (λ u. StagedTo (suc j)) Interrupted w.steps)
          (sym (
            stage_slot-step j wanted false wanted w (ap regular_node gone)
              (ap regular_node there ∙ is_plan j le)))
          (left wanted)
      where
        further : StagedTo (suc j) w.disk
        further = record {
          reached = s.reached;
          node = s.node;
          far = omega (arith, lt);
          within = s.within;
          holds = s.holds;
          lays = s.lays;
        }

        left :
            (b : Bool)
            → Outcome 2
                (λ u. StagedTo (suc j))
                Interrupted
                w.steps
                (stage_step plan.transaction j b false b w)
        left true = finished further (omega arith)
        left false = finished further (omega arith)

    -- A slot that is not staged yet is moved, if it is there.
    stage_new :
        (w : World) (s : StagedTo j w.disk)
        → j ≡ s.reached
        → Outcome 2
            (λ u. StagedTo (suc j))
            Interrupted
            w.steps
            (stage_slot plan.transaction j wanted w)
    stage_new w s same =
        let there : get w.disk (live j) ≡ plan.slots j = s.lays (live j) ∙ ground (arith, same) in
        let free : get w.disk (staged plan.transaction j) ≡ none =
          s.lays (staged plan.transaction j) ∙ ground (arith, same) in
        let here : Lays (staging_at plan s.node j) w.disk =
          subst (λ k. Lays (staging_at plan s.node k) w.disk) (sym same) s.lays in
        subst (Outcome 2 (λ u. StagedTo (suc j)) Interrupted w.steps)
          (sym (
            stage_slot-step j wanted wanted false w (ap regular_node there ∙ is_plan j le)
              (ap regular_node free)))
          (moved wanted refl here)
      where
        after : {d : Disk} → Lays (staging_at plan s.node (suc j)) d → StagedTo (suc j) d
        after h = record {
          reached = suc j;
          node = s.node;
          far = omega arith;
          within = omega (arith, le);
          holds = s.holds;
          lays = h;
        }

        moved :
            (b : Bool)
            → wanted ≡ b
            → Lays (staging_at plan s.node j) w.disk
            → Outcome 2
                (λ u. StagedTo (suc j))
                Interrupted
                w.steps
                (stage_step plan.transaction j b b false w)
        moved false missing here =
            finished
              (after (
                Lays-ext _ _ w.disk
                  (λ p.
                    skip-at plan s.node j p (regular_node-false _ (is_plan j le ∙ ap ok missing)))
                  here))
              (omega arith)
        moved true held here =
            let (n, found) = regular_node-true _ (is_plan j le ∙ ap ok held) in
            (Runs-bind {P = λ d. Lays (staging_at plan s.node j) d}
                (rename (live j) (staged plan.transaction j)) (λ u. sync)
                (Runs-change _
                  (λ d h. after (
                    Lays-ext _ _ _ (λ p. stage-at plan s.node j p n found)
                      (Lays-move (staging_at plan s.node j) d (live j) (staged plan.transaction j) n
                        h (ground (arith, found)))))
                  (λ d h. resumable (staging j s.node (omega (arith, le)) s.holds h)))
                (λ u. Runs-change (λ d. d) (λ d h. h) (λ d h. StagedTo-Interrupted d h))).at
              w here

    pub stage_slot-Runs :
        Runs 2
          (StagedTo j)
          (stage_slot plan.transaction j (expected plan.backups j))
          (λ u. StagedTo (suc j))
          Interrupted
    stage_slot-Runs = record {
      at = λ w s. elim (order j s.reached s.far) [
        | inl lt ↦ stage_again w s lt
        | inr same ↦ stage_new w s same
      ];
    }

  -- The loop over the backups stages the rest.
  pub stage_backups-Runs :
      IsPlan plan
      → (n j : ℕ) → 1 ≤ j
      → j + n ≡ suc plan.count
      → Runs
          (2 * n)
          (StagedTo j)
          (stage_backups plan.transaction plan.backups j n)
          (λ u. StagedTo (suc plan.count))
          Interrupted
  unfolding stage_backups
  stage_backups-Runs is_plan zero j pos sum =
      let there : j ≡ suc plan.count = omega (arith, sum) in
      Runs-weaken _ (Runs-done tt (λ d s. s)) (omega arith) (λ d s. s)
        (λ u d s. subst (λ k. StagedTo k d) there s)
  stage_backups-Runs is_plan (suc n) j pos sum =
      let slot = stage_slot-Runs is_plan j (omega (arith, sum)) in
      let listed : expected plan.backups j ≡ contains plan.backups j = ground (arith, pos) in
      let one : suc j ≡ j + 1 = omega arith in
      Runs-weaken _
        (Runs-bind (stage_slot plan.transaction j (contains plan.backups j))
          (λ u. stage_backups plan.transaction plan.backups (j + 1) n)
          (subst
            (λ b.
              Runs 2 (StagedTo j) (stage_slot plan.transaction j b) (λ u. StagedTo (j + 1))
                Interrupted)
            listed
            (subst
              (λ k.
                Runs 2 (StagedTo j) (stage_slot plan.transaction j (expected plan.backups j))
                  (λ u. StagedTo k) Interrupted)
              one slot))
          (λ u. stage_backups-Runs is_plan n (j + 1) (omega arith) (omega (arith, sum))))
        (omega arith) (λ d s. s) (λ u d s. s)
