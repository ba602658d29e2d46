-- ===== src/Audit/Rotation/Recovery.antt =====
-- An interrupted rotation is completed by the next recovery, wherever it was interrupted, unless it
-- left the temporary manifest, which no recovery accepts.
use hp_guardian.Prelude.{
  ℕ, suc, ◌+◌, ◌*◌, String, true, ◌||◌, some, List, ◌≡◌, refl, sym, ap, ◌∙◌, subst, arith, ◌==◌,
  nat_eq, string_eq, ok,
}
use hp_guardian.Prelude.Map.{get}
use hp_guardian.Audit.Disk.{
  manifest, path_eq, Node, regular, Disk, World, ◌>>=◌, read_regular, bytes_of,
}
use hp_guardian.Audit.Rotation.{
  Codec, stage_slot, stage_backups, write_manifest, stage_all, install_all, complete,
  recover_manifest,
}
use hp_guardian.Audit.Rotation.Outcomes.{Outcome, Runs, Runs-bind, Runs-weaken}
use hp_guardian.Audit.Rotation.Layouts.{
  Plan, IsPlan, Lays, Lays-ext, staging_at, staged-at, final_at,
}
use hp_guardian.Audit.Rotation.Staging.{
  manifest_of, HoldsManifest, Resumable, staging, installing, cleaned, Interrupted, resumable,
  StagedTo, stage_slot-Runs, stage_backups-Runs,
}
use hp_guardian.Audit.Rotation.Installing.{InstalledTo, Cleaned}
use hp_guardian.Audit.Rotation.Finishing.{install_all-Runs}
use hp_guardian.Audit.Rotation.Again.{install_all-Runs_again}
use hp_guardian.Audit.Rotation.Manifests.{ReadsBackAt, ReadsBack, write_manifest-Runs}
use hp_guardian.Audit.Rotation.Indices.{IsSound, check_manifest-ok}

module _ (codec : Codec) (now : ℕ) (plan : Plan) (reads_back : ReadsBack codec plan)
    (is_plan : IsPlan plan) (is_sound : IsSound plan) where
  -- The end of a rotation, and where one may stop.
  abbrev pub End : Unit {0} → Disk → Type 0
  End u d = Lays (final_at plan) d

  abbrev pub Stop : Disk → Type 0
  Stop = Interrupted codec plan

  pub written-HoldsManifest :
      (phase : String) (bytes : List ℕ)
      → ReadsBackAt codec (manifest_of plan phase)
      → codec.encode (manifest_of plan phase) ≡ some bytes
      → HoldsManifest codec plan phase (regular bytes now)
  written-HoldsManifest phase bytes (same, w', r) w =
      let same_bytes : bytes ≡ same = ground (arith, w, w') in
      record { bytes = bytes; time = now; is_file = refl; decodes = ap codec.decode same_bytes ∙ r }

  -- The second manifest: everything is staged, and nothing is installed.
  second_manifest :
      (w : World)
      → StagedTo codec plan (suc plan.count) w.disk
      → Outcome 6
          (λ u. InstalledTo codec plan 0)
          Stop
          w.steps
          (write_manifest codec now (manifest_of plan "installing") w)
  second_manifest w s =
      let all_staged : s.reached ≡ suc plan.count = omega (arith, s.far, s.within) in
      let lays : Lays (staging_at plan s.node (suc plan.count)) w.disk =
        subst (λ k. Lays (staging_at plan s.node k) w.disk) all_staged s.lays in
      (Runs-weaken (write_manifest codec now (manifest_of plan "installing"))
          (write_manifest-Runs codec now plan "installing" reads_back.installing
            (staging_at plan s.node (suc plan.count)) refl
            (λ d h. resumable (staging (suc plan.count) s.node (omega arith) s.holds h))
            (λ d (bytes, e, h). resumable (
              installing 0 (regular bytes now) (omega arith)
                (written-HoldsManifest "installing" bytes reads_back.installing e)
                (Lays-ext _ _ d (staged-at plan s.node (regular bytes now)) h))))
          (omega arith) (λ d h. h)
          (λ u d (bytes, e, h). record {
            reached = 0;
            node = regular bytes now;
            far = omega arith;
            within = omega arith;
            holds = written-HoldsManifest "installing" bytes reads_back.installing e;
            lays = Lays-ext _ _ d (staged-at plan s.node (regular bytes now)) h;
          })).at
        w lays

  stage_all-Runs :
      Runs
        (2 * plan.count + 8)
        (StagedTo codec plan 0)
        (stage_all codec now (manifest_of plan "staging"))
        (λ u. InstalledTo codec plan 0)
        Stop
  unfolding stage_all
  stage_all-Runs =
      Runs-weaken _
        (Runs-bind (stage_slot plan.transaction 0 true)
          (λ u. do
            backups ← stage_backups plan.transaction plan.backups 1 plan.count
            write_manifest codec now (manifest_of plan "installing"))
          (stage_slot-Runs codec plan is_plan 0 (omega arith))
          (λ u.
            Runs-bind (stage_backups plan.transaction plan.backups 1 plan.count)
              (λ u. write_manifest codec now (manifest_of plan "installing"))
              (stage_backups-Runs codec plan is_plan plan.count 1 (omega arith) (omega arith))
              (λ u. record { at = second_manifest })))
        (omega arith) (λ d s. s) (λ u d s. s)

  read_regular-ok :
      (w : World) (bytes : List ℕ) (time : ℕ)
      → get w.disk manifest ≡ some (regular bytes time)
      → read_regular manifest w ≡ (ok bytes, w)
  read_regular-ok w bytes time e = rw e (ap (λ o. (bytes_of o, w)) e)

  -- The recovery finds the manifest, and its checks pass.
  recover_manifest-step :
      (phase : String) (w : World) (node : Node)
      → (phase == "staging" || phase == "installing") ≡ true
      → get w.disk manifest ≡ some node
      → HoldsManifest codec plan phase node
      → recover_manifest codec now w ≡ complete codec now (manifest_of plan phase) w
  unfolding recover_manifest
  recover_manifest-step phase w node right there h =
      rw
        (
          read_regular-ok w h.bytes h.time (there ∙ ap some h.is_file),
          h.decodes,
          check_manifest-ok codec now plan is_sound phase right,
        )
        refl

  complete_staging-Runs :
      Runs
        (4 * plan.count + 12)
        (StagedTo codec plan 0)
        (complete codec now (manifest_of plan "staging"))
        End
        Stop
  unfolding complete
  complete_staging-Runs =
      Runs-weaken _
        (Runs-bind (stage_all codec now (manifest_of plan "staging"))
          (λ u. install_all codec now (manifest_of plan "staging")) stage_all-Runs
          (λ u. install_all-Runs codec now plan is_plan "staging"))
        (omega arith) (λ d s. s) (λ u d s. s)

  complete_installing-Runs :
      Runs
        (4 * plan.count + 12)
        (InstalledTo codec plan 0)
        (complete codec now (manifest_of plan "installing"))
        End
        Stop
  unfolding complete
  complete_installing-Runs =
      Runs-weaken _ (install_all-Runs codec now plan is_plan "installing") (omega arith) (λ d s. s)
        (λ u d s. s)

  complete_again-Runs :
      Runs
        (4 * plan.count + 12)
        (Cleaned codec plan)
        (complete codec now (manifest_of plan "installing"))
        End
        Stop
  unfolding complete
  complete_again-Runs =
      Runs-weaken _ (install_all-Runs_again codec now plan is_plan "installing") (omega arith)
        (λ d s. s) (λ u d s. s)

  -- On each disk on which a rotation can have stopped, but for a temporary manifest, the recovery
  -- makes at most 4 calls for each backup and 12 more. On a machine that makes so many, it ends with
  -- every slot moved to the next one and nothing else left over; where the machine
  -- stops again, it leaves a disk that is untouched, that can be recovered, that is complete, or that holds a temporary manifest. The
  -- JSON library reads back the two manifests of the rotation, and the plan is sound.
  pub recover_manifest-Outcome :
      (w : World)
      → Resumable codec plan w.disk
      → Outcome (4 * plan.count + 12) End Stop w.steps (recover_manifest codec now w)
  recover_manifest-Outcome w (staging k node le holds lays) =
      subst (Outcome (4 * plan.count + 12) End Stop w.steps)
        (sym (recover_manifest-step "staging" w node refl (lays manifest) holds))
        (complete_staging-Runs.at w (record {
          reached = k;
          node = node;
          far = omega arith;
          within = le;
          holds = holds;
          lays = lays;
        }))
  recover_manifest-Outcome w (installing k node le holds lays) =
      subst (Outcome (4 * plan.count + 12) End Stop w.steps)
        (sym (recover_manifest-step "installing" w node refl (lays manifest) holds))
        (complete_installing-Runs.at w (record {
          reached = k;
          node = node;
          far = omega arith;
          within = le;
          holds = holds;
          lays = lays;
        }))
  recover_manifest-Outcome w (cleaned node holds lays) =
      subst (Outcome (4 * plan.count + 12) End Stop w.steps)
        (sym (recover_manifest-step "installing" w node refl (lays manifest) holds))
        (complete_again-Runs.at w (record { node = node; holds = holds; lays = lays }))

  pub recover_manifest-Runs :
      Runs (4 * plan.count + 12) (Resumable codec plan) (recover_manifest codec now) End Stop
  recover_manifest-Runs = record { at = recover_manifest-Outcome }
