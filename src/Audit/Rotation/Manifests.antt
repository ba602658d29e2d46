-- ===== src/Audit/Rotation/Manifests.antt =====
-- A manifest is written beside the place where it takes effect, and renamed into it.
use hp_guardian.Prelude.{
  ℕ, String, none, some, List, [], ◌≡◌, refl, sym, ap, ◌∙◌, subst, arith, ==_iff, ==_refl,
  string_eq, ok_or,
}
use hp_guardian.Prelude.Map.{get, insert}
use hp_guardian.Audit.Disk.{
  serialization, ManagedPath, manifest, temporary, path_eq, Node, regular, Disk, World, lift,
  change, take_bytes, rename, sync,
}
use hp_guardian.Audit.Rotation.{
  RotationManifest, Codec, write_temporary, write_steps, write_manifest,
}
use hp_guardian.Audit.Rotation.Outcomes.{
  Outcome, Runs, Runs-bind, Runs-change, Runs-change_or, Runs-read,
}
use hp_guardian.Audit.Rotation.Layouts.{Plan, Layout, Lays, put, Lays-insert, Lays-move, Lays-ext}
use hp_guardian.Audit.Rotation.Staging.{manifest_of, Interrupted, leftover}

-- The JSON library writes the manifest, and reads back what it wrote.
abbrev pub ReadsBackAt : Codec → RotationManifest → Type 0
ReadsBackAt codec m =
    (bytes : List ℕ) × (codec.encode m ≡ some bytes) × (codec.decode bytes ≡ some m)

-- It does so for the two manifests of a rotation.
pub record ReadsBack (codec : Codec) (plan : Plan) : Type 0 where
  pub staging : ReadsBackAt codec (manifest_of plan "staging")
  pub installing : ReadsBackAt codec (manifest_of plan "installing")

module _ (codec : Codec) (now : ℕ) (plan : Plan) (phase : String)
    (reads_back : ReadsBackAt codec (manifest_of plan phase)) (e : Layout)
    (free : e (temporary plan.transaction) ≡ none) where
  abbrev m : RotationManifest
  m = manifest_of plan phase

  -- The manifest is in its place.
  abbrev pub Written : Disk → Type 0
  Written d =
      (bytes : List ℕ) × (codec.encode m ≡ some bytes)
      × Lays (put e manifest (some (regular bytes now))) d

  record HasTemporary (d : Disk) : Type 0 where
    node : Node
    lays : Lays (put e (temporary plan.transaction) (some node)) d

  HasTemporary-Interrupted : (d : Disk) → HasTemporary d → Interrupted codec plan d
  HasTemporary-Interrupted d h =
      leftover h.node
        (h.lays (temporary plan.transaction) ∙ ground (arith, ==_refl (temporary plan.transaction)))

  again :
      (n n' : Node) (p : ManagedPath)
      → put (put e (temporary plan.transaction) (some n)) (temporary plan.transaction) (some n') p
        ≡ put e (temporary plan.transaction) (some n') p
  again n n' p = ground arith

  in_place :
      (n : Node) (p : ManagedPath)
      → put
          (put (put e (temporary plan.transaction) (some n)) (temporary plan.transaction) none)
          manifest
          (some n)
          p
        ≡ put e manifest (some n) p
  in_place n p = ground (arith, ==_iff (temporary plan.transaction) p, free, ap e)

  module _ (before : (d : Disk) → Lays e d → Interrupted codec plan d)
      (after : (d : Disk) → Written d → Interrupted codec plan d) where
    write_steps-Runs :
        Runs 6 (Lays e) (write_steps codec now m) (λ u. Written) (Interrupted codec plan)
    unfolding write_steps write_temporary
    write_steps-Runs =
        Runs-bind {Q = λ u. HasTemporary}
          (change (λ d. insert d (temporary plan.transaction) (regular [] now))) _
          (Runs-change _ (λ d h. record { node = regular [] now; lays = Lays-insert e d _ _ h })
            before)
          (λ u.
            Runs-bind {Q = λ u. HasTemporary} sync _
              (Runs-change (λ d. d) (λ d h. h) HasTemporary-Interrupted)
              (λ u.
                Runs-bind {Q = λ b d. HasTemporary d × (codec.encode m ≡ some b)}
                  (lift (ok_or (codec.encode m) serialization)) _
                  (Runs-read (λ d. ok_or (codec.encode m) serialization)
                    (λ d h.
                      let (bytes, w, r) = reads_back in
                      (bytes, ap (λ o. ok_or o serialization) w, (h, w))))
                  (λ bytes.
                    Runs-bind
                      {Q = λ u d.
                        Lays (put e (temporary plan.transaction) (some (regular bytes now))) d
                        × (codec.encode m ≡ some bytes)}
                      (write_temporary codec now plan.transaction bytes) _
                      (Runs-change_or _ _
                        (λ d (h, w). (
                          Lays-ext _ _ _ (again h.node (regular bytes now))
                              (Lays-insert _ d _ _ h.lays),
                          w,
                        ))
                        (λ d t (h, w). HasTemporary-Interrupted _ (record {
                          node = regular (take_bytes t bytes) now;
                          lays =
                              Lays-ext _ _ _ (again h.node (regular (take_bytes t bytes) now))
                                (Lays-insert _ d _ _ h.lays);
                        })))
                      (λ u.
                        Runs-bind
                          {Q = λ u d.
                            Lays (put e (temporary plan.transaction) (some (regular bytes now))) d
                            × (codec.encode m ≡ some bytes)}
                          sync _
                          (Runs-change (λ d. d) (λ d h. h)
                            (λ d (h, w).
                              HasTemporary-Interrupted d
                                (record { node = regular bytes now; lays = h })))
                          (λ u.
                            Runs-bind {Q = λ u. Written}
                              (rename (temporary plan.transaction) manifest) (λ u. sync)
                              (Runs-change _
                                (λ d (h, w). (
                                  bytes,
                                  w,
                                  Lays-ext _ _ _ (in_place (regular bytes now)) (
                                      Lays-move _ d _ _ (regular bytes now) h
                                        (ground (arith, ==_refl (temporary plan.transaction)))),
                                ))
                                (λ d (h, w).
                                  HasTemporary-Interrupted d
                                    (record { node = regular bytes now; lays = h })))
                              (λ u. Runs-change (λ d. d) (λ d h. h) after))))))

    write_manifest-step :
        (w : World)
        → get w.disk (temporary plan.transaction) ≡ none
        → write_manifest codec now m w ≡ write_steps codec now m w
    unfolding write_manifest
    write_manifest-step w absent = rw absent refl

    pub write_manifest-Runs :
        Runs 6 (Lays e) (write_manifest codec now m) (λ u. Written) (Interrupted codec plan)
    write_manifest-Runs = record {
      at = λ w h.
          subst (Outcome 6 (λ u. Written) (Interrupted codec plan) w.steps)
            (sym (write_manifest-step w (h (temporary plan.transaction) ∙ free)))
            (write_steps-Runs.at w h);
    }
