-- ===== src/Tests/Rotations.antt =====
-- A rotation of two slots, from its start and from the middle.
use hp_guardian.Prelude.{
  ℕ, zero, suc, Option, none, some, List, [], ◌∷◌, ◌≡◌, refl, arith, if◌then◌else◌, ◌==◌, ==_iff,
  nat_eq, string_eq, list_eq,
}
use hp_guardian.Prelude.Map.{get}
use hp_guardian.Audit.Disk.{
  live, staged, manifest, temporary, lock, path_eq, Node, regular, Disk, World,
}
use hp_guardian.Audit.Rotation.{RotationManifest, Codec, recover_manifest, rotate_current}
use hp_guardian.Audit.Rotation.Outcomes.{Outcome}
use hp_guardian.Audit.Rotation.Layouts.{Plan, IsPlan, Lays, start_at, staging_at, final_at}
use hp_guardian.Audit.Rotation.Staging.{manifest_of, Interrupted, Resumable, staging}
use hp_guardian.Audit.Rotation.Manifests.{ReadsBack}
use hp_guardian.Audit.Rotation.Indices.{IsSound, present_in}
use hp_guardian.Audit.Rotation.Recovery.{recover_manifest-Outcome}
use hp_guardian.Audit.Rotation.Converge.{rotate_current-Outcome}

abbrev two_slots : ℕ → Option Node
two_slots zero = some (regular (65 ∷ 10 ∷ []) 1)
two_slots (suc zero) = some (regular (66 ∷ 10 ∷ []) 2)
two_slots (suc (suc n)) = none

abbrev small_plan : Plan
small_plan = record {
  transaction = "a1";
  count = 2;
  backups = 1 ∷ [];
  slots = two_slots;
  locked = none;
}

abbrev small_encode : RotationManifest → Option (List ℕ)
small_encode m = if m.phase == "staging" then some (1 ∷ []) else some (2 ∷ [])

abbrev small_decode : List ℕ → Option RotationManifest
small_decode bytes =
    if bytes == (1 ∷ [])
    then some (manifest_of small_plan "staging")
    else if bytes == (2 ∷ [])
    then some (manifest_of small_plan "installing")
    else none

abbrev pub small_codec : Codec
small_codec = record { encode = small_encode; decode = small_decode }

small-ReadsBack : ReadsBack small_codec small_plan
small-ReadsBack = record { staging = (1 ∷ [], refl, refl); installing = (2 ∷ [], refl, refl) }

small_plan-IsPlan : IsPlan small_plan
small_plan-IsPlan zero le = refl
small_plan-IsPlan (suc zero) le = refl
small_plan-IsPlan (suc (suc n)) le = ground (arith, le)

small_plan-listed : small_plan.backups ≡ present_in small_plan.backups 1 small_plan.count
unfolding present_in
small_plan-listed = refl

small_plan-IsSound : IsSound small_plan
small_plan-IsSound = record { named = refl; kept = omega arith; listed = small_plan-listed }

abbrev two_files : Disk
two_files = (live 0, regular (65 ∷ 10 ∷ []) 1) ∷ (live 1, regular (66 ∷ 10 ∷ []) 2) ∷ []

two_files-Lays : Lays (start_at small_plan) two_files
unfolding get
two_files-Lays (live zero) = refl
two_files-Lays (live (suc zero)) = refl
two_files-Lays (live (suc (suc n))) = ground arith
two_files-Lays (staged t i) = refl
two_files-Lays manifest = refl
two_files-Lays (temporary t) = refl
two_files-Lays lock = refl

abbrev staged_files : Disk
staged_files =
    (live 1, regular (66 ∷ 10 ∷ []) 2)
    ∷ (staged "a1" 0, regular (65 ∷ 10 ∷ []) 1)
    ∷ (manifest, regular (1 ∷ []) 7)
    ∷ []

staged_files-Lays : Lays (staging_at small_plan (regular (1 ∷ []) 7) 1) staged_files
unfolding get
staged_files-Lays (live zero) = refl
staged_files-Lays (live (suc zero)) = refl
staged_files-Lays (live (suc (suc n))) = ground arith
staged_files-Lays (staged t zero) = ground (arith, ==_iff t "a1", ==_iff "a1" t)
staged_files-Lays (staged t (suc n)) = ground arith
staged_files-Lays manifest = refl
staged_files-Lays (temporary t) = refl
staged_files-Lays lock = refl

staged_files-Resumable : Resumable small_codec small_plan staged_files
staged_files-Resumable =
    staging 1 (regular (1 ∷ []) 7) (omega arith)
      (record { bytes = 1 ∷ []; time = 7; is_file = refl; decodes = refl }) staged_files-Lays

abbrev ten_calls : Disk → World
ten_calls d = record { disk = d; steps = 10; torn = 0 }

recover_manifest-Outcome_example :
    Outcome 20
      (λ u. Lays (final_at small_plan))
      (Interrupted small_codec small_plan)
      10
      (recover_manifest small_codec 8 (ten_calls staged_files))
recover_manifest-Outcome_example =
    recover_manifest-Outcome small_codec 8 small_plan small-ReadsBack small_plan-IsPlan
      small_plan-IsSound (ten_calls staged_files) staged_files-Resumable

rotate_current-Outcome_example :
    Outcome 26
      (λ u. Lays (final_at small_plan))
      (Interrupted small_codec small_plan)
      10
      (rotate_current small_codec 8 "a1" 2 (ten_calls two_files))
rotate_current-Outcome_example =
    rotate_current-Outcome small_codec 8 small_plan small-ReadsBack small_plan-IsPlan
      small_plan-IsSound (ten_calls two_files) two_files-Lays
