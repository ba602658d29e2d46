-- ===== src/Tests/Logs.antt =====
-- A log with a torn line: its recovery, and an append to it.
use hp_guardian.Prelude.{
  ℕ, zero, suc, arith, ◌≤◌, true, false, none, some, List, [], ◌∷◌, ◌≡◌, ◌↔◌, refl, if◌then◌else◌,
  ◌==◌, nat_eq, list_eq, ok, err,
}
use hp_guardian.Prelude.Map.{get, insert}
use hp_guardian.Audit.Disk.{AuditError, live, lock, path_eq, regular, World, change, change_or}
use hp_guardian.Audit.Records.{AuditRecord, activation_record}
use hp_guardian.Engine.{with_version}
use hp_guardian.Models.{deny}
use hp_guardian.Audit.Tails.{Json, tail_of}
use hp_guardian.Audit.Tails.Recovers.{Recovers, tail_of_iff}
use hp_guardian.Audit.Log.{
  AuditLog, AuditLogConfig, default_config, granted, acquire_lease, recover_tail, recover_files,
  has_rotation_file, recover_tails, prune_expired_backups, rotate_before_append, append_line,
  write_line, append_record, take_lease, recover_once, ensure_ready, append,
}
use hp_guardian.Audit.Log.Appended.{ready, Recorded, append-ok}
use hp_guardian.Audit.Log.Torn.{IsUnfinished, LeftMended, write_line-Outcome}
use hp_guardian.Audit.Log.Appended.{Holds}
use hp_guardian.Audit.Tails.Lines.{print_lines}
use hp_guardian.Audit.Tails.Recovers.{IsRecord}
use hp_guardian.Audit.Rotation.Outcomes.{Outcome}
use hp_guardian.Audit.Log.Recovered.{HasRecords, recover_tails-ok}
use hp_guardian.Tests.Rotations.{small_codec}

-- The only object is `{}`.
abbrev pub braces : List ℕ
braces = 123 ∷ 125 ∷ []

abbrev pub small_json : Json
small_json = record {
  codec = small_codec;
  encode = λ r. some braces;
  is_object = λ bytes. if bytes == braces then some true else none;
  is_utf8 = λ bytes. true;
}

abbrev torn_content : List ℕ
torn_content = 123 ∷ 125 ∷ 10 ∷ 123 ∷ []

torn_size : tail_of small_json torn_content ≡ ok (some 3)
unfolding tail_of
torn_size = refl

no_line : tail_of small_json (123 ∷ []) ≡ err AuditError.corrupt
unfolding tail_of
no_line = refl

tail_of_iff_example :
    (tail_of small_json torn_content ≡ ok (some 3)) ↔ Recovers small_json torn_content (some 3)
tail_of_iff_example = tail_of_iff small_json torn_content (some 3)

abbrev pub two_backups : AuditLogConfig
two_backups = record default_config { max_rotated_files = 2 }

abbrev pub new_log : AuditLog
new_log = record { config = two_backups; lease = false; recovery_complete = false; closed = false }

abbrev pub torn_world : World
torn_world = record { disk = (live 0, regular torn_content 1) ∷ []; steps = 20; torn = 0 }

abbrev mended_world : World
mended_world = record {
  disk = (live 0, regular (123 ∷ 125 ∷ 10 ∷ []) 5) ∷ [];
  steps = 17;
  torn = 0;
}

recovered_world :
    recover_tails small_json 5 granted "t" two_backups torn_world ≡ (ok tt, mended_world)
unfolding recover_tails recover_files recover_tail tail_of change get insert
recovered_world = refl

recover_tails-ok_example :
    (has_rotation_file mended_world.disk ≡ false)
    × ((index : ℕ) → index ≤ 2 → HasRecords small_json mended_world.disk (live index))
recover_tails-ok_example =
    recover_tails-ok small_json 5 granted "t" two_backups torn_world mended_world recovered_world

abbrev some_record : AuditRecord
some_record =
    activation_record (record { version = 1; digest = "d"; engine = with_version [] deny 1 [] }) 5

abbrev longer_world : World
longer_world = record {
  disk = (live 0, regular (123 ∷ 125 ∷ 10 ∷ 123 ∷ 125 ∷ 10 ∷ []) 5) ∷ (lock, regular [] 5) ∷ [];
  steps = 8;
  torn = 0;
}

appended_world :
    append small_json 5 granted "t" new_log some_record torn_world
    ≡ (ok tt, ready new_log, longer_world)
unfolding append ensure_ready take_lease acquire_lease recover_once recover_tails recover_files
    recover_tail tail_of change get insert append_record prune_expired_backups rotate_before_append
    write_line append_line change_or
appended_world = refl

append-ok_example :
    (new_log.closed ≡ false)
    × (ready new_log ≡ ready new_log)
    × Recorded small_json 5 some_record longer_world.disk
append-ok_example =
    append-ok small_json 5 granted "t" new_log (ready new_log) some_record torn_world longer_world
      appended_world

abbrev stopping_world : World
stopping_world = record {
  disk = (live 0, regular (123 ∷ 125 ∷ 10 ∷ []) 1) ∷ [];
  steps = 2;
  torn = 1;
}

stopping_world-Holds : Holds stopping_world.disk (live 0) (print_lines (braces ∷ []))
unfolding get
stopping_world-Holds = (1, refl)

braces-IsRecord : IsRecord small_json braces
braces-IsRecord = record { is_line = (refl, (refl, tt)); is_filled = λ e. cc e; is_object = refl }

braces-IsUnfinished : IsUnfinished small_json (braces ∷ []) braces
braces-IsUnfinished zero lt some_byte = absurd (some_byte refl)
braces-IsUnfinished (suc zero) lt some_byte = (refl, refl)
braces-IsUnfinished (suc (suc k)) lt some_byte = absurd (omega (arith, lt))

write_line-Outcome_example :
    Outcome 5
      (λ u d. Holds d (live 0) (print_lines (braces ∷ braces ∷ [])))
      (LeftMended small_json (braces ∷ []) braces)
      2
      (write_line small_json 5 granted "t" (123 ∷ 125 ∷ 10 ∷ []) stopping_world)
write_line-Outcome_example =
    write_line-Outcome small_json (braces ∷ []) braces 5 granted "t" (λ e. cc e)
      (braces-IsRecord, tt) braces-IsRecord braces-IsUnfinished stopping_world stopping_world-Holds
