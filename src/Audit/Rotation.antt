-- ===== src/Audit/Rotation.antt =====
-- src/audit.rs: the rotation of the audit file, written down in a manifest before any file is moved.
pub mod Outcomes
pub mod Layouts
pub mod Staging
pub mod Installing
pub mod Finishing
pub mod Again
pub mod Manifests
pub mod Indices
pub mod Recovery
pub mod Converge
use hp_guardian.Prelude.{
  ℕ, zero, suc, ◌+◌, ◌-◌, String, Bool, true, false, not, ◌&&◌, ◌||◌, Option, none, some, List, [],
  ◌∷◌, map, select, any, all, leb, ltb, if◌then◌else◌, ◌==◌, Eq, nat_eq, string_eq, list_eq, chars,
  Result, ok, err, ok_or,
}
use hp_guardian.Prelude.Map.{get, insert}
use hp_guardian.Parser.{lower, is_ascii_digit}
use hp_guardian.Audit.Disk.{
  AuditError, serialization, recovery_failed, ManagedPath, path_eq, live, staged, manifest,
  temporary, Node, regular, Disk, Io, ◌>>=◌, done, fail, lift, take_bytes, change, change_or,
  rename, remove_file, sync, regular_exists, read_regular,
}

pub record RotationPresent : Type 0 where
  pub active : Bool
  pub backups : List ℕ

pub record RotationManifest : Type 0 where
  pub format_version : ℕ
  pub transaction_id : String
  pub max_rotated_files : ℕ
  pub operation : String
  pub phase : String
  pub present : RotationPresent

-- What is used of the JSON library for manifests: `to_vec` and `from_slice`.
pub record Codec : Type 0 where
  pub encode : RotationManifest → Option (List ℕ)
  pub decode : List ℕ → Option RotationManifest

-- `char::is_ascii_alphanumeric`
abbrev pub is_alphanumeric : ℕ → Bool
is_alphanumeric c = is_ascii_digit c || (leb b'a' (lower c) && leb (lower c) b'z')

abbrev pub is_transaction_id : String → Bool
is_transaction_id id = all (select (λ c. not (c == b'-')) (chars id)) is_alphanumeric

-- The test at the start of `recover_manifest`, with the answer turned round.
unfoldable pub is_known : RotationManifest → Bool
is_known m =
    m.format_version == 1
    && m.operation == "rotate"
    && (m.phase == "staging" || m.phase == "installing")
    && m.present.active
    && not (m.max_rotated_files == 0)
    && is_transaction_id m.transaction_id
    && not (any m.present.backups (λ index. index == 0 || ltb m.max_rotated_files index))

-- `sort_unstable`
abbrev pub insert_sorted : ℕ → List ℕ → List ℕ
insert_sorted x [] = x ∷ []
insert_sorted x (y ∷ ys) = if leb x y then x ∷ y ∷ ys else y ∷ insert_sorted x ys

unfoldable pub sort : List ℕ → List ℕ
sort [] = []
sort (x ∷ xs) = insert_sorted x (sort xs)

-- `dedup`: one of each run of equal elements.
unfoldable pub dedup : List ℕ → List ℕ
dedup [] = []
dedup (x ∷ []) = x ∷ []
dedup (x ∷ y ∷ ys) = let rest = dedup (y ∷ ys) in if x == y then rest else x ∷ rest

abbrev pub contains : List ℕ → ℕ → Bool
contains indices index = any indices (λ i. i == index)

-- The branches of `stage_slot`, behind its two tests.
abbrev pub stage_step : String → ℕ → Bool → Bool → Bool → Io (Unit {0})
stage_step transaction slot expected source_exists stage_exists =
    if not expected
    then (if source_exists || stage_exists then fail recovery_failed else done tt)
    else if source_exists && stage_exists
    then fail recovery_failed
    else if source_exists
    then (do moved ← rename (live slot) (staged transaction slot); sync)
    else if stage_exists
    then done tt
    else fail recovery_failed

-- Slot 0 is the active file, slot `i` the backup `i`.
unfoldable pub stage_slot : String → ℕ → Bool → Io (Unit {0})
stage_slot transaction slot expected = do
  source_exists ← regular_exists (live slot)
  stage_exists ← regular_exists (staged transaction slot)
  stage_step transaction slot expected source_exists stage_exists

-- The branches of `install_slot`.
abbrev pub install_step : String → ℕ → ℕ → Bool → Bool → Bool → Io (Unit {0})
install_step transaction source target expected stage_exists target_exists =
    if not expected
    then (if stage_exists || target_exists then fail recovery_failed else done tt)
    else if stage_exists && target_exists
    then fail recovery_failed
    else if stage_exists
    then (do moved ← rename (staged transaction source) (live target); sync)
    else if target_exists
    then done tt
    else fail recovery_failed

unfoldable pub install_slot : String → ℕ → ℕ → Bool → Io (Unit {0})
install_slot transaction source target expected = do
  stage_exists ← regular_exists (staged transaction source)
  target_exists ← regular_exists (live target)
  install_step transaction source target expected stage_exists target_exists

-- `for index in 1..=max_rotated_files`, from an index on, with the number of indices that are left.
unfoldable pub stage_backups : String → List ℕ → ℕ → ℕ → Io (Unit {0})
stage_backups transaction backups index zero = done tt
stage_backups transaction backups index (suc n) = do
  slot ← stage_slot transaction index (contains backups index)
  stage_backups transaction backups (index + 1) n

-- The slot before the index is its source; the active file is always expected.
unfoldable pub install_backups : String → List ℕ → ℕ → ℕ → Io (Unit {0})
install_backups transaction backups source zero = done tt
install_backups transaction backups source (suc n) = do
  slot ← install_slot transaction source (source + 1) (source == 0 || contains backups source)
  install_backups transaction backups (source + 1) n

module _ (codec : Codec) (now : ℕ) where
  -- `write_all` on the temporary file.
  unfoldable pub write_temporary : String → List ℕ → Io (Unit {0})
  write_temporary t bytes w =
      change_or (λ d. insert d (temporary t) (regular bytes now))
        (λ d. insert d (temporary t) (regular (take_bytes w.torn bytes) now)) w

  -- `write_manifest` behind its test for a temporary file.
  unfoldable pub write_steps : RotationManifest → Io (Unit {0})
  write_steps m = do
    created ← change (λ d. insert d (temporary m.transaction_id) (regular [] now))
    synced ← sync
    bytes ← lift (ok_or (codec.encode m) serialization)
    written ← write_temporary m.transaction_id bytes
    flushed ← sync
    renamed ← rename (temporary m.transaction_id) manifest
    sync

  unfoldable pub write_manifest : RotationManifest → Io (Unit {0})
  write_manifest m = do
    exists ← regular_exists (temporary m.transaction_id)
    (if exists then fail recovery_failed else write_steps m)

  -- `recover_manifest` behind the checks of the manifest.
  unfoldable pub stage_all : RotationManifest → Io (Unit {0})
  stage_all m = do
    active ← stage_slot m.transaction_id 0 true
    backups ← stage_backups m.transaction_id m.present.backups 1 m.max_rotated_files
    write_manifest (record m { phase = "installing" })

  unfoldable pub drop_oldest : RotationManifest → Io (Unit {0})
  drop_oldest m = do
    exists ← regular_exists (staged m.transaction_id m.max_rotated_files)
    (if exists
        then (do removed ← remove_file (staged m.transaction_id m.max_rotated_files); sync)
        else done tt)

  unfoldable pub install_all : RotationManifest → Io (Unit {0})
  install_all m = do
    installed ← install_backups m.transaction_id m.present.backups 0 m.max_rotated_files
    dropped ← drop_oldest m
    removed ← remove_file manifest
    sync

  unfoldable pub complete : RotationManifest → Io (Unit {0})
  complete m = do staging ← (if m.phase == "staging" then stage_all m else done tt); install_all m

  unfoldable pub check_manifest : RotationManifest → Result AuditError (Unit {0})
  check_manifest m =
      if not (is_known m)
      then err recovery_failed
      else if not (dedup (sort m.present.backups) == m.present.backups)
      then err recovery_failed
      else ok tt

  unfoldable pub recover_manifest : Io (Unit {0})
  recover_manifest = do
    bytes ← read_regular manifest
    m ← lift (ok_or (codec.decode bytes) recovery_failed)
    checked ← lift (check_manifest m)
    complete m

  -- The indices of the backups that are there.
  unfoldable pub present_backups : ℕ → ℕ → Io (List ℕ)
  present_backups index zero = done []
  present_backups index (suc n) = do
    exists ← regular_exists (live index)
    rest ← present_backups (index + 1) n
    done (if exists then index ∷ rest else rest)

  -- The transaction id is the text of the clock's nanoseconds.
  unfoldable pub rotate_current : String → ℕ → Io (Unit {0})
  rotate_current transaction max_rotated_files = do
    backups ← present_backups 1 max_rotated_files
    written ← write_manifest (record {
      format_version = 1;
      transaction_id = transaction;
      max_rotated_files = max_rotated_files;
      operation = "rotate";
      phase = "staging";
      present = record { active = true; backups = backups };
    })
    recover_manifest
