-- ===== src/Audit/Log.antt =====
-- src/audit.rs: the audit log itself. Appending takes the lease, recovers what an earlier process
-- left, prunes and rotates the files, and writes one line.
pub mod Appended
pub mod Recovered
pub mod Torn
use hp_guardian.Prelude.{
  ℕ, zero, suc, ◌+◌, ◌-◌, String, Bool, true, false, not, ◌&&◌, ◌||◌, Option, none, some, List, [],
  ◌∷◌, ◌++◌, map, any, length, leb, ltb, if◌then◌else◌, ◌==◌, Eq, nat_eq, option_eq, Result, ok,
  err, ok_or,
}
use hp_guardian.Prelude.Map.{get, insert}
use hp_guardian.Parser.{ℤ, pos, negsuc}
use hp_guardian.Audit.Disk.{
  AuditError, io, serialization, lock_unavailable, corrupt, recovery_failed, closed,
  invalid_configuration, ManagedPath, path_eq, live, manifest, lock, is_rotation_name, Node,
  regular, Disk, World, Io, ◌>>=◌, then_run, done, fail, lift, take_bytes, change, change_or,
  remove_file, sync, validate_regular_or_absent, read, read_bytes,
}
use hp_guardian.Audit.Rotation.{Codec, recover_manifest, rotate_current}
use hp_guardian.Audit.Records.{AuditRecord}
use hp_guardian.Audit.Tails.{Json, tail_of}

pub record AuditLogConfig : Type 0 where
  pub max_bytes : Option ℕ
  pub max_age : Option ℤ
  pub max_rotated_files : ℕ

abbrev pub default_config : AuditLogConfig
default_config = record { max_bytes = none; max_age = none; max_rotated_files = 5 }

-- `age <= Duration::zero()`
abbrev pub is_short : Option ℤ → Bool
is_short none = false
is_short (some (pos zero)) = true
is_short (some (pos (suc n))) = false
is_short (some (negsuc n)) = true

unfoldable pub validate_config : AuditLogConfig → Result AuditError (Unit {0})
validate_config config =
    if config.max_bytes == some 0
    then err (invalid_configuration "max_bytes")
    else if is_short config.max_age
    then err (invalid_configuration "max_age")
    else if config.max_rotated_files == 0
    then err (invalid_configuration "max_rotated_files")
    else ok tt

-- `lease` tells whether the lock file is held.
pub record AuditLog : Type 0 where
  pub config : AuditLogConfig
  pub lease : Bool
  pub recovery_complete : Bool
  pub closed : Bool

unfoldable pub new_log : AuditLogConfig → Result AuditError AuditLog
unfolding validate_config
new_log config = elim (validate_config config) [
  | ok valid ↦
      ok (record { config = config; lease = false; recovery_complete = false; closed = false })
  | err e ↦ err e
]

abbrev pub close : AuditLog → AuditLog
close log = record {
  config = log.config;
  lease = false;
  recovery_complete = log.recovery_complete;
  closed = true;
}

-- `flock` on the lock file.
pub data Flock : Type 0 where
  granted would_block failed : Flock

abbrev pub flock_result : Flock → Result AuditError (Unit {0})
flock_result granted = ok tt
flock_result would_block = err lock_unavailable
flock_result failed = err io

-- `OpenOptions::create`
abbrev pub create_if_absent : ℕ → ManagedPath → Disk → Disk
create_if_absent now p d = elim (get d p) [ none ↦ insert d p (regular [] now) | some node ↦ d ]

abbrev pub append_bytes : ℕ → List ℕ → ManagedPath → Disk → Disk
append_bytes now line p d = elim (get d p) [
  | some (regular bytes modified) ↦ insert d p (regular (bytes ++ line) now)
  | _ ↦ d
]

-- `set_len` on the file that was read before.
abbrev pub set_len : ℕ → ℕ → ManagedPath → Disk → Disk
set_len now size p d = elim (get d p) [
  | some (regular bytes modified) ↦ insert d p (regular (take_bytes size bytes) now)
  | _ ↦ d
]

-- `now.signed_duration_since(modified) >= limit`
abbrev pub is_old : ℕ → ℕ → ℤ → Bool
is_old now modified (pos limit) = leb (modified + limit) now
is_old now modified (negsuc n) = leb modified (now + suc n)

abbrev pub is_expired : ℕ → ℤ → Option Node → Bool
is_expired now limit (some (regular bytes modified)) = is_old now modified limit
is_expired now limit _ = false

abbrev pub has_rotation_file : Disk → Bool
has_rotation_file d = any d (λ (p, node). is_rotation_name p)

-- `saturating_add` on the sizes, of 64 bits.
abbrev pub saturating_add : ℕ → ℕ → ℕ
saturating_add a b = if ltb 18446744073709551615 (a + b) then 18446744073709551615 else a + b

-- A call on the log: its answer, the log, and the disk.
abbrev pub Called : Type 0
Called = Result AuditError (Unit {0}) × AuditLog × World

abbrev pub leased : AuditLog → Result AuditError (Unit {0}) × World → Called
leased log (ok u, w) = (ok tt, record log { lease = true }, w)
leased log (err e, w) = (err e, log, w)

abbrev pub recovered : AuditLog → Result AuditError (Unit {0}) × World → Called
recovered log (ok u, w) = (ok tt, record log { recovery_complete = true }, w)
recovered log (err e, w) = (err e, record log { recovery_complete = false }, w)

abbrev pub and_then : Called → (AuditLog → World → Called) → Called
and_then (ok u, log, w) f = f log w
and_then (err e, log, w) f = (err e, log, w)

-- Who calls, and when: the clock, the lock, and the identity of the next rotation.
module _ (json : Json) (now : ℕ) (flock : Flock) (transaction : String) where
  unfoldable pub acquire_lease : Io (Unit {0})
  acquire_lease = do
    created ← sync
    valid ← validate_regular_or_absent lock
    opened ← change (create_if_absent now lock)
    permitted ← sync
    locked ← lift (flock_result flock)
    sync

  abbrev pub truncate : ManagedPath → Option ℕ → Io (Unit {0})
  truncate p none = done tt
  truncate p (some size) = do cut ← change (set_len now size p); flushed ← sync; sync

  unfoldable pub recover_tail : ManagedPath → Io (Unit {0})
  recover_tail p = do
    valid ← validate_regular_or_absent p
    content ← read_bytes p
    tail ← lift (tail_of json content)
    truncate p tail

  -- The log and its backups, from an index on.
  unfoldable pub recover_files : ℕ → ℕ → Io (Unit {0})
  recover_files index zero = done tt
  recover_files index (suc n) = do
    valid ← validate_regular_or_absent (live index)
    present ← read (λ d. ok (elim (get d (live index)) [ none ↦ false | some node ↦ true ]))
    recovered ← (if present then recover_tail (live index) else done tt)
    recover_files (index + 1) n

  unfoldable pub recover_tails : AuditLogConfig → Io (Unit {0})
  recover_tails config = do
    valid ← validate_regular_or_absent manifest
    present ← read (λ d. ok (elim (get d manifest) [ none ↦ false | some node ↦ true ]))
    rotated ← (if present then recover_manifest json.codec now else done tt)
    unexpected ← read (λ d. ok (has_rotation_file d))
    (if unexpected then fail recovery_failed else recover_files 0 (config.max_rotated_files + 1))

  -- The loop of `prune_expired_backups`.
  unfoldable pub prune_from : ℤ → ℕ → ℕ → Io (Unit {0})
  prune_from max_age index zero = done tt
  prune_from max_age index (suc n) = do
    valid ← validate_regular_or_absent (live index)
    expired ← read (λ d. ok (is_expired now max_age (get d (live index))))
    pruned ← (if expired then (do removed ← remove_file (live index); sync) else done tt)
    prune_from max_age (index + 1) n

  unfoldable pub prune_expired_backups : AuditLogConfig → Io (Unit {0})
  prune_expired_backups config = elim config.max_age [
    | none ↦ done tt
    | some max_age ↦ prune_from max_age 1 config.max_rotated_files
  ]

  abbrev pub needs_rotation : AuditLogConfig → ℕ → Option Node → Bool
  needs_rotation config next (some (regular bytes modified)) =
      ltb 0 (length bytes)
      && (elim config.max_bytes [
        | none ↦ false
        | some limit ↦ ltb limit (saturating_add (length bytes) next)
      ]
          || elim config.max_age [ none ↦ false | some limit ↦ is_old now modified limit ])
  needs_rotation config next _ = false

  unfoldable pub rotate_before_append : AuditLogConfig → ℕ → Io (Unit {0})
  rotate_before_append config next = do
    valid ← validate_regular_or_absent (live 0)
    needed ← read (λ d. ok (needs_rotation config next (get d (live 0))))
    (if needed
        then (do
          rotated ← rotate_current json.codec now transaction config.max_rotated_files
          prune_expired_backups config)
        else done tt)

  -- `write_all` on the log.
  unfoldable pub append_line : List ℕ → Io (Unit {0})
  append_line line w =
      change_or (append_bytes now line (live 0))
        (append_bytes now (take_bytes w.torn line) (live 0)) w

  -- `append` behind `rotate_before_append`.
  unfoldable pub write_line : List ℕ → Io (Unit {0})
  write_line line = do
    valid ← validate_regular_or_absent (live 0)
    opened ← change (create_if_absent now (live 0))
    permitted ← sync
    written ← append_line line
    flushed ← sync
    sync

  -- `append` behind `ensure_ready`.
  unfoldable pub append_record : AuditLogConfig → AuditRecord → Io (Unit {0})
  append_record config r = do
    encoded ← lift (ok_or (json.encode r) serialization)
    pruned ← prune_expired_backups config
    rotated ← rotate_before_append config (length (encoded ++ (10 ∷ [])))
    write_line (encoded ++ (10 ∷ []))

  unfoldable pub take_lease : AuditLog → World → Called
  take_lease log w = if log.lease then (ok tt, log, w) else leased log (acquire_lease w)

  unfoldable pub recover_once : AuditLog → World → Called
  recover_once log w =
      if log.recovery_complete then (ok tt, log, w) else recovered log (recover_tails log.config w)

  unfoldable pub ensure_ready : AuditLog → World → Called
  ensure_ready log w =
      if log.closed
      then (err AuditError.closed, log, w)
      else and_then (take_lease log w) recover_once

  unfoldable pub append : AuditLog → AuditRecord → World → Called
  append log r w =
      and_then (ensure_ready log w)
        (λ ready w'. let (answer, w'') = append_record ready.config r w' in (answer, ready, w''))
