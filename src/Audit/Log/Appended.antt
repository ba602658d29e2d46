-- ===== src/Audit/Log/Appended.antt =====
-- What an append that succeeds has written.
use hp_guardian.Prelude.{
  ℕ, String, Bool, true, false, some, List, [], ◌∷◌, ◌++◌, ◌≡◌, refl, sym, ap, ◌∙◌, subst, Result,
  ok, err, ok_or, ok_or-eq-ok, if◌then◌else◌, length, Option-cases, inl, inr,
}
use hp_guardian.Prelude.Map.{get, get-insert_same}
use hp_guardian.Audit.Disk.{
  AuditError, serialization, ManagedPath, path_eq, live, regular, symlink, other, Disk, World, lift,
  take_bytes, change, sync, validate_node, validate_regular_or_absent,
}
use hp_guardian.Audit.Records.{AuditRecord}
use hp_guardian.Audit.Tails.{Json}
use hp_guardian.Audit.Log.{
  AuditLog, AuditLogConfig, Flock, create_if_absent, append_bytes, prune_expired_backups,
  rotate_before_append, write_line, append_line, append_record, Called, leased, recovered, and_then,
  take_lease, acquire_lease, recover_once, recover_tails, ensure_ready, append,
}
use hp_guardian.Audit.Yields.{
  Yields, Success, Success-ok, Yields-bind, Yields-read, Yields-change, Yields-change_or,
  Yields-any, Yields-weaken,
}

-- A regular file with these bytes.
abbrev pub Holds : Disk → ManagedPath → List ℕ → Type 0
Holds d p bytes = (time : ℕ) × (get d p ≡ some (regular bytes time))

pub create-Holds :
    (now : ℕ) (p : ManagedPath) (d : Disk)
    → validate_node (get d p) ≡ ok tt
    → (bytes : List ℕ) × Holds (create_if_absent now p d) p bytes
create-Holds now p d h = elim (Option-cases (get d p)) [
  | inl absent ↦ ([], (now, rw (create_if_absent, absent) (get-insert_same d p (regular [] now))))
  | inr (regular bytes time, there) ↦ (bytes, (time, rw (create_if_absent, there) there))
  | inr (symlink, there) ↦ cc (h, there)
  | inr (other, there) ↦ cc (h, there)
]

pub append_bytes-Holds :
    (now : ℕ) (line : List ℕ) (p : ManagedPath) (d : Disk) (bytes : List ℕ)
    → Holds d p bytes
    → get (append_bytes now line p d) p ≡ some (regular (bytes ++ line) now)
append_bytes-Holds now line p d bytes (t, h) =
    rw (append_bytes, h) (get-insert_same d p (regular (bytes ++ line) now))

-- The log, when it is ready.
abbrev pub ready : AuditLog → AuditLog
ready log = record { config = log.config; lease = true; recovery_complete = true; closed = false }

module _ (json : Json) (now : ℕ) where
  -- The log ends with the line.
  abbrev pub EndsWith : List ℕ → Disk → Type 0
  EndsWith line d = (prior : List ℕ) × (get d (live 0) ≡ some (regular (prior ++ line) now))

  -- The line of the record.
  abbrev pub Recorded : AuditRecord → Disk → Type 0
  Recorded r d =
      (encoded : List ℕ) × (json.encode r ≡ some encoded) × EndsWith (encoded ++ (10 ∷ [])) d

module _ (json : Json) (now : ℕ) (flock : Flock) (transaction : String) where
  abbrev IsOpen : Disk → Type 0
  IsOpen d = (bytes : List ℕ) × Holds d (live 0) bytes

  write_line-Yields :
      (line : List ℕ)
      → Yields
          (λ d. Unit {0})
          (write_line json now flock transaction line)
          (λ u. EndsWith json now line)
  unfolding write_line append_line
  write_line-Yields line =
      Yields-bind {Q = λ u d. validate_node (get d (live 0)) ≡ ok tt}
        (validate_regular_or_absent (live 0)) _
        (Yields-read (λ d. validate_node (get d (live 0))) (λ d p u e. e))
        (λ u.
          Yields-bind {Q = λ u. IsOpen} (change (create_if_absent now (live 0))) _
            (Yields-change (create_if_absent now (live 0)) (λ d e. create-Holds now (live 0) d e))
            (λ u. Yields-bind {Q = λ u. IsOpen} sync _ (Yields-change (λ d. d) (λ d h. h)) (λ u.
              Yields-bind {Q = λ u. EndsWith json now line}
                (append_line json now flock transaction line) _
                (Yields-change_or (append_bytes now line (live 0))
                  (λ t. append_bytes now (take_bytes t line) (live 0))
                  (λ d (bytes, h). (bytes, append_bytes-Holds now line (live 0) d bytes h)))
                (λ u.
                  Yields-bind {Q = λ u. EndsWith json now line} sync _
                    (Yields-change (λ d. d) (λ d h. h)) (λ u. Yields-change (λ d. d) (λ d h. h))))))

  append_record-Yields :
      (config : AuditLogConfig) (r : AuditRecord)
      → Yields
          (λ d. Unit {0})
          (append_record json now flock transaction config r)
          (λ u. Recorded json now r)
  unfolding append_record
  append_record-Yields config r =
      Yields-bind {Q = λ encoded d. json.encode r ≡ some encoded}
        (lift (ok_or (json.encode r) serialization)) _
        (Yields-read (λ d. ok_or (json.encode r) serialization)
          (λ d p encoded e. ok_or-eq-ok (json.encode r) serialization e))
        (λ encoded. record {
          at = λ w e.
              (Yields-bind (prune_expired_backups json now flock transaction config) _
                  (Yields-any _)
                  (λ u.
                    Yields-bind
                      (rotate_before_append json now flock transaction config
                        (length (encoded ++ (10 ∷ []))))
                      _ (Yields-any _)
                      (λ u.
                        Yields-weaken (write_line json now flock transaction (encoded ++ (10 ∷ [])))
                          (write_line-Yields (encoded ++ (10 ∷ []))) (λ d p. tt)
                          (λ u d h. (encoded, e, h))))).at
                w tt;
        })

  and_then-ok :
      (c : Called) (f : AuditLog → World → Called) {log' : AuditLog} {w' : World}
      → and_then c f ≡ (ok tt, log', w')
      → (log : AuditLog) × (w : World) × (c ≡ (ok tt, log, w)) × (f log w ≡ (ok tt, log', w'))
  and_then-ok (ok u, log, w) f e = (log, w, refl, e)
  and_then-ok (err x, log, w) f e = cc

  leased-ok :
      (log : AuditLog) (r : Result AuditError (Unit {0}) × World) {log' : AuditLog} {w' : World}
      → leased log r ≡ (ok tt, log', w')
      → log' ≡ record log { lease = true }
  leased-ok log (ok u, w) e = cc e
  leased-ok log (err x, w) e = cc

  recovered-ok :
      (log : AuditLog) (r : Result AuditError (Unit {0}) × World) {log' : AuditLog} {w' : World}
      → recovered log r ≡ (ok tt, log', w')
      → log' ≡ record log { recovery_complete = true }
  recovered-ok log (ok u, w) e = cc e
  recovered-ok log (err x, w) e = cc

  take_lease-cases :
      (b : Bool) (log : AuditLog) (w : World) {log' : AuditLog} {w' : World}
      → log.lease ≡ b
      → (if b then (ok tt, log, w) else leased log (acquire_lease json now flock transaction w))
        ≡ (ok tt, log', w')
      → log' ≡ record log { lease = true }
  take_lease-cases true log w {log' = log'} held e =
      let same : log' ≡ log = cc e in same ∙ ap (λ b. record log { lease = b }) held
  take_lease-cases false log w free e = leased-ok log (acquire_lease json now flock transaction w) e

  recover_once-cases :
      (b : Bool) (log : AuditLog) (w : World) {log' : AuditLog} {w' : World}
      → log.recovery_complete ≡ b
      → (if b
          then (ok tt, log, w)
          else recovered log (recover_tails json now flock transaction log.config w))
        ≡ (ok tt, log', w')
      → log' ≡ record log { recovery_complete = true }
  recover_once-cases true log w {log' = log'} held e =
      let same : log' ≡ log = cc e in same ∙ ap (λ b. record log { recovery_complete = b }) held
  recover_once-cases false log w again e =
      recovered-ok log (recover_tails json now flock transaction log.config w) e

  ensure_ready-cases :
      (b : Bool) (log : AuditLog) (w : World) {log' : AuditLog} {w' : World}
      → log.closed ≡ b
      → (if b
          then (err AuditError.closed, log, w)
          else and_then
              (take_lease json now flock transaction log w)
              (recover_once json now flock transaction))
        ≡ (ok tt, log', w')
      → (log.closed ≡ false) × (log' ≡ ready log)
  unfolding take_lease recover_once
  ensure_ready-cases true log w shut e = cc e
  ensure_ready-cases false log w {log' = log'} opened e =
      let (log1, w1, e1, r1) =
        and_then-ok (take_lease json now flock transaction log w)
          (recover_once json now flock transaction) e in
      let first : log1 ≡ record log { lease = true } = take_lease-cases log.lease log w refl e1 in
      let second : log' ≡ record log1 { recovery_complete = true } =
        recover_once-cases log1.recovery_complete log1 w1 refl r1 in
      let third : record log1 { recovery_complete = true }
          ≡ record log { lease = true; recovery_complete = true } =
        ap {A = AuditLog} {B = AuditLog} (λ l. record l { recovery_complete = true }) first in
      let last : record log { lease = true; recovery_complete = true } ≡ ready log =
        ap {A = Bool} {B = AuditLog} (λ b. record (ready log) { closed = b }) opened in
      (opened, second ∙ third ∙ last)

  -- An append that succeeds was made on a log that is open, and leaves it holding the lease and
  -- recovered, with its configuration; the audit file then ends with the encoded record and a newline.
  pub append-ok :
      (log log' : AuditLog) (r : AuditRecord) (w w' : World)
      → append json now flock transaction log r w ≡ (ok tt, log', w')
      → (log.closed ≡ false) × (log' ≡ ready log) × Recorded json now r w'.disk
  unfolding append ensure_ready
  append-ok log log' r w w' e =
      let (log1, w1, e1, r1) =
        and_then-ok (ensure_ready json now flock transaction log w)
          (λ ready w'.
            let (answer, w'') = append_record json now flock transaction ready.config r w' in
            (answer, ready, w''))
          e in
      let (opened, same) = ensure_ready-cases log.closed log w refl e1 in
      let ran : append_record json now flock transaction log1.config r w1 ≡ (ok tt, w') =
        ap (λ c. (c.0, c.2)) r1 in
      let kept : log1 ≡ log' = ap (λ c. c.1) r1 in
      let recorded = Success-ok {Q = λ u. Recorded json now r} tt w' (
        subst (Success (λ u. Recorded json now r)) ran
          ((append_record-Yields log1.config r).at w1 tt)) in
      (opened, sym kept ∙ same, recorded)
