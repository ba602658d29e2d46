-- ===== src/Audit/Disk.antt =====
-- What src/audit.rs uses of the file system: the managed names beside the log, and the calls on them.
-- A machine that stops is a number of calls that will still succeed: the next one fails, and a
-- write that fails can leave a beginning of its bytes. What was written before a stop is kept.
use hp_guardian.Prelude.{
  ℕ, zero, suc, String, Bool, true, false, ◌&&◌, Option, none, some, List, [], ◌∷◌, ◌≡◌, ◌↔◌, arith,
  ◌==◌, ==_iff, Eq, nat_eq, string_eq, Result, ok, err,
}
use hp_guardian.Prelude.Map.{Map, get, insert, remove}
use hp_guardian.Models.{PolicyError}

-- The texts of the library's errors are left out. `io` is an error of the file system.
pub data AuditError : Type 0 where
  io serialization no_active_policy lock_unavailable corrupt recovery_failed recovery_unsupported
        closed :
      AuditError
  policy : PolicyError → AuditError
  invalid_configuration : String → AuditError
  outcome_detail_too_long : ℕ → ℕ → AuditError

-- The names beside the log. Slot 0 is the log itself, slot `i` the backup `i`; a staged slot has the
-- name of its transaction.
pub data ManagedPath : Type 0 where
  live : ℕ → ManagedPath
  staged : String → ℕ → ManagedPath
  manifest : ManagedPath
  temporary : String → ManagedPath
  lock : ManagedPath

abbrev pub beq_path : ManagedPath → ManagedPath → Bool
beq_path (live i) (live j) = i == j
beq_path (staged t i) (staged u j) = t == u && i == j
beq_path manifest manifest = true
beq_path (temporary t) (temporary u) = t == u
beq_path lock lock = true
beq_path _ _ = false

pub beq_path_iff : (p q : ManagedPath) → (beq_path p q ≡ true) ↔ (p ≡ q)
beq_path_iff (staged t i) (staged u j) = ground (arith, ==_iff t u)
beq_path_iff (temporary t) (temporary u) = ground (arith, ==_iff t u)
beq_path_iff p q = ground arith

instance abbrev pub path_eq : Eq ManagedPath
path_eq = record { beq = beq_path; beq_iff = beq_path_iff }

-- The names that begin with the name of the log and `.rotation.`.
abbrev pub is_rotation_name : ManagedPath → Bool
is_rotation_name (live i) = false
is_rotation_name lock = false
is_rotation_name _ = true

-- What stands under a name: a regular file with its bytes and the instant of its last change, a
-- symbolic link, or something else.
pub data Node : Type 0 where
  regular : List ℕ → ℕ → Node
  symlink : Node
  other : Node

abbrev pub Disk : Type 0
Disk = Map ManagedPath Node

pub record World : Type 0 where
  pub disk : Disk
  pub steps : ℕ
  pub torn : ℕ

abbrev pub Io : Type 0 → Type 0
Io A = World → Result AuditError A × World

abbrev pub done : {A : Type 0} → A → Io A
done a w = (ok a, w)

abbrev pub fail : {A : Type 0} → AuditError → Io A
fail e w = (err e, w)

abbrev pub then_run :
    {A B : Type 0} → Result AuditError A × World → (A → Io B) → Result AuditError B × World
then_run (ok a, w) f = f a w
then_run (err e, w) f = (err e, w)

-- `?` on a call.
infixl 5 ◌>>=◌
abbrev pub ◌>>=◌ : {A B : Type 0} → Io A → (A → Io B) → Io B
(m >>= f) w = then_run (m w) f

abbrev pub lift : {A : Type 0} → Result AuditError A → Io A
lift r w = (r, w)

-- One call that changes the disk, or nothing but may fail.
unfoldable pub change : (Disk → Disk) → Io (Unit {0})
change f w = elim w.steps [
  | zero ↦ (err io, w)
  | suc n ↦ (ok tt, record w { disk = f w.disk; steps = n })
]

-- A change that leaves `half` of itself on a machine that stops at it.
unfoldable pub change_or : (Disk → Disk) → (Disk → Disk) → Io (Unit {0})
change_or f half w = elim w.steps [
  | zero ↦ (err io, record w { disk = half w.disk })
  | suc n ↦ (ok tt, record w { disk = f w.disk; steps = n })
]

abbrev pub read : {A : Type 0} → (Disk → Result AuditError A) → Io A
read f w = (f w.disk, w)

-- The bytes that a torn write leaves.
abbrev pub take_bytes : ℕ → List ℕ → List ℕ
take_bytes zero bytes = []
take_bytes (suc n) [] = []
take_bytes (suc n) (b ∷ bytes) = b ∷ take_bytes n bytes

-- `fs::rename`, called where the source was found before
unfoldable pub move : ManagedPath → ManagedPath → Disk → Disk
move source target d = elim (get d source) [
  | none ↦ d
  | some node ↦ insert (remove d source) target node
]

abbrev pub rename : ManagedPath → ManagedPath → Io (Unit {0})
rename source target = change (move source target)

abbrev pub remove_file : ManagedPath → Io (Unit {0})
remove_file p = change (λ d. remove d p)

-- `sync_all` on a file or on the directory.
abbrev pub sync : Io (Unit {0})
sync = change (λ d. d)

-- `validate_regular_or_absent`
abbrev pub validate_node : Option Node → Result AuditError (Unit {0})
validate_node none = ok tt
validate_node (some (regular bytes modified)) = ok tt
validate_node (some symlink) = err io
validate_node (some other) = err io

abbrev pub validate_regular_or_absent : ManagedPath → Io (Unit {0})
validate_regular_or_absent p = read (λ d. validate_node (get d p))

-- `regular_exists`
abbrev pub regular_node : Option Node → Result AuditError Bool
regular_node none = ok false
regular_node (some (regular bytes modified)) = ok true
regular_node (some symlink) = err recovery_failed
regular_node (some other) = err recovery_failed

abbrev pub regular_exists : ManagedPath → Io Bool
regular_exists p = read (λ d. regular_node (get d p))

abbrev pub bytes_of : Option Node → Result AuditError (List ℕ)
bytes_of (some (regular bytes modified)) = ok bytes
bytes_of _ = err io

-- `open_read_nofollow` and `read_to_end`
abbrev pub read_bytes : ManagedPath → Io (List ℕ)
read_bytes p = read (λ d. bytes_of (get d p))

-- `read_regular`
abbrev pub read_regular : ManagedPath → Io (List ℕ)
read_regular p = do valid ← validate_regular_or_absent p; read_bytes p
