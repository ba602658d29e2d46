-- ===== src/Audit/Rotation/Layouts.antt =====
-- The disks that a rotation goes through, name by name.
use hp_guardian.Prelude.{
  ℕ, suc, ◌+◌, ◌-◌, ◌≤◌, ◌<◌, String, Bool, ◌&&◌, ◌||◌, Option, none, some, List, ◌≡◌, refl, ap,
  ◌∙◌, arith, if◌then◌else◌, ltb, leb, ◌==◌, ==_iff, nat_eq, string_eq, ok,
}
use hp_guardian.Prelude.Map.{get, insert, remove, get-insert, get-remove}
use hp_guardian.Audit.Disk.{
  ManagedPath, live, staged, manifest, temporary, lock, path_eq, Node, regular_node, Disk, move,
}
use hp_guardian.Audit.Rotation.{contains}

-- A rotation of `count` backups: its transaction, the indices of the backups that were there, and
-- what stood in each slot.
pub record Plan : Type 0 where
  pub transaction : String
  pub count : ℕ
  pub backups : List ℕ
  pub slots : ℕ → Option Node
  pub locked : Option Node

abbrev pub expected : List ℕ → ℕ → Bool
expected backups slot = slot == 0 || contains backups slot

-- The active file and the listed backups are regular files, and the other backups are not there.
abbrev pub IsPlan : Plan → Type 0
IsPlan plan =
    (slot : ℕ)
    → slot ≤ plan.count
    → regular_node (plan.slots slot) ≡ ok (expected plan.backups slot)

abbrev pub Layout : Type 0
Layout = ManagedPath → Option Node

-- The disk is laid out so.
abbrev pub Lays : Layout → Disk → Type 0
Lays e d = (p : ManagedPath) → get d p ≡ e p

abbrev pub put : Layout → ManagedPath → Option Node → Layout
put e p o q = if p == q then o else e q

pub Lays-insert :
    (e : Layout) (d : Disk) (p : ManagedPath) (n : Node)
    → Lays e d
    → Lays (put e p (some n)) (insert d p n)
Lays-insert e d p n h q = get-insert d p q n ∙ ap (λ o. if p == q then some n else o) (h q)

pub Lays-remove :
    (e : Layout) (d : Disk) (p : ManagedPath) → Lays e d → Lays (put e p none) (remove d p)
Lays-remove e d p h q = get-remove d p q ∙ ap (λ o. if p == q then none else o) (h q)

pub Lays-move :
    (e : Layout) (d : Disk) (p q : ManagedPath) (n : Node)
    → Lays e d
    → e p ≡ some n
    → Lays (put (put e p none) q (some n)) (move p q d)
unfolding move
Lays-move e d p q n h found =
    let there : get d p ≡ some n = h p ∙ found in
    rw (there, move) (Lays-insert (put e p none) (remove d p) q n (Lays-remove e d p h))

pub Lays-ext : (e f : Layout) (d : Disk) → ((p : ManagedPath) → e p ≡ f p) → Lays e d → Lays f d
Lays-ext e f d same h p = h p ∙ same p

module _ (plan : Plan) where
  -- Before the rotation.
  abbrev pub start_at : Layout
  start_at (live i) = plan.slots i
  start_at lock = plan.locked
  start_at _ = none

  -- The slots below `k` are staged.
  abbrev pub staging_at : Node → ℕ → Layout
  staging_at m k (live i) = if ltb i k then none else plan.slots i
  staging_at m k (staged t i) = if t == plan.transaction && ltb i k then plan.slots i else none
  staging_at m k manifest = some m
  staging_at m k (temporary t) = none
  staging_at m k lock = plan.locked

  -- The log and the backups, when the staged slots below `k` are installed.
  abbrev pub installed : ℕ → ℕ → Option Node
  installed k i =
      if i == 0
      then none
      else if leb i k
      then plan.slots (i - 1)
      else if leb i plan.count
      then none
      else plan.slots i

  abbrev pub installing_at : Node → ℕ → Layout
  installing_at m k (live i) = installed k i
  installing_at m k (staged t i) =
      if t == plan.transaction && (leb k i && leb i plan.count) then plan.slots i else none
  installing_at m k manifest = some m
  installing_at m k (temporary t) = none
  installing_at m k lock = plan.locked

  -- All slots are installed and the oldest is gone; the manifest is left.
  abbrev pub cleaned_at : Node → Layout
  cleaned_at m (live i) = installed plan.count i
  cleaned_at m manifest = some m
  cleaned_at m lock = plan.locked
  cleaned_at m _ = none

  -- The end: each backup holds what the slot before it held, and the log is free.
  abbrev pub final_at : Layout
  final_at (live i) = installed plan.count i
  final_at lock = plan.locked
  final_at _ = none

  pub stage-at :
      (m : Node) (k : ℕ) (p : ManagedPath) (n : Node)
      → plan.slots k ≡ some n
      → put (put (staging_at m k) (live k) none) (staged plan.transaction k) (some n) p
        ≡ staging_at m (suc k) p
  stage-at m k (live i) n e = ground arith
  stage-at m k (staged t i) n e =
      ground (arith, ==_iff t plan.transaction, ==_iff plan.transaction t)
  stage-at m k manifest n e = refl
  stage-at m k (temporary t) n e = refl
  stage-at m k lock n e = refl

  pub skip-at :
      (m : Node) (k : ℕ) (p : ManagedPath)
      → plan.slots k ≡ none
      → staging_at m k p ≡ staging_at m (suc k) p
  skip-at m k (live i) e = grind arith
  skip-at m k (staged t i) e = grind arith
  skip-at m k manifest e = refl
  skip-at m k (temporary t) e = refl
  skip-at m k lock e = refl

  pub staged-at :
      (m m' : Node) (p : ManagedPath)
      → put (staging_at m (suc plan.count)) manifest (some m') p ≡ installing_at m' 0 p
  staged-at m m' (live i) = ground arith
  staged-at m m' (staged t i) = ground arith
  staged-at m m' manifest = refl
  staged-at m m' (temporary t) = refl
  staged-at m m' lock = refl

  pub install-at :
      (m : Node) (k : ℕ) (p : ManagedPath) (n : Node)
      → k < plan.count
      → plan.slots k ≡ some n
      → put (put (installing_at m k) (staged plan.transaction k) none) (live (k + 1)) (some n) p
        ≡ installing_at m (suc k) p
  install-at m k (live i) n lt e = grind arith
  install-at m k (staged t i) n lt e =
      ground (arith, ==_iff t plan.transaction, ==_iff plan.transaction t)
  install-at m k manifest n lt e = refl
  install-at m k (temporary t) n lt e = refl
  install-at m k lock n lt e = refl

  pub install_none-at :
      (m : Node) (k : ℕ) (p : ManagedPath)
      → k < plan.count
      → plan.slots k ≡ none
      → installing_at m k p ≡ installing_at m (suc k) p
  install_none-at m k (live i) lt e = grind arith
  install_none-at m k (staged t i) lt e = grind arith
  install_none-at m k manifest lt e = refl
  install_none-at m k (temporary t) lt e = refl
  install_none-at m k lock lt e = refl

  pub clean-at :
      (m : Node) (p : ManagedPath)
      → put (installing_at m plan.count) (staged plan.transaction plan.count) none p
        ≡ cleaned_at m p
  clean-at m (live i) = refl
  clean-at m (staged t i) = ground (arith, ==_iff t plan.transaction, ==_iff plan.transaction t)
  clean-at m manifest = refl
  clean-at m (temporary t) = refl
  clean-at m lock = refl

  pub clean_none-at :
      (m : Node) (p : ManagedPath)
      → plan.slots plan.count ≡ none
      → installing_at m plan.count p ≡ cleaned_at m p
  clean_none-at m (live i) e = refl
  clean_none-at m (staged t i) e = grind arith
  clean_none-at m manifest e = refl
  clean_none-at m (temporary t) e = refl
  clean_none-at m lock e = refl

  pub final-at : (m : Node) (p : ManagedPath) → put (cleaned_at m) manifest none p ≡ final_at p
  final-at m (live i) = refl
  final-at m (staged t i) = refl
  final-at m manifest = refl
  final-at m (temporary t) = refl
  final-at m lock = refl
