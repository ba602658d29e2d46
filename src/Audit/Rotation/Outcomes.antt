-- ===== src/Audit/Rotation/Outcomes.antt =====
-- What a run on a machine that can stop has to show: with enough calls it ends well, and wherever it
-- stops the disk is one that a later run can start from.
use hp_guardian.Prelude.{ℕ, zero, suc, ◌+◌, ◌≤◌, ◌<◌, ◌≡◌, sym, subst, arith, Result, ok, err}
use hp_guardian.Audit.Disk.{AuditError, io, Disk, path_eq, World, Io, then_run, change, change_or}

-- `cost` bounds the calls; `Q` is the disk of a run that ends, `E` that of one that is stopped.
pub data Outcome {A : Type 0} (cost : ℕ) (Q : A → Disk → Type 0) (E : Disk → Type 0) (steps : ℕ)
    : Result AuditError A × World → Type 0 where
  finished :
      {a : A} {w : World} → Q a w.disk → steps ≤ w.steps + cost → Outcome cost Q E steps (ok a, w)
  stopped : {w : World} → E w.disk → steps < cost → Outcome cost Q E steps (err io, w)

-- A run of `m` from any world whose disk is in `P`.
pub record Runs {A : Type 0} (cost : ℕ) (P : Disk → Type 0) (m : Io A) (Q : A → Disk → Type 0)
    (E : Disk → Type 0) : Type 0 where
  pub at : (w : World) → P w.disk → Outcome cost Q E w.steps (m w)

Outcome-later :
    {B : Type 0} {R : B → Disk → Type 0} {E : Disk → Type 0} (c : ℕ) {d steps left : ℕ}
    (r : Result AuditError B × World)
    → steps ≤ left + c
    → Outcome d R E left r
    → Outcome (c + d) R E steps r
Outcome-later c (ok b, w') le (finished r le') = finished r (omega (arith, le, le'))
Outcome-later c (err e, w') le (stopped s lt) = stopped s (omega (arith, le, lt))

Outcome-weaken :
    {A : Type 0} {Q : A → Disk → Type 0} {E : Disk → Type 0} {c d steps : ℕ}
    {Q' : A → Disk → Type 0} (r : Result AuditError A × World)
    → c ≤ d
    → ((a : A) (x : Disk) → Q' a x → Q a x)
    → Outcome c Q' E steps r
    → Outcome d Q E steps r
Outcome-weaken (ok a, w') le imp (finished q le') =
    finished (imp a w'.disk q) (omega (arith, le, le'))
Outcome-weaken (err e, w') le imp (stopped s lt) = stopped s (omega (arith, le, lt))

pub Outcome-stop :
    {A : Type 0} {Q : A → Disk → Type 0} {E E' : Disk → Type 0} {c steps : ℕ}
    (r : Result AuditError A × World)
    → ((x : Disk) → E' x → E x)
    → Outcome c Q E' steps r
    → Outcome c Q E steps r
Outcome-stop (ok a, w) imp (finished q le) = finished q le
Outcome-stop (err e, w) imp (stopped s lt) = stopped (imp w.disk s) lt

change-at :
    {Q : Unit {0} → Disk → Type 0} {E : Disk → Type 0} (f : Disk → Disk) (d : Disk) (n t : ℕ)
    → Q tt (f d)
    → E d
    → Outcome 1 Q E n (change f (record { disk = d; steps = n; torn = t }))
unfolding change
change-at f d zero t after before = stopped before (omega arith)
change-at f d (suc n) t after before = finished after (omega arith)

change_or-at :
    {Q : Unit {0} → Disk → Type 0} {E : Disk → Type 0} (f half : Disk → Disk) (d : Disk) (n t : ℕ)
    → Q tt (f d)
    → E (half d)
    → Outcome 1 Q E n (change_or f half (record { disk = d; steps = n; torn = t }))
unfolding change_or
change_or-at f half d zero t after before = stopped before (omega arith)
change_or-at f half d (suc n) t after before = finished after (omega arith)

module _ {A B : Type 0} {Q : A → Disk → Type 0} {R : B → Disk → Type 0} {E : Disk → Type 0} where
  Outcome-then_run :
      {c d steps : ℕ} (r : Result AuditError A × World) (f : A → Io B)
      → Outcome c Q E steps r
      → ((a : A) → Runs d (Q a) (f a) R E)
      → Outcome (c + d) R E steps (then_run r f)
  Outcome-then_run (ok a, w) f (finished q le) next = Outcome-later _ (f a w) le ((next a).at w q)
  Outcome-then_run (err e, w) f (stopped s lt) next = stopped s (omega (arith, lt))

  pub Runs-bind :
      {c d : ℕ} {P : Disk → Type 0} (m : Io A) (f : A → Io B)
      → Runs c P m Q E
      → ((a : A) → Runs d (Q a) (f a) R E)
      → Runs (c + d) P (λ w. then_run (m w) f) R E
  Runs-bind m f first next = record { at = λ w p. Outcome-then_run (m w) f (first.at w p) next }

module _ {A : Type 0} {P : Disk → Type 0} {Q : A → Disk → Type 0} {E : Disk → Type 0} where
  pub Runs-done : (a : A) → ((d : Disk) → P d → Q a d) → Runs 0 P (λ w. (ok a, w)) Q E
  Runs-done a h = record { at = λ w p. finished (h w.disk p) (omega arith) }

  -- A reading that cannot fail on these disks.
  pub Runs-read :
      (f : Disk → Result AuditError A)
      → ((d : Disk) → P d → (a : A) × (f d ≡ ok a) × Q a d)
      → Runs 0 P (λ w. (f w.disk, w)) Q E
  Runs-read f h = record {
    at = λ w p.
        let (a, e, q) = h w.disk p in
        subst (λ r. Outcome 0 Q E w.steps (r, w)) (sym e) (finished q (omega arith));
  }

  pub Runs-weaken :
      {c d : ℕ} {P' : Disk → Type 0} {Q' : A → Disk → Type 0} (m : Io A)
      → Runs c P' m Q' E
      → c ≤ d
      → ((x : Disk) → P x → P' x)
      → ((a : A) (x : Disk) → Q' a x → Q a x)
      → Runs d P m Q E
  Runs-weaken m h le pre imp = record {
    at = λ w p. Outcome-weaken (m w) le imp (h.at w (pre w.disk p));
  }

module _ {P : Disk → Type 0} {Q : Unit {0} → Disk → Type 0} {E : Disk → Type 0} where
  pub Runs-change :
      (f : Disk → Disk)
      → ((d : Disk) → P d → Q tt (f d))
      → ((d : Disk) → P d → E d)
      → Runs 1 P (change f) Q E
  Runs-change f after before = record {
    at = λ w p. change-at f w.disk w.steps w.torn (after w.disk p) (before w.disk p);
  }

  -- A change that can leave a part of itself.
  pub Runs-change_or :
      (f : Disk → Disk) (half : ℕ → Disk → Disk)
      → ((d : Disk) → P d → Q tt (f d))
      → ((d : Disk) (t : ℕ) → P d → E (half t d))
      → Runs 1 P (λ w. change_or f (half w.torn) w) Q E
  Runs-change_or f half after before = record {
    at = λ w p.
        change_or-at f (half w.torn) w.disk w.steps w.torn (after w.disk p)
          (before w.disk w.torn p);
  }
