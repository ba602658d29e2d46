-- ===== src/Audit/Yields.antt =====
-- What holds of the disk where a run has succeeded.
use hp_guardian.Prelude.{ℕ, zero, suc, Bool, true, false, ◌≡◌, refl, Result, ok, err, if◌then◌else◌}
use hp_guardian.Audit.Disk.{AuditError, Disk, World, Io, then_run, change, change_or}

pub data Success {A : Type 0} (Q : A → Disk → Type 0) : Result AuditError A × World → Type 0 where
  succeeded : {a : A} {w : World} → Q a w.disk → Success Q (ok a, w)
  failed : {x : AuditError} {w : World} → Success Q (err x, w)

-- A run of `m` from any world whose disk is in `P`.
pub record Yields {A : Type 0} (P : Disk → Type 0) (m : Io A) (Q : A → Disk → Type 0) : Type 0 where
  pub at : (w : World) → P w.disk → Success Q (m w)

pub Success-ok :
    {A : Type 0} {Q : A → Disk → Type 0} (a : A) (w : World) → Success Q (ok a, w) → Q a w.disk
Success-ok a w (succeeded q) = q

module _ {A B : Type 0} {Q : A → Disk → Type 0} {R : B → Disk → Type 0} where
  Success-then_run :
      (r : Result AuditError A × World) (f : A → Io B)
      → Success Q r
      → ((a : A) → Yields (Q a) (f a) R)
      → Success R (then_run r f)
  Success-then_run (ok a, w) f (succeeded q) next = (next a).at w q
  Success-then_run (err x, w) f failed next = failed

  pub Yields-bind :
      {P : Disk → Type 0} (m : Io A) (f : A → Io B)
      → Yields P m Q
      → ((a : A) → Yields (Q a) (f a) R)
      → Yields P (λ w. then_run (m w) f) R
  Yields-bind m f first next = record { at = λ w p. Success-then_run (m w) f (first.at w p) next }

module _ {A : Type 0} {Q : A → Disk → Type 0} where
  Success-read :
      (r : Result AuditError A) (w : World) → ((a : A) → r ≡ ok a → Q a w.disk) → Success Q (r, w)
  Success-read (ok a) w h = succeeded (h a refl)
  Success-read (err x) w h = failed

  Success-weaken :
      {Q' : A → Disk → Type 0} (r : Result AuditError A × World)
      → ((a : A) (d : Disk) → Q' a d → Q a d)
      → Success Q' r
      → Success Q r
  Success-weaken (ok a, w) imp (succeeded q) = succeeded (imp a w.disk q)
  Success-weaken (err x, w) imp failed = failed

module _ {Q : Unit {0} → Disk → Type 0} where
  change-Success :
      (f : Disk → Disk) (d : Disk) (n t : ℕ)
      → Q tt (f d)
      → Success Q (change f (record { disk = d; steps = n; torn = t }))
  unfolding change
  change-Success f d zero t q = failed
  change-Success f d (suc n) t q = succeeded q

  change_or-Success :
      (f half : Disk → Disk) (d : Disk) (n t : ℕ)
      → Q tt (f d)
      → Success Q (change_or f half (record { disk = d; steps = n; torn = t }))
  unfolding change_or
  change_or-Success f half d zero t q = failed
  change_or-Success f half d (suc n) t q = succeeded q

module _ {A : Type 0} {P : Disk → Type 0} {Q : A → Disk → Type 0} where
  pub Yields-done : (a : A) → ((d : Disk) → P d → Q a d) → Yields P (λ w. (ok a, w)) Q
  Yields-done a h = record { at = λ w p. succeeded (h w.disk p) }

  pub Yields-fail : (x : AuditError) → Yields P (λ w. (err x, w)) Q
  Yields-fail x = record { at = λ w p. failed }

  pub Yields-read :
      (f : Disk → Result AuditError A)
      → ((d : Disk) → P d → (a : A) → f d ≡ ok a → Q a d)
      → Yields P (λ w. (f w.disk, w)) Q
  Yields-read f h = record { at = λ w p. Success-read (f w.disk) w (h w.disk p) }

  pub Yields-if :
      (b : Bool) (m n : Io A)
      → (b ≡ true → Yields P m Q)
      → (b ≡ false → Yields P n Q)
      → Yields P (if b then m else n) Q
  Yields-if true m n left right = left refl
  Yields-if false m n left right = right refl

  pub Yields-weaken :
      {P' : Disk → Type 0} {Q' : A → Disk → Type 0} (m : Io A)
      → Yields P' m Q'
      → ((d : Disk) → P d → P' d)
      → ((a : A) (d : Disk) → Q' a d → Q a d)
      → Yields P m Q
  Yields-weaken m h pre post = record {
    at = λ w p. Success-weaken (m w) post (h.at w (pre w.disk p));
  }

Success-any : {A : Type 0} (r : Result AuditError A × World) → Success (λ a d. Unit {0}) r
Success-any (ok a, w) = succeeded tt
Success-any (err x, w) = failed

-- A run of which nothing is asked.
pub Yields-any : {A : Type 0} (m : Io A) → Yields (λ d. Unit {0}) m (λ a d. Unit {0})
Yields-any m = record { at = λ w p. Success-any (m w) }

module _ {P : Disk → Type 0} {Q : Unit {0} → Disk → Type 0} where
  pub Yields-change : (f : Disk → Disk) → ((d : Disk) → P d → Q tt (f d)) → Yields P (change f) Q
  Yields-change f h = record { at = λ w p. change-Success f w.disk w.steps w.torn (h w.disk p) }

  pub Yields-change_or :
      (f : Disk → Disk) (half : ℕ → Disk → Disk)
      → ((d : Disk) → P d → Q tt (f d))
      → Yields P (λ w. change_or f (half w.torn) w) Q
  Yields-change_or f half h = record {
    at = λ w p. change_or-Success f (half w.torn) w.disk w.steps w.torn (h w.disk p);
  }
