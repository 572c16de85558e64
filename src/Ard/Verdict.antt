-- ===== src/Ard/Verdict.antt =====
-- What the verdict of a report says about its checks.
use ardvark.Prelude.{
  ◌≡◌, ◌↔◌, refl, sym, ◌∙◌, inl, inr, Bool, true, false, ◌&&◌, ◌||◌, not, List, [], ◌∷◌, ◌++◌, Text,
  any, Bool-cases, Unicode, arith, if◌then◌else◌,
}
use ardvark.Ard.Document.{Check, Severity, error, warning, ℤ}
use ardvark.Ard.Report.{
  Verdict, valid, valid_with_warnings, invalid, roll_loop, roll_up, failed_error, is_error,
  merge_checks, Report, transport_checks,
}

abbrev pub failed : Check → Bool
failed c = not c.passed

-- The verdict of the checks that have failed.
abbrev pub verdict_of : List Check → Verdict
verdict_of checks =
    if any failed_error checks
    then invalid
    else if any failed checks
    then valid_with_warnings
    else valid

abbrev from_flag : Bool → List Check → Verdict
from_flag warned checks =
    if any failed_error checks
    then invalid
    else if warned || any failed checks
    then valid_with_warnings
    else valid

roll_loop_lem :
    (warned : Bool) (checks : List Check) → roll_loop warned checks ≡ from_flag warned checks
unfolding roll_loop any
roll_loop_lem true [] = refl
roll_loop_lem false [] = refl
roll_loop_lem warned (check ∷ checks) =
    step warned check.passed check.severity (roll_loop_lem warned checks)
      (roll_loop_lem true checks)
  where
    step :
        (warned passed : Bool) (s : Severity)
        → roll_loop warned checks ≡ from_flag warned checks
        → roll_loop true checks ≡ from_flag true checks
        → elim passed as (λ x. Verdict) [
          | true ↦ roll_loop warned checks
          | false ↦ elim s as (λ x. Verdict) [ error ↦ invalid | warning ↦ roll_loop true checks ]
        ]
          ≡ (if (not passed && is_error s) || any failed_error checks
              then invalid
              else if warned || (not passed || any failed checks)
              then valid_with_warnings
              else valid)
    step warned true s a b = a
    step warned false error a b = refl
    step true false warning a b = b
    step false false warning a b = b

any-append :
    {A : Type 0} (p : A → Bool) (xs ys : List A) → any p (xs ++ ys) ≡ (any p xs || any p ys)
unfolding any
any-append p [] ys = refl
any-append p (x ∷ xs) ys = rw (any-append p xs ys) (ground arith)

-- A report is invalid if a check of error severity has failed, valid with warnings if other checks
-- alone have failed, and valid if none has; in a report with checks merged into it the verdict is
-- that of all the checks together.
pub merge_checks-verdict_of :
    (r : Report) (extra : List Check)
    → (roll_up r.checks ≡ verdict_of r.checks)
      × ((merge_checks r extra).verdict ≡ verdict_of (r.checks ++ extra))
unfolding roll_up merge_checks
merge_checks-verdict_of r extra =
    (roll_loop_lem false r.checks, roll_loop_lem false (r.checks ++ extra))

no_failed_error :
    (unicode : Unicode) (content_type body : Text) (max : ℤ)
    → any failed_error (transport_checks unicode content_type body max) ≡ false
unfolding transport_checks any
no_failed_error unicode content_type body max = ground arith

-- The checks on the transport can cost a catalog its clean verdict, and never make it invalid.
pub transport_checks-invalid :
    (unicode : Unicode) (content_type body : Text) (max : ℤ) (r : Report)
    → ((merge_checks r (transport_checks unicode content_type body max)).verdict ≡ invalid)
      ↔ (roll_up r.checks ≡ invalid)
transport_checks-invalid unicode content_type body max r =
    let extra = transport_checks unicode content_type body max in
    let (alone, merged) = merge_checks-verdict_of r extra in
    (
      λ h.
          alone
          ∙ is_invalid r.checks extra
              (any-append failed_error r.checks extra
                ∙ rw (no_failed_error unicode content_type body max)
                    (or_false (any failed_error r.checks)))
              (sym merged ∙ h),
      λ h.
          merged
          ∙ still_invalid r.checks extra
              (any-append failed_error r.checks extra
                ∙ rw (no_failed_error unicode content_type body max)
                    (or_false (any failed_error r.checks)))
              (sym alone ∙ h),
    )
  where
    or_false : (b : Bool) → (b || false) ≡ b
    or_false true = refl
    or_false false = refl

    is_invalid :
        (checks extra : List Check)
        → any failed_error (checks ++ extra) ≡ any failed_error checks
        → verdict_of (checks ++ extra) ≡ invalid
        → verdict_of checks ≡ invalid
    is_invalid checks extra e h = elim (Bool-cases (any failed_error checks)) [
      | inl y ↦ rw y refl
      | inr n ↦ absurd (ground (arith, e, n, h))
    ]

    still_invalid :
        (checks extra : List Check)
        → any failed_error (checks ++ extra) ≡ any failed_error checks
        → verdict_of checks ≡ invalid
        → verdict_of (checks ++ extra) ≡ invalid
    still_invalid checks extra e h = elim (Bool-cases (any failed_error checks)) [
      | inl y ↦ rw (e, y) refl
      | inr n ↦ absurd (ground (arith, n, h))
    ]
