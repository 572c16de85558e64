-- ===== src/Failure.antt =====
-- The errors that reach `process` in internal/crawler/engine.go; internal/fetch/fetch.go: `Transient`.
use ardvark.Prelude.{Bool, Option, none, some, Text}

-- An error as `process` sees it: its text, whether `errors.Is` finds `context.Canceled` in it, what
-- the first error of its chain with a method `Transient` says, and whether it is a network timeout.
pub record Failure : Type 0 where
  pub text : Text
  pub canceled : Bool
  pub classified : Option Bool
  pub timeout : Bool

-- `fetch.Transient`.
abbrev pub transient : Failure → Bool
transient e = elim e.classified [ some b ↦ b | none ↦ e.timeout ]
