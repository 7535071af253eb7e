-- ===== src/Mutation.antt =====
-- internal/mutation/types.go and operator.go: the data that the pipeline passes along.
use kanly.Base.{ℕ, Bool, Text, codes, List, Eq, true, false, ◌≡◌, ◌↔◌, arith}

pub data Status : Type 0 where
  killed survived timeout not_viable not_covered : Status

abbrev pub status_beq : Status → Status → Bool
status_beq killed killed = true
status_beq survived survived = true
status_beq timeout timeout = true
status_beq not_viable not_viable = true
status_beq not_covered not_covered = true
status_beq _ _ = false

pub status_beq_iff : (a b : Status) → (status_beq a b ≡ true) ↔ (a ≡ b)
status_beq_iff a b = ground arith

instance abbrev pub status_eq : Eq Status
status_eq = record { beq = status_beq; decides = status_beq_iff }

-- `package_init` and `cover_line` are the fields that the JSON report leaves out.
pub record Mutation : Type 0 where
  pub id : ℕ
  pub pkg : Text
  pub file : Text
  pub line : ℕ
  pub column : ℕ
  pub function : Text
  pub operator_name : Text
  pub original : Text
  pub mutant : Text
  pub fingerprint : Text
  pub package_init : Bool
  pub cover_line : ℕ

-- `duration` is in nanoseconds.
pub record Result : Type 0 where
  pub mutation : Mutation
  pub status : Status
  pub killing_tests : List Text
  pub covering_tests : List Text
  pub duration : ℕ
  pub note : Text
  pub cached : Bool

pub record TestStats : Type 0 where
  pub pkg : Text
  pub name : Text
  pub kill_count : ℕ
  pub killed_mutants : List ℕ

pub record FunctionSurvivors : Type 0 where
  pub pkg : Text
  pub function : Text
  pub mutations : List Mutation

-- The value of the `Status` constant.
unfoldable pub status_text : Status → Text
status_text killed = codes "killed"
status_text survived = codes "survived"
status_text timeout = codes "timeout"
status_text not_viable = codes "not_viable"
status_text not_covered = codes "not_covered"
