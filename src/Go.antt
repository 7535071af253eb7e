-- ===== src/Go.antt =====
-- What the schema uses of Go itself: a computation that may panic and has effects, and the
-- operations of a numeric type. A concrete type is a value of the records below.
use kanly.Base.{Bool, Text}

pub data Outcome (A : Type 0) : Type 0 where
  value : A → Outcome A
  panic : Text → Outcome A

-- A closure: it reads and changes the program's state `S`, and may panic.
abbrev pub Run : Type 0 → Type 0 → Type 0
Run S A = S → Outcome (A × S)

abbrev pub return : {S A : Type 0} → A → Run S A
return a s = value (a, s)

-- The binary operators of an integer or floating-point type, division by zero included.
pub record Arith (T : Type 0) : Type 0 where
  pub one : T
  pub add : T → T → Outcome T
  pub sub : T → T → Outcome T
  pub mul : T → T → Outcome T
  pub quo : T → T → Outcome T
  pub rem : T → T → Outcome T
  pub bit_and : T → T → Outcome T
  pub bit_or : T → T → Outcome T
  pub bit_xor : T → T → Outcome T
  pub shl : T → T → Outcome T
  pub shr : T → T → Outcome T
  pub and_not : T → T → Outcome T

-- The comparisons; of a floating-point type `ge` is not the negation of `lt`.
pub record Compared (T : Type 0) : Type 0 where
  pub lt : T → T → Bool
  pub le : T → T → Bool
  pub gt : T → T → Bool
  pub ge : T → T → Bool
  pub eq : T → T → Bool
  pub ne : T → T → Bool
