-- ===== src/Operators/Types.antt =====
-- internal/operators: the parts of go/types that the operators read.
use kanly.Base.{ℕ, ◌+◌, Bool, true, false, ◌||◌, Text, List, Option, none, some, ◌==◌, nat_eq}
use kanly.Operators.IntLiteral.{
  Kind, int, int8, int16, int32, int64, uint, uint8, uint16, uint32, uint64, uintptr,
}
use kanly.Operators.Tree.{Node, no_node, node, ident}

-- The basic types. `byte` and `rune` are `uint8` and `int32`.
pub data Basic : Type 0 where
  bool_basic string_basic : Basic
  integer : Kind → Basic
  float32 float64 : Basic
  untyped_bool untyped_int untyped_rune untyped_float untyped_string untyped_nil : Basic
  -- `types.Invalid`, the complex types and `unsafe.Pointer`.
  other_basic : ℕ → Basic

pub data Underlying : Type 0 where
  basic : Basic → Underlying
  pointer slice map chan signature interface array struct : Underlying
  tuple : ℕ → Underlying

-- A declared type, a type parameter and a type literal have a number, that of the declaration or
-- of the identical literals.
pub data GoType : Type 0 where
  basic_type : Basic → GoType
  named type_param literal : ℕ → Underlying → GoType

abbrev kind_number : Kind → ℕ
kind_number int = 0
kind_number int8 = 1
kind_number int16 = 2
kind_number int32 = 3
kind_number int64 = 4
kind_number uint = 5
kind_number uint8 = 6
kind_number uint16 = 7
kind_number uint32 = 8
kind_number uint64 = 9
kind_number uintptr = 10

abbrev basic_number : Basic → ℕ
basic_number bool_basic = 0
basic_number string_basic = 1
basic_number float32 = 2
basic_number float64 = 3
basic_number untyped_bool = 4
basic_number untyped_int = 5
basic_number untyped_rune = 6
basic_number untyped_float = 7
basic_number untyped_string = 8
basic_number untyped_nil = 9
basic_number (integer k) = 10 + kind_number k
basic_number (other_basic n) = 21 + n

-- `==` of two basic types.
abbrev pub basic_beq : Basic → Basic → Bool
basic_beq a b = basic_number a == basic_number b

-- The bits of `Info()`.
abbrev pub is_integer : Basic → Bool
is_integer (integer k) = true
is_integer untyped_int = true
is_integer untyped_rune = true
is_integer _ = false

abbrev pub is_float : Basic → Bool
is_float float32 = true
is_float float64 = true
is_float untyped_float = true
is_float _ = false

abbrev pub is_boolean : Basic → Bool
is_boolean bool_basic = true
is_boolean untyped_bool = true
is_boolean _ = false

abbrev pub is_untyped : Basic → Bool
is_untyped untyped_bool = true
is_untyped untyped_int = true
is_untyped untyped_rune = true
is_untyped untyped_float = true
is_untyped untyped_string = true
is_untyped untyped_nil = true
is_untyped _ = false

-- The type is one of two basic types.
abbrev pub is_one_of : Basic → Basic → Option GoType → Bool
is_one_of a b (some (basic_type c)) = basic_beq c a || basic_beq c b
is_one_of a b _ = false

-- `types.Identical`.
abbrev pub identical : GoType → GoType → Bool
identical (basic_type a) (basic_type b) = basic_beq a b
identical (named m t) (named n u) = m == n
identical (type_param m t) (type_param n u) = m == n
identical (literal m t) (literal n u) = m == n
identical _ _ = false

abbrev pub underlying : GoType → Underlying
underlying (basic_type b) = basic b
underlying (named n u) = u
underlying (type_param n u) = u
underlying (literal n u) = u

-- The universe's `error`.
abbrev pub error_type : GoType
error_type = named 0 interface

-- `has_value`: the expression is a constant.
pub record TypeAndValue : Type 0 where
  pub go_type : Option GoType
  pub has_value : Bool
  pub is_type : Bool

pub data Object : Type 0 where
  true_object false_object : Object
  builtin : Text → Object
  declared : GoType → Object

abbrev pub object_type : Object → GoType
object_type true_object = basic_type untyped_bool
object_type false_object = basic_type untyped_bool
object_type (builtin name) = basic_type (other_basic 0)
object_type (declared t) = t

-- A function that a call names: its package's path and its parameters' names.
pub record Callee : Type 0 where
  pub path : Text
  pub params : List Text

-- What `types.Info` says of a node, by its pointer: `object_of` of an identifier, `results` of a
-- function literal or of the name in a declaration, the result types of its signature, and `callee`
-- of a call what `typeutil.Callee` finds.
pub record Info : Type 0 where
  pub types : ℕ → Option TypeAndValue
  pub object_of : ℕ → Option Object
  pub results : ℕ → Option (List GoType)
  pub callee : ℕ → Option Callee

-- `info.Types[x]` without a test of presence.
abbrev pub type_and_value : Option TypeAndValue → TypeAndValue
type_and_value none = record { go_type = none; has_value = false; is_type = false }
type_and_value (some tv) = tv

abbrev of_object : Option Object → Option GoType
of_object none = none
of_object (some obj) = some (object_type obj)

-- `info.TypeOf`.
abbrev pub type_of : Info → Node → Option GoType
type_of info no_node = none
type_of info (node m k xs ys) = elim (info.types m.id) [
  | some tv ↦ tv.go_type
  | none ↦ elim k [ ident name ↦ of_object (info.object_of m.id) | _ ↦ none ]
]
