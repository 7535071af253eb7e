-- ===== src/Schema/Plain.antt =====
-- internal/schema/template.go: the generated dispatchers that need no switch on the ID. `active` is
-- the variable `__kanlyActiveMutant`.
use kanly.Base.{ℕ, Bool, not, Text, List, [], ◌∷◌, ◌==◌, nat_eq, if◌then◌else◌}
use kanly.Base.Int.{ℤ, int_eq}
use kanly.Go.{Run, return}
use kanly.Schema.Runtime.{is_active, any_active}

module _ (active : ℤ) where
  unfoldable pub cmut_call_skip : {S : Type 0} → Run S (Unit {0}) → List ℕ → Run S (Unit {0})
  cmut_call_skip fn ids = if any_active active ids then return tt else fn

  -- `recv` is the receive from the channel, `zero_value` the zero value of its element type.
  unfoldable pub cmut_recv : {S T : Type 0} → T → Run S T → List ℕ → Run S T
  cmut_recv zero_value recv ids = if any_active active ids then return zero_value else recv

  unfoldable pub cmut_keep : List ℕ → Bool
  cmut_keep ids = not (any_active active ids)

  unfoldable pub cmut_swap : ℤ → ℤ → ℤ → List ℕ → ℤ
  cmut_swap idx a b [] = idx
  cmut_swap idx a b (i ∷ ids) =
      let rest = cmut_swap idx a b ids in
      if is_active active i then (if idx == a then b else if idx == b then a else rest) else rest

  unfoldable pub cmut_string : Text → List ℕ → Text
  cmut_string orig ids = if any_active active ids then [] else orig

  unfoldable pub cmut_stmt :
      {S : Type 0} → Run S (Unit {0}) → Run S (Unit {0}) → List ℕ → Run S (Unit {0})
  cmut_stmt orig mut ids = if any_active active ids then mut else orig

  unfoldable pub cmut_lit_off : List ℕ → ℕ
  cmut_lit_off ids = if any_active active ids then 1 else 0

  unfoldable pub cmut_lit_on : ℕ → ℕ
  cmut_lit_on i = if is_active active i then 0 else 1

  unfoldable pub cmut_ret_zero : {T : Type 0} → T → T → List ℕ → T
  cmut_ret_zero zero_value orig ids = if any_active active ids then zero_value else orig

  unfoldable pub cmut_bool_lit : Bool → List ℕ → Bool
  cmut_bool_lit orig ids = if any_active active ids then not orig else orig
