-- ===== src/Schema/Active.antt =====
-- Which mutant `KANLY_MUTANT` activates.
use kanly.Base.{ℕ, ◌^◌, ◌<◌, ◌≡◌, false, [], arith, ◌==◌, nat_eq}
use kanly.Base.Decimal.{itoa, atoi, atoi-itoa}
use kanly.Base.Int.{pos, leb_ℤ, int_eq}
use kanly.Schema.Runtime.{read_active_mutant, is_active}

-- With a mutant's ID in the environment that mutant is active and no other, and with an empty value
-- none is.
pub read_active_mutant-itoa :
    (id j : ℕ)
    → 0 < id
    → id < 2 ^ 63
    → (is_active (read_active_mutant (itoa id)) j ≡ (j == id))
      × (is_active (read_active_mutant []) j ≡ false)
unfolding read_active_mutant atoi
read_active_mutant-itoa id j h k =
    let e : leb_ℤ (pos id) (pos 0) ≡ false = ground arith in
    (rw (atoi-itoa id k, read_active_mutant, e) (ground arith), ground arith)
