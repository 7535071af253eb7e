-- ===== src/Cmd/Confirm.antt =====
-- cmd/kanly/main.go: `confirmVerdicts`. Running a mutant again is an argument; an error drops the
-- results, as its caller does.
use kanly.Base.{
  ℕ, ◌+◌, ◌≡◌, Bool, true, false, not, ◌&&◌, ◌||◌, Text, codes, List, [], ◌∷◌, ◌++◌, ◌==◌,
  if◌then◌else◌,
}
use kanly.Base.Attempt.{Attempt, done, failed, ◌>>=◌}
use kanly.Mutation.{Status, status_eq, status_text, killed, survived, timeout, Result}

-- The budget of a repeated timeout is doubled.
abbrev pub confirm_timeout_scale : ℕ
confirm_timeout_scale = 2

abbrev timeout_note : Status → Text
timeout_note again =
    codes "timed out in the parallel run; " ++ (status_text again ++ codes " when re-run alone")

abbrev kill_note : Text
kill_note =
    codes "killed in the parallel run but survived when re-run alone; the kill was not reproducible"

abbrev pub settled_timeout : Result → Result
settled_timeout again =
    if not (again.status == timeout)
    then record again { note = timeout_note again.status }
    else again

abbrev pub settled_kill : Result → Result → Result
settled_kill r again = if again.status == survived then record again { note = kill_note } else r

-- Which verdicts are tried again.
pub data Check : Type 0 where
  as_timeout as_kill trusted : Check

abbrev pub check_of : Bool → Status → Check
check_of verify_kills timeout = as_timeout
check_of verify_kills killed = if verify_kills then as_kill else trusted
check_of verify_kills _ = trusted

-- Running result `i` again, with its timeout multiplied.
abbrev pub Rerun : Type 0 → Type 0
Rerun E = ℕ → Result → ℕ → Attempt E Result

module _ {E : Type 0} (rerun : Rerun E) (verify_kills : Bool) where
  -- The turn of the loop for one result.
  abbrev pub confirm : ℕ → Result → Attempt E Result
  confirm i r = elim (check_of verify_kills r.status) [
    | as_timeout ↦ do again ← rerun i r confirm_timeout_scale; done (settled_timeout again)
    | as_kill ↦ do again ← rerun i r 1; done (settled_kill r again)
    | trusted ↦ done r
  ]

  unfoldable pub confirm_from : ℕ → List Result → Attempt E (List Result)
  confirm_from i [] = done []
  confirm_from i (r ∷ results) = do
    new ← confirm i r
    rest ← confirm_from (i + 1) results
    done (new ∷ rest)

  unfoldable pub confirm_verdicts : List Result → Attempt E (List Result)
  confirm_verdicts results = confirm_from 0 results

-- Some repetition of the result gives the verdict.
abbrev pub repeats : {E : Type 0} → Attempt E Result → Status → Bool
repeats (done again) want = again.status == want
repeats (failed e) want = false

-- What a confirmed result `o` of `r` says: a timeout is one that timed out again; a kill that was
-- to be verified did not survive again, or comes from a repeated timeout; what neither timed out
-- nor was to be verified is as it was.
pub record Confirmed {E : Type 0} (rerun : Rerun E) (verify_kills : Bool) (i : ℕ) (r o : Result)
    : Type 0 where
  pub timeouts :
      o.status ≡ timeout
      → (r.status == timeout && repeats (rerun i r confirm_timeout_scale) timeout) ≡ true
  pub kills :
      verify_kills ≡ true
      → o.status ≡ killed
      → ((r.status == timeout && repeats (rerun i r confirm_timeout_scale) killed)
          || (r.status == killed && not (repeats (rerun i r 1) survived)))
        ≡ true
  pub others : check_of verify_kills r.status ≡ trusted → o ≡ r

abbrev pub AllConfirmed : {E : Type 0} → Rerun E → Bool → ℕ → List Result → List Result → Type 0
AllConfirmed rerun verify i [] [] = Unit
AllConfirmed rerun verify i (r ∷ rs) (o ∷ os) =
    Confirmed rerun verify i r o × AllConfirmed rerun verify (i + 1) rs os
AllConfirmed rerun verify i _ _ = ⊥

-- What each check says of the result's own verdict.
abbrev Means : Bool → Status → Check → Type 0
Means verify s as_timeout = s ≡ timeout
Means verify s as_kill = (s ≡ killed) × (verify ≡ true)
Means verify s trusted = ((s == timeout) || (s == killed && verify)) ≡ false
