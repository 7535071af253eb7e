-- ===== src/Cmd/Tests.antt =====
-- Example runs of the command's steps.
use kanly.Base.{
  ℕ, ◌≤◌, ◌≡◌, refl, true, false, not, ◌&&◌, Text, codes, List, [], ◌∷◌, some, text_eq, nat_eq,
  nat_beq, text_beq, any, contains, if◌then◌else◌,
}
use kanly.Base.Attempt.{Attempt, done, failed}
use kanly.Base.Map.{Map, lookup, insert, update}
use kanly.Base.Strings.{split_byte, trim_space}
use kanly.Mutation.{Status, status_eq, killed, survived, timeout, Mutation, Result}
use kanly.Cmd.Suites.{
  Suite, Verdict, RunMutant, worst, gives, run_from, run_mutant_suites, run_mutant_suites-status,
}
use kanly.Cmd.Confirm.{Rerun, confirm_verdicts}
use kanly.Cmd.Kills.{
  KillEntry, reused_killer, first_killer, kill_updates, updates_from, killers_from,
}
use kanly.Cmd.Kills.Laws.{accounts, reused_killer-kill_updates}
use kanly.Cmd.Suggest.{row_from, last_row, first_row, levenshtein}
use kanly.Cmd.Suggest.Edits.{Edits}
use kanly.Cmd.Suggest.Laws.{levenshtein_lem}
use kanly.Cmd.Select.{parse_names, select_operators}
use kanly.Cmd.Select.Laws.{among, allowed, select_operators_lem}

abbrev own_suite : Suite
own_suite = record { pkg = codes "m/a"; own = true; tests = codes "TestA" ∷ [] }

abbrev other_suite : Suite
other_suite = record { pkg = codes "m/b"; own = false; tests = codes "TestB" ∷ [] }

-- The package's own tests time out, and the other package's kill the mutant.
abbrev run : RunMutant Text
run s =
    if s.own
    then done (record { status = timeout; killers = []; total = 90 })
    else done (record { status = killed; killers = codes "TestB" ∷ []; total = 20 })

abbrev verdict : Verdict
verdict = record { status = killed; killers = codes "m/b.TestB" ∷ []; total = 110 }

suites-run : run_mutant_suites run true (own_suite ∷ other_suite ∷ []) ≡ done verdict
unfolding run_mutant_suites run_from
suites-run = refl

run_mutant_suites-status_example :
    verdict.status
    ≡ worst
        (any (gives run killed) (own_suite ∷ other_suite ∷ []))
        (any (gives run timeout) (own_suite ∷ other_suite ∷ []))
run_mutant_suites-status_example =
    run_mutant_suites-status run true (own_suite ∷ other_suite ∷ []) suites-run

abbrev mutant : ℕ → Mutation
mutant id = record {
  id = id;
  pkg = codes "m/a";
  file = codes "/m/a.go";
  line = 4;
  column = 3;
  function = codes "F";
  operator_name = codes "int_arith";
  original = codes "+";
  mutant = codes "-";
  fingerprint = codes "0123456789ab";
  package_init = false;
  cover_line = 0;
}

abbrev result : ℕ → Status → Result
result id status = record {
  mutation = mutant id;
  status = status;
  killing_tests = codes "TestA" ∷ [];
  covering_tests = codes "TestA" ∷ codes "TestB" ∷ [];
  duration = 5;
  note = [];
  cached = false;
}

-- A timeout that was none and a kill that does not happen again.
abbrev first_run : List Result
first_run = result 1 timeout ∷ result 2 killed ∷ []

abbrev rerun : Rerun Text
rerun i r scale = done (result r.mutation.id (if nat_beq i 0 then killed else survived))

abbrev result_of : Attempt Text (List Result) → List Result
result_of (done rs) = rs
result_of (failed e) = []

abbrev confirmed : List Result
confirmed = result_of (confirm_verdicts rerun true first_run)

abbrev hashes : Map Text Text
hashes = (codes "TestA", codes "a1") ∷ (codes "TestB", codes "b1") ∷ []

-- `TestB` has changed since.
abbrev hashes_now : Map Text Text
hashes_now = (codes "TestA", codes "a1") ∷ (codes "TestB", codes "b2") ∷ []

abbrev entry : KillEntry
entry = record { key = codes "k"; killers = (codes "TestA", codes "a1") ∷ [] }

entry-stored :
    lookup (codes "0123456789ab") (kill_updates ((result 2 killed, codes "k") ∷ []) hashes)
    ≡ some entry
unfolding lookup kill_updates updates_from killers_from insert update text_beq
entry-stored = refl

entry-reused :
    reused_killer entry (codes "k") hashes_now (codes "TestB" ∷ codes "TestA" ∷ [])
    ≡ some (codes "TestA")
unfolding reused_killer first_killer lookup text_beq
entry-reused = refl

reused_killer-kill_updates_example :
    (contains (codes "TestB" ∷ codes "TestA" ∷ []) (codes "TestA") ≡ true)
    × (any
          (λ (r, k).
            accounts (codes "0123456789ab") (codes "k") (codes "TestA") hashes hashes_now r k)
          ((result 2 killed, codes "k") ∷ [])
        ≡ true)
reused_killer-kill_updates_example =
    reused_killer-kill_updates ((result 2 killed, codes "k") ∷ []) hashes hashes_now
      (codes "0123456789ab") (codes "k") entry (codes "TestB" ∷ codes "TestA" ∷ []) (codes "TestA")
      entry-stored entry-reused

abbrev known : List Text
known = codes "int_arith" ∷ codes "bool_not" ∷ codes "int_literal" ∷ []

operators-selected :
    select_operators known (codes "int_arith, bool_not") (codes "bool_not")
    ≡ done (some (codes "int_arith" ∷ []))
unfolding select_operators parse_names split_byte trim_space text_beq
operators-selected = refl

select_operators_lem_example :
    (contains (codes "int_arith" ∷ []) (codes "bool_not") ≡ (
      allowed known (codes "int_arith, bool_not") (codes "bool_not")
      && not (among (split_byte b',' (codes "bool_not")) (codes "bool_not"))))
    × ((contains (codes "int_arith" ∷ []) (codes "bool_not")
          && not (contains known (codes "bool_not")))
        ≡ false)
select_operators_lem_example =
    select_operators_lem known (codes "int_arith" ∷ []) (codes "int_arith, bool_not")
      (codes "bool_not") (codes "bool_not") operators-selected refl

-- "Ad" is one byte away from "Add".
levenshtein_lem_example :
    Edits (codes "Ad") (codes "Add") (levenshtein (codes "Ad") (codes "Add"))
    × ((n : ℕ) → Edits (codes "Ad") (codes "Add") n → levenshtein (codes "Ad") (codes "Add") ≤ n)
levenshtein_lem_example = levenshtein_lem (codes "Ad") (codes "Add")

kitten_distance : levenshtein (codes "kitten") (codes "sitting") ≡ 3
unfolding levenshtein last_row row_from first_row
kitten_distance = refl
