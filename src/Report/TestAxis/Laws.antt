-- ===== src/Report/TestAxis/Laws.antt =====
-- internal/report/report.go: the tests of `buildTestAggregations` beside the results.
use kanly.Base.{
  ℕ, ◌≡◌, refl, sym, ap, ◌∙◌, ◌||◌, Text, List, [], ◌∷◌, ◌++◌, Option, none, some, text_eq, arith,
  length, leb, All, Distinct, contains, Bool-cases, inl, inr,
}
use kanly.Base.Map.{Map, lookup, update, keys, update-Distinct, Found, Distinct-Found}
use kanly.Base.Sort.{sort}
use kanly.Base.Sort.Laws.{All-sort}
use kanly.Base.Strings.{is_some}
use kanly.Mutation.{Mutation, Result, TestStats}
use kanly.Report.TestAxis.{
  Key, key_beq, key_beq_iff, key_eq, or_new, ensure, ensure_names, ensure_all, add_kill, add_kills,
  add_results, by_kills, values, build_tests,
}
use kanly.Report.TestAxis.Presence.{
  listed, kills_any, tests_of, tests-sort, sort-Distinct, has-add_results, has-ensure_all,
}
use kanly.Report.TestAxis.Kills.{kills_by, killed, killed_of, killed-add_results, killed-ensure_all}

-- The entry of a test has its name.
abbrev Named : Key × TestStats → Type 0
Named ((p, n), ts) = (ts.pkg ≡ p) × (ts.name ≡ n)

-- One entry for each test, under its name.
abbrev IsIndex : Map Key TestStats → Type 0
IsIndex stats = Distinct (keys stats) × All Named stats

update-Named :
    (k : Key) (f : Option TestStats → TestStats) (stats : Map Key TestStats)
    → Named (k, f none)
    → ((ts : TestStats) → Named (k, ts) → Named (k, f (some ts)))
    → All Named stats
    → All Named (update k f stats)
unfolding update
update-Named k f [] new old a = (new, tt)
update-Named k f ((j, ts) ∷ stats) new old a = elim (Bool-cases (key_beq j k)) [
  | inl b ↦ let e = (key_beq_iff j k).0 b in rw (b, e) (old ts (rw e at a.0), a.1)
  | inr b ↦ rw b (a.0, update-Named k f stats new old a.1)
]

ensure-IsIndex :
    (k : Key) (stats : Map Key TestStats) → IsIndex stats → IsIndex (ensure k (λ ts. ts) stats)
ensure-IsIndex (p, n) stats i = (
  update-Distinct (p, n) _ stats i.0,
  update-Named (p, n) (or_new (p, n)) stats (refl, refl) (λ ts h. h) i.1,
)

add_kill-IsIndex :
    (k : Key) (id : ℕ) (stats : Map Key TestStats)
    → IsIndex stats
    → IsIndex (ensure k (add_kill id) stats)
add_kill-IsIndex (p, n) id stats i = (
  update-Distinct (p, n) _ stats i.0,
  update-Named (p, n) (λ old. add_kill id (or_new (p, n) old)) stats (refl, refl) (λ ts h. h) i.1,
)

ensure_names-IsIndex :
    (p : Text) (names : List Text) (stats : Map Key TestStats)
    → IsIndex stats
    → IsIndex (ensure_names p names stats)
unfolding ensure_names
ensure_names-IsIndex p [] stats i = i
ensure_names-IsIndex p (n ∷ names) stats i =
    ensure_names-IsIndex p names (ensure (p, n) (λ ts. ts) stats) (ensure-IsIndex (p, n) stats i)

ensure_all-IsIndex :
    (inventory : Map Text (List Text)) (stats : Map Key TestStats)
    → IsIndex stats
    → IsIndex (ensure_all inventory stats)
unfolding ensure_all
ensure_all-IsIndex [] stats i = i
ensure_all-IsIndex ((p, names) ∷ inventory) stats i =
    ensure_all-IsIndex inventory (ensure_names p names stats) (ensure_names-IsIndex p names stats i)

add_kills-IsIndex :
    (m : Mutation) (names : List Text) (stats : Map Key TestStats)
    → IsIndex stats
    → IsIndex (add_kills m names stats)
unfolding add_kills
add_kills-IsIndex m [] stats i = i
add_kills-IsIndex m (n ∷ names) stats i =
    add_kills-IsIndex m names (ensure (m.pkg, n) (add_kill m.id) stats)
      (add_kill-IsIndex (m.pkg, n) m.id stats i)

add_results-IsIndex :
    (results : List Result) (stats : Map Key TestStats)
    → IsIndex stats
    → IsIndex (add_results results stats)
unfolding add_results
add_results-IsIndex [] stats i = i
add_results-IsIndex (r ∷ results) stats i =
    add_results-IsIndex results (add_kills r.mutation r.killing_tests stats)
      (add_kills-IsIndex r.mutation r.killing_tests stats i)

-- The test has the mutants that it killed, in increasing order.
abbrev pub Counted : List Result → TestStats → Type 0
Counted results ts =
    (ts.killed_mutants ≡ sort leb (kills_by (ts.pkg, ts.name) results))
    × (ts.kill_count ≡ length (kills_by (ts.pkg, ts.name) results))

values-Counted :
    (results : List Result) (stats entries : Map Key TestStats)
    → ((k : Key) → killed k stats ≡ kills_by k results)
    → All Named entries
    → All (Found stats) entries
    → All (Counted results) (values entries)
values-Counted results stats [] h n f = tt
values-Counted results stats (((p, t), ts) ∷ entries) h n f =
    let e = sym (ap killed_of f.0) ∙ h (p, t) in
    (rw (n.0.0, n.0.1, e) (refl, refl), values-Counted results stats entries h n.1 f.1)

all_stats :
    (results : List Result) (inventory : Map Text (List Text)) (k : Key)
    → killed k (add_results results (ensure_all inventory [])) ≡ kills_by k results
unfolding lookup
all_stats results inventory k =
    killed-add_results k results (ensure_all inventory [])
    ∙ ap (λ ids. ids ++ kills_by k results) (killed-ensure_all k inventory [])

tests_of-values :
    (entries : Map Key TestStats) → All Named entries → tests_of (values entries) ≡ keys entries
tests_of-values [] n = refl
tests_of-values (((p, t), ts) ∷ entries) n =
    rw (n.0.0, n.0.1) (ap (λ ks. (p, t) ∷ ks) (tests_of-values entries n.1))

is_some-lookup : (k : Key) (m : Map Key TestStats) → contains (keys m) k ≡ is_some (lookup k m)
unfolding lookup
is_some-lookup k [] = refl
is_some-lookup k ((j, ts) ∷ m) = ground (arith, is_some-lookup k m)

-- The tests of a report are those of the inventory and those that killed a mutant, each once, and
-- each has the mutants that it killed in increasing order, and their number.
pub build_tests_lem :
    (results : List Result) (inventory : Map Text (List Text)) (k : Key)
    → All (Counted results) (build_tests results inventory)
      × (Distinct (tests_of (build_tests results inventory))
          × (contains (tests_of (build_tests results inventory)) k
              ≡ (listed k inventory || kills_any k results)))
unfolding build_tests lookup
build_tests_lem results inventory k =
    let known = ensure_all inventory [] in
    let stats = add_results results known in
    let i = add_results-IsIndex results known (ensure_all-IsIndex inventory [] (tt, tt)) in
    let t = tests_of-values stats i.1 in
    (
      All-sort by_kills (Counted results) (values stats) (
          values-Counted results stats stats (all_stats results inventory) i.1
            (Distinct-Found stats i.0)),
      (
        sort-Distinct (values stats) (rw t i.0),
        tests-sort k (values stats)
            ∙ rw
                (
                  t,
                  is_some-lookup k stats,
                  has-add_results k results known,
                  has-ensure_all k inventory [],
                )
                (ground arith),
      ),
    )
