-- ===== src/Lib.antt =====
-- Kanly is a mutation tester for Go. It rewrites a package so that every mutant stands in one test
-- binary, and runs that binary once per mutant with the mutant's ID in `KANLY_MUTANT`.
--
-- The parts, in the order of a run:
--   * cmd/kanly reads the flags. internal/selector parses the positional arguments
--     `<package>[:<func-list>]`, internal/diff reads the lines that a git diff changed, and
--     `composeFilter` and `selectOperators` turn both and the other flags into a scope.
--   * internal/schema (`RewriteWith`) takes what each operator of internal/operators finds in a file,
--     numbers it, drops what the scope, a `//kanly:ignore` directive or `.kanlyignore` leaves out, and
--     replaces each node that has mutants left by a call of a dispatcher. The dispatchers are
--     functions of a generated file with a switch on the ID of the active mutant.
--   * internal/runner measures the unmodified tests, with what each covers, and gives each mutant the
--     tests of its line and a timeout. cmd/kanly runs the suites of each mutant, reuses kills of
--     earlier runs, and repeats verdicts that need confirmation.
--   * internal/report counts the results and groups the survivors.
--
-- Which file models what:
--   * Mutation: internal/mutation/types.go, the records `Mutation`, `Result`, `TestStats` and
--     `FunctionSurvivors`, and `Status`.
--   * Go: what the schema uses of Go itself. A computation is a function of the effects so far to a
--     value or a panic, and a numeric type is a record of its operations.
--   * Schema.Dispatcher: internal/schema/dispatcher.go (`mutantExpr`, `intCmpExpr`, `intBitExpr`,
--     `boolLogicExpr`, `sliceIdxExpr`, `byOperator`). Schema.Runtime and Schema.Plain: the functions of
--     internal/schema/template.go, `__cMutX` as `cmut_x`; each takes the active ID and the mutations
--     that its switch was generated from. Schema.Cases: which case of a switch is reached.
--     Schema.Active: `__kanlyReadActiveMutant`.
--   * Schema.Spans: the functions of internal/schema/rewriter.go that look up a position
--     (`funcDeclName`, `enclosingFunc`, `caseStmtLine`, `inSpans`). Schema.Rewrite: the loop of
--     `RewriteWith` over the candidates of a file, its counters and maps as the record `State`, with
--     its arguments as `Options`. Schema.Rewrite.Groups: the call sites of a file. Schema.Rewrite.Run:
--     the loop over files, conflicts and stale entries.
--   * Schema.Ignore: internal/schema/ignore.go. Schema.Fingerprint and Schema.IgnoreFile:
--     internal/schema/ignorefile.go.
--   * Operators.Binary: the tables and rewrites of internal/operators/arithmetic.go, bitwise.go,
--     comparison.go and boolean.go. Operators.IntLiteral: `intLitMutants`, `intRange` and
--     `IntLiteral.RewriteGroup` of internal/operators/int_literal.go. Operators.SwitchCase:
--     `SwitchCase.RewriteGroup` of internal/operators/switch_case.go, the statements of its closure as
--     data with what they run.
--   * Operators.Tree and Operators.Types: what the operators read of go/ast and go/types.
--     Operators.Check: internal/operators/typecheck.go. Operators.Find and its children: `Find` of each
--     operator (`x_at` is the function that the walk of `X.Find` calls on a node), and the list of
--     register.go. Schema.Rewrite.Shapes and Schema.Rewrite.Composition: the call sites on one node.
--   * Selector: internal/selector/selector.go. Diff: `ParseDiff`, `Includes`, `Files` and
--     `ignoredByGoTool` of internal/diff/diff.go.
--   * Runner.Names and Runner.Timing: `dedupe`, `filterEnv`, `Overhead` and `MutantTimeout` of
--     internal/runner/runner.go, and `unionHits` and `coveringTests` of cmd/kanly/main.go.
--     Runner.CoverProfile: `parseCoverProfile` on the lines of a profile. Runner.Output: `RunMutant`,
--     `RunTests` and what they read of an output. Runner.Dependents:
--     `parseTestDependents` of internal/runner/deps.go. Runner.Guard: `guardedPaths` and `Restore` of
--     internal/runner/fsguard.go, on paths below the package directory.
--   * Cmd.Suites: `runMutantSuites`; Cmd.Confirm: `confirmVerdicts`; Cmd.Kills: `reusedKiller`,
--     `killUpdates` and the `update` of cmd/kanly/killcache.go; Cmd.Select: `composeFilter`,
--     `selectOperators`, `parseMutants` and the `findMutants` of cmd/kanly/inspect.go; Cmd.Suggest:
--     `suggestNames` and `levenshtein`. Cmd.Baseline: `establishBaseline`. Cmd.Locks: `dirLocks`,
--     with the goroutines that take its locks as a relation between states of the system, one goroutine
--     moving at a time, by one access of its map or one `Lock` or `Unlock`. Cmd.Agent: `addStopHook` of
--     cmd/kanly/agent.go, on decoded JSON.
--   * Report, Report.Survivors and Report.Budget: the counts and scores of `Build`,
--     `groupByFunction`, `buildSurvivorsByFunction`, `sortedByLocation` and `llmBudget.take` of
--     internal/report/report.go. Report.TestAxis: `buildTestAggregations`, the map of tests as an
--     association list under package and name.
--   * Base and its children: bytes, lists, maps, sorting, signed integers, and the parts of `strings`,
--     `strconv` and `sort` that the program calls.
-- A file of a component that no line above names holds proofs, or concrete inputs where its name is
-- Tests.
--
-- Numbers: counts and positions are natural numbers, and Go's int is taken to have 64 bits where the
-- program parses one (`atoi`, line numbers of a diff). The integers of a literal and of the code under
-- test are signed. Texts are lists of bytes. A Go map is an association list, and where the program
-- ranges over one it sorts the result. `sort.Slice` is taken to be stable.
--
-- Loops are structural recursion on the list that they range over, or on the text that is left.
-- `establishBaseline` counts the rounds that are left of its `maxBaselineRounds`. Only `itoa` has fuel,
-- the number and one more, which is above its count of digits.
--
-- What is an argument: SHA-256 (`digest`), `filepath.Join`, what a file system answers, running a test
-- binary for the baseline, for some tests or for one mutant, a multiplication by the float timeout
-- factor (`scale`), the types that the type checker gives a node, what go/printer prints of an
-- expression or a clause, what `typeutil.Callee` finds, and in Schema.Rewrite what an operator's `Find`
-- returns on a file.
--
-- What is not modelled: the syntax trees that the operators' rewrites build, beyond what they run; the
-- text of the generated file; the printing of reports and of rewritten files; how JSON is read and
-- printed; git, go and test processes; files, caches and the commands that only move them; the limits of
-- a line scanner; which bodies a `fallthrough` runs behind the clause that a switch enters. Of the
-- goroutines only those that take the locks of directories are.
pub mod Base
pub mod Cmd
pub mod Diff
pub mod Go
pub mod Mutation
pub mod Operators
pub mod Report
pub mod Runner
pub mod Schema
pub mod Selector
