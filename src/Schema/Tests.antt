-- ===== src/Schema/Tests.antt =====
-- Example files for internal/schema: directives, case expressions and a run over two files.
use kanly.Base.{
  ℕ, ◌*◌, ◌≡◌, refl, true, false, Text, codes, List, [], ◌∷◌, none, some, arith, any, All, keep,
  map, nat_eq, text_eq, text_beq, ◌++◌,
}
use kanly.Base.Sort.{sort}
use kanly.Base.Strings.{text_le}
use kanly.Base.Map.{lookup, update}
use kanly.Schema.Runtime.{is_active, read_active_mutant}
use kanly.Schema.Active.{read_active_mutant-itoa}
use kanly.Schema.IgnoreFile.{read_ignore_file, read_lines, parse_line, accept}
use kanly.Schema.IgnoreFile.Laws.{Promised, says, read_ignore_file_lem}
use kanly.Base.Map.{Map, insert, lookup, update}
use kanly.Base.Decimal.{itoa}
use kanly.Base.Strings.{trim_space}
use kanly.Schema.Fingerprint.{is_fingerprint}
use kanly.Mutation.{Mutation}
use kanly.Schema.Dispatcher.{find_case}
use kanly.Schema.Fingerprint.{fingerprint}
use kanly.Schema.Ignore.{
  Comment, Ignores, covers, collect_ignores, parse_ignore_directive, record_directive, add,
}
use kanly.Schema.Ignore.Laws.{applies, collect_ignores-covers}
use kanly.Schema.Spans.{CaseSpan, case_stmt_line, collect_func_spans, enclosing_func, in_spans}
use kanly.Schema.Spans.Laws.{Innermost, case_stmt_line_lem}
use kanly.Schema.Rewrite.{
  Candidate, SourceFile, Operator, Options, Entry, run_operators, visit_all, visit, describe,
  next_occurrences, same_of, settle, settle_as, fate, passes_filter, selects, is_accepted,
  line_text, scope_of,
}
use kanly.Schema.Rewrite.Groups.{group_entries, has_conflict, node_groups, group_from, add_entry}
use kanly.Schema.Rewrite.Groups.Laws.{ids_at, group_entries_lem}
use kanly.Base.Attempt.{Attempt, done, failed}
use kanly.Schema.Rewrite.Run.{
  Rewritten, rewrite_with, rewrite_files, number_file, number_steps, grouped, stale_of, Failure,
}
use kanly.Schema.Rewrite.Scope.{everything, in_scope, rewrite_with-in_scope}
use kanly.Schema.Rewrite.Listing.{rewrite_with-find_case}

abbrev names : List Text
names = codes "int_arith" ∷ codes "int_literal" ∷ []

abbrev comments : List Comment
comments =
    record { text = codes "// a note"; line = 4; on_code = false; doc_of = none }
    ∷ record {
      text = codes "//kanly:ignore int_arith -- sum";
      line = 5;
      on_code = false;
      doc_of = none;
    }
    ∷ []

abbrev found_ignores : Ignores
found_ignores = record { lines = (6, some (codes "int_arith" ∷ [])) ∷ []; funcs = [] }

comments-collected : collect_ignores names comments ≡ some found_ignores
unfolding collect_ignores parse_ignore_directive record_directive add update text_beq lookup
comments-collected = refl

-- The directive on line 5 stands above line 6.
collect_ignores-covers_example :
    covers found_ignores (codes "int_arith") 120 6
    ≡ any (applies names (codes "int_arith") 120 6) comments
collect_ignores-covers_example =
    collect_ignores-covers names comments found_ignores (codes "int_arith") 120 6 comments-collected

-- Two cases of one switch, on lines 12 and 13.
abbrev case_spans : List CaseSpan
case_spans =
    record { start = 90; end = 110; stmt_line = 11 }
    ∷ record { start = 100; end = 105; stmt_line = 12 }
    ∷ []

case_stmt_line_lem_example : Innermost 102 case_spans (case_stmt_line case_spans 102)
case_stmt_line_lem_example = case_stmt_line_lem 102 case_spans (omega arith, (omega arith, tt))

abbrev candidate : ℕ → ℕ → Text → Candidate
candidate node line mutant = record {
  node = node;
  pos = 10 * line;
  original = codes "1";
  mutant = mutant;
  line = line;
  column = 2;
  raw_line = line;
  raw_column = 2;
}

abbrev source_file : Text → SourceFile
source_file name = record {
  path = codes "/m/" ++ name;
  base = name;
  generated = false;
  comments = [];
  lines = some (codes "x" ∷ codes "return 1" ∷ []);
  decls = record { recv = none; name = codes "F"; start = 5; end = 50 } ∷ [];
  lit_spans = [];
  case_spans = [];
}

-- Two mutants of the literal on line 2 of each file.
abbrev int_literal : Operator
int_literal = record {
  name = codes "int_literal";
  dispatcher_key = codes "int_literal";
  wraps = false;
  find = λ file. candidate 7 2 (codes "0") ∷ candidate 7 2 (codes "2") ∷ [];
}

abbrev files : List SourceFile
files = source_file (codes "b.go") ∷ source_file (codes "a.go") ∷ []

-- A run over `b.go` alone.
abbrev only_b : Options
only_b = record {
  filter = some (λ file line func_name. text_beq file (codes "/m/b.go"));
  operators = none;
  accepted = [];
}

abbrev run : Options → Attempt Failure Rewritten
run opts =
    rewrite_with (λ t. t) (codes "m") (int_literal ∷ []) (codes "int_literal" ∷ []) opts files

abbrev listed : ℕ → Text → Text → Text → Mutation
listed id file mutant fp = record {
  id = id;
  pkg = codes "m";
  file = file;
  line = 2;
  column = 2;
  function = codes "F";
  operator_name = codes "int_literal";
  original = codes "1";
  mutant = mutant;
  fingerprint = fp;
  package_init = false;
  cover_line = 0;
}

abbrev result_of : Attempt Failure Rewritten → Rewritten
result_of (done r) = r
result_of (failed e) = record { sites = []; mutations = []; ignored = 0; stale_accepted = [] }

abbrev ids_of : Rewritten → List ℕ
ids_of r = map (λ m. m.id) r.mutations

abbrev full : Rewritten
full = result_of (run everything)

abbrev scoped : Rewritten
scoped = result_of (run only_b)

-- `a.go` comes first, and the run over `b.go` keeps its IDs.
both_run :
    ((run everything ≡ done full) × (ids_of full ≡ 1 ∷ 2 ∷ 3 ∷ 4 ∷ []))
    × ((run only_b ≡ done scoped) × (ids_of scoped ≡ 3 ∷ 4 ∷ []))
unfolding rewrite_with rewrite_files number_file number_steps grouped run_operators visit_all visit
    settle settle_as fate passes_filter selects is_accepted describe next_occurrences same_of
    collect_ignores covers sort text_le update lookup group_entries group_from has_conflict
    node_groups add_entry fingerprint line_text scope_of collect_func_spans enclosing_func in_spans
    case_stmt_line stale_of text_beq
both_run = ((refl, refl), (refl, refl))

rewrite_with-in_scope_example : scoped.mutations ≡ keep (in_scope only_b) full.mutations
rewrite_with-in_scope_example =
    rewrite_with-in_scope (λ t. t) (codes "m") only_b (int_literal ∷ []) (codes "int_literal" ∷ [])
      files both_run.1.0 both_run.0.0

rewrite_with-find_case_example :
    All (λ m. find_case scoped.mutations m.id ≡ some m) scoped.mutations
rewrite_with-find_case_example =
    rewrite_with-find_case (λ t. t) (codes "m") only_b (int_literal ∷ []) (codes "int_literal" ∷ [])
      files both_run.1.0

abbrev bool_not : Operator
bool_not = record {
  name = codes "bool_not";
  dispatcher_key = codes "not";
  wraps = true;
  find = λ _. [];
}

abbrev entry : ℕ → ℕ → Operator → Entry
entry id node op = record { cand = candidate node 2 (codes "0"); id = id; op = op }

-- Two mutants of node 7 share a call site, and the one of node 8 has its own.
group_entries_lem_example :
    ids_at 7 (codes "int_literal") (
      group_entries (
        entry 1 7 int_literal
        ∷ entry 2 8 int_literal
        ∷ entry 3 7 bool_not
        ∷ entry 4 7 int_literal
        ∷ []))
    ≡ 1 ∷ 4 ∷ []
unfolding text_beq
group_entries_lem_example = group_entries_lem 7 (codes "int_literal") (
    entry 1 7 int_literal ∷ entry 2 8 int_literal ∷ entry 3 7 bool_not ∷ entry 4 7 int_literal ∷ [])

read_active_mutant-itoa_example :
    (is_active (read_active_mutant (itoa 42)) 42 ≡ true)
    × (is_active (read_active_mutant []) 42 ≡ false)
read_active_mutant-itoa_example = read_active_mutant-itoa 42 42 (omega arith) (omega arith)

abbrev ignore_lines : List Text
ignore_lines = codes "# judged" ∷ codes "0123456789ab  no input differs" ∷ []

abbrev accepted : Map Text Text
accepted = (codes "0123456789ab", codes "no input differs") ∷ []

ignore_lines-read : read_ignore_file (some ignore_lines) ≡ done accepted
unfolding read_ignore_file read_lines parse_line accept is_fingerprint trim_space insert update
    lookup
ignore_lines-read = refl

read_ignore_file_lem_example :
    All (λ l. Promised accepted (parse_line l)) ignore_lines
    × ((fp reason : Text)
        → lookup fp accepted ≡ some reason
        → any (λ l. says fp reason (parse_line l)) ignore_lines ≡ true)
read_ignore_file_lem_example = read_ignore_file_lem ignore_lines accepted ignore_lines-read
