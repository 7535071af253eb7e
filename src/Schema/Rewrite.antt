-- ===== src/Schema/Rewrite.antt =====
-- internal/schema/rewriter.go: `RewriteWith`, without the printing of the rewritten files. An
-- operator's `Find`, a file's text and syntax tree, and SHA-256 are arguments.
pub mod Groups
pub mod Run
pub mod Scope
pub mod Listing
pub mod Shapes
pub mod Composition
use kanly.Base.{
  ℕ, suc, ◌+◌, ◌-◌, Bool, true, false, not, ◌&&◌, ◌||◌, Text, codes, List, [], ◌∷◌, ◌++◌, Option,
  none, some, ◌==◌, nat_eq, text_eq, length, leb, get_elem?, contains, keep, if◌then◌else◌, map,
}
use kanly.Base.Map.{Map, lookup, update}
use kanly.Base.Strings.{is_some, text_le, or_empty}
use kanly.Base.Sort.{sort}
use kanly.Mutation.{Mutation}
use kanly.Schema.Fingerprint.{fingerprint}
use kanly.Schema.Ignore.{Ignores, Comment, covers, collect_ignores}
use kanly.Schema.Spans.{
  FuncDecl, FuncSpan, CaseSpan, collect_func_spans, enclosing_func, in_spans, case_stmt_line,
}

-- A candidate with its resolved position; the raw one ignores `//line` directives.
pub record Candidate : Type 0 where
  pub node : ℕ
  pub pos : ℕ
  pub original : Text
  pub mutant : Text
  pub line : ℕ
  pub column : ℕ
  pub raw_line : ℕ
  pub raw_column : ℕ

pub record SourceFile : Type 0 where
  pub path : Text
  pub base : Text
  pub generated : Bool
  pub comments : List Comment
  -- `none`: the file cannot be read
  pub lines : Option (List Text)
  pub decls : List FuncDecl
  pub lit_spans : List FuncSpan
  pub case_spans : List CaseSpan

pub record Operator : Type 0 where
  pub name : Text
  pub dispatcher_key : Text
  pub wraps : Bool
  pub find : SourceFile → List Candidate

pub record Options : Type 0 where
  pub filter : Option (Text → ℕ → Text → Bool)
  pub operators : Option (List Text)
  pub accepted : Map Text Text

pub record Entry : Type 0 where
  pub cand : Candidate
  pub id : ℕ
  pub op : Operator

pub record State : Type 0 where
  pub mut_id : ℕ
  pub ignored : ℕ
  pub matched : List Text
  pub occurrences : Map Text ℕ
  pub mutations : List Mutation
  pub entries : List Entry

abbrev pub fresh : State
fresh = record {
  mut_id = 0;
  ignored = 0;
  matched = [];
  occurrences = [];
  mutations = [];
  entries = [];
}

abbrev count_up : Option ℕ → ℕ
count_up none = 1
count_up (some n) = n + 1

abbrev or_zero : Option ℕ → ℕ
or_zero none = 0
or_zero (some n) = n

-- The candidate's line as the fingerprint reads it.
unfoldable pub line_text : List Text → Candidate → Text
line_text lines c =
    if leb c.raw_line (length lines) then or_empty (get_elem? lines (c.raw_line - 1)) else []

unfoldable pub scope_of : SourceFile → Text → Text
scope_of file [] = codes "file " ++ file.base
scope_of file (c ∷ name) = c ∷ name

abbrev is_empty : Text → Bool
is_empty [] = true
is_empty _ = false

unfoldable pub passes_filter : Options → Text → ℕ → Text → Bool
passes_filter opts file line func_name = elim opts.filter [
  | none ↦ true
  | some keeps ↦ keeps file line func_name
]

unfoldable pub selects : Options → Text → Bool
selects opts op = elim opts.operators [ none ↦ true | some names ↦ contains names op ]

unfoldable pub is_accepted : Options → Text → Bool
is_accepted opts fp = is_some (lookup fp opts.accepted)

-- What becomes of a candidate: it is left out by the filter or the choice of operators, suppressed
-- by its acceptance or a directive, or reported.
pub data Fate : Type 0 where
  out_of_scope suppressed reported : Fate

unfoldable pub fate : Options → Ignores → Operator → Candidate → Mutation → Fate
fate opts ign op c m =
    if not (passes_filter opts m.file m.line m.function)
    then out_of_scope
    else if not (selects opts m.operator_name)
    then out_of_scope
    else if is_accepted opts m.fingerprint || covers ign op.name c.pos m.line
    then suppressed
    else reported

-- Every candidate is numbered, whatever becomes of it.
abbrev counted : Bool → Map Text ℕ → Mutation → State → State
counted accepted occurrences m st = record st {
  mut_id = m.id;
  occurrences = occurrences;
  matched = if accepted then st.matched ++ m.fingerprint ∷ [] else st.matched;
}

unfoldable pub settle_as :
    Fate → Bool → Operator → Candidate → Map Text ℕ → Mutation → State → State
settle_as out_of_scope accepted op c occurrences m st = counted accepted occurrences m st
settle_as suppressed accepted op c occurrences m st = record (counted accepted occurrences m st) {
  ignored = st.ignored + 1;
}
settle_as reported accepted op c occurrences m st = record (counted accepted occurrences m st) {
  mutations = st.mutations ++ m ∷ [];
  entries = st.entries ++ record { cand = c; id = m.id; op = op } ∷ [];
}

unfoldable pub settle :
    Options → Ignores → Operator → Candidate → Map Text ℕ → Mutation → State → State
settle opts ign op c occurrences m st =
    settle_as (fate opts ign op c m) (is_accepted opts m.fingerprint) op c occurrences m st

module _ (digest : Text → Text) (pkg : Text) where
  -- The unnumbered fingerprint, which counts identical mutants of one scope.
  unfoldable pub same_of : SourceFile → List Text → Operator → Candidate → Text
  same_of file lines op c =
      let func_name = enclosing_func (collect_func_spans file.decls) c.pos in
      fingerprint digest (scope_of file func_name) op.name c.original c.mutant (line_text lines c)
        c.raw_column 0

  unfoldable pub next_occurrences :
      SourceFile → List Text → Operator → State → Candidate → Map Text ℕ
  next_occurrences file lines op st c = update (same_of file lines op c) count_up st.occurrences

  -- The mutation that a candidate stands for, in scope or not.
  unfoldable pub describe : SourceFile → List Text → Operator → State → Candidate → Mutation
  describe file lines op st c =
      let func_name = enclosing_func (collect_func_spans file.decls) c.pos in
      let n = or_zero (lookup (same_of file lines op c) (next_occurrences file lines op st c)) in
      record {
        id = st.mut_id + 1;
        pkg = pkg;
        file = file.path;
        line = c.line;
        column = c.column;
        function = func_name;
        operator_name = op.name;
        original = c.original;
        mutant = c.mutant;
        fingerprint =
            fingerprint digest (scope_of file func_name) op.name c.original c.mutant
              (line_text lines c) c.raw_column n;
        package_init = is_empty func_name && not (in_spans file.lit_spans c.pos);
        cover_line = case_stmt_line file.case_spans c.pos;
      }

  -- One turn of the loop over `op.Find(file)`.
  unfoldable pub visit :
      Options → SourceFile → Ignores → List Text → Operator → State → Candidate → State
  visit opts file ign lines op st c =
      settle opts ign op c (next_occurrences file lines op st c) (describe file lines op st c) st

  unfoldable pub visit_all :
      Options → SourceFile → Ignores → List Text → Operator → State → List Candidate → State
  visit_all opts file ign lines op st [] = st
  visit_all opts file ign lines op st (c ∷ cands) =
      visit_all opts file ign lines op (visit opts file ign lines op st c) cands

  unfoldable pub run_operators :
      Options → SourceFile → Ignores → List Text → List Operator → State → State
  run_operators opts file ign lines [] st = st
  run_operators opts file ign lines (op ∷ ops) st =
      run_operators opts file ign lines ops (visit_all opts file ign lines op st (op.find file))
