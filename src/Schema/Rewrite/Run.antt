-- ===== src/Schema/Rewrite/Run.antt =====
-- internal/schema/rewriter.go: the loop over a package's files, and what `RewriteWith` returns.
use kanly.Base.{
  ◌≡◌, ap, ℕ, Bool, true, false, not, Text, List, [], ◌∷◌, ◌++◌, Option, text_eq, contains, keep,
  map, if◌then◌else◌,
}
use kanly.Base.Attempt.{Attempt, done, failed, ◌>>=◌, >>=-eq-done, done-injective, or_fail}
use kanly.Base.Sort.{sort}
use kanly.Base.Strings.{text_le}
use kanly.Mutation.{Mutation}
use kanly.Schema.Ignore.{Ignores, collect_ignores}
use kanly.Schema.Rewrite.{SourceFile, Operator, Entry, Options, State, fresh, run_operators}
use kanly.Schema.Rewrite.Groups.{Group, group_entries, has_conflict}

pub data Failure : Type 0 where
  bad_directive unreadable conflict : Failure

-- The call sites of a rewritten file.
abbrev pub Sites : Type 0
Sites = List (Text × List Group)

pub record Rewritten : Type 0 where
  pub sites : Sites
  pub mutations : List Mutation
  pub ignored : ℕ
  pub stale_accepted : List Text

-- `sort.Strings` over the paths of the package's files.
abbrev pub by_path : SourceFile → SourceFile → Bool
by_path f g = text_le f.path g.path

abbrev keys_of : {V : Type 0} → List (Text × V) → List Text
keys_of = map (λ (k, _). k)

unfoldable pub stale_of : Options → State → List Text
stale_of opts st = sort text_le (keep (λ fp. not (contains st.matched fp)) (keys_of opts.accepted))

-- What a run over several files that succeeds says of its first file and of the others.
pub chain-eq-done :
    (m : Attempt Failure State) (g : State → Attempt Failure Sites)
    (k : State → Attempt Failure (State × Sites)) {r : State × Sites}
    → (do st' ← m; sites ← g st'; (last, more) ← k st'; done (last, sites ++ more)) ≡ done r
    → (s : State) × (m ≡ done s) × (r' : State × Sites) × (k s ≡ done r') × (r'.0 ≡ r.0)
chain-eq-done m g k h =
    let (s, h1, h2) = >>=-eq-done m _ h in
    let (sites, _, h3) = >>=-eq-done (g s) _ h2 in
    let (r', h4, h5) = >>=-eq-done (k s) _ h3 in
    (s, h1, r', h4, ap (λ (x : State × Sites). x.0) (done-injective h5))

-- The call sites of a file whose reported candidates these are.
abbrev pub sites_of : Text → List Entry → Attempt Failure Sites
sites_of path [] = done []
sites_of path (e ∷ entries) =
    let groups = group_entries (e ∷ entries) in
    if has_conflict groups then failed conflict else done ((path, groups) ∷ [])

module _ (digest : Text → Text) (pkg : Text) (ops : List Operator) where
  unfoldable pub number_steps :
      Options → SourceFile → Option Ignores → Option (List Text) → State → Attempt Failure State
  number_steps opts file directives lines st = do
    ign ← or_fail bad_directive directives
    text ← or_fail unreadable lines
    done (run_operators digest pkg opts file ign text ops (record st { entries = [] }))

module _ (digest : Text → Text) (pkg : Text) (ops : List Operator) (known : List Text) where
  -- The numbering of one file's candidates; `entries` begins empty in each file.
  unfoldable pub number_file : Options → SourceFile → State → Attempt Failure State
  number_file opts file st =
      number_steps digest pkg ops opts file (collect_ignores known file.comments) file.lines st

  unfoldable pub grouped : SourceFile → State → Attempt Failure Sites
  grouped file st = sites_of file.path st.entries

  -- The files in order, each but the generated ones.
  unfoldable pub rewrite_files : Options → List SourceFile → State → Attempt Failure (State × Sites)
  rewrite_files opts [] st = done (st, [])
  rewrite_files opts (file ∷ files) st =
      let skipped = rewrite_files opts files st in
      elim file.generated [
        | true ↦ skipped
        | false ↦ do
          st' ← number_file opts file st
          sites ← grouped file st'
          (last, more) ← rewrite_files opts files st'
          done (last, sites ++ more)
      ]

  unfoldable pub rewrite_with : Options → List SourceFile → Attempt Failure Rewritten
  rewrite_with opts files = do
    (st, sites) ← rewrite_files opts (sort by_path files) fresh
    done (record {
      sites = sites;
      mutations = st.mutations;
      ignored = st.ignored;
      stale_accepted = stale_of opts st;
    })

-- The names that `//kanly:ignore` may give: the registry's and the run's operators.
unfoldable pub known_names : List Operator → List Operator → List Text
known_names registry ops = map (λ op. op.name) registry ++ map (λ op. op.name) ops
