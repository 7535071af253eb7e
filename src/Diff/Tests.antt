-- ===== src/Diff/Tests.antt =====
-- An example diff.
use kanly.Base.{none, some, Text, codes, List, [], ◌∷◌, ◌++◌}
use kanly.Diff.Hunks.{Hunk}
use kanly.Diff.Laws.{FileDiff}

abbrev join_path : Text → Text → Text
join_path root rel = root ++ (codes "/" ++ rel)

-- Three lines from line 7 in place of one, and a deletion at line 20.
abbrev a_hunks : List Hunk
a_hunks =
    record {
      old = record { start = 7; count = none };
      new = record { start = 7; count = some 3 };
      context = codes " func f() {";
      text = codes "-\tn--" ∷ codes "+\tn++" ∷ codes "+\tg()" ∷ codes "+\th()" ∷ [];
    }
    ∷ record {
      old = record { start = 18; count = none };
      new = record { start = 20; count = some 0 };
      context = [];
      text = codes "--- x" ∷ [];
    }
    ∷ []

abbrev changes : List FileDiff
changes =
    record {
      names = codes " a/a.go b/a.go";
      before = codes "index 1f..2a 100644" ∷ codes "--- a/a.go" ∷ [];
      path = codes "a.go";
      hunks = a_hunks;
    }
    ∷ []
