-- ===== src/Selector/Tests.antt =====
-- Example selectors.
use kanly.Base.{◌≡◌, refl, true, codes, [], ◌∷◌, text_beq}
use kanly.Base.Attempt.{done}
use kanly.Base.Strings.{trim_right, is_space, join, contains_text, cut_prefix}
use kanly.Schema.Spans.{func_decl_name}
use kanly.Selector.{parse_one, match_func}
use kanly.Selector.Parse.{FuncName, PackagePattern, parse_one-join}
use kanly.Selector.Match.{method_of, match_func-method}

plain-FuncName : FuncName (codes "Compute")
unfolding trim_right is_space
plain-FuncName = record { parens = refl; left = refl; right = refl }

method-FuncName : FuncName (codes "(*Tree).Add")
unfolding trim_right is_space
method-FuncName = record { parens = refl; left = refl; right = refl }

internal_foo-PackagePattern : PackagePattern (codes "./internal/foo")
unfolding trim_right is_space contains_text cut_prefix
internal_foo-PackagePattern = record { parens = refl; left = refl; right = refl; single = refl }

parse_one-join_example :
    parse_one (codes "./internal/foo:Compute,(*Tree).Add")
    ≡ done (record {
      pattern = codes "./internal/foo";
      funcs = codes "Compute" ∷ codes "(*Tree).Add" ∷ [];
    })
unfolding join
parse_one-join_example =
    parse_one-join (codes "./internal/foo") (codes "(*Tree).Add" ∷ []) (codes "Compute")
      internal_foo-PackagePattern plain-FuncName (method-FuncName, tt)

match_func-method_example :
    match_func
      (codes "Tree.Add")
      (func_decl_name (method_of true (codes "Tree") (codes "Add") 5 60))
    ≡ true
unfolding text_beq
match_func-method_example =
    match_func-method true b'T' (codes "ree") (codes "Add") (codes "Tree") (codes "Add") 5 60 refl
      refl
