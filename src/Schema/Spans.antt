-- ===== src/Schema/Spans.antt =====
-- internal/schema/rewriter.go: display names of functions, and which function, function literal or
-- case expression a position lies in. A position is a `token.Pos`; `NoPos` is 0.
pub mod Laws
use kanly.Base.{
  ℕ, Bool, true, false, ◌&&◌, Text, codes, List, [], ◌∷◌, ◌++◌, Option, none, some, ltb, leb,
  if◌then◌else◌, any,
}

-- The type expression of a receiver, as far as `funcDeclName` looks into it. `index` is the
-- receiver of a generic type with one type parameter, `index_list` with several.
pub data TypeExpr : Type 0 where
  ident : Text → TypeExpr
  star : TypeExpr → TypeExpr
  index : TypeExpr → TypeExpr
  index_list : TypeExpr → TypeExpr
  other : TypeExpr

pub record FuncDecl : Type 0 where
  pub recv : Option TypeExpr
  pub name : Text
  pub start : ℕ
  pub end : ℕ

abbrev pub qualified : Text → Text → Text → Text
qualified opening t name = opening ++ (t ++ (codes ")." ++ name))

abbrev pub receiver_name : TypeExpr → Text → Text
receiver_name (ident t) name = qualified (codes "(") t name
receiver_name (star (ident t)) name = qualified (codes "(*") t name
receiver_name (index (ident t)) name = qualified (codes "(") t name
receiver_name (index_list (ident t)) name = qualified (codes "(") t name
receiver_name _ name = name

unfoldable pub func_decl_name : FuncDecl → Text
func_decl_name fd = elim fd.recv [ none ↦ fd.name | some t ↦ receiver_name t fd.name ]

pub record FuncSpan : Type 0 where
  pub start : ℕ
  pub end : ℕ
  pub name : Text

-- One span for each function declaration of a file.
unfoldable pub collect_func_spans : List FuncDecl → List FuncSpan
unfolding func_decl_name
collect_func_spans [] = []
collect_func_spans (fd ∷ decls) =
    record { start = fd.start; end = fd.end; name = func_decl_name fd } ∷ collect_func_spans decls

abbrev pub within : ℕ → ℕ → ℕ → Bool
within start end pos = leb start pos && ltb pos end

unfoldable pub enclosing_func : List FuncSpan → ℕ → Text
enclosing_func [] pos = []
enclosing_func (s ∷ spans) pos =
    if within s.start s.end pos then s.name else enclosing_func spans pos

unfoldable pub in_spans : List FuncSpan → ℕ → Bool
in_spans spans pos = any (λ s. within s.start s.end pos) spans

pub record CaseSpan : Type 0 where
  pub start : ℕ
  pub end : ℕ
  pub stmt_line : ℕ

case_loop : ℕ → ℕ → ℕ → List CaseSpan → ℕ
case_loop pos line start [] = line
case_loop pos line start (s ∷ spans) =
    let better = within s.start s.end pos && ltb start s.start in
    case_loop pos (if better then s.stmt_line else line) (if better then s.start else start) spans

unfoldable pub case_stmt_line : List CaseSpan → ℕ → ℕ
unfolding case_loop
case_stmt_line spans pos = case_loop pos 0 0 spans
