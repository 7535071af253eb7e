-- ===== src/Operators/Find/Conflicts/Registered.antt =====
-- internal/operators/register.go with the grouping of internal/schema/rewriter.go: the shape-specific
-- operators on one node.
use kanly.Base.{ℕ, ◌≡◌, false, Text, List, [], ◌∷◌, nat_eq, map, All, Distinct, arith, ◌≢◌}
use kanly.Base.Attempt.{failed}
use kanly.Schema.Rewrite.{SourceFile, Options}
use kanly.Schema.Rewrite.Run.{conflict, rewrite_with}
use kanly.Schema.Rewrite.Composition.{Agrees, rewrite_with-composes}
use kanly.Operators.Binary.{boundary_sibling, negate_map}
use kanly.Operators.Tree.{Node, node_id, walk, inspect}
use kanly.Operators.Types.{Info}
use kanly.Operators.Find.{Candidate}
use kanly.Operators.Find.Statements.{skip}
use kanly.Operators.Find.Register.{Finder, registered, Position, located, as_operator}
use kanly.Operators.Find.Keys.{
  nodes, nodes_of, key_in, node_key, key_in-node_key, All-nodes_of, All-concat_map, Called, Seen,
  walk-Called,
}
use kanly.Operators.Find.Conflicts.{
  Keyed, int_arith-Keyed, int_bitwise-Keyed, int_cmp_boundary-Keyed, int_cmp_negate-Keyed,
  float_arith-Keyed, float_cmp-Keyed, bool_logic-Keyed, bool_not-Keyed, boundary_negates,
}
use kanly.Operators.Find.Conflicts.Shapes.{
  call_delete-Keyed, chan_op-Keyed, inc_dec-Keyed, int_compound_assign-Keyed, slice_index-Keyed,
  string_literal-Keyed, int_literal-Keyed, bool_literal-Keyed, switch_case-Keyed,
}

module _ (info : Info) (file : Node) (d : Distinct (map node_id (nodes file))) where
  key_at : ℕ → Text
  key_at = key_in info (nodes file)

  Placed : Node → Type 0
  Placed n = key_in info (nodes file) (node_id n) ≡ node_key info n

  file-walked :
      All (Seen (λ n. key_in info (nodes file) (node_id n) ≡ node_key info n)) (walk [] file)
  unfolding nodes
  file-walked =
      walk-Called _ [] file
        (All-nodes_of _ (walk [] file) (key_in-node_key info (nodes_of (walk [] file)) d))

  inspect-Keyed :
      (key : Text) (at : List Node → Node → List Candidate)
      → ((stack : List Node) (n : Node)
          → key_in info (nodes file) (node_id n) ≡ node_key info n
          → Called (λ c. key_in info (nodes file) (node_id c) ≡ node_key info c) n
          → Keyed (key_in info (nodes file)) key (at stack n))
      → Keyed (key_in info (nodes file)) key (inspect at file)
  unfolding inspect
  inspect-Keyed key at h = record {
    keyed =
        All-concat_map _ _ _ (walk [] file) (λ (v : List Node × Node) p. (h v.0 v.1 p.0 p.1).keyed)
          file-walked;
  }

  -- A shape-specific operator finds nodes of its dispatcher only.
  pub registered-Keyed :
      All
        (λ f.
          f.wraps ≡ false → Keyed (key_in info (nodes file)) f.dispatcher_key (f.find info file))
        registered
  registered-Keyed =
      let k = key_in info (nodes file) in
      (
        (λ w. inspect-Keyed _ _ (λ stack n q c. int_arith-Keyed info k n q)),
        (
          (λ w. inspect-Keyed _ _ (λ stack n q c. int_cmp_boundary-Keyed info k n q)),
          (
            (λ w. inspect-Keyed _ _ (λ stack n q c. int_cmp_negate-Keyed info k n q)),
            (
              (λ w. inspect-Keyed _ _ (λ stack n q c. bool_logic-Keyed info k n q)),
              (
                (λ w. inspect-Keyed _ _ (λ stack n q c. bool_not-Keyed info k n q)),
                (
                  (λ w. ground arith),
                  (
                    (λ w. inspect-Keyed _ _ (λ stack n q c. call_delete-Keyed info k n c)),
                    (
                      (λ w.
                          inspect-Keyed _ _ (λ stack n q c. string_literal-Keyed info k stack n q)),
                      (
                        (λ w. inspect-Keyed _ _ (λ stack n q c. slice_index-Keyed info k n q)),
                        (
                          (λ w. ground arith),
                          (
                            (λ w. inspect-Keyed _ _ (λ stack n q c. inc_dec-Keyed info k n q)),
                            (
                              (λ w.
                                  inspect-Keyed _ _
                                    (λ stack n q c. int_compound_assign-Keyed info k n q)),
                              (
                                (λ w.
                                    inspect-Keyed _ _
                                      (λ stack n q c. int_bitwise-Keyed info k n q)),
                                (
                                  (λ w.
                                      inspect-Keyed _ _
                                        (λ stack n q c. int_literal-Keyed info k stack n q)),
                                  (
                                    (λ w. ground arith),
                                    (
                                      (λ w.
                                          inspect-Keyed _ _
                                            (λ stack n q c. bool_literal-Keyed info k stack n q)),
                                      (
                                        (λ w. ground arith),
                                        (
                                          (λ w.
                                              inspect-Keyed _ _
                                                (λ stack n q c. float_arith-Keyed info k n q)),
                                          (
                                            (λ w. inspect-Keyed _ _ (λ stack n q c.
                                                float_cmp-Keyed info k boundary_sibling
                                                  boundary_negates n q)),
                                            (
                                              (λ w. inspect-Keyed _ _ (λ stack n q c.
                                                  float_cmp-Keyed info k negate_map (λ op h. h) n
                                                    q)),
                                              (
                                                (λ w. inspect-Keyed _ _ (λ stack n q c.
                                                    chan_op-Keyed info k (skip file) n q)),
                                                (
                                                  (λ w. inspect-Keyed _ _ (λ stack n q c.
                                                      switch_case-Keyed info k n q)),
                                                  tt,
                                                ),
                                              ),
                                            ),
                                          ),
                                        ),
                                      ),
                                    ),
                                  ),
                                ),
                              ),
                            ),
                          ),
                        ),
                      ),
                    ),
                  ),
                ),
              ),
            ),
          ),
        ),
      )

All-each :
    {A F : Type 0} (P : F → A → Type 0) (xs : List A)
    → ((file : F) → All (P file) xs)
    → All (λ x. (file : F) → P file x) xs
All-each P [] h = tt
All-each P (x ∷ xs) h = ((λ file. (h file).0), All-each P xs (λ file. (h file).1))

module _ (position : SourceFile → ℕ → Position) (info : Info) (tree : SourceFile → Node) where
  abbrev file_key : SourceFile → ℕ → Text
  file_key file = key_in info (nodes (tree file))

  located-key :
      (file : SourceFile) (key : Text) (cs : List Candidate)
      → All (λ c. file_key file c.node_id ≡ key) cs
      → All (λ c. file_key file c.node ≡ key) (map (located (position file)) cs)
  located-key file key [] a = tt
  located-key file key (c ∷ cs) (k, a) = (k, located-key file key cs a)

  abbrev Finds : SourceFile → Finder → Type 0
  Finds file f = f.wraps ≡ false → Keyed (file_key file) f.dispatcher_key (f.find info (tree file))

  All-Agrees :
      (fs : List Finder)
      → All (λ f. (file : SourceFile) → Finds file f) fs
      → All (Agrees file_key) (map (as_operator position info tree) fs)
  All-Agrees [] a = tt
  All-Agrees (f ∷ fs) (k, a) = (
    (λ w file. located-key file f.dispatcher_key (f.find info (tree file)) (k file w).keyed),
    All-Agrees fs a,
  )

-- A run of the registered operators over files whose nodes have pointers of their own never fails
-- because two operators rewrite one expression: whatever the types say, the shape-specific operators
-- that find a node share its dispatcher.
pub registered-composes :
    (digest : Text → Text) (pkg : Text) (opts : Options) (known : List Text)
    (position : SourceFile → ℕ → Position) (info : Info) (tree : SourceFile → Node)
    (files : List SourceFile)
    → ((file : SourceFile) → Distinct (map node_id (nodes (tree file))))
    → rewrite_with digest pkg (map (as_operator position info tree) registered) known opts files
      ≢ failed conflict
registered-composes digest pkg opts known position info tree files d =
    rewrite_with-composes digest pkg opts (file_key position info tree) _ known files (
      All-Agrees position info tree registered (
        All-each (Finds position info tree) registered
          (λ file. registered-Keyed info (tree file) (d file))))
