-- ===== src/Inspector/Names.antt =====
-- Names: `get_Qualident`, `visit(ASTIdentifier)` and `visit(ASTQualident)` of
-- src/compiler/inspector.cc.
use axcomp.Prelude.{
  ℕ, Bool, true, false, not, [], Option, none, some, get_elem?, if◌then◌else◌, Text, text_eq,
}
use axcomp.Attr.{cnst, has_attr}
use axcomp.SymbolTable.Frames
use axcomp.Types.{TypeNode, module_of}
use axcomp.Importer.{make_coded_id}
use axcomp.Ast.Expr.{AstQualident}
use axcomp.Inspector.State.{
  on_option, Inspect, State, ◌>>=◌, ◌>>◌, pure, gets, change, complain, complain_if, deref, find,
  symbol, node, get_name, find_type, resolve, set_last, set_const, set_lvalue, undefined_identifier,
  identifier_type, undefined_in_module,
}

-- `get_Qualident`
abbrev pub coded : AstQualident → TypeNode → Text
coded q (module_of m) = make_coded_id m q.id.value
coded q _ = []

abbrev pub coded_symbol : AstQualident → Option ℕ → Inspect Text
coded_symbol q none = pure []
coded_symbol q (some i) = do v ← symbol i; t ← deref v.type; n ← node t; pure (coded q n)

unfoldable pub get_qualident : AstQualident → Inspect Text
get_qualident q = do
  res ← find q.qual
  if text_eq q.qual [] then pure q.id.value else coded_symbol q res

-- The identifier as `get_Qualident` leaves it in the tree: with the name of the module itself.
abbrev pub renamed : AstQualident → Option TypeNode → AstQualident
renamed q (some (module_of m)) = record q { qual = m }
renamed q _ = q

abbrev pub node_of : State → Option ℕ → Option TypeNode
node_of s none = none
node_of s (some t) = get_elem? s.types.heap t

abbrev pub type_of : State → Option ℕ → Option ℕ
type_of s none = none
type_of s (some i) = elim (get_elem? s.store i) [ none ↦ none | some v ↦ v.type ]

abbrev pub found : State → Text → Option ℕ
found s name = elim (Frames.find name s.symbols) [ none ↦ none | some (o, _) ↦ o ]

unfoldable pub rewritten : AstQualident → Inspect AstQualident
rewritten q =
    gets λ s. if text_eq q.qual [] then q else renamed q (node_of s (type_of s (found s q.qual)))

-- `visit(ASTIdentifier)`
abbrev pub is_there : Option ℕ → Bool
is_there none = false
is_there (some _) = true

abbrev pub missing : Text → Inspect (Unit {0})
missing name = do
  qualid ← gets λ s. s.is_qualid
  type ← find_type name
  if qualid
      then (change λ s. record s { qualid_error = true })
      else complain_if (not (is_there type)) (undefined_identifier name)

abbrev pub resolved : Text → Bool → Option ℕ → Inspect (Unit {0})
resolved name const none = complain (identifier_type name)
resolved name const (some t) = set_last (some t) >> set_const const >> set_lvalue true

unfoldable pub visit_identifier : ℕ → Text → Inspect (Unit {0})
visit_identifier f name = do
  res ← find name
  on_option res (missing name) λ i. do
    v ← symbol i
    t ← deref v.type
    type_name ← get_name t
    type ← resolve f type_name
    resolved name (has_attr cnst v.attrs) type

-- `visit(ASTQualident)`
unfoldable pub visit_qualident : ℕ → AstQualident → Inspect (Unit {0})
visit_qualident f q = if text_eq q.qual [] then visit_identifier f q.id.value else (do
  name ← get_qualident q
  change λ s. record s { is_qualid = true; qualid_error = false }
  visit_identifier f name
  wrong ← gets λ s. s.qualid_error
  complain_if wrong (undefined_in_module q.id.value))
