-- ===== src/Xml/Tables.antt =====
-- The functions of lua_xml.cc that give tables: `node_children`, `node_attributes` and `eval_xpath`;
-- and `luaopen_xml`.
pub mod Siblings
use sdl_atf.Common.{
  ℕ, zero, suc, ◌+◌, ℤ, pos, Bool, true, false, ◌&&◌, Option, none, some, List, [], ◌∷◌, ◌++◌,
  Bytes, codes, bytes_eq,
}
use sdl_atf.Lua.{
  Value, nil, boolean, integer, text, userdata, LuaApi, Called, failed, running, aborted, Function,
  Metatable, ◌>>=◌, arg, give, push,
}
use sdl_atf.Xml.Library.{
  Libxml, Kind, element, text_node, attribute_node, other_node, XpathResult, no_context, no_result,
  null_set, node_set, boolean_value, number_value, string_value, other_value,
}
use sdl_atf.Xml.Nodes.{
  document_class, node_class, is_element, is_attribute, text_or, xml_close, doc_root_node,
  doc_write, doc_create_root_node, node_text, node_name, node_attr, node_parent, node_remove,
  node_eq, node_add_child,
}

-- The pairs of a table.
abbrev pub Pairs : Type 0
Pairs = List (Value × Value)

abbrev consed : Value × Value → Option Pairs → Option Pairs
consed p none = none
consed p (some ps) = some (p ∷ ps)

abbrev is_text : Kind → Bool
is_text text_node = true
is_text _ = false

-- `!filter || xmlStrEqual(n->name, filter)`
abbrev pub passes : Option Bytes → Option Bytes → Bool
passes none name = true
passes (some filter) none = false
passes (some filter) (some name) = bytes_eq name filter

module _ {W : Type 0} (x : Libxml W) (l : LuaApi) where
  -- The node is an element that passes the filter.
  abbrev pub wanted : W → Option Bytes → ℕ → Bool
  wanted w filter n = is_element (x.kind w n) && passes filter (x.name w n)

  -- The loop along the siblings, with `i` entries made so far.
  unfoldable pub child_entries : ℕ → W → Option Bytes → ℕ → Option ℕ → Option Pairs
  child_entries fuel w filter i none = some []
  child_entries zero w filter i (some n) = none
  child_entries (suc fuel) w filter i (some n) = elim (wanted w filter n) [
    | true ↦
        consed (integer (pos (suc i)), userdata node_class n)
          (child_entries fuel w filter (suc i) (x.next w n))
    | false ↦ child_entries fuel w filter i (x.next w n)
  ]

  -- `lua_newtable`, and the pairs set in it.
  abbrev pub with_table : W → List Value → Option Pairs → Called W
  with_table w stack none = running
  with_table w stack (some ps) = let (w', table) = x.make_table w ps in give w' 1 (push table stack)

  unfoldable pub node_children : ℕ → Function W
  unfolding child_entries
  node_children fuel w stack = do
    node ← l.check_udata node_class (arg 1 stack)
    elim (is_element (x.kind w node)) [
      | true ↦
          with_table w stack
            (child_entries fuel w (l.to_string (arg 2 stack)) 0 (x.children w node))
      | false ↦ give w 1 (push nil stack)
    ]

  unfoldable pub attribute_entries : ℕ → W → ℕ → Option ℕ → Option Pairs
  attribute_entries fuel w node none = some []
  attribute_entries zero w node (some n) = none
  attribute_entries (suc fuel) w node (some n) = elim (is_attribute (x.kind w n)) [
    | true ↦
        consed (text_or nil (x.name w n), text_or nil (attribute_value w node (x.name w n)))
          (attribute_entries fuel w node (x.next w n))
    | false ↦ attribute_entries fuel w node (x.next w n)
  ]
    where
      attribute_value : W → ℕ → Option Bytes → Option Bytes
      attribute_value w node none = none
      attribute_value w node (some name) = x.get_prop w node name

  unfoldable pub node_attributes : ℕ → Function W
  unfolding attribute_entries
  node_attributes fuel w stack = do
    node ← l.check_udata node_class (arg 1 stack)
    elim (is_element (x.kind w node)) [
      | true ↦ with_table w stack (attribute_entries fuel w node (x.properties w node))
      | false ↦ give w 1 (push nil stack)
    ]

  -- The loop over a node set: a node of another kind has no entry, and an attribute whose child
  -- is not a text, or that has none, as an empty one, fails an assertion (`none`).
  unfoldable pub set_entries : W → ℕ → List ℕ → Option Pairs
  set_entries w i [] = some []
  set_entries w i (n ∷ ns) =
      let rest = set_entries w (suc i) ns in
      elim (x.kind w n) [
        | element ↦ consed (integer (pos (suc i)), userdata node_class n) rest
        | text_node ↦ consed (integer (pos (suc i)), text (x.content w n)) rest
        | attribute_node ↦ elim (x.children w n) [
          | none ↦ none
          | some c ↦ elim (is_text (x.kind w c)) [
            | true ↦ consed (integer (pos (suc i)), text (x.content w c)) rest
            | false ↦ none
          ]
        ]
        | other_node ↦ rest
      ]

  abbrev set_result : W → List Value → Option Pairs → Called W
  set_result w stack none = aborted
  set_result w stack (some ps) = let (w', table) = x.make_table w ps in give w' 1 (push table stack)

  unfoldable pub xpath_result : List Value → Bytes → W × Option XpathResult → Called W
  unfolding set_entries
  xpath_result stack query (w, none) = failed w
  xpath_result stack query (w, some no_context) =
      give w 2 (push (text (codes "Error creating xpath context")) (push nil stack))
  xpath_result stack query (w, some no_result) = give w 2 (
      push (text (codes "Error evaluating xpath query: " ++ b'"' ∷ query ++ b'"' ∷ []))
        (push nil stack))
  xpath_result stack query (w, some null_set) = give w 1 (push nil stack)
  xpath_result stack query (w, some (node_set ns)) = set_result w stack (set_entries w 0 ns)
  xpath_result stack query (w, some (boolean_value b)) = give w 1 (push (boolean b) stack)
  xpath_result stack query (w, some (number_value v)) = give w 1 (push v stack)
  xpath_result stack query (w, some (string_value s)) = give w 1 (push (text s) stack)
  xpath_result stack query (w, some other_value) = give w 1 (push nil stack)

  unfoldable pub eval_xpath : W → List Value → ℕ → Option ℕ → Bytes → Called W
  unfolding xpath_result
  eval_xpath w stack d node query = xpath_result stack query (x.evaluate w d node query)

  unfoldable pub doc_xpath : Function W
  unfolding eval_xpath
  doc_xpath w stack = do
    d ← l.check_udata document_class (arg 1 stack)
    query ← l.check_string (arg 2 stack)
    eval_xpath w stack d none query

  -- A node that is not in a document raises an error before the query is looked at.
  unfoldable pub node_xpath : Function W
  unfolding eval_xpath
  node_xpath w stack = do
    node ← l.check_udata node_class (arg 1 stack)
    d ← x.doc w node
    query ← l.check_string (arg 2 stack)
    eval_xpath w stack d (some node) query

  unfoldable pub luaopen_xml : ℕ → ℕ → List (Metatable W)
  unfolding node_children node_attributes doc_xpath node_xpath
  luaopen_xml unspecified fuel =
      record {
        class = document_class;
        index =
            (codes "xpath", doc_xpath)
            ∷ (codes "rootNode", doc_root_node x l fuel)
            ∷ (codes "write", doc_write x l)
            ∷ (codes "createRootNode", doc_create_root_node x l)
            ∷ [];
        events = (codes "__gc", xml_close x l) ∷ [];
      }
      ∷ record {
        class = node_class;
        index =
            (codes "text", node_text x l)
            ∷ (codes "name", node_name x l)
            ∷ (codes "attr", node_attr x l)
            ∷ (codes "xpath", node_xpath)
            ∷ (codes "children", node_children fuel)
            ∷ (codes "parent", node_parent x l)
            ∷ (codes "attributes", node_attributes fuel)
            ∷ (codes "addChild", node_add_child x l unspecified)
            ∷ (codes "remove", node_remove x l)
            ∷ [];
        events = (codes "__eq", node_eq x l) ∷ [];
      }
      ∷ []
