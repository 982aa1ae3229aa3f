-- ===== src/Xml/Nodes.antt =====
-- The functions of lua_xml.cc on documents and nodes.
use sdl_atf.Common.{
  ℕ, zero, suc, ◌-◌, Bool, true, false, ◌||◌, Option, none, some, List, Bytes, codes, ◌==◌, ltb,
  length, take,
}
use sdl_atf.Lua.{
  Value, nil, boolean, text, userdata, LuaApi, Called, failed, running, Function, ◌>>=◌, arg, give,
  push, is_nil,
}
use sdl_atf.Xml.Library.{Libxml, Kind, element, attribute_node}

abbrev pub document_class : Bytes
document_class = codes "xml.Document"

abbrev pub node_class : Bytes
node_class = codes "xml.Node"

abbrev pub is_element : Kind → Bool
is_element element = true
is_element _ = false

abbrev pub is_attribute : Kind → Bool
is_attribute attribute_node = true
is_attribute _ = false

-- A text that may be null, and what is pushed in its place.
abbrev pub text_or : Value → Option Bytes → Value
text_or v none = v
text_or v (some s) = text s

abbrev node_or_nil : Option ℕ → Value
node_or_nil none = nil
node_or_nil (some n) = userdata node_class n

-- `std::nullptr` where an optional argument is left out, which has to be a text where it is given.
abbrev optional_text : LuaApi → ℕ → ℕ → List Value → Option (Option Bytes)
optional_text l least n stack = elim (ltb least (length stack)) [
  | false ↦ some none
  | true ↦ elim (l.check_string (arg n stack)) [ none ↦ none | some s ↦ some (some s) ]
]

module _ {W : Type 0} (x : Libxml W) (l : LuaApi) where
  abbrev opened : List Value → W × Option (Option ℕ) → Called W
  opened stack (w, none) = failed w
  opened stack (w, some none) = give w 2 (push (text (codes "Invalid xml file")) (push nil stack))
  opened stack (w, some (some d)) = give w 1 (push (userdata document_class d) stack)

  unfoldable pub xml_open : Function W
  xml_open w stack = do
    filename ← l.check_string (arg 1 stack)
    opened stack (x.read_file w filename)

  unfoldable pub xml_new : Function W
  xml_new w stack = let (w', d) = x.new_doc w in give w' 1 (push (userdata document_class d) stack)

  -- The loop of `doc_rootNode`, along the chain of siblings; it ends with the chain.
  unfoldable pub first_element : ℕ → W → Option ℕ → Option (Option ℕ)
  first_element fuel w none = some none
  first_element zero w (some c) = none
  first_element (suc fuel) w (some c) = elim (is_element (x.kind w c)) [
    | true ↦ some (some c)
    | false ↦ first_element fuel w (x.next w c)
  ]

  abbrev pub root_found : W → List Value → Option (Option ℕ) → Called W
  root_found w stack none = running
  root_found w stack (some c) = give w 1 (push (node_or_nil c) stack)

  unfoldable pub doc_root_node : ℕ → Function W
  unfolding first_element
  doc_root_node fuel w stack = do
    d ← l.check_udata document_class (arg 1 stack)
    root_found w stack (first_element fuel w (x.doc_children w d))

  unfoldable pub doc_write : Function W
  doc_write w stack = do
    d ← l.check_udata document_class (arg 1 stack)
    filename ← l.check_string (arg 2 stack)
    give (x.save w d filename ((length stack == 2) || l.to_boolean (arg 3 stack))) 0 stack

  unfoldable pub doc_create_root_node : Function W
  doc_create_root_node w stack = do
    d ← l.check_udata document_class (arg 1 stack)
    name ← l.check_string (arg 2 stack)
    content ← optional_text l 2 3 stack
    let (w', node) = x.new_doc_node w d name content in
        give (x.set_root_element w' d node) 1 (push (userdata node_class node) stack)

  unfoldable pub xml_close : Function W
  xml_close w stack = do
    d ← l.check_udata document_class (arg 1 stack)
    give (x.free_doc w d) 0 stack

  abbrev text_set : W → ℕ → List Value → Option Bytes → Called W
  text_set w node stack none =
      give w 1 (push (text_or (text (codes "<nil>")) (x.get_content w node)) stack)
  text_set w node stack (some s) = give (x.set_content w node s) 1 (take (length stack - 1) stack)

  unfoldable pub node_text : Function W
  node_text w stack = do
    node ← l.check_udata node_class (arg 1 stack)
    new_text ← optional_text l 1 2 stack
    text_set w node stack new_text

  -- The function has no return statement: what it gives back of its stack is unspecified.
  unfoldable pub node_add_child : ℕ → Function W
  node_add_child unspecified w stack = do
    node ← l.check_udata node_class (arg 1 stack)
    name ← l.check_string (arg 2 stack)
    let (w', child) = x.new_node w name in
        give (x.add_child w' node child) unspecified (push (userdata node_class child) stack)

  unfoldable pub node_name : Function W
  node_name w stack = do
    node ← l.check_udata node_class (arg 1 stack)
    give w 1 (push (text_or (text (codes "<nil>")) (x.name w node)) stack)

  unfoldable pub node_attr : Function W
  node_attr w stack = do
    node ← l.check_udata node_class (arg 1 stack)
    attr ← l.check_string (arg 2 stack)
    elim (ltb (length stack) 3) [
      | true ↦ give w 1 (push (text_or nil (x.get_prop w node attr)) stack)
      | false ↦ elim (is_nil (arg 3 stack)) [
        | true ↦ give (x.unset_prop w node attr) 1 (take (length stack - 2) stack)
        | false ↦ do
          value ← l.check_string (arg 3 stack)
          give (x.set_prop w node attr value) 1 (take (length stack - 2) stack)
      ]
    ]

  unfoldable pub node_parent : Function W
  node_parent w stack = do
    node ← l.check_udata node_class (arg 1 stack)
    give w 1 (push (node_or_nil (x.parent w node)) stack)

  unfoldable pub node_remove : Function W
  node_remove w stack = do
    node ← l.check_udata node_class (arg 1 stack)
    give (x.free_node (x.unlink_node w node) node) 0 stack

  unfoldable pub node_eq : Function W
  node_eq w stack = do
    a ← l.check_udata node_class (arg 1 stack)
    b ← l.check_udata node_class (arg 2 stack)
    give w 1 (push (boolean (a == b)) stack)
