-- ===== src/Xml/Library.antt =====
-- What lua_xml.cc calls of libxml2, which is a parameter.
use sdl_atf.Common.{ℕ, Bool, Option, List, Bytes}
use sdl_atf.Lua.{Value}

pub data Kind : Type 0 where
  element text_node attribute_node other_node : Kind

-- What an evaluation gives; a number is the value that `lua_pushnumber` makes of it.
pub data XpathResult : Type 0 where
  no_context no_result null_set : XpathResult
  node_set : List ℕ → XpathResult
  boolean_value : Bool → XpathResult
  number_value : Value → XpathResult
  string_value : Bytes → XpathResult
  other_value : XpathResult

-- The calls on a state `W` of the documents and of the heap of Lua; a document, a node or an attribute
-- is a number, and a null pointer `none`. A call whose error handler raises an error of Lua is `none`.
pub record Libxml (W : Type 0) : Type 0 where
  pub read_file : W → Bytes → W × Option (Option ℕ)
  pub new_doc : W → W × ℕ
  pub free_doc : W → ℕ → W
  pub save : W → ℕ → Bytes → Bool → W
  pub doc_children : W → ℕ → Option ℕ
  pub new_doc_node : W → ℕ → Bytes → Option Bytes → W × ℕ
  pub set_root_element : W → ℕ → ℕ → W
  pub evaluate : W → ℕ → Option ℕ → Bytes → W × Option XpathResult
  -- the fields of a node
  pub kind : W → ℕ → Kind
  pub next : W → ℕ → Option ℕ
  pub children : W → ℕ → Option ℕ
  pub parent : W → ℕ → Option ℕ
  pub doc : W → ℕ → Option ℕ
  pub name : W → ℕ → Option Bytes
  pub content : W → ℕ → Bytes
  pub properties : W → ℕ → Option ℕ
  -- and the calls on it
  pub new_node : W → Bytes → W × ℕ
  pub add_child : W → ℕ → ℕ → W
  pub get_content : W → ℕ → Option Bytes
  pub set_content : W → ℕ → Bytes → W
  pub get_prop : W → ℕ → Bytes → Option Bytes
  pub set_prop : W → ℕ → Bytes → Bytes → W
  pub unset_prop : W → ℕ → Bytes → W
  pub unlink_node : W → ℕ → W
  pub free_node : W → ℕ → W
  -- a new table of Lua, into which the pairs are set in their order
  pub make_table : W → List (Value × Value) → W × Value
