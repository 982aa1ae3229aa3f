-- ===== src/Xml/Tables/Siblings.antt =====
-- The loops of lua_xml.cc along a chain of siblings against lists.
use sdl_atf.Common.{
  ℕ, zero, suc, ◌≤◌, ◌≡◌, refl, pos, Bool, true, Option, none, some, List, [], ◌∷◌, Bytes, length,
  arith, Bool-cases, inl, inr, if◌then◌else◌,
}
use sdl_atf.Lua.{Value, nil, integer, userdata, LuaApi, IsLuaApi, returned, give, push, ◌>>=◌}
use sdl_atf.Xml.Library.{Libxml}
use sdl_atf.Xml.Nodes.{
  node_class, document_class, is_element, first_element, doc_root_node, root_found,
}
use sdl_atf.Xml.Tables.{Pairs, wanted, child_entries, node_children}

-- The nodes that a loop along `next` meets.
abbrev pub IsChain : {W : Type 0} → Libxml W → W → Option ℕ → List ℕ → Type 0
IsChain x w first [] = first ≡ none
IsChain x w first (n ∷ ns) = (first ≡ some n) × IsChain x w (x.next w n) ns

abbrev pub kept : (ℕ → Bool) → List ℕ → List ℕ
kept test [] = []
kept test (n ∷ ns) = let rest = kept test ns in if test n then n ∷ rest else rest

-- The nodes as the array of a Lua table, behind `i` entries.
abbrev pub numbered : ℕ → List ℕ → Pairs
numbered i [] = []
numbered i (n ∷ ns) = (integer (pos (suc i)), userdata node_class n) ∷ numbered (suc i) ns

abbrev pub first_of : List ℕ → Value
first_of [] = nil
first_of (n ∷ ns) = userdata node_class n

module _ {W : Type 0} (x : Libxml W) (l : LuaApi) (w : W) where
  child_entries_lem :
      (filter : Option Bytes) (ns : List ℕ) (fuel i : ℕ) (first : Option ℕ)
      → IsChain x w first ns
      → length ns ≤ fuel
      → child_entries x l fuel w filter i first ≡ some (numbered i (kept (wanted x l w filter) ns))
  unfolding child_entries
  child_entries_lem filter [] fuel i first h le = rw (h, child_entries) refl
  child_entries_lem filter (n ∷ ns) zero i first h le = absurd (omega arith)
  child_entries_lem filter (n ∷ ns) (suc fuel) i first (here, rest) le =
      elim (Bool-cases (wanted x l w filter n)) [
        | inl is ↦
            rw (here, child_entries, is)
              (rw (child_entries_lem filter ns fuel (suc i) (x.next w n) rest (omega arith)) refl)
        | inr isnt ↦
            rw (here, child_entries, isnt)
              (child_entries_lem filter ns fuel i (x.next w n) rest (omega arith))
      ]

  first_element_lem :
      (ns : List ℕ) (fuel : ℕ) (first : Option ℕ) (stack : List Value)
      → IsChain x w first ns
      → length ns ≤ fuel
      → root_found x l w stack (first_element x l fuel w first)
        ≡ give w 1 (push (first_of (kept (λ n. is_element (x.kind w n)) ns)) stack)
  unfolding first_element
  first_element_lem [] fuel first stack h le = rw (h, first_element) refl
  first_element_lem (n ∷ ns) zero first stack h le = absurd (omega arith)
  first_element_lem (n ∷ ns) (suc fuel) first stack (here, rest) le =
      elim (Bool-cases (is_element (x.kind w n))) [
        | inl is ↦ rw (here, first_element, is) refl
        | inr isnt ↦
            rw (here, first_element, isnt)
              (first_element_lem ns fuel (x.next w n) stack rest (omega arith))
      ]

  -- `node:children(filter)` on an element whose children are the nodes of the chain `ns` comes to an
  -- end, and gives a new table: the array, from 1 on without holes, of those of the nodes in `ns`, in
  -- their order, that are elements and have the filter as their name, or any name if no text is given
  -- as the filter.
  pub node_children_lem :
      (laws : IsLuaApi l) (node : ℕ) (filter : Value) (ns : List ℕ) (fuel : ℕ)
      → is_element (x.kind w node) ≡ true
      → IsChain x w (x.children w node) ns
      → length ns ≤ fuel
      → let (v, table) =
          x.make_table w (numbered 0 (kept (wanted x l w (l.to_string filter)) ns)) in
        node_children x l fuel w (userdata node_class node ∷ filter ∷ []) ≡ returned v (table ∷ [])
  unfolding node_children
  node_children_lem laws node filter ns fuel kind chain le = rw (laws.udata_same node_class node) (
      rw
        (◌>>=◌, kind, child_entries_lem (l.to_string filter) ns fuel 0 (x.children w node) chain le)
        refl)

  -- `document:rootNode()` on a document whose children are the nodes of the chain `ns` comes to an end,
  -- and gives the first element among them, or nil if there is none.
  doc_root_node_lem :
      (laws : IsLuaApi l) (d : ℕ) (ns : List ℕ) (fuel : ℕ)
      → IsChain x w (x.doc_children w d) ns
      → length ns ≤ fuel
      → doc_root_node x l fuel w (userdata document_class d ∷ [])
        ≡ returned w (first_of (kept (λ n. is_element (x.kind w n)) ns) ∷ [])
  unfolding doc_root_node
  doc_root_node_lem laws d ns fuel chain le =
      rw (laws.udata_same document_class d)
        (first_element_lem ns fuel (x.doc_children w d) (userdata document_class d ∷ []) chain le)
