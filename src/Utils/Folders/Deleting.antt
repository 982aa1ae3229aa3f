-- ===== src/Utils/Folders/Deleting.antt =====
-- When a folder is deleted.
use sdl_atf.Common.{
  ◌≡◌, refl, Bool, true, false, ◌&&◌, ◌⊎◌, inl, inr, Option, none, some, Bytes, if◌then◌else◌,
  Bool-cases,
}
use sdl_atf.Utils.Folders.{
  Node, Items, file, folder, nil, item, Access, is_special, child, is_empty, try_rmdir, behind,
  delete_node, delete_items, folder_delete,
}

-- Every call that deleting the node takes succeeds.
mutual
  pub allowed : Access → Bytes → Node → Bool
  allowed os path file = os.unlink path
  allowed os path (folder items) = os.opendir path && allowed_items os path items && os.rmdir path

  pub allowed_items : Access → Bytes → Items → Bool
  allowed_items os path nil = true
  allowed_items os path (item name node rest) =
      if is_special name
      then allowed_items os path rest
      else os.stat (child path name)
        && allowed os (child path name) node
        && allowed_items os path rest

-- The result is 0 exactly if every call succeeds, and then nothing is left.
abbrev Deletes : Bool → Option Node × Bool → Type 0
Deletes true r = r ≡ (none, true)
Deletes false r = r.1 ≡ false

abbrev DeletesItems : Bool → Items × Bool → Type 0
DeletesItems true r = (r.1 ≡ true) × (is_empty r.0 ≡ true)
DeletesItems false r = r.1 ≡ false

file-Deletes : (ok : Bool) → Deletes ok (if ok then (none, true) else (some file, false))
file-Deletes true = refl
file-Deletes false = refl

rmdir-Deletes :
    (r : Bool) (left : Items)
    → is_empty left ≡ true
    → Deletes r (if r && is_empty left then (none, true) else (some (folder left), false))
rmdir-Deletes true left e = rw e
rmdir-Deletes false left e = refl

folder-Deletes :
    (os : Access) (path : Bytes) (items : Items) (o a : Bool) (q : Items × Bool)
    → DeletesItems a q
    → Deletes
        (o && a && os.rmdir path)
        (if o then try_rmdir os path q else (some (folder items), false))
folder-Deletes os path items false a q h = refl
folder-Deletes os path items true false (left, true) h = cc
folder-Deletes os path items true false (left, false) h = refl
folder-Deletes os path items true true (left, true) h = rmdir-Deletes (os.rmdir path) left h.1
folder-Deletes os path items true true (left, false) h = cc (h.0)

behind-Deletes :
    (name : Bytes) (rest : Items) (later : Items × Bool) (a b : Bool) (r : Option Node × Bool)
    → Deletes a r
    → DeletesItems b later
    → DeletesItems (a && b) (behind name rest later r)
behind-Deletes name rest later true b (left, true) h k = k
behind-Deletes name rest later true b (left, false) h k = cc
behind-Deletes name rest later false b (left, true) h k = cc
behind-Deletes name rest later false b (none, false) h k = refl
behind-Deletes name rest later false b (some node, false) h k = refl

-- The same behind `stat`, and for an item that is passed over.
stat-Deletes :
    (name : Bytes) (node : Node) (rest : Items) (later : Items × Bool) (s a b : Bool)
    (r : Option Node × Bool)
    → Deletes a r
    → DeletesItems b later
    → DeletesItems
        (s && a && b)
        (if s then behind name rest later r else (item name node rest, false))
stat-Deletes name node rest later true a b r h k = behind-Deletes name rest later a b r h k
stat-Deletes name node rest later false a b r h k = refl

special-Deletes :
    (name : Bytes) (node : Node) (b : Bool) (later : Items × Bool)
    → is_special name ≡ true
    → DeletesItems b later
    → DeletesItems b (item name node later.0, later.1)
unfolding is_empty
special-Deletes name node true later e k = (k.0, rw e k.1)
special-Deletes name node false later e k = k

mutual
  unfolding allowed allowed_items delete_node delete_items is_empty

  delete_node-Deletes :
      (os : Access) (path : Bytes) (n : Node) → Deletes (allowed os path n) (delete_node os path n)
  delete_node-Deletes os path file = file-Deletes (os.unlink path)
  delete_node-Deletes os path (folder items) =
      folder-Deletes os path items (os.opendir path) (allowed_items os path items)
        (delete_items os path items) (delete_items-Deletes os path items)

  delete_items-Deletes :
      (os : Access) (path : Bytes) (xs : Items)
      → DeletesItems (allowed_items os path xs) (delete_items os path xs)
  delete_items-Deletes os path nil = (refl, refl)
  delete_items-Deletes os path (item name node rest) = elim (Bool-cases (is_special name)) [
    | inl e ↦ rw e (
        special-Deletes name node (allowed_items os path rest) (delete_items os path rest) e
          (delete_items-Deletes os path rest))
    | inr e ↦ rw e (
        stat-Deletes name node rest (delete_items os path rest) (os.stat (child path name))
          (allowed os (child path name) node) (allowed_items os path rest)
          (delete_node os (child path name) node) (delete_node-Deletes os (child path name) node)
          (delete_items-Deletes os path rest))
  ]

-- FolderDelete returns 0 exactly if every call on the tree succeeds: `opendir` and `rmdir` on each
-- folder, `stat` on each item but "." and "..", and `unlink` on each file; and then nothing of the
-- folder is left.
pub folder_delete_lem :
    (os : Access) (path : Bytes) (items : Items)
    → ((allowed os path (folder items) ≡ true)
        × (folder_delete os path (some (folder items)) ≡ (none, true)))
      ⊎ ((allowed os path (folder items) ≡ false)
          × ((folder_delete os path (some (folder items))).1 ≡ false))
unfolding folder_delete
folder_delete_lem os path items = elim (Bool-cases (allowed os path (folder items))) [
  | inl e ↦ inl (e, rw e at (delete_node-Deletes os path (folder items)))
  | inr e ↦ inr (e, rw e at (delete_node-Deletes os path (folder items)))
]
