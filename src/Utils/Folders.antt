-- ===== src/Utils/Folders.antt =====
-- `UtilsManager::FolderDelete`, and the handler of folder_delete.
pub mod Deleting
use sdl_atf.Common.{
  ℕ, Bool, true, false, not, ◌&&◌, ◌||◌, Option, none, some, List, [], ◌∷◌, ◌++◌, Bytes, codes,
  bytes_eq, if◌then◌else◌,
}
use sdl_atf.Protocol.{
  ParameterType, ResponseType, pair, success, failed, type_string, LexicalCast, get_value,
  bad_number, bad_type, ◌>>=◌,
}

-- What `readdir` lists of a folder: "." and ".." are among the items.
mutual
  pub data Node : Type 0 where
    file : Node
    folder : Items → Node

  pub data Items : Type 0 where
    nil : Items
    item : Bytes → Node → Items → Items

-- Which calls of the system succeed, by the path that they are given. `stat` stands for `malloc` too.
pub record Access : Type 0 where
  pub opendir : Bytes → Bool
  pub stat : Bytes → Bool
  pub unlink : Bytes → Bool
  pub rmdir : Bytes → Bool

-- `!strcmp(d_name, ".") || !strcmp(d_name, "..")`
unfoldable pub is_special : Bytes → Bool
is_special name = bytes_eq name (codes ".") || bytes_eq name (codes "..")

-- `snprintf(buf, len, "%s/%s", ...)`
abbrev pub child : Bytes → Bytes → Bytes
child path name = path ++ b'/' ∷ name

-- A folder can be removed when it lists nothing but "." and "..".
unfoldable pub is_empty : Items → Bool
is_empty nil = true
is_empty (item name node rest) = is_special name && is_empty rest

-- `rmdir`, where all went well before it: what is left, and whether the result is 0.
abbrev pub try_rmdir : Access → Bytes → Items × Bool → Option Node × Bool
try_rmdir os path (left, true) =
    if os.rmdir path && is_empty left then (none, true) else (some (folder left), false)
try_rmdir os path (left, false) = (some (folder left), false)

-- The loop goes on behind an item that was deleted, and stops at the first that was not.
abbrev pub behind : Bytes → Items → Items × Bool → Option Node × Bool → Items × Bool
behind name rest later (left, true) = later
behind name rest later (none, false) = (rest, false)
behind name rest later (some node, false) = (item name node rest, false)

unfoldable mutual
  -- `FolderDelete` on a folder, `unlink` on a file: what is left of the node, and whether the result
  -- is 0.
  pub delete_node : Access → Bytes → Node → Option Node × Bool
  delete_node os path file = if os.unlink path then (none, true) else (some file, false)
  delete_node os path (folder items) =
      if os.opendir path
      then try_rmdir os path (delete_items os path items)
      else (some (folder items), false)

  -- The loop over `readdir`.
  pub delete_items : Access → Bytes → Items → Items × Bool
  delete_items os path nil = (nil, true)
  delete_items os path (item name node rest) =
      if is_special name
      then (let (left, ok) = delete_items os path rest in (item name node left, ok))
      else if os.stat (child path name)
      then behind name rest (delete_items os path rest) (delete_node os (child path name) node)
      else (item name node rest, false)

-- `FolderDelete(folder_path)`, for what the path names: `opendir` fails on nothing and on a file.
unfoldable pub folder_delete : Access → Bytes → Option Node → Option Node × Bool
unfolding delete_node
folder_delete os path none = (none, false)
folder_delete os path (some file) = (some file, false)
folder_delete os path (some (folder items)) = delete_node os path (folder items)

abbrev answer_folder : Bytes → Option Node × Bool → Option (Bytes × Option Node) × ResponseType
answer_folder path (left, ok) = (some (path, left), pair [] (if ok then success else failed))

abbrev or_bad :
    Option (Option (Bytes × Option Node) × ResponseType)
    → Option (Bytes × Option Node) × ResponseType
or_bad none = (none, bad_type)
or_bad (some r) = r

-- The handler, where `tree` is what a path names: the path that was deleted with what is left there,
-- if anything was called, and the response.
unfoldable pub handle_folder_delete :
    LexicalCast
    → Access
    → (Bytes → Option Node)
    → List ParameterType
    → Option (Bytes × Option Node) × ResponseType
unfolding folder_delete
handle_folder_delete cast os tree (p ∷ []) = or_bad do
  folder_path ← get_value type_string cast.to_text p
  some (answer_folder folder_path (folder_delete os folder_path (tree folder_path)))
handle_folder_delete cast os tree _ = (none, bad_number)
