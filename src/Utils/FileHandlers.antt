-- ===== src/Utils/FileHandlers.antt =====
-- `UtilsManager::Bind`: the handlers of the calls on files, and of folder_exists and folder_create.
use sdl_atf.Common.{ℕ, ℤ, some, List, [], ◌∷◌, Bytes, to_signed}
use sdl_atf.Files.{FileSystem}
use sdl_atf.Protocol.{
  ParameterType, ResponseType, pair, type_int, type_string, LexicalCast, get_value, bad_number,
  ◌>>=◌, answer, answer_in,
}
use sdl_atf.Utils.Host.{Heap}
use sdl_atf.Utils.Content.{get_file_content}
use sdl_atf.Utils.FileOps.{
  file_backup, file_restore, file_update, file_exists, file_delete, folder_exists, folder_create,
}

-- `response_type(std::string(), res)` behind a call that changes the files.
abbrev empty_response : {S : Type 0} → S × ℤ → S × ResponseType
empty_response (t, res) = (t, pair [] res)

abbrev pub content_response : Bytes × ℤ → ResponseType
content_response (text, offset) = pair text (to_signed 32 offset)

module _ {S : Type 0} (cast : LexicalCast) (fs : FileSystem S) (stray : ℕ) where
  unfoldable pub handle_file_backup : S → List ParameterType → S × ResponseType
  handle_file_backup s (a ∷ b ∷ []) = answer_in s do
    file_path ← get_value type_string cast.to_text a
    file_name ← get_value type_string cast.to_text b
    some (empty_response (file_backup fs stray s file_path file_name))
  handle_file_backup s _ = (s, bad_number)

  unfoldable pub handle_file_restore : S → List ParameterType → S × ResponseType
  handle_file_restore s (a ∷ b ∷ []) = answer_in s do
    file_path ← get_value type_string cast.to_text a
    file_name ← get_value type_string cast.to_text b
    some (empty_response (file_restore fs stray s file_path file_name))
  handle_file_restore s _ = (s, bad_number)

  unfoldable pub handle_file_update : S → List ParameterType → S × ResponseType
  handle_file_update s (a ∷ b ∷ c ∷ []) = answer_in s do
    file_path ← get_value type_string cast.to_text a
    file_name ← get_value type_string cast.to_text b
    file_content ← get_value type_string cast.to_text c
    some (empty_response (file_update fs stray s file_path file_name file_content))
  handle_file_update s _ = (s, bad_number)

  unfoldable pub handle_file_exists : S → List ParameterType → ResponseType
  handle_file_exists s (a ∷ b ∷ []) = answer do
    file_path ← get_value type_string cast.to_text a
    file_name ← get_value type_string cast.to_text b
    some (pair [] (file_exists fs stray s file_path file_name))
  handle_file_exists s _ = bad_number

  unfoldable pub handle_file_delete : S → List ParameterType → S × ResponseType
  handle_file_delete s (a ∷ b ∷ []) = answer_in s do
    file_path ← get_value type_string cast.to_text a
    file_name ← get_value type_string cast.to_text b
    some (empty_response (file_delete fs stray s file_path file_name))
  handle_file_delete s _ = (s, bad_number)

  -- The new offset, a `long`, goes into the `int` of the response.
  unfoldable pub handle_file_content : Heap → S → List ParameterType → ResponseType
  handle_file_content heap s (a ∷ b ∷ c ∷ d ∷ []) = answer do
    file_path ← get_value type_string cast.to_text a
    file_name ← get_value type_string cast.to_text b
    offset ← get_value type_int cast.to_long c
    max_size_content ← get_value type_int cast.to_size d
    some (
        content_response
          (get_file_content fs heap stray s file_path file_name offset max_size_content))
  handle_file_content heap s _ = bad_number

  unfoldable pub handle_folder_exists : S → List ParameterType → ResponseType
  handle_folder_exists s (a ∷ []) = answer do
    folder_path ← get_value type_string cast.to_text a
    some (pair [] (folder_exists fs stray s folder_path))
  handle_folder_exists s _ = bad_number

  unfoldable pub handle_folder_create : S → List ParameterType → S × ResponseType
  handle_folder_create s (a ∷ []) = answer_in s do
    folder_path ← get_value type_string cast.to_text a
    some (empty_response (folder_create fs stray s folder_path))
  handle_folder_create s _ = (s, bad_number)
