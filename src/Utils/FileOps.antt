-- ===== src/Utils/FileOps.antt =====
-- `UtilsManager`: FileBackup, FileRestore, FileUpdate, FileExists and FileDelete, and the folders'
-- FolderExists and FolderCreate, on files in a state `S`.
pub mod Backup
use sdl_atf.Common.{
  ℕ, ℤ, Bool, false, Option, none, some, [], ◌∷◌, ◌++◌, Bytes, codes, before, if◌then◌else◌,
}
use sdl_atf.Files.{FileSystem}
use sdl_atf.Protocol.{success, failed}
use sdl_atf.Utils.Host.{join_path}

abbrev pub k_backup_suffix : Bytes
k_backup_suffix = codes "_origin"

abbrev pub code_of : Bool → ℤ
code_of ok = if ok then success else failed

module _ {S : Type 0} (fs : FileSystem S) (stray : ℕ) where
  -- `dest << src.rdbuf()` for an open `dest`. Nothing to read, or nothing read, sets its failbit.
  abbrev pub insert_all : S → Bytes → Option Bytes → S × Bool
  insert_all s dest none = (s, false)
  insert_all s dest (some []) = (s, false)
  insert_all s dest (some (c ∷ cs)) = ((fs.put s dest (c ∷ cs)).0, fs.good s dest (c ∷ cs))

  -- Opens `src`, then `dest`, and copies; the flag is `src && dest`, before the streams are closed.
  abbrev pub copy_file : S → Bytes → Bytes → S × Bool
  copy_file s src dest = elim (fs.open_write s dest) [
    | none ↦ (s, false)
    | some t ↦ insert_all t dest (fs.open_read s src)
  ]

  unfoldable pub file_backup : S → Bytes → Bytes → S × ℤ
  file_backup s path name =
      let dest = join_path stray path name ++ k_backup_suffix in
      let (t, ok) = copy_file s (join_path stray path name) dest in (t, code_of ok)

  unfoldable pub file_delete : S → Bytes → Bytes → S × ℤ
  file_delete s path name = elim (fs.remove s (join_path stray path name)) [
    | none ↦ (s, failed)
    | some t ↦ (t, success)
  ]

  unfoldable pub file_restore : S → Bytes → Bytes → S × ℤ
  unfolding file_delete
  file_restore s path name =
      let src = join_path stray path name ++ k_backup_suffix in
      let (t, ok) = copy_file s src (join_path stray path name) in
      ((file_delete t path (name ++ k_backup_suffix)).0, code_of ok)

  -- `ofs << file_content.c_str()`: the text up to its first NUL byte.
  unfoldable pub file_update : S → Bytes → Bytes → Bytes → S × ℤ
  file_update s path name content = elim (fs.open_write s (join_path stray path name)) [
    | none ↦ (s, failed)
    | some t ↦
        let p = join_path stray path name in
        ((fs.put t p (before 0 content)).0, code_of (fs.good t p (before 0 content)))
  ]

  unfoldable pub file_exists : S → Bytes → Bytes → ℤ
  file_exists s path name = code_of (fs.stat s (join_path stray path name))

  unfoldable pub folder_exists : S → Bytes → ℤ
  folder_exists s path = code_of (fs.stat s path)

  unfoldable pub folder_create : S → Bytes → S × ℤ
  folder_create s path = elim (fs.mkdir s path) [ none ↦ (s, failed) | some t ↦ (t, success) ]
