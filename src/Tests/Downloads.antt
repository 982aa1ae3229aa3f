-- ===== src/Tests/Downloads.antt =====
-- A download of three pieces, a chunk, and a backup, at concrete files.
use sdl_atf.Common.{
  List, ℕ, zero, suc, ◌≡◌, refl, ap, pos, true, some, [], ◌∷◌, ◌++◌, Bytes, codes, length, arith,
  bytes_eq, ◌<◌, ◌^◌,
}
use sdl_atf.Protocol.{failed}
use sdl_atf.Client.Connection.{RpcClient, value}
use sdl_atf.Client.Calls.{k_tmp_path, file_call}
use sdl_atf.Utils.Host.{join_path}
use sdl_atf.Utils.Content.{read_chunk}
use sdl_atf.Utils.Content.Chunk.{read_chunk_within}
use sdl_atf.Utils.FileOps.{file_backup, file_restore}
use sdl_atf.Utils.FileOps.Backup.{file_restore-file_backup}
use sdl_atf.Utils.FileHandlers.{handle_file_content}
use sdl_atf.Transfer.{wanted, Serves}
use sdl_atf.Transfer.Collect.{Saved, file_call-Saved}
use sdl_atf.Transfer.Partial.{Clean, file_call-Clean}
use sdl_atf.Client.Connection.{Outcome}
use sdl_atf.Client.Calls.{tmp_path_of}
use sdl_atf.Protocol.{pair}
use sdl_atf.Tests.World.{
  scripted, Disk, store_at, store_at_self, files, files-IsFileSystem, files-IsWorking, no_files,
  plain_cast, plain_cast-IsLexicalCast, enough_memory,
}

-- A text of many bytes.
unfoldable copies : ℕ → Bytes
copies zero = []
copies (suc n) = b'x' ∷ copies n

length-copies : (n : ℕ) → length (copies n) ≡ n
unfolding copies
length-copies zero = refl
length-copies (suc n) = ap suc (length-copies n)

abbrev big : Bytes
big = copies 3000000

abbrev remote_disk : Disk
remote_disk = store_at no_files (join_path 0 (codes "/log") (codes "core")) (some big)

-- A client whose calls reach the handler of file_content.
abbrev linked : RpcClient (Unit {0})
linked = record {
  call =
      λ c name ps. (value (handle_file_content plain_cast files 0 enough_memory remote_disk ps), c);
  is_connected = λ c. true;
}

linked-Serves : Serves linked plain_cast files 0 enough_memory remote_disk
linked-Serves = record { connected = λ c. refl; serves = λ c ps. refl }

big_small : length big < 2 ^ 31
big_small = omega (arith, length-copies 3000000)

big_fuel : length big < 3000001
big_fuel = omega (arith, length-copies 3000000)

file_call-Saved_example : Saved files (k_tmp_path ++ codes "core") big (
    file_call linked files
      (codes "file_content")
      (wanted (codes "/log") (codes "core"))
      3000001
      tt
      no_files)
file_call-Saved_example =
    file_call-Saved linked files files-IsWorking plain_cast plain_cast-IsLexicalCast files 0
      enough_memory remote_disk (codes "/log") (codes "core") big linked-Serves
      (store_at_self no_files (join_path 0 (codes "/log") (codes "core")) (some big)) big_small
      (λ n h. refl) 3000001 tt no_files big_fuel

read_chunk_within_example : read_chunk enough_memory (codes "abcde") (pos 2) 2 ≡ (codes "cd", pos 4)
read_chunk_within_example =
    read_chunk_within enough_memory (codes "abcde") 2 2 (omega arith) (omega arith) (omega arith)
      refl

abbrev config : Disk
config = store_at no_files (codes "/etc/a") (some (codes "old"))

-- The configuration changed, behind its backup.
abbrev changed : Disk
changed =
    store_at (file_backup files 0 config (codes "/etc") (codes "a")).0 (codes "/etc/a")
      (some (codes "new"))

file_restore-file_backup_example :
    files.contents
      (file_restore files 0 changed (codes "/etc") (codes "a")).0
      (join_path 0 (codes "/etc") (codes "a"))
    ≡ files.contents config (join_path 0 (codes "/etc") (codes "a"))
unfolding file_backup file_restore store_at join_path bytes_eq
file_restore-file_backup_example =
    file_restore-file_backup files files-IsFileSystem (record { flushed = λ s p d h. refl }) 0
      config changed (codes "/etc") (codes "a") refl refl refl

-- The second request for the file fails.
abbrev cut_off : List Outcome
cut_off = value (pair (codes "ab") (pos 2)) ∷ value (pair [] failed) ∷ []

file_call-Clean_example :
    Clean files (tmp_path_of (wanted (codes "/log") (codes "core"))) no_files (
      file_call scripted files
        (codes "file_content")
        (wanted (codes "/log") (codes "core"))
        5
        cut_off
        no_files)
file_call-Clean_example =
    file_call-Clean scripted files files-IsWorking (codes "file_content")
      (wanted (codes "/log") (codes "core")) 5 cut_off no_files
