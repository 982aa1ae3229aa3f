-- ===== src/Utils/Content.antt =====
-- `UtilsManager::GetFileContent`: one chunk of a file, and the offset of the next one.
pub mod Chunk
use sdl_atf.Common.{
  ℕ, ◌≡◌, ℤ, pos, negsuc, ◌+ℤ◌, ◌-ℤ◌, Bool, true, false, Option, none, some, [], Bytes, length,
  take, drop, ltb, leb, ◌==◌, if◌then◌else◌, to_unsigned, of_pattern,
}
use sdl_atf.Protocol.{success, failed}
use sdl_atf.Files.{FileSystem}
use sdl_atf.Utils.Host.{Heap, join_path}

-- Where `fseek(file, offset, SEEK_SET)` leaves a file that stood at its end.
abbrev seek : ℕ → ℤ → ℕ
seek len (pos n) = n
seek len (negsuc n) = len

-- `fread(buffer, n, 1, file)` into a fresh buffer of `n` bytes.
abbrev fread : Heap → Bytes → ℕ → ℕ → Bytes
fread heap content at n =
    let rest = drop at content in if leb n (length rest) then take n rest else heap.unspecified n

-- The size that is read: all that is left, or `max_size_content` where that is less.
abbrev pub chunk_size : ℕ → ℕ → ℕ
chunk_size rest max_size_content =
    if max_size_content == 0
    then rest
    else if ltb rest max_size_content
    then rest
    else max_size_content

-- Behind `fopen`: the text read and the new value of `offset`. `long` and `size_t` have 64 bits.
unfoldable pub read_chunk : Heap → Bytes → ℤ → ℕ → Bytes × ℤ
read_chunk heap content offset max_size_content =
    let len = length content in
    let read = chunk_size (to_unsigned 64 (pos len -ℤ offset)) max_size_content in
    let next = to_unsigned 64 (pos read +ℤ offset) in
    if heap.malloc read
    then (
      fread heap content (seek len offset) read,
      (if next == len then success else of_pattern 64 next),
    )
    else ([], failed)

unfoldable pub get_file_content :
    {S : Type 0} → FileSystem S → Heap → ℕ → S → Bytes → Bytes → ℤ → ℕ → Bytes × ℤ
get_file_content fs heap stray s path name offset max_size_content =
    elim (fs.open_read s (join_path stray path name)) [
      | none ↦ ([], failed)
      | some content ↦ read_chunk heap content offset max_size_content
    ]
