-- ===== src/Utils/Content/Chunk.antt =====
-- What one call of `GetFileContent` reads.
use sdl_atf.Common.{
  ℕ, ◌+◌, ◌-◌, ◌^◌, ◌≤◌, ◌<◌, ◌≡◌, ℤ, pos, true, some, Bytes, length, take, drop, length-drop, ◌==◌,
  if◌then◌else◌, arith, min,
}
use sdl_atf.Protocol.{success}
use sdl_atf.Files.{FileSystem}
use sdl_atf.Utils.Host.{Heap, join_path}
use sdl_atf.Utils.Content.{read_chunk, get_file_content}

-- From an offset within a file of less than 2 ^ 63 bytes, with a positive limit and memory for what is
-- read: the bytes from there, as many as the limit allows, and the offset behind them, or 0 where the
-- file ends.
pub read_chunk_within :
    (heap : Heap) (content : Bytes) (at limit : ℕ)
    → length content < 2 ^ 63
    → at ≤ length content
    → 0 < limit
    → heap.malloc (min limit (length content - at)) ≡ true
    → read_chunk heap content (pos at) limit ≡ (
      take (min limit (length content - at)) (drop at content),
      (if at + min limit (length content - at) == length content
          then success
          else pos (at + min limit (length content - at))),
    )
unfolding read_chunk
read_chunk_within heap content at limit small within positive enough =
    ground (arith, length-drop at content)

pub get_file_content-some :
    {S : Type 0} (fs : FileSystem S) (heap : Heap) (stray : ℕ) (s : S) (path name : Bytes)
    (offset : ℤ) (limit : ℕ) {content : Bytes}
    → fs.open_read s (join_path stray path name) ≡ some content
    → get_file_content fs heap stray s path name offset limit ≡ read_chunk heap content offset limit
unfolding get_file_content
get_file_content-some fs heap stray s path name offset limit e = rw (e, get_file_content)
