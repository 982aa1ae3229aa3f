-- ===== src/Transfer/Pieces.antt =====
-- Every request for a piece of a file is answered with that piece.
use sdl_atf.Common.{ℕ, ◌^◌, ◌≤◌, ◌<◌, ◌≡◌, pos, true, some, Bytes, length, arith}
use sdl_atf.Files.{FileSystem}
use sdl_atf.Protocol.Decimal.{to_string}
use sdl_atf.Protocol.{LexicalCast, IsLexicalCast, get_value}
use sdl_atf.Client.Calls.{k_max_size_data, with_offset}
use sdl_atf.Utils.Host.{Heap, join_path}
use sdl_atf.Utils.Content.{get_file_content}
use sdl_atf.Utils.Content.Chunk.{read_chunk_within, get_file_content-some}
use sdl_atf.Utils.FileHandlers.{handle_file_content, content_response}
use sdl_atf.Transfer.{wanted, piece}

pub k_max_size_data_bounds : (0 < k_max_size_data) × (k_max_size_data < 2 ^ 64)
unfolding k_max_size_data
k_max_size_data_bounds = omega arith

module _ {D : Type 0} (cast : LexicalCast) (laws : IsLexicalCast cast) (disk : FileSystem D)
    (stray : ℕ) (heap : Heap) (d : D) (path name content : Bytes)
    (opens : disk.open_read d (join_path stray path name) ≡ some content)
    (small : length content < 2 ^ 31)
    (memory : (n : ℕ) → n ≤ k_max_size_data → heap.malloc n ≡ true) where
  piece_of_chunk :
      (at : ℕ)
      → at ≤ length content
      → content_response (get_file_content disk heap stray d path name (pos at) k_max_size_data)
        ≡ piece content at
  piece_of_chunk at within =
      rw
        (
          get_file_content-some disk heap stray d path name (pos at) k_max_size_data opens,
          read_chunk_within heap content at k_max_size_data (omega arith) within
              k_max_size_data_bounds.0 (memory _ (omega arith)),
        )
        (ground arith)

  pub handle_file_content-piece :
      (at : ℕ)
      → at ≤ length content
      → handle_file_content cast disk stray heap d (with_offset (wanted path name) (pos at))
        ≡ piece content at
  unfolding handle_file_content get_value to_string
  handle_file_content-piece at within =
      rw
        (
          laws.text path,
          laws.text name,
          laws.long at (omega arith),
          laws.size k_max_size_data k_max_size_data_bounds.1,
        )
        (piece_of_chunk at within)
