-- ===== src/Transfer.antt =====
-- A download end to end: `RemoteClient::file_call` of the client against the handler of
-- `file_content` in the server's `UtilsManager`.
pub mod Pieces
pub mod Collect
pub mod Partial
use sdl_atf.Common.{
  ℕ, suc, zero, ◌+◌, ◌-◌, ◌^◌, ◌≤◌, ◌<◌, ◌≡◌, refl, sym, ap, ◌∙◌, pos, Bool, true, false, none,
  some, List, [], ◌∷◌, ◌++◌, Bytes, codes, length, take, drop, min, ◌==◌, if◌then◌else◌, arith, inl,
  inr, Bool-cases, take-add, take-all, drop-all,
}
use sdl_atf.Files.{FileSystem, IsFileSystem}
use sdl_atf.Protocol.Decimal.{decimal, to_string}
use sdl_atf.Protocol.{
  ParameterType, ResponseType, pair, success, type_string, LexicalCast, IsLexicalCast, get_value,
}
use sdl_atf.Client.Connection.{RpcClient, value, returned, settle}
use sdl_atf.Client.Calls.{
  Download, done, raised, no_fuel, k_max_size_data, k_tmp_path, try_remove, with_offset, fetch,
  store, tmp_path_of, file_call,
}
use sdl_atf.Utils.Host.{Heap, join_path}
use sdl_atf.Utils.Content.{get_file_content, read_chunk}
use sdl_atf.Utils.Content.Chunk.{read_chunk_within, get_file_content-some}
use sdl_atf.Utils.FileHandlers.{handle_file_content, content_response}

-- The parameters of `file_content` as the test scripts give them.
abbrev pub wanted : Bytes → Bytes → List ParameterType
wanted path name = pair path type_string ∷ pair name type_string ∷ []

-- The connection stands, and carries each call of `file_content` to a server whose files are in the
-- state `d`.
pub record Serves {C D : Type 0} (rpc : RpcClient C) (cast : LexicalCast) (disk : FileSystem D)
    (stray : ℕ) (heap : Heap) (d : D) : Type 0 where
  pub connected : (c : C) → rpc.is_connected c ≡ true
  pub serves :
      (c : C) (ps : List ParameterType)
      → (rpc.call c (codes "file_content") ps).0
        ≡ value (handle_file_content cast disk stray heap d ps)

abbrev pub size_at : Bytes → ℕ → ℕ
size_at content at = min k_max_size_data (length content - at)

-- The response to the request for what stands at an offset.
abbrev pub piece : Bytes → ℕ → ResponseType
piece content at =
    pair (take (size_at content at) (drop at content))
      (if at + size_at content at == length content then success else pos (at + size_at content at))
