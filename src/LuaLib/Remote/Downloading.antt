-- ===== src/LuaLib/Remote/Downloading.antt =====
-- A download that a script starts, from its Lua call to the file.
use sdl_atf.Common.{
  ℕ, ◌≡◌, ◌≤◌, ◌<◌, ◌^◌, refl, true, some, [], ◌∷◌, ◌++◌, Bytes, codes, before-lacks, lacks, length,
}
use sdl_atf.Protocol.{success, LexicalCast, IsLexicalCast}
use sdl_atf.Client.Connection.{RpcClient}
use sdl_atf.Client.Calls.{Download, done, raised, no_fuel, k_max_size_data, k_tmp_path}
use sdl_atf.Files.{FileSystem}
use sdl_atf.Utils.Host.{Heap, join_path}
use sdl_atf.Transfer.{wanted, Serves}
use sdl_atf.Transfer.Collect.{IsWorking, Saved, file_call-Saved}
use sdl_atf.Lua.{Value, text, integer, userdata, LuaApi, IsLuaApi, Called}
use sdl_atf.Lua
use sdl_atf.LuaLib.Remote.{Remotes, set_client, file_result, lua_file_call, remote_client_class}
use sdl_atf.LuaLib.Remote.Calling.{IsArray, get_rpc_parameters_lem}

module _ {C S : Type 0} (rpc : RpcClient C) (fs : FileSystem S) (l : LuaApi) where
  -- Lua got SUCCESS and the path, and the file at the path has the content.
  abbrev pub Downloaded : Bytes → Bytes → Called (Remotes C S) → Type 0
  Downloaded path content r =
      (w : Remotes C S) × (r ≡ Lua.returned w (integer success ∷ text path ∷ []))
      × (fs.contents w.disk path ≡ some content)

  file_result-Saved :
      (w : Remotes C S) (o : ℕ) (a b c : Value) (path content : Bytes) (d : Download C S)
      → lacks 0 path ≡ true
      → Saved fs path content d
      → Downloaded path content (file_result rpc fs l w o (a ∷ b ∷ c ∷ []) d)
  file_result-Saved w o a b c path content (done c' s r) plain (answer, saved) =
      (record (set_client w o c') { disk = s }, rw (answer, before-lacks 0 path plain) refl, saved)
  file_result-Saved w o a b c path content raised plain h = elim h [ ]
  file_result-Saved w o a b c path content no_fuel plain h = elim h [ ]

module _ {C S D : Type 0} (rpc : RpcClient C) (fs : FileSystem S) (working : IsWorking fs)
    (cast : LexicalCast) (casts : IsLexicalCast cast) (disk : FileSystem D) (stray : ℕ)
    (heap : Heap) (d : D) (path name content : Bytes) (link : Serves rpc cast disk stray heap d)
    (opens : disk.open_read d (join_path stray path name) ≡ some content)
    (small : length content < 2 ^ 31)
    (memory : (n : ℕ) → n ≤ k_max_size_data → heap.malloc n ≡ true) (l : LuaApi)
    (laws : IsLuaApi l) where
  -- `client:file_call("file_content", parameters)` from Lua, with the path and the name of a file that
  -- the server can open, of less than 2 GB, gives the script SUCCESS and the path /tmp/name, where the
  -- file then holds the content, for every fuel above the file's length: the parameters are an array
  -- of tables, with no NUL byte in the path or the name. What is given besides is as for the download
  -- in C++: the connection carries the calls to the server's handler, the client's own calls on files
  -- succeed, and the server has memory for a piece.
  pub lua_file_call-Downloaded :
      (fuel : ℕ) (w : Remotes C S) (o : ℕ) (table : Value)
      → length content < fuel
      → lacks 0 name ≡ true
      → IsArray l table (wanted path name)
      → Downloaded rpc fs l (k_tmp_path ++ name) content (
          lua_file_call rpc fs l fuel w
            (userdata remote_client_class o ∷ text (codes "file_content") ∷ table ∷ []))
  unfolding lua_file_call lacks
  lua_file_call-Downloaded fuel w o table enough plain array =
      rw
        (
          laws.udata_same remote_client_class o,
          laws.to_string_text (codes "file_content"),
          before-lacks 0 (codes "file_content") refl,
          get_rpc_parameters_lem l laws table (wanted path name) array,
        )
        (file_result-Saved rpc fs l w o (userdata remote_client_class o)
          (text (codes "file_content")) table (k_tmp_path ++ name) content _ plain
          (file_call-Saved rpc fs working cast casts disk stray heap d path name content link opens
            small memory fuel (w.clients o) w.disk enough))
