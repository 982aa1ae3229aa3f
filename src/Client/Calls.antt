-- ===== src/Client/Calls.antt =====
-- remote_client.cc: the calls of `RemoteClient`, over a connection in state `C` and the client's own
-- files in state `S`.
use sdl_atf.Common.{
  ℕ, zero, suc, ℤ, pos, Bool, true, false, none, some, List, [], ◌∷◌, ◌++◌, Bytes, codes, head_or,
  drop, is_neg, is_pos,
}
use sdl_atf.Files.{FileSystem}
use sdl_atf.Protocol.Decimal.{to_string}
use sdl_atf.Protocol.{ParameterType, ResponseType, pair, success, failed, no_connection, type_int}
use sdl_atf.Client.Connection.{RpcLink, RpcClient, Result, returned, threw, settle}

-- `kMaxSizeData`, 1 MB
unfoldable pub k_max_size_data : ℕ
k_max_size_data = 1048576

abbrev pub k_tmp_path : Bytes
k_tmp_path = codes "/tmp/"

-- `remove` with its result ignored.
abbrev pub try_remove : {S : Type 0} → FileSystem S → S → Bytes → S
try_remove fs s p = elim (fs.remove s p) [ none ↦ s | some t ↦ t ]

-- How a download ends; the loop of `file_call` has no bound of its own, so it is given fuel.
pub data Download (C S : Type 0) : Type 0 where
  done : C → S → ResponseType → Download C S
  raised : Download C S
  no_fuel : Download C S

-- The parameters of a call of `file_call`, with an offset.
abbrev pub with_offset : List ParameterType → ℤ → List ParameterType
with_offset parameters offset =
    parameters
    ++ (pair (to_string offset) type_int ∷ pair (to_string (pos k_max_size_data)) type_int ∷ [])

-- `parameters[1].first`, behind `kTmpPath`; two parameters have been added, so there is one.
abbrev pub tmp_path_of : List ParameterType → Bytes
tmp_path_of parameters =
    k_tmp_path ++ (head_or (pair [] (pos 0)) (drop 1 (with_offset parameters (pos 0)))).first

abbrev unless_thrown : {C : Type 0} → C → Result ResponseType → Result C
unless_thrown c (returned response) = returned c
unless_thrown c threw = threw

-- The constructor of `RemoteClient`: the response is logged only.
unfoldable pub new_remote_client : {C : Type 0} → RpcLink C → C → Result C
new_remote_client link connection =
    let (o, c) = link.call_plain (link.set_timeout connection 10000) (codes "client_connected") in
    unless_thrown c (settle o)

module _ {C : Type 0} (rpc : RpcClient C) where
  -- `RemoteClient::connected`
  unfoldable pub remote_connected : C → Bool
  remote_connected c = rpc.is_connected c

  -- `RemoteClient::content_call`
  unfoldable pub content_call : C → Bytes → List ParameterType → Result ResponseType × C
  content_call c rpc_name parameters = elim (rpc.is_connected c) [
    | true ↦ let (o, c') = rpc.call c rpc_name parameters in (settle o, c')
    | false ↦ (returned (pair [] no_connection), c)
  ]

  module _ {S : Type 0} (fs : FileSystem S) (rpc_name : Bytes)
      (parameters : List ParameterType) where
    -- Behind the loop: the last piece is written.
    abbrev pub finish : Bytes → C → S → ResponseType → Download C S
    finish tmp_path c s response =
        done c (fs.put s tmp_path response.first).0 (pair tmp_path success)

    abbrev pub ask : C → ℤ → Result ResponseType × C
    ask c offset =
        let (o, c') = rpc.call c rpc_name (with_offset parameters offset) in (settle o, c')

    -- The `do … while (remains_bytes > 0)` loop, entered with a response whose offset is positive.
    unfoldable pub fetch : ℕ → Bytes → C → S → ResponseType → Download C S
    fetch zero tmp_path c s response = no_fuel
    fetch (suc fuel) tmp_path c s response =
        let s' = (fs.put s tmp_path response.first).0 in
        let (r, c') = ask c response.second in
        elim r [
          | threw ↦ raised
          | returned next ↦ elim (is_neg next.second) [
            | true ↦ done c' (try_remove fs s' tmp_path) (pair [] failed)
            | false ↦ elim (is_pos next.second) [
              | true ↦ fetch fuel tmp_path c' s' next
              | false ↦ finish tmp_path c' s' next
            ]
          ]
        ]

    -- With the first response, which is not an error.
    unfoldable pub store : ℕ → Bytes → C → S → ResponseType → Download C S
    unfolding fetch
    store fuel tmp_path c s response = elim (fs.open_append (try_remove fs s tmp_path) tmp_path) [
      | none ↦ done c (try_remove fs s tmp_path) (pair (codes "Can't create file") failed)
      | some s' ↦ elim (is_pos response.second) [
        | true ↦ fetch fuel tmp_path c s' response
        | false ↦ finish tmp_path c s' response
      ]
    ]

    -- `RemoteClient::file_call`
    unfoldable pub file_call : ℕ → C → S → Download C S
    unfolding store
    file_call fuel c s = elim (rpc.is_connected c) [
      | false ↦ done c s (pair [] no_connection)
      | true ↦
          let (r, c') = ask c (pos 0) in
          elim r [
            | threw ↦ raised
            | returned response ↦ elim (is_neg response.second) [
              | true ↦ done c' s response
              | false ↦ store fuel (tmp_path_of parameters) c' s response
            ]
          ]
    ]
