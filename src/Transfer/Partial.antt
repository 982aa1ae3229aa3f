-- ===== src/Transfer/Partial.antt =====
-- What a download that fails leaves behind, whatever the server answers.
use sdl_atf.Common.{
  ℕ, zero, suc, ◌≡◌, refl, pos, true, false, none, some, List, [], ◌++◌, Bytes, is_neg, is_pos, ◌⊎◌,
  inl, inr, Bool-cases,
}
use sdl_atf.Files.{FileSystem}
use sdl_atf.Protocol.{ParameterType, ResponseType, pair, success, failed}
use sdl_atf.Client.Connection.{RpcClient, Result, returned, threw}
use sdl_atf.Client.Calls.{
  Download, done, raised, no_fuel, try_remove, tmp_path_of, ask, finish, fetch, store, file_call,
}
use sdl_atf.Transfer.Collect.{IsWorking, put-contents, try_remove-contents}

-- The download ended with the path of a file that is there, or it failed and the file is not there, or
-- it failed before it touched any file. Nothing is said of a download that an exception ended.
abbrev pub Clean : {C S : Type 0} → FileSystem S → Bytes → S → Download C S → Type 0
Clean fs p s (done c t r) =
    ((r ≡ pair p success) × (text : Bytes) × (fs.contents t p ≡ some text))
    ⊎ ((is_neg r.second ≡ true) × ((fs.contents t p ≡ none) ⊎ (t ≡ s)))
Clean fs p s raised = Unit {0}
Clean fs p s no_fuel = Unit {0}

module _ {C S : Type 0} (rpc : RpcClient C) (fs : FileSystem S) (w : IsWorking fs)
    (rpc_name : Bytes) (parameters : List ParameterType) where
  finish-Clean :
      (p : Bytes) (c : C) (s s₀ : S) (r : ResponseType) (text : Bytes)
      → fs.contents s p ≡ some text
      → Clean fs p s₀ (finish rpc fs rpc_name parameters p c s r)
  finish-Clean p c s s₀ r text h = inl (refl, text ++ r.first, put-contents fs w s p text r.first h)

  fetch-Clean :
      (fuel : ℕ) (p : Bytes) (c : C) (s s₀ : S) (r : ResponseType) (text : Bytes)
      → fs.contents s p ≡ some text
      → Clean fs p s₀ (fetch rpc fs rpc_name parameters fuel p c s r)
  unfolding fetch
  fetch-Clean zero p c s s₀ r text h = tt
  fetch-Clean (suc fuel) p c s s₀ r text h =
      by_answer (ask rpc fs rpc_name parameters c r.second) (λ c' next.
        fetch-Clean fuel p c' (fs.put s p r.first).0 s₀ next (text ++ r.first)
          (put-contents fs w s p text r.first h))
    where
      s' : S
      s' = (fs.put s p r.first).0

      stored : fs.contents s' p ≡ some (text ++ r.first)
      stored = put-contents fs w s p text r.first h

      by_answer :
          (a : Result ResponseType × C)
          → ((c' : C) (next : ResponseType)
              → Clean fs p s₀ (fetch rpc fs rpc_name parameters fuel p c' s' next))
          → Clean fs p s₀ (elim a.0 [
            | threw ↦ raised
            | returned next ↦ elim (is_neg next.second) [
              | true ↦ done a.1 (try_remove fs s' p) (pair [] failed)
              | false ↦ elim (is_pos next.second) [
                | true ↦ fetch rpc fs rpc_name parameters fuel p a.1 s' next
                | false ↦ finish rpc fs rpc_name parameters p a.1 s' next
              ]
            ]
          ])
      by_answer (threw, c') later = tt
      by_answer (returned next, c') later = elim (Bool-cases (is_neg next.second)) [
        | inl bad ↦ rw bad (inr (refl, inl (try_remove-contents fs w s' p)))
        | inr good ↦ elim (Bool-cases (is_pos next.second)) [
          | inl more ↦ rw good (rw more (later c' next))
          | inr last ↦ rw good (rw last (finish-Clean p c' s' s₀ next (text ++ r.first) stored))
        ]
      ]

  store-Clean :
      (fuel : ℕ) (p : Bytes) (c : C) (s : S) (r : ResponseType)
      → Clean fs p s (store rpc fs rpc_name parameters fuel p c s r)
  unfolding store
  store-Clean fuel p c s r =
      let (t, opened) = w.opens (try_remove fs s p) p in
      let empty : fs.contents t p ≡ some [] =
        w.laws.open_append_new _ t p opened (try_remove-contents fs w s p) in
      rw (opened, store)
        (elim (Bool-cases (is_pos r.second)) [
          | inl more ↦ rw (more, store) (fetch-Clean fuel p c t s r [] empty)
          | inr last ↦ rw (last, store) (finish-Clean p c t s r [] empty)
        ])

  -- A download that returns, whatever the server answers, returns SUCCESS with the path of a file that
  -- is there, or a negative code; with a negative code there is no file at that path, or the client's
  -- files are as they were. So a download that fails midway leaves no part of a file, given that the
  -- client's own files can be opened, written and removed.
  pub file_call-Clean :
      (fuel : ℕ) (c : C) (s : S)
      → Clean fs (tmp_path_of parameters) s (file_call rpc fs rpc_name parameters fuel c s)
  unfolding file_call
  file_call-Clean fuel c s = elim (Bool-cases (rpc.is_connected c)) [
    | inr off ↦ rw (off, file_call) (inr (refl, inr refl))
    | inl up ↦ rw (up, file_call) (by_answer (ask rpc fs rpc_name parameters c (pos 0)))
  ]
    where
      by_answer :
          (a : Result ResponseType × C)
          → Clean fs (tmp_path_of parameters) s (elim a.0 [
            | threw ↦ raised
            | returned r ↦ elim (is_neg r.second) [
              | true ↦ done a.1 s r
              | false ↦ store rpc fs rpc_name parameters fuel (tmp_path_of parameters) a.1 s r
            ]
          ])
      by_answer (threw, c') = tt
      by_answer (returned r, c') = elim (Bool-cases (is_neg r.second)) [
        | inl bad ↦ rw bad (inr (bad, inr refl))
        | inr good ↦ rw good (store-Clean fuel (tmp_path_of parameters) c' s r)
      ]
