-- ===== src/Transfer/Collect.antt =====
-- The client's loop collects the pieces into the file.
use sdl_atf.Common.{
  ℕ, suc, zero, ◌+◌, ◌-◌, ◌^◌, ◌≤◌, ◌<◌, ◌≡◌, refl, ap, ◌∙◌, pos, true, false, none, some, [], ◌++◌,
  Bytes, codes, length, take, drop, ◌==◌, if◌then◌else◌, arith, inl, inr, take-add, take-all,
  ==_iff, Option-cases, ◌⊎◌, lt→ltb,
}
use sdl_atf.Files.{FileSystem, IsFileSystem}
use sdl_atf.Protocol.{pair, success, LexicalCast, IsLexicalCast}
use sdl_atf.Client.Connection.{RpcClient, Outcome, value, settle}
use sdl_atf.Client.Calls.{
  Download, done, raised, no_fuel, k_max_size_data, k_tmp_path, try_remove, with_offset, fetch,
  store, file_call,
}
use sdl_atf.Utils.Host.{Heap, join_path}
use sdl_atf.Transfer.{wanted, Serves, size_at, piece}
use sdl_atf.Transfer.Pieces.{handle_file_content-piece, k_max_size_data_bounds}

-- The client's files: calls succeed, and a file that could not be removed was not there.
pub record IsWorking {S : Type 0} (fs : FileSystem S) : Type 0 where
  pub laws : IsFileSystem fs
  pub opens : (s : S) (p : Bytes) → (t : S) × (fs.open_append s p ≡ some t)
  pub stays_good : (s : S) (p d : Bytes) → (fs.put s p d).1 ≡ true
  pub removes : (s : S) (p : Bytes) → fs.remove s p ≡ none → fs.contents s p ≡ none

module _ {S : Type 0} (fs : FileSystem S) (w : IsWorking fs) where
  pub put-contents :
      (s : S) (p c d : Bytes)
      → fs.contents s p ≡ some c
      → fs.contents (fs.put s p d).0 p ≡ some (c ++ d)
  put-contents s p c d h =
      w.laws.put_self s (fs.put s p d).0 p c d h
        (ap (λ b. ((fs.put s p d).0, b)) (w.stays_good s p d))

  pub try_remove-contents : (s : S) (p : Bytes) → fs.contents (try_remove fs s p) p ≡ none
  try_remove-contents s p = elim (Option-cases (fs.remove s p)) [
    | inl e ↦ rw (e, try_remove) (w.removes s p e)
    | inr (t, e) ↦ rw (e, try_remove) (w.laws.remove_self s t p e)
  ]

cases_le : (a b : ℕ) → a ≤ b → (a ≡ b) ⊎ (a < b)
cases_le a b h = omega arith

ne→== : (a b : ℕ) → a < b → (a == b) ≡ false
ne→== a b h = ground arith

-- The download ended well, and the file holds the content.
abbrev pub Saved : {C S : Type 0} → FileSystem S → Bytes → Bytes → Download C S → Type 0
Saved fs p content (done c s r) = (r ≡ pair p success) × (fs.contents s p ≡ some content)
Saved fs p content raised = ⊥
Saved fs p content no_fuel = ⊥

module _ {C S D : Type 0} (rpc : RpcClient C) (fs : FileSystem S) (w : IsWorking fs)
    (cast : LexicalCast) (laws : IsLexicalCast cast) (disk : FileSystem D) (stray : ℕ) (heap : Heap)
    (d : D) (path name content : Bytes) (link : Serves rpc cast disk stray heap d)
    (opens : disk.open_read d (join_path stray path name) ≡ some content)
    (small : length content < 2 ^ 31)
    (memory : (n : ℕ) → n ≤ k_max_size_data → heap.malloc n ≡ true) where
  call-piece :
      (c : C) (at : ℕ)
      → at ≤ length content
      → (rpc.call c (codes "file_content") (with_offset (wanted path name) (pos at))).0
        ≡ value (piece content at)
  call-piece c at within =
      link.serves c (with_offset (wanted path name) (pos at))
      ∙ ap value (
          handle_file_content-piece cast laws disk stray heap d path name content opens small memory
            at within)

  abbrev answer_to : C → ℕ → Outcome
  answer_to c at = (rpc.call c (codes "file_content") (with_offset (wanted path name) (pos at))).0

  call_last :
      (c : C) (at : ℕ)
      → at + size_at content at ≡ length content
      → answer_to c at ≡ value (pair (take (size_at content at) (drop at content)) success)
  call_last c at e =
      call-piece c at (omega arith)
      ∙ ap
          (λ b.
            value (
              pair (piece content at).first (if b then success else pos (at + size_at content at))))
          ((==_iff _ _).1 e)

  call_more :
      (c : C) (at : ℕ)
      → at + size_at content at < length content
      → answer_to c at
        ≡ value (pair (take (size_at content at) (drop at content)) (pos (at + size_at content at)))
  call_more c at h =
      call-piece c at (omega arith)
      ∙ ap
          (λ b.
            value (
              pair (piece content at).first (if b then success else pos (at + size_at content at))))
          (ne→== _ _ h)

  -- The last piece completes the content.
  whole :
      (at : ℕ)
      → at + size_at content at ≡ length content
      → take at content ++ take (size_at content at) (drop at content) ≡ content
  whole at e = take-add at (size_at content at) content ∙ take-all _ content (omega arith)

  fetch-Saved :
      (fuel at : ℕ) (p : Bytes) (c : C) (s : S)
      → length content - at < fuel
      → at + size_at content at < length content
      → fs.contents s p ≡ some (take at content)
      → Saved fs p content (
          fetch rpc fs
            (codes "file_content")
            (wanted path name)
            fuel
            p
            c
            s
            (pair (take (size_at content at) (drop at content)) (pos (at + size_at content at))))
  unfolding fetch settle
  fetch-Saved zero at p c s h more stored = elim h [ ]
  fetch-Saved (suc fuel) at p c s h more stored =
      let m : ℕ = at + size_at content at in
      let s' : S = (fs.put s p (take (size_at content at) (drop at content))).0 in
      let stored' : fs.contents s' p ≡ some (take m content) =
        put-contents fs w s p _ _ stored ∙ ap some (take-add at (size_at content at) content) in
      elim (cases_le (m + size_at content m) (length content) (omega arith)) [
        | inl e ↦
            rw (call_last c m e, fetch, settle)
              (refl, put-contents fs w s' p _ _ stored' ∙ ap some (whole m e))
        | inr more' ↦
            rw (call_more c m more', fetch, settle)
              (rw
                (lt→ltb 0 (m + size_at content m) (omega (arith, k_max_size_data_bounds.0)), fetch)
                (fetch-Saved fuel m p _ s' (omega (arith, k_max_size_data_bounds.0)) more' stored'))
      ]

  -- The download of a file that the server can open, of less than 2 GB, ends for every fuel above the
  -- file's length, with success and the path of a file under /tmp that holds the file's content. This
  -- is given that the connection carries every request to the server's handler, that the client's own
  -- calls on files succeed, that numbers are read back as they were printed, and that the server has
  -- memory for a piece of 1 MB.
  pub file_call-Saved :
      (fuel : ℕ) (c : C) (s : S)
      → length content < fuel
      → Saved fs
          (k_tmp_path ++ name)
          content
          (file_call rpc fs (codes "file_content") (wanted path name) fuel c s)
  unfolding file_call store settle
  file_call-Saved fuel c s h =
      let p : Bytes = k_tmp_path ++ name in
      let (t, opened) = w.opens (try_remove fs s p) p in
      let empty : fs.contents t p ≡ some [] =
        w.laws.open_append_new _ t p opened (try_remove-contents fs w s p) in
      elim (cases_le (0 + size_at content 0) (length content) (omega arith)) [
        | inl e ↦
            rw (link.connected c, file_call)
              (rw (call_last c 0 e, settle)
                (rw (opened, store) (refl, put-contents fs w t p _ _ empty ∙ ap some (whole 0 e))))
        | inr more ↦
            rw (link.connected c, file_call)
              (rw (call_more c 0 more, settle)
                (rw (opened, store)
                  (rw (lt→ltb 0 (0 + size_at content 0) (omega (arith, k_max_size_data_bounds.0)))
                    (fetch-Saved fuel 0 p _ t (omega arith) more empty))))
      ]
