-- ===== src/Ssl/Session/Pipe.antt =====
-- What is written into a memory BIO against what is read from it.
use sdl_atf.Common.{
  ℕ, ◌≡◌, ◌≢◌, ◌<◌, ◌^◌, refl, ap, ◌∙◌, sym, pos, [], ◌∷◌, ◌++◌, Bytes, length, take, drop,
  int_of_size_lem, to_signed_int, take-all, arith,
}
use sdl_atf.Lua.{integer, text, userdata, LuaApi, IsLuaApi, returned, ◌>>=◌}
use sdl_atf.Ssl.Library.{Openssl, IsMemoryBio}
use sdl_atf.Ssl.Context.{bio_class}
use sdl_atf.Ssl.Session.{bio_read_data, bio_write_data}

module _ {W : Type 0} (q : Openssl W) (l : LuaApi) (laws : IsLuaApi l) (bio : ℕ)
    (memory : IsMemoryBio q bio) where
  bio_write_data_lem :
      (w : W) (d : Bytes)
      → length d < 2 ^ 31
      → bio_write_data q l w (userdata bio_class bio ∷ text d ∷ [])
        ≡ returned (q.bio_write w bio d (pos (length d))).0 []
  unfolding bio_write_data
  bio_write_data_lem w d small =
      rw
        (
          laws.udata_same bio_class bio,
          laws.lstring_text d,
          ◌>>=◌,
          int_of_size_lem (length d) small,
        )
        (rw (memory.write_count w d small) refl)

  bio_read_data_lem :
      (w : W) (n : ℕ)
      → n < 2 ^ 31
      → memory.held w ≢ []
      → bio_read_data q l w (userdata bio_class bio ∷ integer (pos n) ∷ [])
        ≡ returned (q.bio_read w bio (pos n)).0 (text (take n (memory.held w)) ∷ [])
  unfolding bio_read_data
  bio_read_data_lem w n small filled =
      rw (laws.udata_same bio_class bio, laws.number_integer (pos n), to_signed_int n small)
        (rw (◌>>=◌, memory.read_count w n filled, memory.read_bytes w n)
          (rw (memory.read_count w n filled, take-all (length piece) piece (omega arith)) refl))
    where
      piece : Bytes
      piece = take n (memory.held w)

  not_empty : (xs d : Bytes) → d ≢ [] → xs ++ d ≢ []
  not_empty [] d h e = h e
  not_empty (x ∷ xs) d h e = cc

  -- Through a memory BIO, `bio:write(d)` and then `bio:read(n)` give the first `n` bytes of what the
  -- BIO held before with `d` behind it, or all of that where it is less, whatever the bytes are; the
  -- rest stays in the BIO. This is for a text `d` that is not empty, and `d` and `n` below 2 ^ 31.
  pub bio_read_data-bio_write_data :
      (w : W) (d : Bytes) (n : ℕ)
      → d ≢ []
      → length d < 2 ^ 31
      → n < 2 ^ 31
      → let w1 : W = (q.bio_write w bio d (pos (length d))).0 in
        let w2 : W = (q.bio_read w1 bio (pos n)).0 in
        (bio_write_data q l w (userdata bio_class bio ∷ text d ∷ []) ≡ returned w1 [])
        × (bio_read_data q l w1 (userdata bio_class bio ∷ integer (pos n) ∷ [])
            ≡ returned w2 (text (take n (memory.held w ++ d)) ∷ []))
        × (memory.held w2 ≡ drop n (memory.held w ++ d))
  bio_read_data-bio_write_data w d n some_bytes short small =
      let w1 : W = (q.bio_write w bio d (pos (length d))).0 in
      let holds : memory.held w1 ≡ memory.held w ++ d = memory.write_held w d short in
      (
        bio_write_data_lem w d short,
        bio_read_data_lem w1 n small (λ e. not_empty (memory.held w) d some_bytes (sym holds ∙ e))
            ∙ ap (λ bytes. returned (q.bio_read w1 bio (pos n)).0 (text (take n bytes) ∷ [])) holds,
        memory.read_held w1 n ∙ ap (drop n) holds,
      )
