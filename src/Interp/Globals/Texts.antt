-- ===== src/Interp/Globals/Texts.antt =====
-- The array of the arguments behind its loop, and the extended paths, in the constructor of
-- `LuaInterpreter`.
use sdl_atf.Common.{
  ℕ, zero, suc, ◌+◌, ◌<◌, ◌≡◌, refl, ap, ◌∙◌, false, some, List, [], ◌∷◌, Bytes, arith, ◌==◌, ◌&&◌,
  if◌then◌else◌,
}
use sdl_atf.Lua.{Value, text}
use sdl_atf.Lua.Heap.{Key, name, index, key_eq, LuaHeap, IsLuaHeap}
use sdl_atf.Interp.Globals.{extend, set_texts}

-- The text at a place of a list, or else another value.
abbrev pub text_at : List Bytes → ℕ → Value → Value
text_at [] d v = v
text_at (a ∷ rest) zero v = text a
text_at (a ∷ rest) (suc d) v = text_at rest d v

module _ {H : Type 0} (hp : LuaHeap H) (laws : IsLuaHeap hp) where
  -- What the loop over the arguments does to another table, and below its index.
  pub set_texts-other :
      (h : H) (t i : ℕ) (args : List Bytes) (n : ℕ) (k : Key)
      → (n == t) ≡ false
      → (laws.view (set_texts hp h t i args)).entry n k ≡ (laws.view h).entry n k
  unfolding set_texts
  set_texts-other h t i [] n k apart = refl
  set_texts-other h t i (a ∷ rest) n k apart =
      set_texts-other (hp.raw_set h t (index i) (text a)) t (suc i) rest n k apart
      ∙ rw (laws.raw_set_view h t (index i) (text a)) (ground (arith, apart))

  pub set_texts-below :
      (h : H) (t i : ℕ) (args : List Bytes) (j : ℕ)
      → j < i
      → (laws.view (set_texts hp h t i args)).entry t (index j) ≡ (laws.view h).entry t (index j)
  unfolding set_texts
  set_texts-below h t i [] j below = refl
  set_texts-below h t i (a ∷ rest) j below =
      set_texts-below (hp.raw_set h t (index i) (text a)) t (suc i) rest j (omega arith)
      ∙ rw (laws.raw_set_view h t (index i) (text a)) (ground arith)

  pub set_texts-index :
      (h : H) (t i : ℕ) (args : List Bytes) (d : ℕ)
      → (laws.view (set_texts hp h t i args)).entry t (index (i + d))
        ≡ text_at args d ((laws.view h).entry t (index (i + d)))
  unfolding set_texts
  set_texts-index h t i [] d = refl
  set_texts-index h t i (a ∷ rest) zero =
      set_texts-below (hp.raw_set h t (index i) (text a)) t (suc i) rest (i + 0) (omega arith)
      ∙ rw (laws.raw_set_view h t (index i) (text a)) (ground arith)
  set_texts-index h t i (a ∷ rest) (suc d) =
      let h1 : H = hp.raw_set h t (index i) (text a) in
      let next : i + suc d ≡ suc i + d = omega arith in
      rw next (
        set_texts-index h1 t (suc i) rest d
        ∙ ap (text_at rest d) (rw (laws.raw_set_view h t (index i) (text a)) (ground arith)))

  pub set_texts-address :
      (h : H) (t i : ℕ) (args : List Bytes) (n : ℕ)
      → (laws.view (set_texts hp h t i args)).address n ≡ (laws.view h).address n
  unfolding set_texts
  set_texts-address h t i [] n = refl
  set_texts-address h t i (a ∷ rest) n =
      set_texts-address (hp.raw_set h t (index i) (text a)) t (suc i) rest n
      ∙ ap (λ s. s.address n) (laws.raw_set_view h t (index i) (text a))

  -- A path that is a text is extended, and nothing else changes.
  pub extend_lem :
      (h : H) (p : ℕ) (field s : Bytes) (extended : Bytes → Bytes)
      → hp.raw_get h p (name field) ≡ text s
      → extend hp h p field extended ≡ some (hp.raw_set h p (name field) (text (extended s)))
  unfolding extend
  extend_lem h p field s extended e = rw e refl

  pub raw_get-raw_set :
      (h : H) (t n : ℕ) (k j : Key) (v : Value)
      → hp.raw_get (hp.raw_set h t k v) n j ≡ (if n == t && key_eq k j then v else hp.raw_get h n j)
  raw_get-raw_set h t n k j v =
      rw
        (
          laws.raw_get_view (hp.raw_set h t k v) n j,
          laws.raw_set_view h t k v,
          laws.raw_get_view h n j,
        )
        refl
