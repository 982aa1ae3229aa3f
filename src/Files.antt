-- ===== src/Files.antt =====
-- The calls on files that the server's plugin and the client make: the C library and the system, of
-- which the model has the calls as a parameter and what is relied on as laws.
use sdl_atf.Common.{◌≡◌, ◌≢◌, Bool, true, Option, none, some, [], ◌++◌, Bytes}

-- Files by their paths, in a state `S` of the disk; a path is its text, and two texts are two files.
-- `contents` is what is stored, the operations are the calls that the plugin makes.
pub record FileSystem (S : Type 0) : Type 0 where
  pub contents : S → Bytes → Option Bytes
  -- a file opened for reading, with what it holds; `none` if it cannot be opened
  pub open_read : S → Bytes → Option Bytes
  -- `std::ofstream`: the file is created or emptied
  pub open_write : S → Bytes → Option S
  -- `fopen(path, "a")`: the file is created, or kept as it is
  pub open_append : S → Bytes → Option S
  -- what is written goes to the end of an open file, which is then closed; the flag says that all of it
  -- has come there
  pub put : S → Bytes → Bytes → S × Bool
  -- whether the stream is good behind the writing, while what it holds may still wait to be flushed
  pub good : S → Bytes → Bytes → Bool
  -- `remove`
  pub remove : S → Bytes → Option S
  -- `stat` returns 0
  pub stat : S → Bytes → Bool
  pub mkdir : S → Bytes → Option S

-- What the calls do to the contents.
pub record IsFileSystem {S : Type 0} (fs : FileSystem S) : Type 0 where
  pub open_read_contents :
      (s : S) (p d : Bytes) → fs.open_read s p ≡ some d → fs.contents s p ≡ some d
  pub open_write_self :
      (s t : S) (p : Bytes) → fs.open_write s p ≡ some t → fs.contents t p ≡ some []
  pub open_write_other :
      (s t : S) (p q : Bytes)
      → fs.open_write s p ≡ some t
      → q ≢ p
      → fs.contents t q ≡ fs.contents s q
  pub open_append_new :
      (s t : S) (p : Bytes)
      → fs.open_append s p ≡ some t
      → fs.contents s p ≡ none
      → fs.contents t p ≡ some []
  pub open_append_old :
      (s t : S) (p q c : Bytes)
      → fs.open_append s p ≡ some t
      → fs.contents s q ≡ some c
      → fs.contents t q ≡ some c
  pub put_self :
      (s t : S) (p c d : Bytes)
      → fs.contents s p ≡ some c
      → fs.put s p d ≡ (t, true)
      → fs.contents t p ≡ some (c ++ d)
  pub put_other : (s : S) (p q d : Bytes) → q ≢ p → fs.contents (fs.put s p d).0 q ≡ fs.contents s q
  pub remove_self : (s t : S) (p : Bytes) → fs.remove s p ≡ some t → fs.contents t p ≡ none
  pub remove_other :
      (s t : S) (p q : Bytes) → fs.remove s p ≡ some t → q ≢ p → fs.contents t q ≡ fs.contents s q
