-- ===== src/Utils/Host.antt =====
-- Memory and paths, as the plugin uses them.
use sdl_atf.Common.{ℕ, Bool, [], ◌++◌, ◌∷◌, Bytes, last_or, ◌==◌, if◌then◌else◌}

-- `malloc`, and what `fread` leaves in a buffer of `n` bytes that the file does not fill, which the
-- C standard does not specify.
pub record Heap : Type 0 where
  pub malloc : ℕ → Bool
  pub unspecified : ℕ → Bytes

-- `JoinPath`. An empty path is indexed by -1, out of bounds: `stray` is the byte that is read there.
unfoldable pub join_path : ℕ → Bytes → Bytes → Bytes
join_path stray path part = (if last_or stray path == b'/' then path else path ++ b'/' ∷ []) ++ part
