-- ===== src/Qt/Emit.antt =====
-- `qtlua_emit_signal` of qtlua.cc: the array of the arguments, and where it is written.
use sdl_atf.Common.{
  ℕ, zero, suc, ◌+◌, ◌≤◌, ◌≡◌, Bool, true, ◌&&◌, List, [], ◌∷◌, arith, ltb, leb, if◌then◌else◌, ◌<◌,
  ◌⊎◌, inl, inr,
}

-- The number of entries of `args`, for a signal with `msize` arguments.
unfoldable pub args_size : ℕ → ℕ
args_size msize = if ltb 8 msize then msize else 8

-- `count` writes, from the index `i` on.
unfoldable pub writes_from : ℕ → ℕ → List ℕ
writes_from i zero = []
writes_from i (suc count) = i ∷ writes_from (suc i) count

-- The indices of `args` that are written, in their order.
unfoldable pub args_written : ℕ → List ℕ
unfolding writes_from
args_written msize = 0 ∷ writes_from 1 msize

abbrev pub all_below : ℕ → List ℕ → Bool
all_below bound [] = true
all_below bound (i ∷ is) = ltb i bound && all_below bound is

cases_le : (a b : ℕ) → a ≤ b → (a ≡ b) ⊎ (a < b)
cases_le a b h = omega arith

writes_from_below :
    (bound i count : ℕ) → i ≤ bound → all_below bound (writes_from i count) ≡ leb (i + count) bound
unfolding writes_from
writes_from_below bound i zero h = ground arith
writes_from_below bound i (suc count) h = elim (cases_le i bound h) [
  | inl e ↦ ground arith
  | inr l ↦ ground (arith, writes_from_below bound (suc i) count l)
]

-- Emitting a signal writes within the array of its arguments exactly if there are fewer than eight of
-- them: with eight or more the last is written behind the end.
pub args_written_below :
    (msize : ℕ) → all_below (args_size msize) (args_written msize) ≡ ltb msize 8
unfolding args_size args_written
args_written_below msize =
    ground (arith, writes_from_below (args_size msize) 1 msize (ground arith))
