-- ===== src/Utils/Apps/Qnx.antt =====
-- GetAppStatus in the QNX branch: the debug interface of a process in /proc.
use sdl_atf.Common.{
  ℕ, ◌≡◌, refl, ap, ◌∙◌, Bool, true, Option, none, some, [], ◌∷◌, ◌++◌, Bytes, codes, after_last,
  after_last-append, lacks, arith, ◌==◌, if◌then◌else◌,
}
use sdl_atf.Utils.Apps.{Processes}
use sdl_atf.Utils.Apps.Linux.{name_behind}

-- Whether /proc/pid/as can be opened; and the two `devctl` calls: the path of the program and the number
-- of its threads, `none` where the call fails.
pub record Debug (P : Type 0) : Type 0 where
  pub open_as : P → ℕ → Bool
  pub map_debug_base : P → ℕ → Option Bytes
  pub proc_info : P → ℕ → Option ℕ

module _ {P : Type 0} (os : Debug P) where
  -- `name.info.path`
  unfoldable pub info_path : P → ℕ → Bytes
  info_path p pid = elim (os.map_debug_base p pid) [
    | some path ↦ path
    | none ↦ if pid == 1 then codes "/(procnto)" else codes "/(n/a)"
  ]

  unfoldable pub get_mapped_name : P → ℕ → Bytes
  unfolding info_path
  get_mapped_name p pid =
      if os.open_as p pid
      then name_behind (info_path p pid) (after_last b'/' (info_path p pid))
      else []

  abbrev threads_in : Option ℕ → ℕ
  threads_in none = 0
  threads_in (some n) = n

  -- `*num_threads` behind the call: nothing is written where the file cannot be opened.
  unfoldable pub get_mapped_threads : P → ℕ → ℕ → ℕ
  get_mapped_threads p pid held = if os.open_as p pid then threads_in (os.proc_info p pid) else held

  -- Where the path of the program is not known, the first process is called "(procnto)", and any other,
  -- of the text "/(n/a)", by what stands behind its last slash, "a)".
  get_mapped_name_fallback :
      (p : P) (pid : ℕ)
      → os.open_as p pid ≡ true
      → os.map_debug_base p pid ≡ none
      → get_mapped_name p pid ≡ (if pid == 1 then codes "(procnto)" else codes "a)")
  unfolding get_mapped_name after_last
  get_mapped_name_fallback p pid opened unknown = ground (arith, opened, unknown)

  -- The path of the program of a process can be read.
  pub record IsMapped (p : P) (pid : ℕ) (name : Bytes) : Type 0 where
    pub dir : Bytes
    pub opened : os.open_as p pid ≡ true
    pub mapped : os.map_debug_base p pid ≡ some (dir ++ b'/' ∷ name)
    pub base : lacks b'/' name ≡ true

  info_path-mapped :
      (p : P) (pid : ℕ) (name : Bytes) (m : IsMapped p pid name)
      → info_path p pid ≡ m.dir ++ b'/' ∷ name
  unfolding info_path
  info_path-mapped p pid name m = rw (m.mapped, info_path) refl

  pub get_mapped_name-path :
      (p : P) (pid : ℕ) (name : Bytes) → IsMapped p pid name → get_mapped_name p pid ≡ name
  unfolding get_mapped_name
  get_mapped_name-path p pid name m = rw m.opened (
      ap (λ t. name_behind t (after_last b'/' t)) (info_path-mapped p pid name m)
      ∙ ap (name_behind (m.dir ++ b'/' ∷ name)) (after_last-append b'/' m.dir name m.base))

-- A system on which GetAppStatus is built in this branch.
abbrev pub on_qnx : {P : Type 0} → Processes P → Debug P → Processes P
on_qnx os debug = record os {
  app_name = get_mapped_name debug;
  num_threads = get_mapped_threads debug;
}
