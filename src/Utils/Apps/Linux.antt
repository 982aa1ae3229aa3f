-- ===== src/Utils/Apps/Linux.antt =====
-- GetAppStatus in the Linux branch: the command line and the tasks of a process in /proc.
use sdl_atf.Common.{
  ℕ, ◌+◌, Option, none, some, List, [], ◌∷◌, ◌++◌, Bytes, codes, before, after_last, head_or, take,
  drop, length, is_digit, ◌==◌, if◌then◌else◌,
}
use sdl_atf.Protocol.Decimal.{decimal}
use sdl_atf.Utils.Apps.{Processes}

-- The entries of /proc/pid/task, and the text of /proc/pid/cmdline.
pub record Proc (P : Type 0) : Type 0 where
  pub tasks : P → ℕ → Option (List Bytes)
  pub cmdline : P → ℕ → Option Bytes
  -- the bytes of the stack behind what `sprintf` has written
  pub stack : Bytes

-- `if ('\n' == paths[size - 1]) paths[size - 1] = '\0';`
unfoldable pub end_line : Bytes → Bytes
end_line [] = []
end_line (x ∷ []) = (if x == b'\n' then 0 else x) ∷ []
end_line (x ∷ y ∷ r) = x ∷ end_line (y ∷ r)

-- The buffer, of `PATH_MAX` bytes, holds the path of the file, and then what was read over it.
abbrev pub proc_path : ℕ → Bytes
proc_path pid = codes "/proc/" ++ decimal pid ++ codes "/cmdline"

abbrev pub name_behind : Bytes → Option Bytes → Bytes
name_behind text none = text
name_behind text (some r) = r

-- The name of the application in what `fread` has returned.
unfoldable pub name_in : Bytes → ℕ → Bytes → Bytes
unfolding end_line
name_in stack pid [] = []
name_in stack pid (c ∷ cs) =
    let read = c ∷ cs in
    let buffer = end_line read ++ drop (length read) (proc_path pid ++ 0 ∷ stack) in
    let text = before 0 buffer in name_behind text (after_last b'/' text)

module _ {P : Type 0} (os : Proc P) where
  -- `GetAppStatus(app_pid)`
  unfoldable pub get_app_name : P → ℕ → Bytes
  unfolding name_in
  get_app_name p pid = elim (os.cmdline p pid) [
    | none ↦ []
    | some text ↦ name_in os.stack pid (take 4096 text)
  ]

  unfoldable pub count_numbered : List Bytes → ℕ
  count_numbered [] = 0
  count_numbered (e ∷ es) = (if is_digit (head_or 0 e) then 1 else 0) + count_numbered es

  -- `GetAppStatus(app_pid, &num_threads)`, of which `num_threads` is used.
  unfoldable pub get_num_threads : P → ℕ → ℕ
  unfolding count_numbered
  get_num_threads p pid = elim (os.tasks p pid) [ none ↦ 0 | some es ↦ count_numbered es ]

-- A system on which GetAppStatus is built in this branch.
abbrev pub on_linux : {P : Type 0} → Processes P → Proc P → Processes P
on_linux os proc = record os {
  app_name = get_app_name proc;
  num_threads = λ p pid held. get_num_threads proc p pid;
}
