-- ===== src/Utils/Command.antt =====
-- `UtilsManager::ExecuteCommand`. `popen` and `pclose` belong to the system: the model is given what
-- the command writes, or `none` if `popen` fails, and what `pclose` returns.
use sdl_atf.Common.{
  before-lacks, ℕ, zero, suc, ◌*◌, ◌/◌, ◌%◌, ◌≤◌, ◌<◌, ◌≡◌, refl, ap, ◌∙◌, ℤ, pos, negsuc, true,
  Option, none, some, [], ◌∷◌, ◌++◌, arith, Bytes, before, lacks, length, length-append, ◌==◌,
  if◌then◌else◌,
}
use sdl_atf.Protocol.{success, failed}

-- `fgets`: at most `room` bytes, up to a newline, which is kept; and what is left.
unfoldable pub read_line : ℕ → Bytes → Bytes × Bytes
read_line zero xs = ([], xs)
read_line (suc room) [] = ([], [])
read_line (suc room) (x ∷ xs) =
    let (line, rest) = read_line room xs in if x == b'\n' then (x ∷ [], xs) else (x ∷ line, rest)

-- The loop until `feof`: `command_output += buffer` stops at a NUL byte of the buffer.
unfoldable pub collect : ℕ → Bytes → Bytes
collect zero out = []
collect (suc fuel) [] = []
collect (suc fuel) (x ∷ xs) =
    let (line, rest) = read_line 127 (x ∷ xs) in before 0 line ++ collect fuel rest

-- The wait status of the shell, or -1.
unfoldable pub exit_code : ℤ → ℤ
exit_code (negsuc n) = failed
exit_code (pos status) = if status / 256 % 256 == 0 then success else failed

-- Each round reads at least a byte, so the length of the output is fuel enough.
unfoldable pub execute_command : Option Bytes → ℤ → Bytes × ℤ
unfolding collect exit_code
execute_command none status = ([], failed)
execute_command (some out) status = (collect (length out) out, exit_code status)

read_line-append : (room : ℕ) (xs : Bytes) → (read_line room xs).0 ++ (read_line room xs).1 ≡ xs
unfolding read_line
read_line-append zero xs = refl
read_line-append (suc room) [] = refl
read_line-append (suc room) (x ∷ xs) = ground (arith, read_line-append room xs)

read_line-length :
    (room : ℕ) (x : ℕ) (xs : Bytes) → length (read_line (suc room) (x ∷ xs)).1 ≤ length xs
unfolding read_line
read_line-length room x xs =
    ground
      (arith, length-append (read_line room xs).0 (read_line room xs).1, read_line-append room xs)

lacks-append :
    (xs ys : Bytes) → lacks 0 (xs ++ ys) ≡ true → (lacks 0 xs ≡ true) × (lacks 0 ys ≡ true)
unfolding lacks
lacks-append [] ys h = (refl, h)
lacks-append (x ∷ xs) ys h = ground (arith, lacks-append xs ys)

collect-lacks :
    (fuel : ℕ) (out : Bytes) → length out ≤ fuel → lacks 0 out ≡ true → collect fuel out ≡ out
unfolding collect
collect-lacks zero [] h text = refl
collect-lacks zero (x ∷ xs) h text = absurd (omega arith)
collect-lacks (suc fuel) [] h text = refl
collect-lacks (suc fuel) (x ∷ xs) h text =
    let line : Bytes = (read_line 127 (x ∷ xs)).0 in
    let rest : Bytes = (read_line 127 (x ∷ xs)).1 in
    let split : line ++ rest ≡ x ∷ xs = read_line-append 127 (x ∷ xs) in
    let (text_line, text_rest) = lacks-append line rest (ap (lacks 0) split ∙ text) in
    rw
      (
        before-lacks 0 line text_line,
        collect-lacks fuel rest (omega (arith, read_line-length 126 x xs)) text_rest,
      )
      split

-- ExecuteCommand on a command that ran and wrote no NUL byte: the text is all of the command's
-- output, and the code is SUCCESS if the command exited with 0 and FAILED if with another code.
pub execute_command-exited :
    (out : Bytes) (code : ℕ)
    → lacks 0 out ≡ true
    → code < 256
    → execute_command (some out) (pos (code * 256)) ≡ (out, (if code == 0 then success else failed))
unfolding execute_command exit_code
execute_command-exited out code text h =
    rw (collect-lacks (length out) out (omega arith) text) (ground arith)

-- A command that a signal killed, whose wait status is the signal's number, with 128 added if it left
-- a core, is reported as SUCCESS.
execute_command_signalled :
    (out : Bytes) (status : ℕ)
    → status < 256
    → (execute_command (some out) (pos status)).1 ≡ success
unfolding execute_command exit_code
execute_command_signalled out status h = ground arith
