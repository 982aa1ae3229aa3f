-- ===== src/Utils/Apps.antt =====
-- `UtilsManager`: StopApp, CheckAppStatus, GetAppPids, KillApp and AppExists. The system is a parameter,
-- in a state `P`; Linux and Qnx have the two branches of GetAppStatus.
pub mod Linux
pub mod Qnx
pub mod Names
pub mod Stopping
use sdl_atf.Common.{
  ℕ, ◌+◌, ℤ, Bool, true, false, not, ◌&&◌, Option, none, some, List, [], ◌∷◌, Bytes, bytes_eq,
  head_or, is_digit, ltb, int_eq, if◌then◌else◌,
}
use sdl_atf.Protocol.Decimal.{atoi}
use sdl_atf.Protocol.{success, failed, crashed, not_running, running}

-- `kill`, with the flag that it returned 0; whether /proc/pid is there, and the entries of /proc; and
-- `GetAppStatus`, as the name that it returns and what `num_threads` holds behind it, which may be what
-- it held before.
pub record Processes (P : Type 0) : Type 0 where
  pub kill : P → ℕ → ℕ → P × Bool
  pub stat_proc : P → ℕ → Bool
  pub entries : P → Option (List Bytes)
  pub app_name : P → ℕ → Bytes
  pub num_threads : P → ℕ → ℕ → ℕ

abbrev pub sigkill : ℕ
sigkill = 9

module _ {P : Type 0} (os : Processes P) where
  unfoldable pub pids_among : P → Bytes → List Bytes → List ℕ
  pids_among p app_name [] = []
  pids_among p app_name (e ∷ es) =
      if is_digit (head_or 0 e) && bytes_eq app_name (os.app_name p (atoi e))
      then atoi e ∷ pids_among p app_name es
      else pids_among p app_name es

  unfoldable pub get_app_pids : P → Bytes → List ℕ
  unfolding pids_among
  get_app_pids p app_name = elim (os.entries p) [ none ↦ [] | some es ↦ pids_among p app_name es ]

  -- The sum of the threads of some processes, where `held` is what `pid_num_threads` holds before.
  unfoldable pub threads_from : P → ℕ → List ℕ → ℕ
  threads_from p held [] = 0
  threads_from p held (pid ∷ pids) =
      os.num_threads p pid held + threads_from p (os.num_threads p pid held) pids

  unfoldable pub threads_of : P → List ℕ → ℕ
  unfolding threads_from
  threads_of p = threads_from p 0

  abbrev pub status : P → List ℕ → ℤ
  status p [] = not_running
  status p (pid ∷ pids) = if ltb 1 (threads_of p (pid ∷ pids)) then running else crashed

  unfoldable pub check_app_status : P → Bytes → ℤ
  unfolding get_app_pids threads_of
  check_app_status p app_name = status p (get_app_pids p app_name)

  -- `KillApp`: a process that is gone counts as killed.
  unfoldable pub kill_app : P → ℕ → ℕ → P × ℤ
  kill_app p pid sig =
      let (p', ok) = os.kill p pid sig in
      (p', (if ok then success else if os.stat_proc p' pid then failed else success))

  -- The first loop of `StopApp`; the flag is `is_all_killed`.
  unfoldable pub kill_all : P → ℕ → List ℕ → P × Bool
  unfolding kill_app
  kill_all p sig [] = (p, true)
  kill_all p sig (pid ∷ pids) =
      let (p', res) = kill_app p pid sig in
      let (p'', all) = kill_all p' sig pids in (p'', not (int_eq failed res) && all)

  -- The second loop: SIGKILL to those that are still there.
  unfoldable pub kill_rest : P → List ℕ → P × Bool
  unfolding kill_app
  kill_rest p [] = (p, true)
  kill_rest p (pid ∷ pids) =
      if os.stat_proc p pid
      then (let (p', res) = kill_app p pid sigkill in
          let (p'', all) = kill_rest p' pids in (p'', not (int_eq failed res) && all))
      else kill_rest p pids

  abbrev pub stop_rest : List ℕ → P × Bool → P × ℤ
  stop_rest pids (p, true) = (p, success)
  stop_rest pids (p, false) =
      let (p', all) = kill_rest p pids in (p', (if all then success else failed))

  unfoldable pub stop_app : P → Bytes → ℕ → P × ℤ
  unfolding get_app_pids kill_all kill_rest
  stop_app p app_name sig =
      let pids = get_app_pids p app_name in stop_rest pids (kill_all p sig pids)
