-- ===== src/Utils/Starting.antt =====
-- `UtilsManager::StartApp`, and `thread_monitor_app`. The system is a parameter, in a state `P`.
use sdl_atf.Common.{
  ℕ, zero, suc, ◌+◌, ◌*◌, ◌<◌, ◌%◌, ◌≡◌, refl, ap, ◌∙◌, ℤ, Bool, true, false, not, ◌&&◌, Option,
  none, some, Bytes, arith, ◌==◌, int_eq, if◌then◌else◌, if_case,
}
use sdl_atf.Protocol.{success, failed}

-- `getcwd` with the text that it leaves in the buffer; `chdir` with its result ignored; `posix_spawn`
-- with what `app_pid` then holds, which was -1 before; whether `kill(app_pid, 0)` is 0; and
-- `pthread_create` for `thread_monitor_app`, whose result does not matter.
pub record Spawner (P : Type 0) : Type 0 where
  pub getcwd : P → Bytes
  pub chdir : P → Bytes → P
  pub posix_spawn : P → Bytes → P × ℤ
  pub is_alive : P → ℤ → Bool
  pub create_monitor : P → ℤ → P

module _ {P : Type 0} (os : Spawner P) where
  -- Behind `chdir(cwd)`.
  abbrev pub watch : P → ℤ → P × ℤ
  watch p app_pid =
      if int_eq failed app_pid
      then (p, failed)
      else if os.is_alive p app_pid
      then (os.create_monitor p app_pid, success)
      else (p, failed)

  unfoldable pub start_app : P → Bytes → Bytes → P × ℤ
  start_app p app_path app_name =
      let (q, app_pid) = os.posix_spawn (os.chdir p app_path) app_name in
      watch (os.chdir q (os.getcwd p)) app_pid

-- `WIFEXITED`, `WTERMSIG` and `WIFSIGNALED` of a status.
abbrev pub if_exited : ℕ → Bool
if_exited status = status % 128 == 0

abbrev pub if_signaled : ℕ → Bool
if_signaled status = not (status % 128 == 0) && not (status % 128 == 127)

-- The loop of `thread_monitor_app`, where `waitpid` waits for the process and gives its status, or
-- `none` where it fails; `none` as the result where the fuel is out.
unfoldable pub monitor_app : {P : Type 0} → (P → P × Option ℕ) → ℕ → P → Option P
monitor_app waitpid zero p = none
monitor_app waitpid (suc fuel) p =
    let (p', r) = waitpid p in
    elim r [
      | none ↦ some p'
      | some status ↦ elim (not (if_exited status) && not (if_signaled status)) [
        | true ↦ monitor_app waitpid fuel p'
        | false ↦ some p'
      ]
    ]

-- What the calls do to the working directory.
pub record IsSpawner {P : Type 0} (os : Spawner P) : Type 0 where
  -- the directory that was the working directory can be made so again
  pub chdir-getcwd : (p q : P) → os.getcwd (os.chdir q (os.getcwd p)) ≡ os.getcwd p
  pub create_monitor_cwd : (p : P) (pid : ℤ) → os.getcwd (os.create_monitor p pid) ≡ os.getcwd p

module _ {P : Type 0} (os : Spawner P) (laws : IsSpawner os) where
  -- If the directory that was the working directory can be made so again, StartApp leaves the working
  -- directory of the server as it was, on every path; and it returns SUCCESS exactly if the spawned
  -- process has an id other than -1 and answers to signal 0, FAILED otherwise.
  pub start_app_lem :
      (p : P) (app_path app_name : Bytes)
      → (os.getcwd (start_app os p app_path app_name).0 ≡ os.getcwd p)
        × ((start_app os p app_path app_name).1 ≡ (
            if not (int_eq failed (os.posix_spawn (os.chdir p app_path) app_name).1)
              && os.is_alive
                  (os.chdir (os.posix_spawn (os.chdir p app_path) app_name).0 (os.getcwd p))
                  (os.posix_spawn (os.chdir p app_path) app_name).1
            then success
            else failed))
  unfolding start_app
  start_app_lem p app_path app_name =
      let r = os.posix_spawn (os.chdir p app_path) app_name in
      let q = os.chdir r.0 (os.getcwd p) in
      (
        if_case (λ (x : P × ℤ). os.getcwd x.0 ≡ os.getcwd p) (int_eq failed r.1) _ _
            (laws.chdir-getcwd p r.0)
            (if_case (λ (x : P × ℤ). os.getcwd x.0 ≡ os.getcwd p) (os.is_alive q r.1) _ _
              (laws.create_monitor_cwd q r.1 ∙ laws.chdir-getcwd p r.0) (laws.chdir-getcwd p r.0)),
        verdict (int_eq failed r.1) (os.is_alive q r.1) q r.1,
      )
    where
      verdict :
          (bad alive : Bool) (q : P) (pid : ℤ)
          → (λ (x : P × ℤ). x.1)
              (if bad
                then (q, failed)
                else if alive
                then (os.create_monitor q pid, success)
                else (q, failed))
            ≡ (if not bad && alive then success else failed)
      verdict true alive q pid = refl
      verdict false true q pid = refl
      verdict false false q pid = refl

-- What can become of a process, and the status that Linux makes of it: the exit code in the second
-- byte, or the signal in the first, with a bit for a dump of the core.
pub data Fate : Type 0 where
  exited : ℕ → Fate
  killed : ℕ → Bool → Fate
  stopped : ℕ → Fate
  continued : Fate

abbrev pub status_of : Fate → ℕ
status_of (exited code) = 256 * code
status_of (killed sig core) = (if core then 128 else 0) + sig
status_of (stopped sig) = 256 * sig + 127
status_of continued = 65535

-- Whether a process is gone: it has exited, or a signal from 1 to 126 has killed it.
abbrev pub IsEnd : Fate → Type 0
IsEnd (exited code) = Unit {0}
IsEnd (killed sig core) = (0 < sig) × (sig < 127)
IsEnd _ = ⊥

abbrev pub IsPause : Fate → Type 0
IsPause (stopped sig) = Unit {0}
IsPause continued = Unit {0}
IsPause _ = ⊥

module _ {P : Type 0} (waitpid : P → P × Option ℕ) where
  -- From a state on, `waitpid` reports that the process is stopped or continued, this many times, and
  -- then that it has ended, or fails; it leaves the last state.
  pub data Reports : ℕ → P → P → Type 0 where
    ends : (p p' : P) (f : Fate) → IsEnd f → waitpid p ≡ (p', some (status_of f)) → Reports 0 p p'
    fails : (p p' : P) → waitpid p ≡ (p', none) → Reports 0 p p'
    pauses :
        {n : ℕ} (p p' q : P) (f : Fate)
        → IsPause f
        → waitpid p ≡ (p', some (status_of f))
        → Reports n p' q
        → Reports (suc n) p q

  goes_on :
      (f : Fate)
      → IsPause f
      → (not (if_exited (status_of f)) && not (if_signaled (status_of f))) ≡ true
  goes_on (exited code) h = elim h [ ]
  goes_on (killed sig core) h = elim h [ ]
  goes_on (stopped sig) h = ground arith
  goes_on continued h = refl

  is_over :
      (f : Fate)
      → IsEnd f
      → (not (if_exited (status_of f)) && not (if_signaled (status_of f))) ≡ false
  is_over (exited code) h = ground arith
  is_over (killed sig true) (some_sig, small) = ground arith
  is_over (killed sig false) (some_sig, small) = ground arith
  is_over (stopped sig) h = elim h [ ]
  is_over continued h = elim h [ ]

  -- The monitor of an application waits on while the process is stopped and continued, and ends with
  -- the report that it has exited, with any code, or was killed, by any signal from 1 to 126 and with
  -- or without a core, or where waiting fails; as many rounds as there are reports are enough.
  pub monitor_app_lem :
      (n fuel : ℕ) (p q : P) → Reports n p q → n < fuel → monitor_app waitpid fuel p ≡ some q
  unfolding monitor_app
  monitor_app_lem n zero p q r h = absurd (omega arith)
  monitor_app_lem zero (suc fuel) p q (ends _ _ f over e) h =
      rw (ap (λ (r : P × Option ℕ). r.1) e, monitor_app)
        (rw (is_over f over, monitor_app) (ap (λ (r : P × Option ℕ). some r.0) e))
  monitor_app_lem zero (suc fuel) p q (fails _ _ e) h =
      rw (ap (λ (r : P × Option ℕ). r.1) e, monitor_app) (ap (λ (r : P × Option ℕ). some r.0) e)
  monitor_app_lem (suc n) (suc fuel) p q (pauses _ p' _ f pause e rest) h =
      rw (ap (λ (r : P × Option ℕ). r.1) e, monitor_app)
        (rw (goes_on f pause, monitor_app)
          (ap (λ (r : P × Option ℕ). monitor_app waitpid fuel r.0) e
            ∙ monitor_app_lem n fuel p' q rest (omega arith)))
