-- ===== src/Utils/Apps/Names.antt =====
-- How `GetAppStatus` finds the name of an application, and what `CheckAppStatus` says.
use sdl_atf.Common.{
  ℕ, ◌≤◌, ◌≡◌, refl, ap, ◌∙◌, true, some, List, [], ◌∷◌, ◌++◌, Bytes, arith, before, before-append,
  lacks, after_last, after_last-append, take-all, drop, length, ltb, if◌then◌else◌, append_assoc,
  is_digit, head_or, bytes_eq, false, ◌⊎◌, inl, inr, ◌≢◌,
}
use sdl_atf.Protocol.{crashed, not_running, running}
use sdl_atf.Protocol.Decimal.{decimal, atoi-decimal, decimal_digit}
use sdl_atf.Utils.Apps.{Processes, pids_among, get_app_pids, threads_of, check_app_status, status}
use sdl_atf.Utils.Apps.Linux.{
  Proc, end_line, name_in, name_behind, proc_path, get_app_name, on_linux,
}
use sdl_atf.Utils.Apps.Qnx.{Debug, IsMapped, get_mapped_name-path, on_qnx}

end_line_nul : (ys : Bytes) → (zs : Bytes) × (end_line (0 ∷ ys) ≡ 0 ∷ zs)
unfolding end_line
end_line_nul [] = ([], ground arith)
end_line_nul (y ∷ ys) = (end_line (y ∷ ys), refl)

-- A final newline behind the first NUL byte does not touch the text before it.
end_line-append : (xs ys : Bytes) → (zs : Bytes) × (end_line (xs ++ 0 ∷ ys) ≡ xs ++ 0 ∷ zs)
unfolding end_line
end_line-append [] ys = end_line_nul ys
end_line-append (x ∷ []) ys = let (zs, e) = end_line_nul ys in (zs, ap (◌∷◌ x) e)
end_line-append (x ∷ y ∷ xs) ys = let (zs, e) = end_line-append (y ∷ xs) ys in (zs, ap (◌∷◌ x) e)

lacks-append : (xs ys : Bytes) → lacks 0 xs ≡ true → lacks 0 ys ≡ true → lacks 0 (xs ++ ys) ≡ true
unfolding lacks
lacks-append [] ys h k = k
lacks-append (x ∷ xs) ys h k = ground (arith, lacks-append xs ys)

first_text :
    (text ys tail : Bytes)
    → lacks 0 text ≡ true
    → before 0 (end_line (text ++ 0 ∷ ys) ++ tail) ≡ text
first_text text ys tail h =
    let (zs, e) = end_line-append text ys in
    ap (λ t. before 0 (t ++ tail)) e
    ∙ ap (before 0) (append_assoc text (0 ∷ zs) tail)
    ∙ before-append 0 text (zs ++ tail) h

name_in-text :
    (stack : Bytes) (pid : ℕ) (read text ys : Bytes)
    → read ≡ text ++ 0 ∷ ys
    → lacks 0 text ≡ true
    → name_in stack pid read ≡ name_behind text (after_last b'/' text)
unfolding name_in
name_in-text stack pid [] [] ys e h = cc
name_in-text stack pid [] (t ∷ ts) ys e h = cc
name_in-text stack pid (c ∷ cs) text ys e h =
    let tail : Bytes = drop (length (c ∷ cs)) (proc_path pid ++ 0 ∷ stack) in
    let found : before 0 (end_line (c ∷ cs) ++ tail) ≡ text =
      ap (λ r. before 0 (end_line r ++ tail)) e ∙ first_text text ys tail h in
    ap (λ t. name_behind t (after_last b'/' t)) found

module _ {P : Type 0} (os : Proc P) (p : P) where
  -- A process was started by a path with a slash, and its command line, in which a NUL byte follows the
  -- path, is no longer than the buffer.
  pub record IsRunning (pid : ℕ) (name : Bytes) : Type 0 where
    pub dir : Bytes
    pub args : Bytes
    pub cmdline : os.cmdline p pid ≡ some ((dir ++ b'/' ∷ name) ++ 0 ∷ args)
    pub short : length ((dir ++ b'/' ∷ name) ++ 0 ∷ args) ≤ 4096
    pub dir_text : lacks 0 dir ≡ true
    pub name_text : lacks 0 name ≡ true
    pub name_base : lacks b'/' name ≡ true

  -- The name of the application is what follows the last slash of the path, whatever the arguments are.
  get_app_name-path : (pid : ℕ) (name : Bytes) → IsRunning pid name → get_app_name os p pid ≡ name
  unfolding get_app_name lacks
  get_app_name-path pid name r =
      let text : Bytes = r.dir ++ b'/' ∷ name in
      rw (r.cmdline, get_app_name)
        (ap (name_in os.stack pid) (take-all 4096 (text ++ 0 ∷ r.args) r.short)
          ∙ name_in-text os.stack pid (text ++ 0 ∷ r.args) text r.args refl
              (lacks-append r.dir (b'/' ∷ name) r.dir_text r.name_text)
          ∙ ap (name_behind text) (after_last-append b'/' r.dir name r.name_base))

-- The entries of /proc: those of processes, with their names, and others, which begin with no digit.
pub data Listing (Named : ℕ → Bytes → Type 0) : List Bytes → List (ℕ × Bytes) → Type 0 where
  none_left : Listing Named [] []
  process :
      {es : List Bytes} {ps : List (ℕ × Bytes)} (pid : ℕ) (name : Bytes)
      → Named pid name
      → Listing Named es ps
      → Listing Named (decimal pid ∷ es) ((pid, name) ∷ ps)
  other :
      {es : List Bytes} {ps : List (ℕ × Bytes)} (e : Bytes)
      → is_digit (head_or 0 e) ≡ false
      → Listing Named es ps
      → Listing Named (e ∷ es) ps

-- The processes of a name.
abbrev pub pids_of : Bytes → List (ℕ × Bytes) → List ℕ
pids_of app_name [] = []
pids_of app_name ((pid, name) ∷ ps) =
    if bytes_eq app_name name then pid ∷ pids_of app_name ps else pids_of app_name ps

module _ {P : Type 0} (os : Processes P) where
  pids_among-Listing :
      (p : P) (Named : ℕ → Bytes → Type 0)
      → ((pid : ℕ) (name : Bytes) → Named pid name → os.app_name p pid ≡ name)
      → (app_name : Bytes) (es : List Bytes) (ps : List (ℕ × Bytes)) → Listing Named es ps
      → pids_among os p app_name es ≡ pids_of app_name ps
  unfolding pids_among
  pids_among-Listing p Named named app_name [] [] none_left = refl
  pids_among-Listing p Named named app_name [] (_ ∷ ps) l = elim l [ ]
  pids_among-Listing p Named named app_name (_ ∷ es) (_ ∷ ps) (process pid name n more) =
      rw (atoi-decimal pid, decimal_digit pid, named pid name n)
        (ground (arith, pids_among-Listing p Named named app_name es ps more))
  pids_among-Listing p Named named app_name (_ ∷ es) ps (other e no_digit more) =
      rw no_digit (pids_among-Listing p Named named app_name es ps more)

module _ {P : Type 0} (os : Processes P) where
  -- GetAppPids finds exactly the processes of the name, in the order of /proc, in both builds: on Linux
  -- where each process was started by a path and has a command line that fits the buffer, and on QNX
  -- where the path of each can be read.
  pub get_app_pids-Listing :
      (proc : Proc P) (debug : Debug P) (p : P) (es : List Bytes) (ps : List (ℕ × Bytes))
      → os.entries p ≡ some es
      → Listing (IsRunning proc p) es ps
      → Listing (IsMapped debug p) es ps
      → (app_name : Bytes)
      → (get_app_pids (on_linux os proc) p app_name ≡ pids_of app_name ps)
        × (get_app_pids (on_qnx os debug) p app_name ≡ pids_of app_name ps)
  unfolding get_app_pids
  get_app_pids-Listing proc debug p es ps listed at_linux at_qnx app_name = (
    rw (listed, get_app_pids)
        (pids_among-Listing (on_linux os proc) p (IsRunning proc p) (get_app_name-path proc p)
          app_name es ps at_linux),
    rw (listed, get_app_pids)
        (pids_among-Listing (on_qnx os debug) p (IsMapped debug p) (get_mapped_name-path debug p)
          app_name es ps at_qnx),
  )

  -- CheckAppStatus says NOT_RUNNING exactly if no process has the name, and otherwise RUNNING if the
  -- processes of that name have two threads or more in all, and CRASHED if they have fewer; so a
  -- process with a single thread counts as crashed.
  check_app_status_lem :
      (p : P) (app_name : Bytes)
      → ((get_app_pids os p app_name ≡ []) × (check_app_status os p app_name ≡ not_running))
        ⊎ ((get_app_pids os p app_name ≢ [])
            × (check_app_status os p app_name ≡ (
                if ltb 1 (threads_of os p (get_app_pids os p app_name)) then running else crashed)))
  unfolding check_app_status
  check_app_status_lem p app_name = by_pids (get_app_pids os p app_name)
    where
      by_pids :
          (pids : List ℕ)
          → ((pids ≡ []) × (status os p pids ≡ not_running))
            ⊎ ((pids ≢ [])
                × (status os p pids ≡ (if ltb 1 (threads_of os p pids) then running else crashed)))
      by_pids [] = inl (refl, refl)
      by_pids (x ∷ xs) = inr ((λ e. cc), refl)
