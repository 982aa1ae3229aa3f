-- ===== src/Utils/Apps/Stopping.antt =====
-- `StopApp`: what its result says.
use sdl_atf.Common.{
  ℕ, ◌≡◌, refl, ℤ, Bool, true, false, not, ◌&&◌, List, [], ◌∷◌, Bytes, int_eq, if◌then◌else◌,
  Bool-cases, inl, inr, ◌⊎◌,
}
use sdl_atf.Protocol.{success, failed}
use sdl_atf.Utils.Apps.{
  Processes, kill_app, kill_all, kill_rest, stop_app, get_app_pids, stop_rest, sigkill,
}

module _ {P : Type 0} (os : Processes P) (sig : ℕ) where
  -- The signals that a call sends.
  abbrev IsSent : ℕ → Type 0
  IsSent s = (s ≡ sig) ⊎ (s ≡ sigkill)

  -- From a state of the system some calls of `kill` with these signals lead to another.
  pub data Reaches : P → P → Type 0 where
    arrived : (p : P) → Reaches p p
    kills : (p q : P) (pid s : ℕ) → IsSent s → Reaches (os.kill p pid s).0 q → Reaches p q

  trans : (p q r : P) → Reaches p q → Reaches q r → Reaches p r
  trans p q r (arrived _) k = k
  trans p q r (kills _ _ pid s h j) k = kills p r pid s h (trans (os.kill p pid s).0 q r j k)

  -- On the way from one state to another, a process took one of the signals, or was gone.
  pub data Ended (p q : P) (pid : ℕ) : Type 0 where
    signalled :
        (x : P) (s : ℕ)
        → Reaches p x
        → IsSent s
        → (os.kill x pid s).1 ≡ true
        → Reaches (os.kill x pid s).0 q
        → Ended p q pid
    gone : (x : P) → Reaches p x → os.stat_proc x pid ≡ false → Reaches x q → Ended p q pid

  abbrev pub AllEnded : P → P → List ℕ → Type 0
  AllEnded p q [] = Unit {0}
  AllEnded p q (pid ∷ pids) = Ended p q pid × AllEnded p q pids

  -- On the way, one of the processes refused a signal and was still there behind it.
  pub data SomeRefused (p q : P) (s : ℕ) : List ℕ → Type 0 where
    here :
        {pid : ℕ} {pids : List ℕ} (x : P)
        → Reaches p x
        → (os.kill x pid s).1 ≡ false
        → os.stat_proc (os.kill x pid s).0 pid ≡ true
        → Reaches (os.kill x pid s).0 q
        → SomeRefused p q s (pid ∷ pids)
    there : {pid : ℕ} {pids : List ℕ} → SomeRefused p q s pids → SomeRefused p q s (pid ∷ pids)

  abbrev Verdict : ℕ → P → P → List ℕ → Bool → Type 0
  Verdict s p q pids true = AllEnded p q pids
  Verdict s p q pids false = SomeRefused p q s pids

  -- A longer way has whatever a part of it has.
  module _ (p p' q q' : P) (before : Reaches p' p) (behind : Reaches q q') where
    widen_ended : (pid : ℕ) → Ended p q pid → Ended p' q' pid
    widen_ended pid (signalled x s a h ok b) =
        signalled x s (trans p' p x before a) h ok (trans (os.kill x pid s).0 q q' b behind)
    widen_ended pid (gone x a dead b) = gone x (trans p' p x before a) dead (trans x q q' b behind)

    widen_all : (pids : List ℕ) → AllEnded p q pids → AllEnded p' q' pids
    widen_all [] v = tt
    widen_all (pid ∷ pids) (e, v) = (widen_ended pid e, widen_all pids v)

    widen_refused : (s : ℕ) (pids : List ℕ) → SomeRefused p q s pids → SomeRefused p' q' s pids
    widen_refused s [] v = elim v [ ]
    widen_refused s (pid ∷ pids) (here x a not_ok alive b) =
        here x (trans p' p x before a) not_ok alive (trans (os.kill x pid s).0 q q' b behind)
    widen_refused s (pid ∷ pids) (there v) = there (widen_refused s pids v)

    widen : (s : ℕ) (pids : List ℕ) (all : Bool) → Verdict s p q pids all → Verdict s p' q' pids all
    widen s pids true v = widen_all pids v
    widen s pids false v = widen_refused s pids v

  kill_app-Verdict :
      (p q : P) (pid s : ℕ) (pids : List ℕ) (all : Bool)
      → IsSent s
      → Reaches (os.kill p pid s).0 q
      → Verdict s (os.kill p pid s).0 q pids all
      → Verdict s p q (pid ∷ pids) (not (int_eq failed (kill_app os p pid s).1) && all)
  unfolding kill_app
  kill_app-Verdict p q pid s pids all sent way v = elim (Bool-cases (os.kill p pid s).1) [
    | inl ok ↦ rw (ok, kill_app) (with_one (signalled p s (arrived p) sent ok way) all from_here)
    | inr no_signal ↦ elim (Bool-cases (os.stat_proc (os.kill p pid s).0 pid)) [
      | inl alive ↦
          rw (no_signal, kill_app) (rw (alive, kill_app) (here p (arrived p) no_signal alive way))
      | inr dead ↦
          rw (no_signal, kill_app)
            (rw (dead, kill_app) (with_one (gone p1 one dead way) all from_here))
    ]
  ]
    where
      p1 : P
      p1 = (os.kill p pid s).0

      one : Reaches p p1
      one = kills p p1 pid s sent (arrived p1)

      from_here : Verdict s p q pids all
      from_here = widen p1 p q q one (arrived q) s pids all v

      with_one :
          Ended p q pid → (all : Bool) → Verdict s p q pids all → Verdict s p q (pid ∷ pids) all
      with_one e true v = (e, v)
      with_one e false v = there v

  kill_all-Reaches : (p : P) (pids : List ℕ) → Reaches p (kill_all os p sig pids).0
  unfolding kill_all kill_app
  kill_all-Reaches p [] = arrived p
  kill_all-Reaches p (pid ∷ pids) =
      kills p (kill_all os p sig (pid ∷ pids)).0 pid sig (inl refl)
        (kill_all-Reaches (os.kill p pid sig).0 pids)

  kill_all-Verdict :
      (p : P) (pids : List ℕ)
      → Verdict sig p (kill_all os p sig pids).0 pids (kill_all os p sig pids).1
  unfolding kill_all kill_app
  kill_all-Verdict p [] = tt
  kill_all-Verdict p (pid ∷ pids) =
      let p1 : P = (os.kill p pid sig).0 in
      kill_app-Verdict p (kill_all os p1 sig pids).0 pid sig pids (kill_all os p1 sig pids).1
        (inl refl) (kill_all-Reaches p1 pids) (kill_all-Verdict p1 pids)

  kill_rest-Reaches : (p : P) (pids : List ℕ) → Reaches p (kill_rest os p pids).0
  unfolding kill_rest kill_app
  kill_rest-Reaches p [] = arrived p
  kill_rest-Reaches p (pid ∷ pids) = elim (Bool-cases (os.stat_proc p pid)) [
    | inl there_still ↦
        let p1 : P = (os.kill p pid sigkill).0 in
        rw (there_still, kill_rest)
          (kills p (kill_rest os p1 pids).0 pid sigkill (inr refl) (kill_rest-Reaches p1 pids))
    | inr dead ↦ rw (dead, kill_rest) (kill_rest-Reaches p pids)
  ]

  skip-Verdict :
      (p q : P) (pid s : ℕ) (pids : List ℕ) (all : Bool)
      → Ended p q pid
      → Verdict s p q pids all
      → Verdict s p q (pid ∷ pids) all
  skip-Verdict p q pid s pids true e v = (e, v)
  skip-Verdict p q pid s pids false e v = there v

  kill_rest-Verdict :
      (p : P) (pids : List ℕ)
      → Verdict sigkill p (kill_rest os p pids).0 pids (kill_rest os p pids).1
  unfolding kill_rest
  kill_rest-Verdict p [] = tt
  kill_rest-Verdict p (pid ∷ pids) = elim (Bool-cases (os.stat_proc p pid)) [
    | inl there_still ↦
        let p1 : P = (os.kill p pid sigkill).0 in
        rw (there_still, kill_rest)
          (kill_app-Verdict p (kill_rest os p1 pids).0 pid sigkill pids (kill_rest os p1 pids).1
            (inr refl) (kill_rest-Reaches p1 pids) (kill_rest-Verdict p1 pids))
    | inr dead ↦
        rw (dead, kill_rest)
          (skip-Verdict p (kill_rest os p pids).0 pid sigkill pids (kill_rest os p pids).1
            (gone p (arrived p) dead (kill_rest-Reaches p pids)) (kill_rest-Verdict p pids))
  ]

  -- Such calls lead from the one state to the other, and between them all of the processes ended, or some refused both the signal and SIGKILL.
  abbrev pub Stops : P → List ℕ → P × ℤ → Type 0
  Stops p pids (q, code) =
      Reaches p q
      × (((code ≡ success) × AllEnded p q pids)
          ⊎ ((code ≡ failed) × SomeRefused p q sig pids × SomeRefused p q sigkill pids))

  -- StopApp returns SUCCESS only if, on its way from the state it was called in to the one it leaves,
  -- every process that had the name at its call took the signal or SIGKILL or was found gone; and FAILED
  -- only if, on this way, one of them refused the signal and one refused SIGKILL, each while it was
  -- alive. The way consists of calls of `kill` with these two signals; and nothing else is returned.
  pub stop_app-Stops :
      (p : P) (app_name : Bytes) → Stops p (get_app_pids os p app_name) (stop_app os p app_name sig)
  unfolding stop_app
  stop_app-Stops p app_name =
      let pids : List ℕ = get_app_pids os p app_name in
      stops pids (kill_all os p sig pids) (kill_all-Reaches p pids) (kill_all-Verdict p pids)
    where
      rest :
          (pids : List ℕ) (q r : P) (all : Bool)
          → Reaches p q
          → Reaches q r
          → SomeRefused p q sig pids
          → Verdict sigkill q r pids all
          → Stops p pids (r, if all then success else failed)
      rest pids q r true first second refused v =
          (trans p q r first second, inl (refl, widen_all q p r r first (arrived r) pids v))
      rest pids q r false first second refused v = (
        trans p q r first second,
        inr (
          refl,
          widen_refused p p q r (arrived p) second sig pids refused,
          widen_refused q p r r first (arrived r) sigkill pids v,
        ),
      )

      stops :
          (pids : List ℕ) (r : P × Bool)
          → Reaches p r.0
          → Verdict sig p r.0 pids r.1
          → Stops p pids (stop_rest os pids r)
      stops pids (q, true) way v = (way, inl (refl, v))
      stops pids (q, false) way v =
          rest pids q (kill_rest os q pids).0 (kill_rest os q pids).1 way (kill_rest-Reaches q pids)
            v (kill_rest-Verdict q pids)
