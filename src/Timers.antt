-- ===== src/Timers.antt =====
-- src/timers.cc and src/qdatetime.cc: the bindings of `QTimer` and `QDateTime`, which are parameters,
-- to Lua.
use sdl_atf.Common.{ℕ, ℤ, Bool, none, some, Option, List, [], ◌∷◌, Bytes, codes}
use sdl_atf.Lua.{
  userdata, integer, text, LuaApi, Function, Metatable, ◌>>=◌, arg, give, push, raises, ◌&◌,
  AllTyped,
}

pub record QtTimers (W : Type 0) : Type 0 where
  pub new_precise_timer : W → W × ℕ
  pub start_with : W → ℕ → ℤ → W
  pub start : W → ℕ → W
  pub stop : W → ℕ → W
  pub interval : W → ℕ → ℤ
  pub set_interval : W → ℕ → ℤ → W
  pub set_single_shot : W → ℕ → Bool → W
  pub delete_timer : W → ℕ → W

abbrev timer_class : Bytes
timer_class = codes "timers.Timer"

module _ {W : Type 0} (q : QtTimers W) (l : LuaApi) where
  unfoldable pub timer_create : Function W
  timer_create w stack =
      let (w', o) = q.new_precise_timer w in give w' 1 (push (userdata timer_class o) stack)

  abbrev start_timer : W → ℕ → Option ℤ → W
  start_timer w o none = q.start w o
  start_timer w o (some msec) = q.start_with w o msec

  unfoldable pub timer_start : Function W
  timer_start w stack = do
    o ← l.check_udata timer_class (arg 1 stack)
    give (start_timer w o (l.number (arg 2 stack))) 0 stack

  unfoldable pub timer_stop : Function W
  timer_stop w stack = do o ← l.check_udata timer_class (arg 1 stack); give (q.stop w o) 0 stack

  unfoldable pub timer_reset : Function W
  timer_reset w stack = do
    o ← l.check_udata timer_class (arg 1 stack)
    give (q.start (q.stop w o) o) 0 stack

  unfoldable pub timer_interval : Function W
  timer_interval w stack = do
    o ← l.check_udata timer_class (arg 1 stack)
    give w 1 (push (integer (q.interval w o)) stack)

  unfoldable pub timer_set_interval : Function W
  timer_set_interval w stack = do
    o ← l.check_udata timer_class (arg 1 stack)
    msec ← l.number (arg 2 stack)
    give (q.set_interval w o msec) 0 stack

  unfoldable pub timer_set_single_shot : Function W
  timer_set_single_shot w stack = do
    o ← l.check_udata timer_class (arg 1 stack)
    give (q.set_single_shot w o (l.to_boolean (arg 2 stack))) 0 stack

  unfoldable pub timer_delete : Function W
  timer_delete w stack = do
    o ← l.check_udata timer_class (arg 1 stack)
    give (q.delete_timer w o) 0 stack

  unfoldable pub luaopen_timers : List (Metatable W)
  unfolding timer_start timer_stop timer_reset timer_interval timer_set_interval
      timer_set_single_shot timer_delete
  luaopen_timers =
      record {
        class = timer_class;
        index =
            (codes "start", timer_start)
            ∷ (codes "interval", timer_interval)
            ∷ (codes "stop", timer_stop)
            ∷ (codes "reset", timer_reset)
            ∷ (codes "setInterval", timer_set_interval)
            ∷ (codes "setSingleShot", timer_set_single_shot)
            ∷ [];
        events = (codes "__gc", timer_delete) ∷ [];
      }
      ∷ []

  unfoldable pub timers_functions : List (Bytes × Function W)
  unfolding timer_create
  timers_functions = (codes "Timer", timer_create) ∷ []

  -- The functions of a timer check that they are called on a timer.
  pub luaopen_timers-AllTyped : AllTyped l luaopen_timers
  unfolding luaopen_timers timer_start timer_stop timer_reset timer_interval timer_set_interval
      timer_set_single_shot timer_delete
  luaopen_timers-AllTyped =
      (raises _ _
        & raises _ _
        & raises _ _
        & raises _ _
        & raises _ _
        & raises _ _
        & raises _ _
        & tt)
      & tt

-- `QDateTime::currentDateTime().toString(format)` for a parameter, on the state `W` with its clock. The
-- text is read behind the end of the object that holds it; it is taken to be there still.
unfoldable pub qdatetime_get_datetime : {W : Type 0} → (W → Bytes → Bytes) → LuaApi → Function W
qdatetime_get_datetime now l w stack = do
  format ← l.check_string (arg 1 stack)
  give w 1 (push (text (now w format)) stack)

unfoldable pub luaopen_qdatetime :
    {W : Type 0} → (W → Bytes → Bytes) → LuaApi → List (Bytes × Function W)
unfolding qdatetime_get_datetime
luaopen_qdatetime current_date_time l =
    (codes "get_datetime", qdatetime_get_datetime current_date_time l) ∷ []
