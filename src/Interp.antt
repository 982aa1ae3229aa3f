-- ===== src/Interp.antt =====
-- src/main.cc and src/lua_interpreter.cc: the interpreter, from its command line to its exit code.
pub mod Globals
use sdl_atf.Common.{
  ℕ, suc, ◌+◌, ◌*◌, ◌/◌, ◌≡◌, ℤ, pos, Bool, true, false, ◌||◌, Option, none, some, List, [], ◌∷◌,
  ◌++◌, Bytes, codes, bytes_eq, int_eq, if◌then◌else◌, ◌==◌, to_signed, Bool-cases, inl, inr, refl,
}
use sdl_atf.Lua.{Value, integer, text, LuaApi, Function, arg, give, push}

-- What the command line asks for: the usage, an argument that is unknown, no script, or a script, with
-- the arguments from the script on.
pub data Start : Type 0 where
  usage : Start
  unknown_argument : Bytes → Start
  no_script : Start
  script : Bytes → List Bytes → Start

abbrev script_of : List Bytes → Start
script_of [] = no_script
script_of (a ∷ rest) = script a (a ∷ rest)

abbrev pub begins_with_dash : Bytes → Bool
begins_with_dash [] = false
begins_with_dash (c ∷ cs) = c == b'-'

-- The loop over the arguments behind the name of the program, which leaves at the first of them.
unfoldable pub read_arguments : List Bytes → Start
read_arguments [] = no_script
read_arguments (a ∷ rest) =
    if bytes_eq a (codes "-h") || bytes_eq a (codes "--help")
    then usage
    else if bytes_eq a (codes "--")
    then script_of rest
    else if begins_with_dash a
    then unknown_argument a
    else script a (a ∷ rest)

-- `quitCalled` and `retCode` of `LuaInterpreter`.
pub record Interpreter : Type 0 where
  pub quit_called : Bool
  pub ret_code : ℤ

abbrev quit_with : Interpreter → Option ℤ → Interpreter
quit_with i none = record i { quit_called = true }
quit_with i (some code) = record { quit_called = true; ret_code = to_signed 32 code }

-- `quit(code)` in Lua; `exit` is `QCoreApplication::exit`.
unfoldable pub app_quit : {W : Type 0} → LuaApi → (W → ℤ → W) → Function (W × Interpreter)
app_quit l exit (w, i) stack =
    let i' = quit_with i (l.to_integerx (arg 1 stack)) in give (exit w i'.ret_code, i') 0 stack

-- `timestamp()`: milliseconds from the seconds and nanoseconds of the clock.
unfoldable pub timestamp : ℕ → ℕ → ℕ
timestamp tv_sec tv_nsec = tv_sec * 1000 + tv_nsec / 1000000

-- The array of some texts, from the index `i` on, as the pairs that are set in a table.
unfoldable pub text_array : ℕ → List Bytes → List (Value × Value)
text_array i [] = []
text_array i (a ∷ rest) = (integer (pos i), text a) ∷ text_array (suc i) rest

-- `arguments()` in Lua, with a new table of the pairs for a parameter.
unfoldable pub arguments :
    {W : Type 0} → (W → List (Value × Value) → W × Value) → List Bytes → Function W
unfolding text_array
arguments make_table args w stack =
    let (w', table) = make_table w (text_array 1 args) in give w' 1 (push table stack)

-- The paths in which Lua looks for modules, before its own.
unfoldable pub extended_cpath : Bytes → Bytes
extended_cpath cpath = codes "./lib/lib?.so;./lib?.so;./lib/?.so;" ++ cpath

unfoldable pub extended_path : Bytes → Bytes
extended_path path = codes "./modules/?.lua;./modules/atf/stdlib/?.lua;" ++ path

-- `load`, given what the script has left of the interpreter and the result of `luaL_dofile`.
unfoldable pub load_script : Interpreter × ℤ → ℤ
load_script (i, res) = if i.quit_called then i.ret_code else res

-- The end of `main`: `exec` is what the event loop gives, if it comes to that.
unfoldable pub run_script : Interpreter × ℤ → ℤ → ℤ
unfolding load_script
run_script r exec =
    let res = load_script r in
    if int_eq res (pos 0) then (if r.0.quit_called then r.0.ret_code else exec) else res

-- The exit code of the program, for what each script does.
unfoldable pub exit_of : (Bytes → List Bytes → Interpreter × ℤ) → ℤ → Start → ℤ
unfolding run_script
exit_of runs exec usage = pos 0
exit_of runs exec (unknown_argument a) = pos 1
exit_of runs exec no_script = pos 1
exit_of runs exec (script name args) = run_script (runs name args) exec

-- The exit code of a script is the code it was quit with, if it was, and otherwise that of an error in
-- it, if there was one, and otherwise that of the event loop.
run_script_lem :
    (i : Interpreter) (res exec : ℤ)
    → run_script (i, res) exec
      ≡ (if i.quit_called then i.ret_code else if int_eq res (pos 0) then exec else res)
unfolding run_script
run_script_lem i res exec = elim (Bool-cases i.quit_called) [
  | inl e ↦ elim (Bool-cases (int_eq i.ret_code (pos 0))) [
    | inl zero ↦ rw (e, run_script, zero) refl
    | inr other ↦ rw (e, run_script, other) refl
  ]
  | inr e ↦ rw e refl
]
