-- ===== src/Interp/Globals/Setting.antt =====
-- The globals that the constructor of `LuaInterpreter` sets behind the paths.
use sdl_atf.Common.{
  ℕ, suc, ◌+◌, ◌≡◌, refl, ap, ◌∙◌, Bool, true, false, List, Bytes, bytes_eq, codes, arith, ◌==◌,
  if◌then◌else◌,
}
use sdl_atf.Lua.{Value, nil, boolean, reference}
use sdl_atf.Lua.Heap.{
  Key, name, index, View, set_entry, add_object, LuaHeap, IsLuaHeap, fresh_apart,
}
use sdl_atf.Interp.Globals.Texts.{text_at, set_texts-other, set_texts-index, set_texts-address}
use sdl_atf.Interp.Globals.{Functions, set_texts, set_globals}

-- The globals of the heap are the ones of `old`, but for six: three functions, whether the output is
-- redirected, the userdata of the interpreter, and the array of the arguments, with no entry behind them.
pub record HasGlobals {H : Type 0} (hp : LuaHeap H) (globals : ℕ) (f : Functions) (this : ℕ)
    (is_redirected : Bool) (args : List Bytes) (old : Bytes → Value) (h : H) : Type 0 where
  pub interp : ℕ
  pub argv : ℕ
  pub values :
      (k : Bytes)
      → hp.raw_get h globals (name k) ≡ (
          if bytes_eq (codes "argv") k
          then reference argv
          else if bytes_eq (codes "interp") k
          then reference interp
          else if bytes_eq (codes "is_redirected") k
          then boolean is_redirected
          else if bytes_eq (codes "arguments") k
          then reference f.arguments
          else if bytes_eq (codes "timestamp") k
          then reference f.timestamp
          else if bytes_eq (codes "quit") k
          then reference f.quit
          else old k)
  pub held : hp.to_userdata h interp ≡ this
  pub arguments : (d : ℕ) → hp.raw_get h argv (index (suc d)) ≡ text_at args d nil

module _ {H : Type 0} (hp : LuaHeap H) (laws : IsLuaHeap hp) where
  module _ (globals : ℕ) (f : Functions) (this : ℕ) (is_redirected : Bool) (args : List Bytes)
      (h : H) (used : (laws.view h).used globals ≡ true) where
    abbrev h1 : H
    h1 = hp.raw_set h globals (name (codes "quit")) (reference f.quit)

    abbrev h2 : H
    h2 = hp.raw_set h1 globals (name (codes "timestamp")) (reference f.timestamp)

    abbrev h3 : H
    h3 = hp.raw_set h2 globals (name (codes "arguments")) (reference f.arguments)

    abbrev h4 : H
    h4 = hp.raw_set h3 globals (name (codes "is_redirected")) (boolean is_redirected)

    abbrev interp : ℕ
    interp = (hp.new_userdata h4 this).1

    abbrev h6 : H
    h6 = hp.raw_set (hp.new_userdata h4 this).0 globals (name (codes "interp")) (reference interp)

    abbrev argv : ℕ
    argv = (hp.new_table h6).1

    -- The view up to the functions, to the userdata, and to the table of the arguments.
    abbrev with_functions : View
    with_functions =
        set_entry
          (set_entry
            (set_entry (set_entry (laws.view h) globals (name (codes "quit")) (reference f.quit))
              globals (name (codes "timestamp")) (reference f.timestamp))
            globals (name (codes "arguments")) (reference f.arguments))
          globals (name (codes "is_redirected")) (boolean is_redirected)

    abbrev with_interp : View
    with_interp =
        set_entry (add_object with_functions interp this) globals (name (codes "interp"))
          (reference interp)

    abbrev with_argv : View
    with_argv = add_object with_interp argv 0

    view-h4 : laws.view h4 ≡ with_functions
    view-h4 =
        rw
          (
            laws.raw_set_view h3 globals (name (codes "is_redirected")) (boolean is_redirected),
            laws.raw_set_view h2 globals (name (codes "arguments")) (reference f.arguments),
            laws.raw_set_view h1 globals (name (codes "timestamp")) (reference f.timestamp),
            laws.raw_set_view h globals (name (codes "quit")) (reference f.quit),
          )
          refl

    view-h6 : laws.view h6 ≡ with_interp
    view-h6 =
        laws.raw_set_view (hp.new_userdata h4 this).0 globals (name (codes "interp"))
          (reference interp)
        ∙ ap (λ s. set_entry s globals (name (codes "interp")) (reference interp))
            (laws.userdata_view h4 this ∙ ap (λ s. add_object s interp this) view-h4)

    view-h7 : laws.view (hp.new_table h6).0 ≡ with_argv
    view-h7 = laws.table_view h6 ∙ ap (λ s. add_object s argv 0) view-h6

    interp-globals : (interp == globals) ≡ false
    interp-globals =
        fresh_apart (laws.view h4) globals interp (rw view-h4 used) (laws.userdata_fresh h4 this)

    argv-globals : (argv == globals) ≡ false
    argv-globals =
        fresh_apart (laws.view h6) globals argv (rw view-h6 (ground (arith, used)))
          (laws.table_fresh h6)

    argv-interp : (argv == interp) ≡ false
    argv-interp =
        fresh_apart (laws.view h6) interp argv (rw view-h6 (ground arith)) (laws.table_fresh h6)

    abbrev h8 : H
    h8 = set_texts hp (hp.new_table h6).0 argv 1 args

    view-set_globals :
        laws.view (set_globals hp globals f this is_redirected args h)
        ≡ set_entry (laws.view h8) globals (name (codes "argv")) (reference argv)
    unfolding set_globals
    view-set_globals = laws.raw_set_view h8 globals (name (codes "argv")) (reference argv)

    -- A table that is there before, behind the loop over the arguments.
    h8-entry :
        (n : ℕ) (k : Key) → (n == argv) ≡ false → (laws.view h8).entry n k ≡ with_argv.entry n k
    h8-entry n k apart =
        set_texts-other hp laws (hp.new_table h6).0 argv 1 args n k apart
        ∙ ap (λ s. s.entry n k) view-h7

    pub set_globals-HasGlobals :
        (old : Bytes → Value)
        → ((k : Bytes) → hp.raw_get h globals (name k) ≡ old k)
        → HasGlobals hp globals f this is_redirected args old
            (set_globals hp globals f this is_redirected args h)
    set_globals-HasGlobals old same = record {
      interp = interp;
      argv = argv;
      values = λ k.
          laws.raw_get_view _ globals (name k)
          ∙ rw view-set_globals (
              ground (
                arith,
                h8-entry globals (name k),
                interp-globals,
                argv-globals,
                laws.raw_get_view h globals (name k),
                same k,
              ));
      held =
          laws.to_userdata_view _ interp
          ∙ rw view-set_globals (
              set_texts-address hp laws (hp.new_table h6).0 argv 1 args interp
              ∙ ap (λ s. s.address interp) view-h7
              ∙ ground (arith, argv-interp));
      arguments = λ d.
          laws.raw_get_view _ argv (index (suc d))
          ∙ rw view-set_globals (
              rw argv-globals (
                ap (λ j. (laws.view h8).entry argv (index j))
                  (let e : suc d ≡ 1 + d = omega arith in e)
                ∙ set_texts-index hp laws (hp.new_table h6).0 argv 1 args d
                ∙ ap (text_at args d) (rw view-h7 (ground arith))));
    }

    pub set_globals-other :
        (n : ℕ) (k : Key)
        → (laws.view h).used n ≡ true
        → (n == globals) ≡ false
        → hp.raw_get (set_globals hp globals f this is_redirected args h) n k ≡ hp.raw_get h n k
    set_globals-other n k there apart =
        let not_interp : (interp == n) ≡ false =
          fresh_apart (laws.view h4) n interp (rw view-h4 there) (laws.userdata_fresh h4 this) in
        let not_argv : (argv == n) ≡ false =
          fresh_apart (laws.view h6) n argv (rw view-h6 (ground (arith, there)))
            (laws.table_fresh h6) in
        laws.raw_get_view _ n k
        ∙ rw view-set_globals
            (ground (arith, h8-entry n k, not_interp, not_argv, laws.raw_get_view h n k))
