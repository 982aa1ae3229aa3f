-- ===== src/Tests/Network.antt =====
-- A network that no connection can be made in, and a library of two ciphers.
use sdl_atf.Common.{
  ℕ, ◌+◌, ◌-◌, ◌/◌, ◌%◌, ◌≤◌, ◌≡◌, refl, ap, ◌∙◌, pos, Bool, true, false, ◌&&◌, none, List, [], ◌∷◌,
  ◌++◌, Bytes, codes, lacks, map, arith, if◌then◌else◌, bytes_eq, bytes_eq_iff, ◌==◌,
}
use sdl_atf.Lua.{integer}
use sdl_atf.Network.Ciphers.{
  QtCiphers, IsQtCiphers, contains, distinct, join_names, is_list, is_empty, known, set_cypher_list,
  set_cypher_list_lem,
}
use sdl_atf.Network.Qt.{QtNetwork, IsTimed}
use sdl_atf.Network.Connect.{tcp_socket_connect}
use sdl_atf.Network.Connect.Waiting.{connect_stack, Connects, tcp_socket_connect_ends}
use sdl_atf.Tests.Lua.{Tables, plain_lua, plain_lua-IsLuaApi}

-- A word, if it is not empty, before others.
abbrev add_word : Bytes → List Bytes → List Bytes
add_word [] ws = ws
add_word (c ∷ cs) ws = (c ∷ cs) ∷ ws

-- The first word of a text, and the others, without empty ones.
unfoldable pub words : Bytes → Bytes × List Bytes
words [] = ([], [])
words (c ∷ cs) = let (w, ws) = words cs in if c == b':' then ([], add_word w ws) else (c ∷ w, ws)

abbrev split_words : Bytes → List Bytes
split_words s = add_word (words s).0 (words s).1

words-plain : (s : Bytes) → lacks b':' s ≡ true → words s ≡ (s, [])
unfolding words lacks
words-plain [] h = refl
words-plain (c ∷ cs) h = ground (arith, words-plain cs)

words-colon : (s t : Bytes) → lacks b':' s ≡ true → words (s ++ b':' ∷ t) ≡ (s, split_words t)
unfolding words lacks
words-colon [] t h = refl
words-colon (c ∷ cs) t h = ground (arith, words-colon cs t)

add_word-not_empty : (s : Bytes) (ss : List Bytes) → is_empty s ≡ false → add_word s ss ≡ s ∷ ss
add_word-not_empty [] ss h = cc
add_word-not_empty (c ∷ cs) ss h = refl

split_words-join : (ss : List Bytes) → is_list ss ≡ true → split_words (join_names ss) ≡ ss
unfolding join_names words
split_words-join [] h = refl
split_words-join (s ∷ []) h =
    let plain : lacks b':' s ≡ true = ground arith in
    let full : is_empty s ≡ false = ground arith in
    rw (words-plain s plain) (add_word-not_empty s [] full)
split_words-join (s ∷ t ∷ ts) h =
    let plain : lacks b':' s ≡ true = ground arith in
    let full : is_empty s ≡ false = ground arith in
    let rest : is_list (t ∷ ts) ≡ true = ground arith in
    rw (words-colon s (join_names (t ∷ ts)) plain)
      (add_word-not_empty s _ full ∙ ap (◌∷◌ s) (split_words-join (t ∷ ts) rest))

unfoldable pub without_repeats : List Bytes → List Bytes
unfolding contains
without_repeats [] = []
without_repeats (s ∷ ss) = let rest = without_repeats ss in if contains s ss then rest else s ∷ rest

contains-same :
    (s t : Bytes) (ss : List Bytes) → bytes_eq s t ≡ true → contains s ss ≡ contains t ss
contains-same s t ss e = rw ((bytes_eq_iff s t).0 e) refl

contains-without_repeats :
    (s : Bytes) (ss : List Bytes) → contains s (without_repeats ss) ≡ contains s ss
unfolding without_repeats contains
contains-without_repeats s [] = refl
contains-without_repeats s (t ∷ ts) =
    ground (arith, contains-without_repeats s ts, contains-same s t ts)

distinct-without_repeats : (ss : List Bytes) → distinct (without_repeats ss) ≡ true
unfolding without_repeats contains
distinct-without_repeats [] = refl
distinct-without_repeats (s ∷ ss) =
    ground (arith, distinct-without_repeats ss, contains-without_repeats s ss)

-- The ciphers RC4 and AES are known.
abbrev name_if : Bool → Bytes → Bytes
name_if b s = if b then s else []

abbrev two_ciphers : QtCiphers Bytes
two_ciphers = record {
  split = split_words;
  remove_duplicates = without_repeats;
  cipher = λ s. name_if (contains s (codes "RC4" ∷ codes "AES" ∷ [])) s;
  name = λ c. c;
  supported_ciphers = codes "RC4" ∷ codes "AES" ∷ [];
}

name_if_lem : (b : Bool) (s : Bytes) → is_empty (name_if b s) ≡ false → name_if b s ≡ s
name_if_lem true s h = refl
name_if_lem false s h = cc

two_ciphers-IsQtCiphers : IsQtCiphers two_ciphers
two_ciphers-IsQtCiphers = record {
  split-join = split_words-join;
  same_members = contains-without_repeats;
  distinct_members = distinct-without_repeats;
  name-cipher = λ s. name_if_lem (contains s (codes "RC4" ∷ codes "AES" ∷ [])) s;
}

-- AES is asked for twice, and DES is not known.
abbrev asked : List Bytes
asked = codes "AES" ∷ codes "DES" ∷ codes "AES" ∷ []

set_cypher_list_lem_example :
    if contains (codes "ALL") asked
    then set_cypher_list two_ciphers (join_names asked) ≡ two_ciphers.supported_ciphers
    else (contains
          (codes "DES")
          (map two_ciphers.name (set_cypher_list two_ciphers (join_names asked)))
        ≡ (contains (codes "DES") asked && known two_ciphers (codes "DES")))
      × (distinct (map two_ciphers.name (set_cypher_list two_ciphers (join_names asked))) ≡ true)
unfolding lacks
set_cypher_list_lem_example =
    set_cypher_list_lem two_ciphers two_ciphers-IsQtCiphers asked (codes "DES") refl

-- The state is the time in microseconds; nothing ever answers.
abbrev pub silent : QtNetwork ℕ Bytes Bytes Bytes
silent = record {
  qt_ciphers = two_ciphers;
  certificate = λ w path. path;
  rsa_key = λ w path. path;
  new_tcp_socket = λ w. (w, 0);
  bind = λ w o source. w;
  connect_to_host = λ w o ip port. w;
  wait_for_connected = λ w o. (w + 400, false);
  is_open = λ w o. false;
  read = λ w o n. (w, []);
  read_all = λ w o. (w, []);
  write = λ w o bytes. (w, pos 0);
  close = λ w o. w;
  delete_socket = λ w o. w;
  new_tcp_server = λ w. (w, 0);
  listen = λ w o port. (w, true);
  next_pending_connection = λ w o. (w, none);
  delete_server = λ w o. w;
  new_web_socket = λ w. (w, 0);
  set_ssl_configuration = λ w o c. w;
  is_connected = λ w o. false;
  open_url = λ w o url. w;
  send_text_message = λ w o bytes. (w, pos 0);
  send_binary_message = λ w o bytes. (w, pos 0);
  close_web_socket = λ w o. w;
  delete_web_socket = λ w o. w;
  event_loop = λ w o. w;
  usleep = λ w micros. w + micros;
  start = λ w. w;
  elapsed = λ v timer. (v - timer) / 1000 % 86400000;
}

silent-IsTimed : IsTimed silent
silent-IsTimed = record {
  clock = λ w. w;
  elapsed-start = λ w v h. refl;
  connect_later = λ w o ip port. let e : w ≤ w = omega arith in e;
  wait_later = λ w o e. let h : w + 1 ≤ w + 400 = omega arith in h;
  round_limited = λ w o ip port. let h : w + 400 ≤ w + 60000000 = omega arith in h;
}

abbrev pub no_tables : Tables
no_tables = record { elements = λ n. []; field = λ n name. integer (pos 0) }

-- Two milliseconds are given.
tcp_socket_connect_ends_example : Connects silent (plain_lua no_tables) 0 (silent.start 0) 2 (
    tcp_socket_connect silent
      (plain_lua no_tables)
      5000
      0
      (connect_stack (codes "network.TcpSocket") 0 (codes "::1") 80 2))
tcp_socket_connect_ends_example =
    tcp_socket_connect_ends silent (plain_lua no_tables) silent-IsTimed
      (plain_lua-IsLuaApi no_tables) 5000 0 0 (codes "::1") 80 2 (omega arith) (omega arith)
      (omega arith)
