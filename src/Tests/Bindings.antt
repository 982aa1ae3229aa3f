-- ===== src/Tests/Bindings.antt =====
-- A document, an OpenSSL of one memory BIO, and the libraries together.
use sdl_atf.Common.{
  ℕ, ◌≡◌, ◌≢◌, refl, ap, ℤ, pos, negsuc, Bool, true, false, Option, none, some, List, [], ◌∷◌, ◌++◌,
  Bytes, codes, before, length, take, drop, arith, if◌then◌else◌, ◌==◌,
}
use sdl_atf.Lua.{nil, boolean, integer, text, userdata, reference, returned}
use sdl_atf.Xml.Errors.{
  XmlError, from_parser, structured_error_message, structured_error_message_lem, full_message,
}
use sdl_atf.Xml.Library.{Libxml, Kind, element, text_node}
use sdl_atf.Xml.Nodes.{node_class}
use sdl_atf.Xml.Tables.{node_children, wanted}
use sdl_atf.Xml.Tables.Siblings.{node_children_lem, numbered, kept}
use sdl_atf.Ssl.Library.{Openssl, IsMemoryBio}
use sdl_atf.Ssl.Context.{bio_class, ctx_init_ssl_context}
use sdl_atf.Ssl.Context.Steps.{
  all_steps, init_steps, init_stack, verified, ctx_init_ssl_context_lem,
}
use sdl_atf.Ssl.Session.{bio_read_data, bio_write_data}
use sdl_atf.Ssl.Session.Pipe.{bio_read_data-bio_write_data}
use sdl_atf.Tests.Lua.{plain_lua, plain_lua-IsLuaApi}
use sdl_atf.Tests.Network.{no_tables}

parse_error : XmlError
parse_error = record {
  domain = from_parser;
  file = some (codes "a.xml");
  line = pos 7;
  message = some (codes "no end tag");
  str1 = none;
  str2 = some (codes "b");
  str3 = none;
}

structured_error_message_lem_example :
    structured_error_message parse_error ≡ take 1023 (full_message parse_error)
structured_error_message_lem_example = structured_error_message_lem parse_error

-- The node 1 has the children 2, an element, 3, a text, and 4, an element.
abbrev kind_of : ℕ → Kind
kind_of n = if n == 3 then text_node else element

abbrev next_of : ℕ → Option ℕ
next_of n = if n == 2 then some 3 else if n == 3 then some 4 else none

abbrev pub small_document : Libxml (List Bytes)
small_document = record {
  read_file = λ w p. (w, some none);
  new_doc = λ w. (w, 0);
  free_doc = λ w d. w;
  save = λ w d p format. w;
  doc_children = λ w d. some 1;
  new_doc_node = λ w d name content. (w, 5);
  set_root_element = λ w d n. w;
  evaluate = λ w d n query. (w, none);
  kind = λ w n. kind_of n;
  next = λ w n. next_of n;
  children = λ w n. some 2;
  parent = λ w n. none;
  doc = λ w n. some 0;
  name = λ w n. some (codes "e");
  content = λ w n. [];
  properties = λ w n. none;
  new_node = λ w name. (w, 5);
  add_child = λ w n c. w;
  get_content = λ w n. none;
  set_content = λ w n s. w;
  get_prop = λ w n name. none;
  set_prop = λ w n name s. w;
  unset_prop = λ w n name. w;
  unlink_node = λ w n. w;
  free_node = λ w n. w;
  make_table = λ w ps. (w, reference (length ps));
}

node_children_lem_example :
    node_children small_document (plain_lua no_tables) 3 [] (userdata node_class 1 ∷ nil ∷ [])
    ≡ returned [] (
        reference (
          length (
            numbered 0
              (kept (wanted small_document (plain_lua no_tables) [] none) (2 ∷ 3 ∷ 4 ∷ []))))
        ∷ [])
node_children_lem_example =
    node_children_lem small_document (plain_lua no_tables) [] (plain_lua-IsLuaApi no_tables) 1 nil
      (2 ∷ 3 ∷ 4 ∷ []) 3 refl (refl, (refl, (refl, refl))) (omega arith)

-- The result of a reading of `n` bytes from a BIO with these bytes.
abbrev read_result : ℕ → Bytes → ℤ
read_result n [] = negsuc 0
read_result n (x ∷ xs) = pos (length (take n (x ∷ xs)))

abbrev read_from : Bytes → ℤ → Bytes × ℤ × Bytes
read_from held (pos n) = (drop n held, read_result n held, take n held)
read_from held (negsuc n) = (held, negsuc 0, [])

-- The state is what the BIO holds, and a certificate that is given.
abbrev pub one_bio : Bool → Openssl Bytes
one_bio certified = record {
  init_library = λ w. w;
  cleanup_library = λ w. w;
  sslv23_method = 0;
  tls_method = 1;
  sslv3_method = none;
  dtls_method = 2;
  ctx_new = λ w method. (w, some 0);
  ctx_free = λ w ctx. w;
  set_cipher_list = λ w ctx s. (w, pos 1);
  use_certificate_file = λ w ctx s. (w, if certified then pos 1 else pos 0);
  use_private_key_file = λ w ctx s. (w, pos 1);
  check_private_key = λ w ctx. (w, pos 1);
  load_verify_locations = λ w ctx s. (w, pos 1);
  set_verify = λ w ctx mode. w;
  ssl_new = λ w ctx. (w, some 0);
  ssl_free = λ w ssl. w;
  set_info_callback = λ w ssl role. w;
  set_bio = λ w ssl bio_in bio_out. w;
  set_accept_state = λ w ssl. w;
  set_connect_state = λ w ssl. w;
  is_init_finished = λ w ssl. false;
  do_handshake = λ w ssl. (w, pos 1);
  get_error = λ w ssl result. pos 0;
  ssl_read = λ w ssl n. (w, negsuc 0, []);
  ssl_pending = λ w ssl. pos 0;
  ssl_write = λ w ssl bytes n. (w, n);
  bio_new_mem = λ w. ([], some 0);
  bio_new_ssl = λ w. (w, none);
  set_mem_eof_return = λ w bio n. w;
  bio_pending = λ w bio. pos (length w);
  bio_read = λ w bio n. read_from w n;
  bio_write = λ w bio bytes n. (w ++ bytes, n);
  print = λ w message. w;
  print_errors = λ w. w;
  state_string_long = λ w ssl. [];
  state_string = λ w ssl. [];
  get_peer_certificate = λ w ssl. (w, none);
  subject_oneline = λ w cert. [];
  subject_oneline_in = λ size w cert. [];
  issuer_oneline = λ w cert. [];
  x509_free = λ w cert. w;
  get_current_cert = λ w store. 0;
  get_store_error = λ w store. pos 0;
  get_error_depth = λ w store. pos 0;
  verify_cert_error_string = λ error. [];
}

ctx_init_ssl_context_lem_example :
    ctx_init_ssl_context
      (one_bio false)
      (plain_lua no_tables)
      []
      (init_stack 0 (codes "ALL") (codes "c.pem") (codes "k.pem") (codes "a.pem") true)
    ≡ returned
        (verified (one_bio false) 0 true (
          all_steps [] (
            init_steps
              (one_bio false)
              0
              (before 0 (codes "ALL"))
              (before 0 (codes "c.pem"))
              (before 0 (codes "k.pem"))
              true
              (before 0 (codes "a.pem")))))
        (boolean false ∷ [])
ctx_init_ssl_context_lem_example =
    ctx_init_ssl_context_lem (one_bio false) (plain_lua no_tables) (plain_lua-IsLuaApi no_tables) []
      0 (codes "ALL") (codes "c.pem") (codes "k.pem") (codes "a.pem") true

read_result_count : (w : Bytes) (n : ℕ) → w ≢ [] → read_result n w ≡ pos (length (take n w))
read_result_count [] n h = absurd (h refl)
read_result_count (x ∷ xs) n h = refl

one_bio-IsMemoryBio : IsMemoryBio (one_bio true) 0
one_bio-IsMemoryBio = record {
  held = λ w. w;
  write_held = λ w d h. refl;
  write_count = λ w d h. refl;
  read_held = λ w n. refl;
  read_bytes = λ w n. refl;
  read_count = read_result_count;
  read_empty = λ w n e. ap (read_result n) e;
}

abbrev left_over : Bytes
left_over = b'y' ∷ []

-- A byte of the two is a NUL byte.
bio_read_data-bio_write_data_example :
    (bio_write_data
        (one_bio true)
        (plain_lua no_tables)
        (b'x' ∷ [])
        (userdata bio_class 0 ∷ text (0 ∷ b'y' ∷ []) ∷ [])
      ≡ returned (b'x' ∷ 0 ∷ b'y' ∷ []) [])
    × (bio_read_data
          (one_bio true)
          (plain_lua no_tables)
          (b'x' ∷ 0 ∷ b'y' ∷ [])
          (userdata bio_class 0 ∷ integer (pos 2) ∷ [])
        ≡ returned (b'y' ∷ []) (text (b'x' ∷ 0 ∷ []) ∷ []))
    × (left_over ≡ drop 2 (b'x' ∷ 0 ∷ b'y' ∷ []))
unfolding one_bio-IsMemoryBio
bio_read_data-bio_write_data_example =
    bio_read_data-bio_write_data (one_bio true) (plain_lua no_tables) (plain_lua-IsLuaApi no_tables)
      0 one_bio-IsMemoryBio (b'x' ∷ []) (0 ∷ b'y' ∷ []) 2 (λ e. cc) (omega arith) (omega arith)
