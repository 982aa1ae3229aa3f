-- ===== src/Ssl/Session.antt =====
-- The connections and the BIOs of lua_openssl.cc, and `luaopen_luaopenssl`.
pub mod Pipe
use sdl_atf.Common.{
  ℕ, ℤ, pos, negsuc, Bool, true, false, Option, none, some, List, [], ◌∷◌, ◌++◌, Bytes, codes,
  int_eq, if◌then◌else◌, int_of_size, is_neg, is_pos, take, pos_part, length,
}
use sdl_atf.Lua.{
  Value, boolean, integer, text, userdata, LuaApi, Called, failed, threw, Function, Metatable,
  ◌>>=◌, arg, give, push,
}
use sdl_atf.Ssl.Library.{Openssl, Role, server, client}
use sdl_atf.Ssl.Printing.{print_certificates_info}
use sdl_atf.Ssl.Context.{
  context_class, ssl_class, bio_class, ctx_init_ssl_context, ctx_new_ssl, ctx_add_certificate,
  ctx_free, openssl_new_ssl_context, openssl_new_bio,
}

module _ {W : Type 0} (q : Openssl W) where
  unfoldable pub openssl_init_ssl_lib : Function W
  openssl_init_ssl_lib w stack = give (q.init_library w) 0 stack

  unfoldable pub openssl_cleanup_ssl_lib : Function W
  openssl_cleanup_ssl_lib w stack = give (q.cleanup_library w) 0 stack

  unfoldable pub prepare_ssl_to_handshake : W → ℕ → ℤ → W
  prepare_ssl_to_handshake w ssl is_server =
      if int_eq is_server (pos 1) then q.set_accept_state w ssl else q.set_connect_state w ssl

  -- A reading of no bytes, and what is pending behind it.
  unfoldable pub check_decrypted_data : W → ℕ → W × ℤ
  check_decrypted_data w ssl =
      let (w', r, bytes) = q.ssl_read w ssl (pos 0) in (w', q.ssl_pending w' ssl)

  module _ (l : LuaApi) where
    unfoldable pub ssl_set_info_callback : Function W
    ssl_set_info_callback w stack = do
      ssl ← l.check_udata ssl_class (arg 1 stack)
      is_server ← l.number (arg 2 stack)
      give (q.set_info_callback w ssl (if int_eq is_server (pos 1) then server else client)) 0 stack

    unfoldable pub ssl_set_bios : Function W
    ssl_set_bios w stack = do
      ssl ← l.check_udata ssl_class (arg 1 stack)
      bio_in ← l.check_udata bio_class (arg 2 stack)
      bio_out ← l.check_udata bio_class (arg 3 stack)
      give (q.set_bio w ssl bio_in bio_out) 0 stack

    unfoldable pub ssl_prepare_to_handshake : Function W
    unfolding prepare_ssl_to_handshake
    ssl_prepare_to_handshake w stack = do
      ssl ← l.check_udata ssl_class (arg 1 stack)
      is_server ← l.number (arg 2 stack)
      give (prepare_ssl_to_handshake w ssl is_server) 0 stack

    unfoldable pub ssl_is_handshake_finished : Function W
    ssl_is_handshake_finished w stack = do
      ssl ← l.check_udata ssl_class (arg 1 stack)
      give w 1 (push (boolean (q.is_init_finished w ssl)) stack)

    unfoldable pub ssl_perform_handshake : Function W
    ssl_perform_handshake w stack = do
      ssl ← l.check_udata ssl_class (arg 1 stack)
      let (w', result) = q.do_handshake w ssl in
          give w' 2 (push (integer (q.get_error w' ssl result)) (push (integer result) stack))

    unfoldable pub ssl_check_data_to_decrypt : Function W
    unfolding check_decrypted_data
    ssl_check_data_to_decrypt w stack = do
      ssl ← l.check_udata ssl_class (arg 1 stack)
      let (w', data_size) = check_decrypted_data w ssl in give w' 1 (push (integer data_size) stack)

    -- The bytes that were read from the buffer.
    abbrev bytes_read : List Value → W × ℤ × Bytes → Called W
    bytes_read stack (w, read_size, buffer) =
        give w 1 (push (text (take (pos_part read_size) buffer)) stack)

    -- `new char[size]` throws where the size is negative.
    unfoldable pub ssl_decrypt : Function W
    ssl_decrypt w stack = do
      ssl ← l.check_udata ssl_class (arg 1 stack)
      size ← l.number (arg 2 stack)
      elim (is_neg size) [
        | true ↦ threw
        | false ↦
            let r = q.ssl_read w ssl size in
            elim (is_pos r.1) [ true ↦ bytes_read stack r | false ↦ failed r.0 ]
      ]

    unfoldable pub ssl_encrypt : Function W
    ssl_encrypt w stack = do
      ssl ← l.check_udata ssl_class (arg 1 stack)
      bytes ← l.check_lstring (arg 2 stack)
      let (w', write_size) = q.ssl_write w ssl bytes (int_of_size (length bytes)) in
          elim (is_pos write_size) [ true ↦ give w' 0 stack | false ↦ failed w' ]

    unfoldable pub ssl_print_certificates_info : Function W
    unfolding print_certificates_info
    ssl_print_certificates_info w stack = do
      ssl ← l.check_udata ssl_class (arg 1 stack)
      give (print_certificates_info q w ssl) 0 stack

    unfoldable pub ssl_free : Function W
    ssl_free w stack = do
      ssl ← l.check_udata ssl_class (arg 1 stack)
      give (q.ssl_free w ssl) 0 stack

    unfoldable pub bio_check_data_to_read : Function W
    bio_check_data_to_read w stack = do
      bio ← l.check_udata bio_class (arg 1 stack)
      give w 1 (push (integer (q.bio_pending w bio)) stack)

    unfoldable pub bio_read_data : Function W
    bio_read_data w stack = do
      bio ← l.check_udata bio_class (arg 1 stack)
      size ← l.number (arg 2 stack)
      elim (is_neg size) [
        | true ↦ threw
        | false ↦
            let r = q.bio_read w bio size in
            elim (is_neg r.1) [ true ↦ failed r.0 | false ↦ bytes_read stack r ]
      ]

    abbrev written : List Value → W × ℤ → Called W
    written stack (w, write_size) = elim (is_neg write_size) [
      | true ↦ failed w
      | false ↦ give w 0 stack
    ]

    unfoldable pub bio_write_data : Function W
    bio_write_data w stack = do
      bio ← l.check_udata bio_class (arg 1 stack)
      bytes ← l.check_lstring (arg 2 stack)
      written stack (q.bio_write w bio bytes (int_of_size (length bytes)))

    -- The classes of objects; a BIO has no event.
    unfoldable pub luaopen_luaopenssl : List (Metatable W)
    unfolding ssl_set_info_callback ssl_set_bios ssl_prepare_to_handshake ssl_is_handshake_finished
        ssl_perform_handshake ssl_check_data_to_decrypt ssl_decrypt ssl_encrypt
        ssl_print_certificates_info ssl_free bio_check_data_to_read bio_read_data bio_write_data
    luaopen_luaopenssl =
        record {
          class = context_class;
          index =
              (codes "initSslContext", ctx_init_ssl_context q l)
              ∷ (codes "newSsl", ctx_new_ssl q l)
              ∷ (codes "addCertificate", ctx_add_certificate q l)
              ∷ [];
          events = (codes "__gc", ctx_free q l) ∷ [];
        }
        ∷ record {
          class = ssl_class;
          index =
              (codes "setInfoCallback", ssl_set_info_callback)
              ∷ (codes "setBios", ssl_set_bios)
              ∷ (codes "prepareToHandshake", ssl_prepare_to_handshake)
              ∷ (codes "performHandshake", ssl_perform_handshake)
              ∷ (codes "isHandshakeFinished", ssl_is_handshake_finished)
              ∷ (codes "printCertificatesInfo", ssl_print_certificates_info)
              ∷ (codes "checkData", ssl_check_data_to_decrypt)
              ∷ (codes "decrypt", ssl_decrypt)
              ∷ (codes "encrypt", ssl_encrypt)
              ∷ [];
          events = (codes "__gc", ssl_free) ∷ [];
        }
        ∷ record {
          class = bio_class;
          index =
              (codes "checkData", bio_check_data_to_read)
              ∷ (codes "read", bio_read_data)
              ∷ (codes "write", bio_write_data)
              ∷ [];
          events = [];
        }
        ∷ []

    -- The functions of the library itself.
    unfoldable pub openssl_functions : List (Bytes × Function W)
    openssl_functions =
        (codes "initSslLibrary", openssl_init_ssl_lib)
        ∷ (codes "newSslContext", openssl_new_ssl_context q l)
        ∷ (codes "newBio", openssl_new_bio q l)
        ∷ []

    -- The events of the library's table, whose class is "openssl.main".
    unfoldable pub library_events : List (Bytes × Function W)
    library_events = (codes "__gc", openssl_cleanup_ssl_lib) ∷ []
