-- ===== src/Ssl/Context.antt =====
-- The contexts of lua_openssl.cc, and the library's functions `newSslContext` and `newBio`.
pub mod Steps
use sdl_atf.Common.{
  ℕ, ℤ, pos, negsuc, Bool, true, false, Option, none, some, List, [], ◌∷◌, Bytes, codes, int_eq,
  if◌then◌else◌, to_signed, ◌++◌,
}
use sdl_atf.Protocol.Decimal.{to_string}
use sdl_atf.Lua.{Value, boolean, userdata, LuaApi, Called, failed, Function, ◌>>=◌, arg, give, push}
use sdl_atf.Ssl.Library.{Openssl, VerifyMode, verify_none, verify_peer}

abbrev pub context_class : Bytes
context_class = codes "openssl.ssl_ctx"

-- `lua_toboolean` as an `int`.
abbrev pub truth : Bool → ℤ
truth true = pos 1
truth false = pos 0

abbrev pub ssl_class : Bytes
ssl_class = codes "openssl.ssl"

abbrev pub bio_class : Bytes
bio_class = codes "openssl.bio"

-- A new object as the function's value; the null pointer raises an error.
abbrev pub made : {W : Type 0} → Bytes → List Value → W × Option ℕ → Called W
made class stack (w, none) = failed w
made class stack (w, some o) = give w 1 (push (userdata class o) stack)

module _ {W : Type 0} (q : Openssl W) where
  -- The method of a security protocol: SP_AUTO, SP_SSL, SP_TLS or SP_DTLS.
  unfoldable pub method_of : ℤ → Option ℕ
  method_of kind =
      if int_eq kind (pos 0)
      then some q.sslv23_method
      else if int_eq kind (pos 2)
      then some q.tls_method
      else if int_eq kind (pos 1)
      then q.sslv3_method
      else if int_eq kind (pos 3)
      then some q.dtls_method
      else none

  abbrev with_report : W × Option ℕ → W × Option ℕ
  with_report (w, none) =
      (q.print_errors (q.print w (codes "Error: cannot create SSL_CTX\n")), none)
  with_report (w, some ctx) = (w, some ctx)

  abbrev ctx_of : W → ℤ → Option ℕ → W × Option ℕ
  ctx_of w kind none = (
    q.print w (
        codes "Error: Can not create SSL context with security protocol "
        ++ to_string kind
        ++ codes "\n"),
    none,
  )
  ctx_of w kind (some method) = with_report (q.ctx_new w method)

  unfoldable pub new_ssl_context : W → ℤ → W × Option ℕ
  unfolding method_of
  new_ssl_context w kind = ctx_of w kind (method_of kind)

  abbrev with_eof : W × Option ℕ → W × Option ℕ
  with_eof (w, none) = (w, none)
  with_eof (w, some bio) = (q.set_mem_eof_return w bio (negsuc 0), some bio)

  unfoldable pub new_bio : W → ℤ → W × Option ℕ
  new_bio w kind =
      if int_eq kind (pos 0)
      then with_eof (q.bio_new_mem w)
      else if int_eq kind (pos 1)
      then q.bio_new_ssl w
      else (
        q.print w (codes "Error: Can not create BIO with type " ++ to_string kind ++ codes "\n"),
        none,
      )

  -- A result other than 1 is reported and passed on.
  abbrev pub reported : Bytes → W × ℤ → W × ℤ
  reported message (w, res) =
      (if int_eq res (pos 1) then w else q.print_errors (q.print w message), res)

  unfoldable pub set_cipher_list : W → ℕ → Bytes → W × ℤ
  set_cipher_list w ctx cipher_list =
      reported (codes "Error: cannot set the cipher list\n") (q.set_cipher_list w ctx cipher_list)

  unfoldable pub add_certificate : W → ℕ → Bytes → W × ℤ
  add_certificate w ctx cert_file =
      reported (codes "Error: cannot load certificate file\n")
        (q.use_certificate_file w ctx cert_file)

  unfoldable pub add_private_key : W → ℕ → Bytes → W × ℤ
  add_private_key w ctx key_file =
      reported (codes "Error: cannot load private key file\n")
        (q.use_private_key_file w ctx key_file)

  unfoldable pub check_private_key : W → ℕ → W × ℤ
  check_private_key w ctx =
      reported (codes "Error: checking the private key failed\n") (q.check_private_key w ctx)

  unfoldable pub load_trusted_ca_certificates : W → ℕ → Bytes → W × ℤ
  load_trusted_ca_certificates w ctx ca_file =
      reported (codes "Error: loading of trusted CA certificates was failed\n")
        (q.load_verify_locations w ctx ca_file)

  -- An object that cannot be made is reported.
  abbrev with_errors : W × Option ℕ → W × Option ℕ
  with_errors (w, none) = (q.print_errors w, none)
  with_errors (w, some o) = (w, some o)

  unfoldable pub set_verify_callback : W → ℕ → ℤ → W
  set_verify_callback w ctx is_check_client_certificate =
      q.set_verify w ctx
        (if int_eq is_check_client_certificate (pos 0) then verify_none else verify_peer)

  -- Behind the four steps that are always taken.
  unfoldable pub load_and_verify : W → ℕ → ℤ → Bytes → W × ℤ
  unfolding set_verify_callback
  load_and_verify w ctx is_check_client_certificate ca_file =
      let (w1, loaded) = load_trusted_ca_certificates w ctx ca_file in
      elim (int_eq is_check_client_certificate (pos 1)) [
        | true ↦ elim (int_eq loaded (pos 1)) [
          | true ↦ (set_verify_callback w1 ctx is_check_client_certificate, pos 1)
          | false ↦ (w1, pos 0)
        ]
        | false ↦ (set_verify_callback w ctx is_check_client_certificate, pos 1)
      ]

  unfoldable pub init_ssl_context : W → ℕ → Bytes → Bytes → Bytes → ℤ → Bytes → W × ℤ
  unfolding load_and_verify
  init_ssl_context w ctx cipher_list cert_file key_file is_check_client_certificate ca_file =
      let (w1, r1) = set_cipher_list w ctx cipher_list in
      elim (int_eq r1 (pos 1)) [
        | false ↦ (w1, pos 0)
        | true ↦
            let (w2, r2) = add_certificate w1 ctx cert_file in
            elim (int_eq r2 (pos 1)) [
              | false ↦ (w2, pos 0)
              | true ↦
                  let (w3, r3) = add_private_key w2 ctx key_file in
                  elim (int_eq r3 (pos 1)) [
                    | false ↦ (w3, pos 0)
                    | true ↦
                        let (w4, r4) = check_private_key w3 ctx in
                        elim (int_eq r4 (pos 1)) [
                          | false ↦ (w4, pos 0)
                          | true ↦ load_and_verify w4 ctx is_check_client_certificate ca_file
                        ]
                  ]
            ]
      ]

  module _ (l : LuaApi) where
    unfoldable pub openssl_new_ssl_context : Function W
    unfolding new_ssl_context
    openssl_new_ssl_context w stack = do
      kind ← l.number (arg 1 stack)
      made context_class stack (new_ssl_context w kind)

    unfoldable pub openssl_new_bio : Function W
    unfolding new_bio
    openssl_new_bio w stack = do
      kind ← l.check_integer (arg 1 stack)
      made bio_class stack (with_errors (new_bio w (to_signed 32 kind)))

    -- `lua_pushboolean(L, isSuccess)`
    abbrev pub success_of : List Value → W × ℤ → Called W
    success_of stack (w, is_success) =
        give w 1 (push (boolean (if int_eq is_success (pos 0) then false else true)) stack)

    unfoldable pub ctx_init_ssl_context : Function W
    unfolding init_ssl_context
    ctx_init_ssl_context w stack = do
      ctx ← l.check_udata context_class (arg 1 stack)
      cipher_list ← l.check_string (arg 2 stack)
      cert_file ← l.check_string (arg 3 stack)
      key_file ← l.check_string (arg 4 stack)
      ca_file ← l.check_string (arg 5 stack)
      success_of stack (
          init_ssl_context w ctx cipher_list cert_file key_file (truth (l.to_boolean (arg 6 stack)))
            ca_file)

    unfoldable pub ctx_new_ssl : Function W
    ctx_new_ssl w stack = do
      ctx ← l.check_udata context_class (arg 1 stack)
      made ssl_class stack (with_errors (q.ssl_new w ctx))

    unfoldable pub ctx_add_certificate : Function W
    unfolding add_certificate
    ctx_add_certificate w stack = do
      ctx ← l.check_udata context_class (arg 1 stack)
      cert_file ← l.check_string (arg 2 stack)
      give (add_certificate w ctx cert_file).0 0 stack

    unfoldable pub ctx_free : Function W
    ctx_free w stack = do
      ctx ← l.check_udata context_class (arg 1 stack)
      give (q.ctx_free w ctx) 0 stack
