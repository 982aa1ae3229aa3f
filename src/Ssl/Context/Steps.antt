-- ===== src/Ssl/Context/Steps.antt =====
-- `initSslContext` against a list of steps that stops at the first failure.
use sdl_atf.Common.{
  ℕ, ◌≡◌, refl, ap, ◌∙◌, ℤ, pos, Bool, true, false, List, [], ◌∷◌, Bytes, codes, before, int_eq,
  if◌then◌else◌, Bool-cases, inl, inr,
}
use sdl_atf.Lua.{Value, boolean, text, userdata, LuaApi, IsLuaApi, returned}
use sdl_atf.Ssl.Library.{Openssl, verify_none, verify_peer}
use sdl_atf.Ssl.Context.{
  context_class, init_ssl_context, load_and_verify, set_verify_callback, ctx_init_ssl_context,
  truth, success_of, reported, set_cipher_list, add_certificate, add_private_key, check_private_key,
  load_trusted_ca_certificates,
}

-- The steps one behind the other up to the first whose result is not 1, and whether there is none.
abbrev pub all_steps : {W : Type 0} → W → List (W → W × ℤ) → W × Bool
all_steps w [] = (w, true)
all_steps w (f ∷ fs) =
    let rest = all_steps (f w).0 fs in if int_eq (f w).1 (pos 1) then rest else ((f w).0, false)

-- The stack of a call of `ctx:initSslContext`.
abbrev pub init_stack : ℕ → Bytes → Bytes → Bytes → Bytes → Bool → List Value
init_stack ctx cipher_list cert_file key_file ca_file check =
    userdata context_class ctx
    ∷ text cipher_list
    ∷ text cert_file
    ∷ text key_file
    ∷ text ca_file
    ∷ boolean check
    ∷ []

module _ {W : Type 0} (q : Openssl W) where
  abbrev pub load_step : ℕ → Bytes → W → W × ℤ
  load_step ctx ca_file w =
      reported q (codes "Error: loading of trusted CA certificates was failed\n")
        (q.load_verify_locations w ctx ca_file)

  -- The cipher list, the certificate, the private key and its check; and the trusted authorities, if
  -- the certificate of the other side is to be checked.
  abbrev pub init_steps : ℕ → Bytes → Bytes → Bytes → Bool → Bytes → List (W → W × ℤ)
  init_steps ctx cipher_list cert_file key_file check ca_file =
      (λ w.
        reported q (codes "Error: cannot set the cipher list\n")
          (q.set_cipher_list w ctx cipher_list))
      ∷ (λ w.
          reported q (codes "Error: cannot load certificate file\n")
            (q.use_certificate_file w ctx cert_file))
      ∷ (λ w.
          reported q (codes "Error: cannot load private key file\n")
            (q.use_private_key_file w ctx key_file))
      ∷ (λ w.
          reported q (codes "Error: checking the private key failed\n") (q.check_private_key w ctx))
      ∷ (if check then load_step ctx ca_file ∷ [] else [])

  -- The same, with the functions of the code.
  abbrev load_code : ℕ → Bytes → W → W × ℤ
  load_code ctx ca_file w = load_trusted_ca_certificates q w ctx ca_file

  abbrev code_steps : ℕ → Bytes → Bytes → Bytes → Bool → Bytes → List (W → W × ℤ)
  code_steps ctx cipher_list cert_file key_file check ca_file =
      (λ w. set_cipher_list q w ctx cipher_list)
      ∷ (λ w. add_certificate q w ctx cert_file)
      ∷ (λ w. add_private_key q w ctx key_file)
      ∷ (λ w. check_private_key q w ctx)
      ∷ (if check then load_code ctx ca_file ∷ [] else [])

  code_steps-init_steps :
      (ctx : ℕ) (cipher_list cert_file key_file : Bytes) (check : Bool) (ca_file : Bytes)
      → code_steps ctx cipher_list cert_file key_file check ca_file
        ≡ init_steps ctx cipher_list cert_file key_file check ca_file
  unfolding set_cipher_list add_certificate add_private_key check_private_key
      load_trusted_ca_certificates
  code_steps-init_steps ctx cipher_list cert_file key_file check ca_file = refl

  abbrev pub verified : ℕ → Bool → W × Bool → W
  verified ctx check (w, true) = q.set_verify w ctx (if check then verify_peer else verify_none)
  verified ctx check (w, false) = w

  abbrev Agrees : ℕ → Bool → W × ℤ → W × Bool → Type 0
  Agrees ctx check result steps = result ≡ (verified ctx check steps, truth steps.1)

  load_and_verify_lem :
      (w : W) (ctx : ℕ) (check : Bool) (ca_file : Bytes)
      → Agrees ctx check
          (load_and_verify q w ctx (truth check) ca_file)
          (all_steps w (if check then load_code ctx ca_file ∷ [] else []))
  unfolding load_and_verify set_verify_callback
  load_and_verify_lem w ctx false ca_file = refl
  load_and_verify_lem w ctx true ca_file =
      elim (Bool-cases (int_eq (load_trusted_ca_certificates q w ctx ca_file).1 (pos 1))) [
        | inl e ↦ rw (e, load_and_verify) refl
        | inr e ↦ rw (e, load_and_verify) refl
      ]

  init_ssl_context_lem :
      (w : W) (ctx : ℕ) (cipher_list cert_file key_file : Bytes) (check : Bool) (ca_file : Bytes)
      → Agrees ctx check
          (init_ssl_context q w ctx cipher_list cert_file key_file (truth check) ca_file)
          (all_steps w (code_steps ctx cipher_list cert_file key_file check ca_file))
  unfolding init_ssl_context
  init_ssl_context_lem w ctx cipher_list cert_file key_file check ca_file =
      let w1 : W = (set_cipher_list q w ctx cipher_list).0 in
      let w2 : W = (add_certificate q w1 ctx cert_file).0 in
      let w3 : W = (add_private_key q w2 ctx key_file).0 in
      let w4 : W = (check_private_key q w3 ctx).0 in
      elim (Bool-cases (int_eq (set_cipher_list q w ctx cipher_list).1 (pos 1))) [
        | inr e ↦ rw (e, init_ssl_context) refl
        | inl e1 ↦ elim (Bool-cases (int_eq (add_certificate q w1 ctx cert_file).1 (pos 1))) [
          | inr e ↦ rw (e1, e, init_ssl_context) refl
          | inl e2 ↦ elim (Bool-cases (int_eq (add_private_key q w2 ctx key_file).1 (pos 1))) [
            | inr e ↦ rw (e1, e2, e, init_ssl_context) refl
            | inl e3 ↦ elim (Bool-cases (int_eq (check_private_key q w3 ctx).1 (pos 1))) [
              | inr e ↦ rw (e1, e2, e3, e, init_ssl_context) refl
              | inl e4 ↦
                  rw (e1, e2, e3, e4, init_ssl_context) (load_and_verify_lem w4 ctx check ca_file)
            ]
          ]
        ]
      ]

  init_ssl_context-init_steps :
      (w : W) (ctx : ℕ) (cipher_list cert_file key_file : Bytes) (check : Bool) (ca_file : Bytes)
      → Agrees ctx check
          (init_ssl_context q w ctx cipher_list cert_file key_file (truth check) ca_file)
          (all_steps w (init_steps ctx cipher_list cert_file key_file check ca_file))
  init_ssl_context-init_steps w ctx cipher_list cert_file key_file check ca_file =
      init_ssl_context_lem w ctx cipher_list cert_file key_file check ca_file
      ∙ ap (λ steps. (verified ctx check (all_steps w steps), truth (all_steps w steps).1))
          (code_steps-init_steps ctx cipher_list cert_file key_file check ca_file)

  success_of_lem :
      (l : LuaApi) (ctx : ℕ) (c cert key ca : Bytes) (check : Bool) (steps : W × Bool)
      → success_of q l
          (init_stack ctx c cert key ca check)
          (verified ctx check steps, truth steps.1)
        ≡ returned (verified ctx check steps) (boolean steps.1 ∷ [])
  success_of_lem l ctx c cert key ca check (w, true) = refl
  success_of_lem l ctx c cert key ca check (w, false) = refl

  -- `ctx:initSslContext(ciphers, certificate, key, authorities, check)` takes its steps in this order
  -- up to the first that fails, which is reported: the ciphers, the certificate, the private key, its check, and, only if
  -- `check` is true, the trusted authorities. Lua gets whether all of them succeeded, and only then the
  -- verification mode is set, that of a peer to be verified if `check` is true.
  pub ctx_init_ssl_context_lem :
      (l : LuaApi) (laws : IsLuaApi l) (w : W) (ctx : ℕ)
      (cipher_list cert_file key_file ca_file : Bytes) (check : Bool)
      → let steps : W × Bool = all_steps w (
          init_steps ctx
            (before 0 cipher_list)
            (before 0 cert_file)
            (before 0 key_file)
            check
            (before 0 ca_file)) in
        ctx_init_ssl_context q l w (init_stack ctx cipher_list cert_file key_file ca_file check)
        ≡ returned (verified ctx check steps) (boolean steps.1 ∷ [])
  unfolding ctx_init_ssl_context
  ctx_init_ssl_context_lem l laws w ctx cipher_list cert_file key_file ca_file check =
      rw
        (
          laws.udata_same context_class ctx,
          laws.string_text cipher_list,
          laws.string_text cert_file,
          laws.string_text key_file,
          laws.string_text ca_file,
        )
        (rw
          (
            laws.to_boolean_boolean check,
            init_ssl_context-init_steps w ctx (before 0 cipher_list) (before 0 cert_file)
                (before 0 key_file) check (before 0 ca_file),
          )
          (success_of_lem l ctx cipher_list cert_file key_file ca_file check (
            all_steps w (
              init_steps ctx (before 0 cipher_list) (before 0 cert_file) (before 0 key_file) check
                (before 0 ca_file)))))
