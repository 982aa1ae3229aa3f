-- ===== src/Ssl/Printing.antt =====
-- What lua_openssl.cc prints of a handshake and of certificates.
use sdl_atf.Common.{
  ℕ, zero, suc, ◌-◌, ℤ, pos, Bool, Option, none, some, [], ◌∷◌, ◌++◌, Bytes, codes, int_eq,
  if◌then◌else◌, take, length,
}
use sdl_atf.Protocol.Decimal.{to_string}
use sdl_atf.Ssl.Library.{Openssl, Role, server, client}

-- The flags that are looked for in `where`: `SSL_CB_LOOP`, `SSL_CB_HANDSHAKE_START` and
-- `SSL_CB_HANDSHAKE_DONE`.
pub data Event : Type 0 where
  loop handshake_start handshake_done : Event

abbrev spaces : ℕ → Bytes
spaces zero = []
spaces (suc n) = b' ' ∷ spaces n

-- `%w.ps`: at most `p` bytes of the text, behind spaces up to the width.
abbrev formatted : ℕ → ℕ → Bytes → Bytes
formatted width precision s = let cut = take precision s in spaces (width - length cut) ++ cut

abbrev role_name : Role → Bytes
role_name server = codes "server"
role_name client = codes "client"

module _ {W : Type 0} (q : Openssl W) where
  -- Where `at` says whether `where & flag` is not 0.
  unfoldable pub ssl_info : W → ℕ → (Event → Bool) → Event → Bytes → Bytes → W
  ssl_info w ssl at flag name msg =
      if at flag
      then q.print w (
          codes "+ "
          ++ name
          ++ codes ": "
          ++ formatted 20 20 msg
          ++ codes " - "
          ++ formatted 40 40 (q.state_string_long w ssl)
          ++ codes "  - "
          ++ formatted 5 10 (q.state_string w ssl)
          ++ codes " \n")
      else w

  unfoldable pub ssl_info_callback : W → ℕ → (Event → Bool) → ℤ → Bytes → W
  unfolding ssl_info
  ssl_info_callback w ssl at ret name =
      if int_eq ret (pos 0)
      then q.print w (codes "-- SSL Info Callback: error occured.\n")
      else (let w1 = ssl_info w ssl at loop name (codes "LOOP") in
          let w2 = ssl_info w1 ssl at handshake_start name (codes "HANDSHAKE START") in
          ssl_info w2 ssl at handshake_done name (codes "HANDSHAKE DONE"))

  -- `sslServerInfoCallback` and `sslClientInfoCallback`
  unfoldable pub info_callback : Role → W → ℕ → (Event → Bool) → ℤ → W
  unfolding ssl_info_callback
  info_callback role w ssl at ret = ssl_info_callback w ssl at ret (role_name role)

  -- The result is what it is given; the certificate that fails is printed.
  unfoldable pub ssl_verify_peer : W → ℤ → ℕ → W × ℤ
  ssl_verify_peer w is_preverify_ok ctx =
      if int_eq is_preverify_ok (pos 0)
      then (let err = q.get_store_error w ctx in
          (
            q.print w (
                codes "Certificate verification result: Error: \nnum = "
                ++ to_string err
                ++ codes ":"
                ++ q.verify_cert_error_string err
                ++ codes "\ndepth = "
                ++ to_string (q.get_error_depth w ctx)
                ++ codes ":"
                ++ q.subject_oneline_in 256 w (q.get_current_cert w ctx)
                ++ codes "\n"),
            is_preverify_ok,
          ))
      else (w, is_preverify_ok)

  abbrev printed : W × Option ℕ → W
  printed (w, none) = q.print w (codes "No certificates.\n")
  printed (w, some cert) =
      let w1 = q.print w (codes "Certificates:\n") in
      let w2 = q.print w1 (codes "Subject: " ++ q.subject_oneline w1 cert ++ codes "\n") in
      let w3 = q.print w2 (codes "Issuer: " ++ q.issuer_oneline w2 cert ++ codes "\n") in
      q.x509_free w3 cert

  unfoldable pub print_certificates_info : W → ℕ → W
  print_certificates_info w ssl = printed (q.get_peer_certificate w ssl)
