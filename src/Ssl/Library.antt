-- ===== src/Ssl/Library.antt =====
-- What lua_openssl.cc calls of OpenSSL, which is a parameter.
use sdl_atf.Common.{
  ℕ, ◌<◌, ◌^◌, ◌≡◌, ◌≢◌, ℤ, pos, negsuc, Bool, Option, [], ◌++◌, Bytes, length, take, drop,
}

pub data VerifyMode : Type 0 where
  verify_none verify_peer : VerifyMode

pub data Role : Type 0 where
  server client : Role

-- The calls on a state `W` of the library, the objects and the files; an object is a number, and an
-- object that cannot be made `none`. `sslv3_method` is `none` where OPENSSL_NO_SSL3 is defined,
-- `tls_method` that of the version of the library. A reading gives the result and the bytes that it
-- wrote into the buffer.
pub record Openssl (W : Type 0) : Type 0 where
  pub init_library : W → W
  pub cleanup_library : W → W
  pub sslv23_method : ℕ
  pub tls_method : ℕ
  pub sslv3_method : Option ℕ
  pub dtls_method : ℕ
  pub ctx_new : W → ℕ → W × Option ℕ
  pub ctx_free : W → ℕ → W
  pub set_cipher_list : W → ℕ → Bytes → W × ℤ
  pub use_certificate_file : W → ℕ → Bytes → W × ℤ
  pub use_private_key_file : W → ℕ → Bytes → W × ℤ
  pub check_private_key : W → ℕ → W × ℤ
  pub load_verify_locations : W → ℕ → Bytes → W × ℤ
  pub set_verify : W → ℕ → VerifyMode → W
  pub ssl_new : W → ℕ → W × Option ℕ
  pub ssl_free : W → ℕ → W
  pub set_info_callback : W → ℕ → Role → W
  pub set_bio : W → ℕ → ℕ → ℕ → W
  pub set_accept_state : W → ℕ → W
  pub set_connect_state : W → ℕ → W
  pub is_init_finished : W → ℕ → Bool
  pub do_handshake : W → ℕ → W × ℤ
  pub get_error : W → ℕ → ℤ → ℤ
  pub ssl_read : W → ℕ → ℤ → W × ℤ × Bytes
  pub ssl_pending : W → ℕ → ℤ
  pub ssl_write : W → ℕ → Bytes → ℤ → W × ℤ
  pub bio_new_mem : W → W × Option ℕ
  pub bio_new_ssl : W → W × Option ℕ
  pub set_mem_eof_return : W → ℕ → ℤ → W
  pub bio_pending : W → ℕ → ℤ
  pub bio_read : W → ℕ → ℤ → W × ℤ × Bytes
  pub bio_write : W → ℕ → Bytes → ℤ → W × ℤ
  -- `printf` of a text, and `ERR_print_errors_fp(stderr)`
  pub print : W → Bytes → W
  pub print_errors : W → W
  pub state_string_long : W → ℕ → Bytes
  pub state_string : W → ℕ → Bytes
  pub get_peer_certificate : W → ℕ → W × Option ℕ
  -- `X509_NAME_oneline`, in memory of its own or in a buffer of a size
  pub subject_oneline : W → ℕ → Bytes
  pub subject_oneline_in : ℕ → W → ℕ → Bytes
  pub issuer_oneline : W → ℕ → Bytes
  pub x509_free : W → ℕ → W
  pub get_current_cert : W → ℕ → ℕ
  pub get_store_error : W → ℕ → ℤ
  pub get_error_depth : W → ℕ → ℤ
  pub verify_cert_error_string : ℤ → Bytes

-- A memory BIO is a queue of bytes: a write puts its bytes at the end and gives their number, and a
-- read of at most `n` bytes takes them from the front and gives their number, or, where there are none,
-- the value that `BIO_set_mem_eof_return` has set, here -1.
pub record IsMemoryBio {W : Type 0} (q : Openssl W) (bio : ℕ) : Type 0 where
  pub held : W → Bytes
  pub write_held :
      (w : W) (d : Bytes)
      → length d < 2 ^ 31
      → held (q.bio_write w bio d (pos (length d))).0 ≡ held w ++ d
  pub write_count :
      (w : W) (d : Bytes)
      → length d < 2 ^ 31
      → (q.bio_write w bio d (pos (length d))).1 ≡ pos (length d)
  pub read_held : (w : W) (n : ℕ) → held (q.bio_read w bio (pos n)).0 ≡ drop n (held w)
  pub read_bytes : (w : W) (n : ℕ) → (q.bio_read w bio (pos n)).2 ≡ take n (held w)
  pub read_count :
      (w : W) (n : ℕ) → held w ≢ [] → (q.bio_read w bio (pos n)).1 ≡ pos (length (take n (held w)))
  pub read_empty : (w : W) (n : ℕ) → held w ≡ [] → (q.bio_read w bio (pos n)).1 ≡ negsuc 0
