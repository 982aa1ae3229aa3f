-- ===== src/Xml/Errors.antt =====
-- The two handlers of errors in lua_xml.cc: the message of an error of libxml, put together in a buffer
-- of 1024 bytes.
use sdl_atf.Common.{
  before, ◌%◌, ◌^◌, ℕ, ◌+◌, ◌-◌, ◌≤◌, ◌<◌, ◌≡◌, refl, ap, sym, ◌∙◌, ℤ, false, Option, none, some,
  [], ◌∷◌, ◌++◌, Bytes, codes, ltb, if◌then◌else◌, take, length, arith, take-append, take-all,
  length-append, ltb→lt, min, append-nil, Bool-cases, inl, inr,
}
use sdl_atf.Protocol.Decimal.{to_string}

pub data Domain : Type 0 where
  from_xpath from_parser from_elsewhere : Domain

-- `xmlError`: the pointers may be null.
pub record XmlError : Type 0 where
  pub domain : Domain
  pub file : Option Bytes
  pub line : ℤ
  pub message : Option Bytes
  pub str1 : Option Bytes
  pub str2 : Option Bytes
  pub str3 : Option Bytes

-- The text in the buffer up to its NUL byte, and `pos`.
pub record Buffer : Type 0 where
  pub msg : Bytes
  pub pos : ℕ

abbrev pub msg_size : ℕ
msg_size = 1024

-- `msg_size - pos`, a `size_t`, which wraps around where `pos` is behind the buffer.
abbrev room : ℕ → ℕ
room pos = (2 ^ 64 + msg_size - pos) % 2 ^ 64

-- `pos += snprintf(msg + pos, msg_size - pos, ...)` with the text `s` as it is formatted: of a text
-- that does not fit only the bytes that leave room for a NUL are written, and the length of the whole
-- text is returned. The `int pos` is a number here: it overflows only behind parts of 2 GB.
unfoldable pub snprintf_at : Buffer → Bytes → Buffer
snprintf_at b s = record {
  msg = take b.pos b.msg ++ take (room b.pos - 1) s;
  pos = b.pos + length s;
}

-- An append behind its guard: a part that is there, and a `pos` within the buffer.
unfoldable pub append_part : Buffer → Option Bytes → Buffer
unfolding snprintf_at
append_part b none = b
append_part b (some s) = if ltb b.pos msg_size then snprintf_at b s else b

unfoldable pub domain_text : Domain → Bytes
domain_text from_xpath = codes "Error evaluating xpath query:" ++ b'\n' ∷ []
domain_text from_parser = codes "Error parsing xml file:" ++ b'\n' ∷ []
domain_text from_elsewhere = codes "Other error:" ++ b'\n' ∷ []

-- The formats of the parts.
abbrev pub file_line : Option Bytes → ℤ → Option Bytes
file_line none line = none
file_line (some file) line = some (file ++ b':' ∷ to_string line ++ codes ": ")

abbrev pub behind_colon : Option Bytes → Option Bytes
behind_colon none = none
behind_colon (some s) = some (codes ": " ++ s)

unfoldable pub structured_error_message : XmlError → Bytes
unfolding snprintf_at append_part domain_text
structured_error_message err =
    let b0 = snprintf_at (record { msg = []; pos = 0 }) (domain_text err.domain) in
    let b1 = append_part b0 (file_line err.file err.line) in
    let b2 = append_part b1 err.message in
    let b3 = append_part b2 (behind_colon err.str1) in
    let b4 = append_part b3 (behind_colon err.str2) in (append_part b4 (behind_colon err.str3)).msg

-- `genericErrorHandler`: the text that Lua gets of what `snprintf` makes of the message, whatever that
-- takes its arguments from.
unfoldable pub generic_error_message : Bytes → Bytes
generic_error_message formatted = before 0 (take 1022 formatted)

-- The whole message, without a bound.
abbrev pub part : Option Bytes → Bytes
part none = []
part (some s) = s

abbrev pub full_message : XmlError → Bytes
full_message err =
    ((((domain_text err.domain ++ part (file_line err.file err.line)) ++ part err.message)
        ++ part (behind_colon err.str1))
      ++ part (behind_colon err.str2))
    ++ part (behind_colon err.str3)

-- The buffer has the first 1023 bytes of a text, and `pos` is its length, or beyond the buffer as is
-- the text's end.
abbrev Holds : Buffer → Bytes → Type 0
Holds b s = (b.msg ≡ take 1023 s) × (min b.pos msg_size ≡ min (length s) msg_size)

room_lem : (n : ℕ) → n ≤ 1023 → room n - 1 ≡ 1023 - n
room_lem n h = omega arith

holds-snprintf_at :
    (b : Buffer) (s t : Bytes) → Holds b s → b.pos < msg_size → Holds (snprintf_at b t) (s ++ t)
unfolding snprintf_at
holds-snprintf_at b s t (text, place) h =
    let at : b.pos ≡ length s = omega arith in
    let short : length s ≤ 1023 = omega arith in
    let same : b.msg ≡ s = text ∙ take-all 1023 s short in
    (
      rw
          (
            same,
            at,
            take-all (length s) s (omega arith),
            take-append 1023 s t,
            take-all 1023 s short,
          )
          (ap (λ n. s ++ take n t) (room_lem (length s) short)),
      omega (arith, length-append s t),
    )

holds-full : (b : Buffer) (s t : Bytes) → Holds b s → ltb b.pos msg_size ≡ false → Holds b (s ++ t)
holds-full b s t (text, place) full =
    let long : 1024 ≤ length s = ground arith in
    (
      text
          ∙ sym (append-nil (take 1023 s))
          ∙ ap (λ n. take 1023 s ++ take n t) (let e : 0 ≡ 1023 - length s = omega arith in e)
          ∙ sym (take-append 1023 s t),
      omega (arith, length-append s t),
    )

holds-append_part :
    (b : Buffer) (s : Bytes) (o : Option Bytes) → Holds b s → Holds (append_part b o) (s ++ part o)
unfolding append_part
holds-append_part b s none h = rw (append-nil s) h
holds-append_part b s (some t) h = elim (Bool-cases (ltb b.pos msg_size)) [
  | inl fits ↦ rw fits (holds-snprintf_at b s t h (ltb→lt b.pos msg_size fits))
  | inr full ↦ rw full (holds-full b s t h full)
]

-- The message that an error of libxml raises in Lua is the first 1023 bytes of the error's domain,
-- file and line, message and three texts, those of them that are there, in this order, as
-- much as a buffer of 1024 bytes takes with its NUL byte.
pub structured_error_message_lem :
    (err : XmlError) → structured_error_message err ≡ take 1023 (full_message err)
unfolding structured_error_message append_part
structured_error_message_lem err =
    let d : Bytes = domain_text err.domain in
    let b0 : Buffer = snprintf_at (record { msg = []; pos = 0 }) d in
    let p1 : Option Bytes = file_line err.file err.line in
    let p3 : Option Bytes = behind_colon err.str1 in
    let p4 : Option Bytes = behind_colon err.str2 in
    let p5 : Option Bytes = behind_colon err.str3 in
    let b1 : Buffer = append_part b0 p1 in
    let b2 : Buffer = append_part b1 err.message in
    let b3 : Buffer = append_part b2 p3 in
    let b4 : Buffer = append_part b3 p4 in
    let h0 : Holds b0 d = holds-snprintf_at _ [] d (refl, refl) (omega arith) in
    let h1 : Holds b1 (d ++ part p1) = holds-append_part b0 _ p1 h0 in
    let h2 = holds-append_part b1 _ err.message h1 in
    let h3 = holds-append_part b2 _ p3 h2 in
    let h4 = holds-append_part b3 _ p4 h3 in (holds-append_part b4 _ p5 h4).0
