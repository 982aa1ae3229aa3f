-- ===== src/Tests/World.antt =====
-- Concrete parameters: a disk, the conversions of texts, memory, a stream, and a scripted server.
use sdl_atf.Common.{
  ◌≡◌, ◌≢◌, refl, sym, ap, ◌∙◌, pos, Bool, true, false, Option, none, some, List, [], ◌∷◌, ◌++◌,
  Bytes, bytes_eq, bytes_eq_iff, bytes_eq_refl, if◌then◌else◌, Bool-cases, inl, inr,
}
use sdl_atf.Files.{FileSystem, IsFileSystem}
use sdl_atf.Protocol.Decimal.{atoi, atoi-decimal}
use sdl_atf.Protocol.{LexicalCast, IsLexicalCast}
use sdl_atf.Client.Connection.{RpcClient, Outcome, timeout}
use sdl_atf.Broker.Session.{Stream}
use sdl_atf.Utils.Host.{Heap}
use sdl_atf.Transfer.Collect.{IsWorking}

-- A disk without permissions or limits.
abbrev pub Disk : Type 0
Disk = Bytes → Option Bytes

unfoldable pub store_at : Disk → Bytes → Option Bytes → Disk
store_at s p d q = if bytes_eq q p then d else s q

abbrev pub content_or_empty : Option Bytes → Bytes
content_or_empty none = []
content_or_empty (some d) = d

abbrev pub has : Option Bytes → Bool
has none = false
has (some d) = true

abbrev pub remove_from : Disk → Bytes → Option Bytes → Option Disk
remove_from s p none = none
remove_from s p (some d) = some (store_at s p none)

abbrev pub files : FileSystem Disk
files = record {
  contents = λ s p. s p;
  open_read = λ s p. s p;
  open_write = λ s p. some (store_at s p (some []));
  open_append = λ s p. some (store_at s p (some (content_or_empty (s p))));
  put = λ s p d. (store_at s p (some (content_or_empty (s p) ++ d)), true);
  good = λ s p d. true;
  remove = λ s p. remove_from s p (s p);
  stat = λ s p. has (s p);
  mkdir = λ s p. none;
}

pub store_at_self : (s : Disk) (p : Bytes) (d : Option Bytes) → store_at s p d p ≡ d
unfolding store_at
store_at_self s p d = rw (bytes_eq_refl p)

store_at_other : (s : Disk) (p q : Bytes) (d : Option Bytes) → q ≢ p → store_at s p d q ≡ s q
unfolding store_at
store_at_other s p q d ne = elim (Bool-cases (bytes_eq q p)) [
  | inl e ↦ absurd (ne ((bytes_eq_iff q p).0 e))
  | inr e ↦ rw e
]

open_append_contents :
    (s : Disk) (p : Bytes)
    → store_at s p (some (content_or_empty (s p))) p ≡ some (content_or_empty (s p))
open_append_contents s p = store_at_self s p (some (content_or_empty (s p)))

remove_from_self :
    (s t : Disk) (p : Bytes) (o : Option Bytes) → remove_from s p o ≡ some t → t p ≡ none
remove_from_self s t p none e = cc
remove_from_self s t p (some d) e =
    ap (λ (o : Option Disk). content_at o) (sym e) ∙ store_at_self s p none
  where
    content_at : Option Disk → Option Bytes
    content_at none = none
    content_at (some u) = u p

remove_from_other :
    (s t : Disk) (p q : Bytes) (o : Option Bytes) → remove_from s p o ≡ some t → q ≢ p → t q ≡ s q
remove_from_other s t p q none e ne = cc
remove_from_other s t p q (some d) e ne =
    ap (λ (o : Option Disk). content_at o) (sym e) ∙ store_at_other s p q none ne
  where
    content_at : Option Disk → Option Bytes
    content_at none = none
    content_at (some u) = u q

-- What an equation between two disks that are there says of a path.
at_path : {s t : Disk} (q : Bytes) → some s ≡ some t → t q ≡ s q
at_path {s} {t} q e = ap content_at (sym e)
  where
    content_at : Option Disk → Option Bytes
    content_at none = none
    content_at (some u) = u q

append_old :
    (s : Disk) (p q c : Bytes)
    → s q ≡ some c
    → store_at s p (some (content_or_empty (s p))) q ≡ some c
unfolding store_at
append_old s p q c h = elim (Bool-cases (bytes_eq q p)) [
  | inl e ↦
      let same : q ≡ p = (bytes_eq_iff q p).0 e in
      rw e
        (ap (λ x. some (content_or_empty (s x))) (sym same) ∙ ap (λ o. some (content_or_empty o)) h)
  | inr e ↦ rw e h
]

pub files-IsFileSystem : IsFileSystem files
files-IsFileSystem = record {
  open_read_contents = λ s p d e. e;
  open_write_self = λ s t p e. at_path p e ∙ store_at_self s p (some []);
  open_write_other = λ s t p q e ne. at_path q e ∙ store_at_other s p q (some []) ne;
  open_append_new = λ s t p e absent.
      at_path p e ∙ store_at_self s p _ ∙ ap (λ o. some (content_or_empty o)) absent;
  open_append_old = λ s t p q c e h. at_path q e ∙ append_old s p q c h;
  put_self = λ s t p c d h e.
      ap (λ (r : Disk × Bool). r.0 p) (sym e)
      ∙ store_at_self s p _
      ∙ ap (λ o. some (content_or_empty o ++ d)) h;
  put_other = λ s p q d ne. store_at_other s p q (some (content_or_empty (s p) ++ d)) ne;
  remove_self = λ s t p e. remove_from_self s t p (s p) e;
  remove_other = λ s t p q e ne. remove_from_other s t p q (s p) e ne;
}

remove_from-none : (s : Disk) (p : Bytes) (o : Option Bytes) → remove_from s p o ≡ none → o ≡ none
remove_from-none s p none e = refl
remove_from-none s p (some d) e = cc

pub files-IsWorking : IsWorking files
files-IsWorking = record {
  laws = files-IsFileSystem;
  opens = λ s p. (store_at s p (some (content_or_empty (s p))), refl);
  stays_good = λ s p d. refl;
  removes = λ s p e. remove_from-none s p (s p) e;
}

abbrev pub no_files : Disk
no_files p = none

-- A text is its bytes, and a number the digits it begins with.
abbrev pub plain_cast : LexicalCast
plain_cast = record {
  to_text = some;
  to_int = λ s. some (pos (atoi s));
  to_long = λ s. some (pos (atoi s));
  to_size = λ s. some (atoi s);
}

pub plain_cast-IsLexicalCast : IsLexicalCast plain_cast
plain_cast-IsLexicalCast = record {
  text = λ s. refl;
  long = λ n h. ap (λ k. some (pos k)) (atoi-decimal n);
  size = λ n h. ap some (atoi-decimal n);
  int = λ n h. ap (λ k. some (pos k)) (atoi-decimal n);
}

abbrev pub enough_memory : Heap
enough_memory = record { malloc = λ n. true; unspecified = λ n. [] }

-- A stream that is open from its handshake on, with the texts that were written to it.
abbrev pub wire : Stream (Bool × List Bytes)
wire = record {
  is_open = λ w. w.0;
  handshake = λ w host. ((true, w.1), true);
  write = λ w m. ((w.0, w.1 ++ m ∷ []), true);
  async_close = λ w. (false, w.1);
  unconnected = (false, []);
}

-- A remote side whose answers are given.
abbrev next_answer : List Outcome → Outcome × List Outcome
next_answer [] = (timeout [], [])
next_answer (o ∷ os) = (o, os)

abbrev pub scripted : RpcClient (List Outcome)
scripted = record {
  call = λ answers name parameters. next_answer answers;
  is_connected = λ answers. true;
}
