-- ===== src/Utils/FileOps/Backup.antt =====
-- Backups and updates of files.
use sdl_atf.Common.{
  ℕ, ◌≡◌, ◌≢◌, refl, sym, ap, ◌∙◌, Bool, true, false, Option, none, some, [], ◌∷◌, ◌++◌, Bytes,
  arith, before, Option-cases, inl, inr, append_assoc, length, length-append, ◌<◌,
}
use sdl_atf.Files.{FileSystem, IsFileSystem}
use sdl_atf.Protocol.{success, failed}
use sdl_atf.Utils.Host.{join_path}
use sdl_atf.Utils.FileOps.{
  k_backup_suffix, code_of, insert_all, copy_file, file_backup, file_delete, file_restore,
  file_update,
}

-- Closing a stream that is good never fails to write what the stream holds.
pub record IsFlushed {S : Type 0} (fs : FileSystem S) : Type 0 where
  pub flushed : (s : S) (p d : Bytes) → fs.good s p d ≡ true → (fs.put s p d).1 ≡ true

module _ {S : Type 0} (fs : FileSystem S) (laws : IsFileSystem fs) (flush : IsFlushed fs)
    (stray : ℕ) where
  -- A copy that reports success has found a file that is not empty, and made its copy the same.
  pub record Copied (s t : S) (src dest : Bytes) : Type 0 where
    pub content : Bytes
    pub nonempty : content ≢ []
    pub from : fs.contents s src ≡ some content
    pub to : fs.contents t dest ≡ some content

  insert_all-Copied :
      (s t u : S) (src dest : Bytes) (o : Option Bytes)
      → fs.open_read s src ≡ o
      → fs.contents t dest ≡ some []
      → insert_all fs stray t dest o ≡ (u, true)
      → Copied s u src dest
  insert_all-Copied s t u src dest none r e h = cc (ap (λ (p : S × Bool). p.1) h)
  insert_all-Copied s t u src dest (some []) r e h = cc (ap (λ (p : S × Bool). p.1) h)
  insert_all-Copied s t u src dest (some (c ∷ cs)) r e h = record {
    content = c ∷ cs;
    nonempty = λ n. cc;
    from = laws.open_read_contents s src (c ∷ cs) r;
    to =
        let good : fs.good t dest (c ∷ cs) ≡ true = ap (λ (p : S × Bool). p.1) h in
        ap (λ (p : S × Bool). fs.contents p.0 dest) (sym h)
        ∙ laws.put_self t (fs.put t dest (c ∷ cs)).0 dest [] (c ∷ cs) e
            (ap (λ b. ((fs.put t dest (c ∷ cs)).0, b)) (flush.flushed t dest (c ∷ cs) good));
  }

  copy_file-Copied :
      (s u : S) (src dest : Bytes) → copy_file fs stray s src dest ≡ (u, true) → Copied s u src dest
  copy_file-Copied s u src dest = by_open (fs.open_write s dest) refl
    where
      by_open :
          (o : Option S)
          → fs.open_write s dest ≡ o
          → copy_file fs stray s src dest ≡ (u, true)
          → Copied s u src dest
      by_open none e h =
          let h' : (s, false) ≡ (u, true) = sym (rw (e, copy_file)) ∙ h in
          cc (ap (λ (p : S × Bool). p.1) h')
      by_open (some t) e h =
          let h' : insert_all fs stray t dest (fs.open_read s src) ≡ (u, true) =
            sym (rw (e, copy_file)) ∙ h in
          insert_all-Copied s t u src dest (fs.open_read s src) refl
            (laws.open_write_self s t dest e) h'

  code_success : (ok : Bool) → code_of ok ≡ success → ok ≡ true
  code_success true h = refl
  code_success false h = cc

  file_backup-Copied :
      (s : S) (path name : Bytes)
      → (file_backup fs stray s path name).1 ≡ success
      → Copied s
          (file_backup fs stray s path name).0
          (join_path stray path name)
          (join_path stray path name ++ k_backup_suffix)
  unfolding file_backup
  file_backup-Copied s path name h =
      let r =
        copy_file fs stray s (join_path stray path name)
          (join_path stray path name ++ k_backup_suffix) in
      copy_file-Copied s r.0 _ _ (ap (λ b. (r.0, b)) (code_success r.1 h))

  longer : (xs ys : Bytes) → 0 < length ys → xs ≢ xs ++ ys
  longer xs ys h = λ e.
      let k : length xs ≡ length (xs ++ ys) = ap (λ l. length l) e in
      absurd (omega (arith, length-append xs ys))

  -- The path of the backup, as `FileRestore` and `FileDelete` make it.
  backup_path :
      (path name : Bytes)
      → join_path stray path (name ++ k_backup_suffix)
        ≡ join_path stray path name ++ k_backup_suffix
  unfolding join_path
  backup_path path name = sym (append_assoc _ name k_backup_suffix)

  file_delete_other :
      (s : S) (path name q : Bytes)
      → q ≢ join_path stray path name
      → fs.contents (file_delete fs stray s path name).0 q ≡ fs.contents s q
  unfolding file_delete
  file_delete_other s path name q ne =
      elim (Option-cases (fs.remove s (join_path stray path name))) [
        | inl e ↦ rw (e, file_delete)
        | inr (t, e) ↦
            rw (e, file_delete) (laws.remove_other s t (join_path stray path name) q e ne)
      ]

  restored_contents :
      (t : S) (path name : Bytes)
      → fs.contents
          (file_delete fs stray t path (name ++ k_backup_suffix)).0
          (join_path stray path name)
        ≡ fs.contents t (join_path stray path name)
  restored_contents t path name =
      file_delete_other t path (name ++ k_backup_suffix) (join_path stray path name) (λ e.
        longer (join_path stray path name) k_backup_suffix (omega arith)
          (e ∙ backup_path path name))

  -- A file that FileBackup has copied with SUCCESS, and that FileRestore then restores with SUCCESS,
  -- holds what it held at the backup, whatever happened to it in between, if nothing has changed the
  -- backup itself, and if closing a stream that is good never fails to write what it holds: the code
  -- looks at the streams before they are closed.
  pub file_restore-file_backup :
      (s u : S) (path name : Bytes)
      → (file_backup fs stray s path name).1 ≡ success
      → fs.contents u (join_path stray path name ++ k_backup_suffix)
        ≡ fs.contents
            (file_backup fs stray s path name).0
            (join_path stray path name ++ k_backup_suffix)
      → (file_restore fs stray u path name).1 ≡ success
      → fs.contents (file_restore fs stray u path name).0 (join_path stray path name)
        ≡ fs.contents s (join_path stray path name)
  unfolding file_restore
  file_restore-file_backup s u path name saved kept restored =
      let p = join_path stray path name in
      let b = file_backup-Copied s path name saved in
      let r = copy_file fs stray u (p ++ k_backup_suffix) p in
      let c : Copied u r.0 (p ++ k_backup_suffix) p =
        copy_file-Copied u r.0 (p ++ k_backup_suffix) p
          (ap (λ ok. (r.0, ok)) (code_success r.1 restored)) in
      restored_contents r.0 path name ∙ c.to ∙ sym c.from ∙ kept ∙ b.to ∙ sym b.from

  -- FileRestore without a backup that it can open returns FAILED, and the file itself, if it can be
  -- opened for writing, is left empty.
  file_restore_no_backup :
      (s t : S) (path name : Bytes)
      → fs.open_read s (join_path stray path name ++ k_backup_suffix) ≡ none
      → fs.open_write s (join_path stray path name) ≡ some t
      → ((file_restore fs stray s path name).1 ≡ failed)
        × (fs.contents (file_restore fs stray s path name).0 (join_path stray path name) ≡ some [])
  unfolding file_restore
  file_restore_no_backup s t path name absent opened =
      rw (opened, copy_file)
        (rw (absent, insert_all)
          (
            refl,
            restored_contents t path name
                ∙ laws.open_write_self s t (join_path stray path name) opened,
          ))

  -- FileUpdate that returns SUCCESS leaves in the file the new text up to its first NUL byte, and
  -- nothing of the old text, and does not touch any other file.
  file_update_lem :
      (s : S) (path name content q : Bytes)
      → (file_update fs stray s path name content).1 ≡ success
      → q ≢ join_path stray path name
      → (fs.contents (file_update fs stray s path name content).0 (join_path stray path name)
          ≡ some (before 0 content))
        × (fs.contents (file_update fs stray s path name content).0 q ≡ fs.contents s q)
  unfolding file_update
  file_update_lem s path name content q h ne =
      elim (Option-cases (fs.open_write s (join_path stray path name))) [
        | inl e ↦ let h' : failed ≡ success = sym (rw (e, file_update)) ∙ h in cc
        | inr (t, e) ↦
            let p = join_path stray path name in
            let u = fs.put t p (before 0 content) in
            let h' : code_of (fs.good t p (before 0 content)) ≡ success =
              sym (rw (e, file_update)) ∙ h in
            rw (e, file_update)
              (
                laws.put_self t u.0 p [] (before 0 content) (laws.open_write_self s t p e)
                    (ap (λ b. (u.0, b)) (flush.flushed t p (before 0 content) (code_success _ h'))),
                laws.put_other t p q (before 0 content) ne ∙ laws.open_write_other s t p q e ne,
              )
      ]
