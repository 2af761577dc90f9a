-- ===== src/Archive/Sealed.antt =====
-- A directory is sealed into a file as a whole, or the file stays.
use codex_vault.Prelude.{
  ◌∙◌, concat, ◌≡◌, refl, ◌≢◌, inl, inr, Option, none, some, List, ◌++◌, arith, ok, err,
  Result-cases,
}
use codex_vault.Prelude.Bytes.{Bytes, Text, ascii}
use codex_vault.Error.{VaultError}
use codex_vault.Device.{IsSink}
use codex_vault.Private.{FileSystem}
use codex_vault.Files.{Files, sink_at, with_extension}
use codex_vault.Files.Contents.{IsFiles, sink_at-IsSink}
use codex_vault.Stream.Format.{Aead, magic}
use codex_vault.Stream.Writer
use codex_vault.Stream.Writer.{VaultWriter}
use codex_vault.Stream.Writer.Image.{Image, file_context, finish-Image}
use codex_vault.Archive.Kept.{pack-Keeps, new-Keeps}
use codex_vault.Archive.{Tar, seal_directory, pack, write_archive}

module _ (c : Aead) {f : FileSystem} (fs : Files f) (laws : IsFiles fs) (tar : Tar f.State) where
  open laws use {content}

  -- The state in which a directory is read: the temporary file was created in `from`, and has the
  -- header.
  abbrev pub begun : Text → Option Bytes → Bytes → f.State → f.State
  begun temporary seed key from =
      (Writer.new c (sink_at fs temporary) seed key (fs.create_new 384 temporary from).1).1

  -- The parts of an archive of `source` in a file: the writes that `tar` made of the directory as it
  -- was in `from`, sealed under the key and the seed. Between `from` and the reading of the directory
  -- the temporary file was begun, and no other file changed.
  pub record IsArchive (seed : Option Bytes) (key : Bytes) (source temporary : Text)
      (from : f.State) (bytes : Bytes) : Type 0 where
    pub nonce_seed : Bytes
    pub seed_eq : seed ≡ some nonce_seed
    pub pieces : List Bytes
    pub pieces_eq : tar.append_dir_all source (begun temporary seed key from) ≡ (pieces, ok tt)
    pub same :
        (q : Text) → q ≢ temporary → content q (begun temporary seed key from) ≡ content q from
    pub end : f.State
    pub image :
        Image c
          (sink_at fs temporary)
          (sink_at-IsSink fs laws temporary)
          (file_context key nonce_seed)
          (magic ++ nonce_seed)
          (concat pieces)
          end
    pub bytes_eq : bytes ≡ content temporary end

  begun-same :
      (temporary : Text) (seed : Option Bytes) (key : Bytes) (from : f.State) (q : Text)
      → q ≢ temporary
      → content q (begun temporary seed key from) ≡ content q from
  begun-same temporary seed key from q other =
      (new-Keeps c fs tar (content q) temporary
        (λ bytes. laws.write_all_keeps temporary q bytes other) (laws.flush_keeps temporary q) seed
        key (fs.create_new 384 temporary from).1).0
      ∙ (laws.create_new_keeps 384 temporary q other).keeps from

  -- What a writer of an archive with success leaves in its file.
  packed :
      (path source : Text) (seed : Option Bytes) (key : Bytes) (s : f.State)
      (w : VaultWriter (sink_at fs path))
      → (fs.create_new 384 path s).0 ≡ ok tt
      → (Writer.new c (sink_at fs path) seed key (fs.create_new 384 path s).1).0 ≡ ok w
      → (pack c fs tar path source w (begun path seed key s)).0 ≡ ok tt
      → IsArchive seed key source path s
          (content path (pack c fs tar path source w (begun path seed key s)).1)
  unfolding pack write_archive
  packed path source none key s w ec en ep = absurd (unfold Writer.new in ground arith)
  packed path source (some nonce_seed) key s w ec en ep =
      let sink = sink_at fs path in
      let is : IsSink sink = sink_at-IsSink fs laws path in
      let u = (fs.create_new 384 path s).1 in
      let empty = laws.create_new_ok 384 path s ec in
      let (pieces, ended) = tar.append_dir_all source (begun path (some nonce_seed) key s) in
      let a = (Writer.write_each c sink pieces w).1 in
      elim (Result-cases (Writer.write_each c sink pieces w).0) [
        | inr (x, ea) ↦ absurd (ground arith)
        | inl (_, ea) ↦ elim (Result-cases ended) [
          | inr (x, ee) ↦ absurd (ground arith)
          | inl (_, ee) ↦ elim (Result-cases (Writer.finish c sink a).0) [
            | inr (x, ef) ↦ absurd (ground arith)
            | inl (end, ef) ↦ record {
              nonce_seed = nonce_seed;
              seed_eq = refl;
              pieces = pieces;
              pieces_eq = ground arith;
              same = begun-same path (some nonce_seed) key s;
              end = end;
              image = rw empty at (finish-Image c sink is nonce_seed key pieces u w end en ea ef);
              bytes_eq = ground arith;
            }
          ]
        ]
      ]

  module _ (uuid destination : Text) where
    abbrev temporary : Text
    temporary = with_extension destination (ascii "tmp-" ++ uuid)

    -- With the files as documented: a directory that is sealed with success is in the
    -- file as the archive that `tar` wrote of it as it was at the call, sealed as a whole; after an
    -- error the file is as it was. The temporary file has another name.
    pub seal_directory-IsArchive :
        (seed : Option Bytes) (source : Text) (key : Bytes) (s : f.State)
        → destination ≢ temporary
        → let (r, t) = seal_directory c fs tar uuid seed source destination key s in
          (r ≡ ok tt → IsArchive seed key source temporary s (content destination t))
          × ((x : VaultError) → r ≡ err x → content destination t ≡ content destination s)
    unfolding seal_directory
    seal_directory-IsArchive seed source key s other =
        let a = (fs.create_new 384 temporary s).1 in
        let ka = (laws.create_new_keeps 384 temporary destination other).keeps s in
        let wr = λ (bytes : Bytes). laws.write_all_keeps temporary destination bytes other in
        let fl = laws.flush_keeps temporary destination in
        let undo = λ (u : f.State). (laws.remove_file_keeps temporary destination other).keeps u in
        elim (Result-cases (fs.create_new 384 temporary s).0) [
          | inr (x, ea) ↦ ((λ e. absurd (ground arith)), λ y ey. ground (arith, undo a))
          | inl (_, ea) ↦
              let b = (Writer.new c (sink_at fs temporary) seed key a).1 in
              let (kb, inner) =
                new-Keeps c fs tar (content destination) temporary wr fl seed key a in
              elim (Result-cases (Writer.new c (sink_at fs temporary) seed key a).0) [
                | inr (x, eb) ↦ ((λ e. absurd (ground arith)), λ y ey. ground (arith, undo b))
                | inl (w, eb) ↦
                    let d = (pack c fs tar temporary source w b).1 in
                    let kd =
                      pack-Keeps c fs tar (content destination) temporary wr fl source w b b
                        (inner w eb) refl in
                    elim (Result-cases (pack c fs tar temporary source w b).0) [
                      | inr (x, ed) ↦ ((λ e. absurd (ground arith)), λ y ey. ground (arith, undo d))
                      | inl (_, ed) ↦
                          let sealed = packed temporary source seed key s w ea eb ed in
                          let g = (fs.flush temporary d).1 in
                          let j = (fs.sync_all temporary g).1 in
                          let kg = (laws.flush_keeps temporary destination).keeps d in
                          let kj = (laws.sync_all_keeps temporary destination).keeps g in
                          let tg = (laws.flush_keeps temporary temporary).keeps d in
                          let tj = (laws.sync_all_keeps temporary temporary).keeps g in
                          elim (Result-cases (fs.flush temporary d).0) [
                            | inr (x, eg) ↦
                                ((λ e. absurd (ground arith)), λ y ey. ground (arith, undo g))
                            | inl (_, eg) ↦ elim (Result-cases (fs.sync_all temporary g).0) [
                              | inr (x, ej) ↦
                                  ((λ e. absurd (ground arith)), λ y ey. ground (arith, undo j))
                              | inl (_, ej) ↦
                                  elim (Result-cases (fs.rename temporary destination j).0) [
                                    | inr (x, er) ↦
                                        let kr =
                                          laws.rename_err temporary destination destination j x
                                            er in
                                        (
                                          (λ e. absurd (ground arith)),
                                          λ y ey.
                                              ground
                                                (arith, undo (fs.rename temporary destination j).1),
                                        )
                                    | inl (_, er) ↦
                                        let kr = laws.rename_ok temporary destination j er in
                                        let final : content destination
                                              (seal_directory c fs tar uuid seed source destination
                                                key s).1
                                            ≡ content temporary d =
                                          ground arith in
                                        ((λ e. rw final sealed), λ y ey. absurd (ground arith))
                                  ]
                            ]
                          ]
                    ]
              ]
        ]
