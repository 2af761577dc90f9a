-- ===== src/Archive/Kept.antt =====
-- What sealing and unsealing a directory leave as it was.
use codex_vault.Prelude.{
  Keeps-look, Keeps-bind, Keeps-with_error, ℕ, zero, suc, ◌≡◌, refl, ap, ◌∙◌, inl, inr, true, false,
  Option, none, some, List, ◌++◌, arith, Option-cases, ok, err, Result-cases, bind, with_error,
  Keeps,
}
use codex_vault.Prelude.Bytes.{Bytes, Text, ascii}
use codex_vault.Error.{VaultError, VaultResult, IoResult, io}
use codex_vault.Device.{Sink, Source}
use codex_vault.Private.{FileSystem, validate_private_file}
use codex_vault.Files.{Files, sink_at, source_at, with_extension}
use codex_vault.Files.Kept.{IsKept}
use codex_vault.Stream.Format.{Aead, magic}
use codex_vault.Stream.Writer
use codex_vault.Stream.Writer.{VaultWriter}
use codex_vault.Stream.Writer.Inner.{shown, write_each-Keeps, finish-shown}
use codex_vault.Stream.Reader
use codex_vault.Stream.Reader.{VaultReader}
use codex_vault.Stream.Reader.Inner
use codex_vault.Archive.{
  Tar, Move, want, entry, change, unpacked, failed, end, Outcome, pack, write_archive,
  seal_directory, unpack_move, unpack_entries, open_state, unseal_directory,
}

module _ (c : Aead) {f : FileSystem} (fs : Files f) (tar : Tar f.State) {V : Type 0}
    (view : f.State → V) (path : Text)
    (writes : (bytes : Bytes) → Keeps view (fs.write_all path bytes))
    (flushes : Keeps view (fs.flush path)) where
  abbrev sink : Sink
  sink = sink_at fs path

  abbrev seen : VaultWriter sink → Option V
  seen = shown c sink view writes flushes

  write_archive-shown :
      (written : List Bytes × IoResult (Unit {0})) (w : VaultWriter sink) (v : V)
      → seen w ≡ some v
      → let (r, w') = write_archive c fs tar path written w in
        ((u : f.State) → r ≡ ok u → view u ≡ v)
        × ((x : VaultError) → r ≡ err x → (u : f.State) → w'.inner ≡ some u → view u ≡ v)
  unfolding write_archive
  write_archive-shown (pieces, ended) w v ew =
      let a = (Writer.write_each c sink pieces w).1 in
      let ka : seen a ≡ some v =
        (write_each-Keeps c sink view writes flushes pieces).keeps w ∙ ew in
      let (on_ok, on_err) = finish-shown c sink view writes flushes a v ka in
      elim (Result-cases (Writer.write_each c sink pieces w).0) [
        | inr (x, ea) ↦ ((λ u eu. absurd (ground arith)), λ y ey u eu. ground arith)
        | inl (_, ea) ↦ elim (Result-cases ended) [
          | inr (x, ee) ↦ ((λ u eu. absurd (ground arith)), λ y ey u eu. ground arith)
          | inl (_, ee) ↦ (
            (λ u eu. on_ok u (ground arith)),
            λ y ey u eu. on_err y (ground arith) u (ground arith),
          )
        ]
      ]

  pub pack-Keeps :
      (source : Text) (w : VaultWriter sink) (t u : f.State)
      → w.inner ≡ some u
      → view u ≡ view t
      → view (pack c fs tar path source w t).1 ≡ view t
  unfolding pack
  pack-Keeps source w t u ew et =
      let written = tar.append_dir_all source t in
      let w' = (write_archive c fs tar path written w).1 in
      let (on_ok, on_err) = write_archive-shown written w (view t) (ground arith) in
      elim (Result-cases (write_archive c fs tar path written w).0) [
        | inl (last, er) ↦ let same = on_ok last er in ground arith
        | inr (x, er) ↦ elim (Option-cases w'.inner) [
          | inl en ↦ ground arith
          | inr (u', en) ↦ let same = on_err x er u' en in ground arith
        ]
      ]

  pub new-Keeps :
      (seed : Option Bytes) (key : Bytes) (t : f.State)
      → let (r, u) = Writer.new c sink seed key t in
        (view u ≡ view t) × ((w : VaultWriter sink) → r ≡ ok w → w.inner ≡ some u)
  unfolding Writer.new
  new-Keeps none key t = (refl, λ w e. absurd cc)
  new-Keeps (some nonce_seed) key t =
      let k = (writes (magic ++ nonce_seed)).keeps t in
      elim (Result-cases (fs.write_all path (magic ++ nonce_seed) t).0) [
        | inr (x, ew) ↦ (ground arith, λ w e. absurd (ground arith))
        | inl (_, ew) ↦ (ground arith, λ w e. ground arith)
      ]

module _ (c : Aead) {f : FileSystem} (fs : Files f) (tar : Tar f.State) {V : Type 0}
    {view : f.State → V} {Other : Text → Type 0} (kept : IsKept fs view Other) where
  pub seal_directory-Keeps :
      (uuid destination source key : Text) (seed : Option Bytes)
      → Other destination
      → Other (with_extension destination (ascii "tmp-" ++ uuid))
      → Keeps view (seal_directory c fs tar uuid seed source destination key)
  unfolding seal_directory
  seal_directory-Keeps uuid destination source key seed into beside =
      let p = with_extension destination (ascii "tmp-" ++ uuid) in
      let undo = λ (u : f.State). (kept.remove_file p beside).keeps u in
      let wr = λ (bytes : Bytes). kept.write_all p bytes beside in
      let fl = kept.flush p in
      record {
        keeps = λ s.
            let a = (fs.create_new 384 p s).1 in
            let ka = (kept.create_new 384 p beside).keeps s in
            elim (Result-cases (fs.create_new 384 p s).0) [
              | inr (x, ea) ↦ ground (arith, undo a)
              | inl (_, ea) ↦
                  let b = (Writer.new c (sink_at fs p) seed key a).1 in
                  let (kb, inner) = new-Keeps c fs tar view p wr fl seed key a in
                  elim (Result-cases (Writer.new c (sink_at fs p) seed key a).0) [
                    | inr (x, eb) ↦ ground (arith, undo b)
                    | inl (w, eb) ↦
                        let d = (pack c fs tar p source w b).1 in
                        let kd = pack-Keeps c fs tar view p wr fl source w b b (inner w eb) refl in
                        let ending : Keeps view (
                            with_error io (
                              bind (fs.flush p)
                                (λ _. bind (fs.sync_all p) (λ _. fs.rename p destination)))) =
                          Keeps-with_error io (
                            Keeps-bind (kept.flush p) (λ _.
                              Keeps-bind (kept.sync_all p)
                                (λ _. kept.rename p destination beside into))) in
                        let ke = ending.keeps d in
                        elim (Result-cases (pack c fs tar p source w b).0) [
                          | inr (x, ed) ↦ ground (arith, undo d)
                          | inl (_, ed) ↦
                              let z =
                                with_error io
                                  (bind (fs.flush p)
                                    (λ _. bind (fs.sync_all p) (λ _. fs.rename p destination)))
                                  d in
                              elim (Result-cases z.0) [
                                | inl (_, ez) ↦ ground arith
                                | inr (x, ez) ↦ ground (arith, undo z.1)
                              ]
                        ]
                  ]
            ];
      }

  module _
      (changes : (a b : tar.Archive) (g : f.State → f.State) (s : f.State)
        → tar.next a ≡ change g b
        → view (g s) ≡ view s)
      (path : Text) where
    abbrev src : Source
    src = source_at fs path

    abbrev Stays : {A : Type 0} → VaultReader src → Option (A × VaultReader src) → Type 0
    Stays {A} = Inner.Stays c src view (kept.read_exact path) (kept.read path) {A = A}

    move-Stays :
        (rest : tar.Archive → VaultReader src → Outcome c fs tar path)
        → ((a : tar.Archive) (r : VaultReader src) → Stays r (rest a r))
        → (a : tar.Archive) (m : Move tar.Archive f.State) (r : VaultReader src) → tar.next a ≡ m
        → Stays r (unpack_move c fs tar path rest m r)
    unfolding unpack_move
    move-Stays rest ih a (want n go) r m o r' e = elim (Option-cases (Reader.read c src n r)) [
      | inl stuck ↦ absurd (ground arith)
      | inr (q, found) ↦
          let k =
            Inner.read-Stays c src view (kept.read_exact path) (kept.read path) n r q.0 q.1 found in
          ih (go q.0) q.1 o r' (ground arith) ∙ k
    ]
    move-Stays rest ih a (entry (err x) skip unpack) r m o r' e = ground arith
    move-Stays rest ih a (entry (ok t) skip unpack) r m o r' e = ih _ r o r' e
    move-Stays rest ih a (change g b) r m o r' e =
        ih b (record r { inner = g r.inner }) o r' e ∙ changes a b g r.inner m
    move-Stays rest ih a (unpacked (err x) b) r m o r' e = ground arith
    move-Stays rest ih a (unpacked (ok true) b) r m o r' e = ih b r o r' e
    move-Stays rest ih a (unpacked (ok false) b) r m o r' e = ground arith
    move-Stays rest ih a (failed x) r m o r' e = ground arith
    move-Stays rest ih a end r m o r' e = ground arith

    entries-Stays :
        (fuel : ℕ) (a : tar.Archive) (r : VaultReader src)
        → Stays r (unpack_entries c fs tar path fuel a r)
    unfolding unpack_entries
    entries-Stays zero a r o r' e = absurd cc
    entries-Stays (suc fuel) a r o r' e =
        move-Stays (unpack_entries c fs tar path fuel) (entries-Stays fuel) a (tar.next a) r refl o
          r' e

    open_state-Keeps : (key : Bytes) → Keeps view (open_state c fs tar path key)
    unfolding open_state
    open_state-Keeps key = Keeps-bind Keeps-look (λ _.
        Keeps-bind (Keeps-with_error io (kept.open_read path))
          (λ _. Inner.new-Keeps c src view (kept.read_exact path) (kept.read path) key))

    opened_inner :
        (key : Bytes) (s : f.State) (reader : VaultReader src)
        → (open_state c fs tar path key s).0 ≡ ok reader
        → reader.inner ≡ (open_state c fs tar path key s).1
    unfolding open_state
    opened_inner key s reader e = elim (Result-cases (validate_private_file f path s)) [
      | inr (x, ev) ↦ absurd (ground arith)
      | inl (m, ev) ↦ elim (Result-cases (fs.open_read path s).0) [
        | inr (x, eo) ↦ absurd (ground arith)
        | inl (_, eo) ↦
            let same =
              Inner.new-inner c src view (kept.read_exact path) (kept.read path) key
                (fs.open_read path s).1 reader in
            ground (arith, same)
      ]
    ]

    pub unseal_directory-Stays :
        (buffer fuel : ℕ) (destination key : Text) (s t : f.State) (r : VaultResult (Unit {0}))
        → unseal_directory c fs tar buffer fuel path destination key s ≡ some (r, t)
        → view t ≡ view s
    unfolding unseal_directory
    unseal_directory-Stays buffer fuel destination key s t r e =
        let u = (open_state c fs tar path key s).1 in
        let ko = (open_state-Keeps key).keeps s in
        elim (Result-cases (open_state c fs tar path key s).0) [
          | inr (x, eo) ↦ ground arith
          | inl (reader, eo) ↦
              let inner : view reader.inner ≡ view u = ap view (opened_inner key s reader eo) in
              let a = tar.entries destination in
              elim (Option-cases (unpack_entries c fs tar path fuel a reader)) [
                | inl stuck ↦ absurd (ground arith)
                | inr (o, found) ↦
                    let k = entries-Stays fuel a reader o.0 o.1 found in
                    elim (Result-cases o.0) [
                      | inr (x, ended) ↦ ground arith
                      | inl (_, ended) ↦
                          elim (Option-cases (Reader.verify_finished c src buffer fuel o.1)) [
                            | inl stuck ↦ absurd (ground arith)
                            | inr (q, done) ↦
                                let l =
                                  Inner.verify_finished-Stays c src view (kept.read_exact path)
                                    (kept.read path) buffer fuel o.1 q.0 q.1 done in
                                ground arith
                          ]
                    ]
              ]
        ]
