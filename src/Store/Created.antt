-- ===== src/Store/Created.antt =====
-- The profile that `add_user` creates.
use codex_vault.Prelude.{
  on_error, ℕ, ◌≡◌, ap, ◌∙◌, ◌≢◌, inl, inr, ◌∷◌, ◌++◌, arith, ok, err, Result-cases, Keeps,
}
use codex_vault.Prelude.Bytes.{Bytes, Text, ascii}
use codex_vault.Error.{VaultError, VaultResult}
use codex_vault.Manifest.{UserManifest}
use codex_vault.Private.{join}
use codex_vault.Files.Apart.{IsApart, IsUnder, inside, join-IsUnder, under-IsApart}
use codex_vault.Files.Contents.{IsFiles}
use codex_vault.Files.Directories.{IsDirectories}
use codex_vault.Archive.{seal_directory}
use codex_vault.Archive.Kept.{seal_directory-Keeps}
use codex_vault.Archive.Sealed.{IsArchive, seal_directory-IsArchive}
use codex_vault.Store.{create_keys}
use codex_vault.Store.Host.{Host}
use codex_vault.Store.Beside.{
  beside_state, beside_state_as, state_other, IsUnder-inside, IsUnder-beside_state,
}
use codex_vault.Store.Disk.{
  VaultStore, users_root, user_root, manifest_path, state_path, write_private_json,
}
use codex_vault.Store.Kept.{write_private_json-Keeps}
use codex_vault.Store.Replace.{IsText, write_private_json_ok}
use codex_vault.Store.Users.{Entropy, staging_path, write_profile}

module _ (h : Host) (laws : IsFiles h.files) (directories : IsDirectories h.files laws) where
  open laws use {content}

  -- A new profile: the manifest of keys that were just created, and the archive of a temporary
  -- directory that was just created, under their data key.
  pub record Profile (store : VaultStore) (username : Text) (password : Bytes) (e : Entropy)
      (root : Text) (s : h.system.State) : Type 0 where
    pub manifest : UserManifest
    pub data_key : Bytes
    pub keys :
        create_keys h.cipher h.base64 h.argon2 e.salt e.data_key e.key_nonce e.clock e.id username
          password
        ≡ ok (manifest, data_key)
    pub text : IsText h manifest (content (manifest_path root) s)
    pub before : h.system.State
    pub empty : Text
    pub empty_eq : (h.files.tempdir before).0 ≡ ok empty
    pub archive :
        IsArchive h.cipher h.files laws h.tar e.seed data_key empty
          (beside_state (staging_path store e.staging) e.archive)
          (h.files.tempdir before).1
          (content (state_path root) s)

  module _ (store : VaultStore) (username name : Text) (a : ℕ) (visible : a ≢ 46)
      (named : user_root store username ≡ join (users_root store) (a ∷ name))
      (outside : (s : h.system.State) (empty : Text)
        → (h.files.tempdir s).0 ≡ ok empty
        → (inner other : Text) → join (user_root store username) inner ≢ join empty other)
      (e : Entropy) where
    abbrev root : Text
    root = user_root store username

    abbrev staging : Text
    staging = staging_path store e.staging

    abbrev users : Text
    users = users_root store

    root-IsApart : (inner p : Text) → IsUnder (inside users) 46 p → IsApart (join root inner) p
    root-IsApart inner p under =
        let (rest, at) = IsUnder-inside users a name inner in
        under-IsApart (inside users) a 46 (join root inner) p
          (rest, ap (λ r. join r inner) named ∙ at) under visible

    manifest-IsApart :
        (p : Text) → IsUnder (inside staging) 115 p → IsApart (manifest_path staging) p
    manifest-IsApart p under =
        under-IsApart (inside staging) 109 115 (manifest_path staging) p
          (join-IsUnder staging 109 (ascii "anifest.json")) under (λ e. absurd (omega (arith, e)))

    sealing : Text → Bytes → h.system.State → VaultResult (Unit {0}) × h.system.State
    sealing empty key =
        seal_directory h.cipher h.files h.tar e.archive e.seed empty (state_path staging) key

    sealing_manifest :
        (empty : Text) (key : Bytes) → Keeps (content (manifest_path staging)) (sealing empty key)
    unfolding sealing
    sealing_manifest empty key =
        seal_directory-Keeps h.cipher h.files h.tar (directories.kept (manifest_path staging))
          e.archive (state_path staging) empty key e.seed
          (manifest-IsApart _ (join-IsUnder staging 115 (ascii "tate.cvlt")))
          (manifest-IsApart _ (
            let (rest, at) = join-IsUnder staging 115 (ascii "tate.tmp-" ++ e.archive) in
            (rest, beside_state_as staging e.archive ∙ at)))

    sealing_root :
        (inner empty : Text) (key : Bytes) → Keeps (content (join root inner)) (sealing empty key)
    unfolding sealing
    sealing_root inner empty key =
        seal_directory-Keeps h.cipher h.files h.tar (directories.kept (join root inner)) e.archive
          (state_path staging) empty key e.seed (root-IsApart inner _ (IsUnder-inside users 46 _ _))
          (root-IsApart inner _ (IsUnder-beside_state users 46 _ e.archive))

    -- Behind the keys: the writes of the profile, and what they leave.
    written :
        (password : Bytes) (m : UserManifest) (key : Bytes) (s : h.system.State)
        → create_keys h.cipher h.base64 h.argon2 e.salt e.data_key e.key_nonce e.clock e.id username
            password
          ≡ ok (m, key)
        → let (r, t) = write_profile h store username password e s in
          (r ≡ ok tt → Profile store username password e root t)
          × ((x : VaultError)
              → r ≡ err x
              → (b : ℕ) (inner : Text)
              → content (join root (b ∷ inner)) t ≡ content (join root (b ∷ inner)) s)
    unfolding write_profile sealing
    written password m key s made =
        let p = manifest_path staging in
        let a = (write_private_json h p m s).1 in
        let ka = λ (inner : Text).
          (write_private_json-Keeps h (directories.kept (join root inner)) p m
              (root-IsApart inner p (IsUnder-inside users 46 _ _))).keeps
            s in
        let d = (h.files.tempdir a).1 in
        let kd = λ (q : Text). (directories.tempdir_keeps q).keeps a in
        elim (Result-cases (write_private_json h p m s).0) [
          | inr (x, ea) ↦
              ((λ r. absurd (ground arith)), λ y ey b inner. ground (arith, ka (b ∷ inner)))
          | inl (_, ea) ↦ elim (Result-cases (h.files.tempdir a).0) [
            | inr (x, ed) ↦ (
              (λ r. absurd (ground arith)),
              λ y ey b inner. ground (arith, ka (b ∷ inner), kd (join root (b ∷ inner))),
            )
            | inl (empty, ed) ↦
                let g = (sealing empty key d).1 in
                let j = (h.files.rename staging root g).1 in
                let dropped = λ (inner : Text) (u : h.system.State).
                  (laws.close_tempdir_keeps empty (join root inner)
                      (λ n. outside a empty ed inner n)).keeps
                    u in
                elim (Result-cases (sealing empty key d).0) [
                  | inr (x, eg) ↦ (
                    (λ r. absurd (ground arith)),
                    λ y ey b inner. ground (
                      arith,
                      ka (b ∷ inner),
                      kd (join root (b ∷ inner)),
                      (sealing_root (b ∷ inner) empty key).keeps d,
                      dropped (b ∷ inner) g,
                    ),
                  )
                  | inl (_, eg) ↦ elim (Result-cases (h.files.rename staging root g).0) [
                    | inr (x, ej) ↦ (
                      (λ r. absurd (ground arith)),
                      λ y ey b inner. ground (
                        arith,
                        ka (b ∷ inner),
                        kd (join root (b ∷ inner)),
                        (sealing_root (b ∷ inner) empty key).keeps d,
                        laws.rename_err staging root (join root (b ∷ inner)) g x ej,
                        dropped (b ∷ inner) j,
                      ),
                    )
                    | inl (_, ej) ↦ (
                      (λ r.
                          let t = (write_profile h store username password e s).1 in
                          let behind : (b : ℕ) (inner : Text)
                              → content (join root (b ∷ inner)) t
                                ≡ content (join staging (b ∷ inner)) g =
                            λ b inner. ground (
                              arith,
                              dropped (b ∷ inner) j,
                              directories.rename_inside staging root b inner g ej,
                            ) in
                          let (text, et, image) = write_private_json_ok h laws p m s ea in
                          let sealed =
                            (seal_directory-IsArchive h.cipher h.files laws h.tar e.archive
                                (state_path staging) e.seed empty key d
                                (state_other staging e.archive)).0
                              eg in
                          record {
                            manifest = m;
                            data_key = key;
                            keys = made;
                            text = (
                              text,
                              et,
                              behind 109 (ascii "anifest.json")
                                  ∙ (sealing_manifest empty key).keeps d
                                  ∙ kd p
                                  ∙ image,
                            );
                            before = a;
                            empty = empty;
                            empty_eq = ed;
                            archive = rw (behind 115 (ascii "tate.cvlt")) sealed;
                          }),
                      λ y ey b inner. absurd (ground arith),
                    )
                  ]
                ]
          ]
        ]

    -- The writes of the profile, of which an error takes back the staging directory.
    pub staged :
        (password : Bytes) (s : h.system.State)
        → let (r, t) =
            on_error
              (λ u. (h.files.remove_dir_all staging u).1)
              (write_profile h store username password e)
              s in
          (r ≡ ok tt → Profile store username password e root t)
          × ((x : VaultError)
              → r ≡ err x
              → (b : ℕ) (inner : Text)
              → content (join root (b ∷ inner)) t ≡ content (join root (b ∷ inner)) s)
    staged password s =
        let undone = λ (inner : Text) (u : h.system.State).
          (directories.remove_dir_all_keeps staging (join root inner)
              (root-IsApart inner staging (join-IsUnder users 46 _))).keeps
            u in
        let t = (write_profile h store username password e s).1 in
        elim (Result-cases (
          create_keys h.cipher h.base64 h.argon2 e.salt e.data_key e.key_nonce e.clock e.id username
            password)) [
              | inr (x, made) ↦
                  let stopped : write_profile h store username password e s ≡ (err x, s) =
                    unfold write_profile in ground arith in
                  (
                    (λ r. absurd (ground arith)),
                    λ y ey b inner. ground (arith, undone (b ∷ inner) s),
                  )
              | inl ((m, key), made) ↦
                  let (on_ok, on_err) = written password m key s made in
                  elim (Result-cases (write_profile h store username password e s).0) [
                    | inl (_, ew) ↦
                        ((λ r. rw (on_error, ew) (on_ok ew)), λ y ey b inner. absurd (ground arith))
                    | inr (x, ew) ↦ (
                      (λ r. absurd (ground arith)),
                      λ y ey b inner.
                          let k = on_err x ew b inner in ground (arith, undone (b ∷ inner) t),
                    )
                  ]
            ]
