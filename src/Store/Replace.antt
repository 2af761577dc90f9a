-- ===== src/Store/Replace.antt =====
-- The manifest of a profile is replaced as a whole.
use codex_vault.Prelude.{
  ◌≡◌, ◌≢◌, ◌⊎◌, inl, inr, some, [], ◌∷◌, ◌++◌, arith, ok, Result-cases, Keeps, keeps_rules,
}
use codex_vault.Prelude.Bytes.{Bytes, Text}
use codex_vault.Manifest.{UserManifest}
use codex_vault.Files.{parent}
use codex_vault.Files.Contents.{IsFiles}
use codex_vault.Store.Host.{Host}
use codex_vault.Store.Disk.{write_private_json, replace_private_json, temporary_manifest}

-- The text of a manifest with its line end.
abbrev pub IsText : (h : Host) → UserManifest → Bytes → Type 0
IsText h m bytes = (text : Bytes) × (h.json.to_vec m ≡ ok text) × (bytes ≡ text ++ (10 ∷ []))

module _ (h : Host) (laws : IsFiles h.files) where
  open laws use {content}

  write_private_json-Keeps :
      (p q : Text) (m : UserManifest) → q ≢ p → Keeps (content q) (write_private_json h p m)
  unfolding write_private_json
  write_private_json-Keeps p q m other =
      search (keeps_rules, laws.create_new_keeps, laws.write_all_keeps, laws.sync_all_keeps) depth
        12

  pub write_private_json_ok :
      (p : Text) (m : UserManifest) (s : h.system.State)
      → (write_private_json h p m s).0 ≡ ok tt
      → IsText h m (content p (write_private_json h p m s).1)
  unfolding write_private_json
  write_private_json_ok p m s e = elim (Result-cases (h.json.to_vec m)) [
    | inl (text, et) ↦
        let a = (h.files.create_new 384 p s).1 in
        let b = (h.files.write_all p text a).1 in
        let d = (h.files.write_all p (10 ∷ []) b).1 in
        (
          text,
          et,
          ground (
            arith,
            laws.create_new_ok 384 p s,
            laws.write_all_ok p text a,
            laws.write_all_ok p (10 ∷ []) b,
            (laws.sync_all_keeps p p).keeps d,
          ),
        )
    | inr (x, et) ↦ absurd (ground arith)
  ]

  module _ (uuid path directory : Text) (m : UserManifest) (found : parent path ≡ some directory)
      (fresh : path ≢ temporary_manifest uuid directory) where
    pub replaced :
        (s : h.system.State)
        → let (r, t) = replace_private_json h uuid path m s in
          (r ≡ ok tt → IsText h m (content path t))
          × ((content path t ≡ content path s) ⊎ IsText h m (content path t))
    unfolding replace_private_json
    replaced s =
        let p = temporary_manifest uuid directory in
        let a = (write_private_json h p m s).1 in
        let b = (h.files.rename p path a).1 in
        let c = (h.files.open_file directory b).1 in
        let d = (h.files.sync_all directory c).1 in
        let kept = (write_private_json-Keeps p path m fresh).keeps s in
        let k1 = (laws.open_file_keeps directory path).keeps b in
        let k2 = (laws.sync_all_keeps directory path).keeps c in
        elim (Result-cases (write_private_json h p m s).0) [
          | inr (x, ew) ↦ (
            (λ e. absurd (ground arith)),
            inl (ground (arith, (laws.remove_file_keeps p path fresh).keeps a)),
          )
          | inl (_, ew) ↦
              let (text, et, image) = write_private_json_ok p m s ew in
              elim (Result-cases (h.files.rename p path a).0) [
                | inr (x, er) ↦ (
                  (λ e. absurd (ground arith)),
                  inl (
                      ground (
                        arith,
                        (laws.remove_file_keeps p path fresh).keeps b,
                        laws.rename_err p path path a x er,
                      )),
                )
                | inl (_, er) ↦
                    let there = laws.rename_ok p path a er in
                    (
                      (λ e. (text, et, ground arith)),
                      elim (Result-cases (replace_private_json h uuid path m s).0) [
                        | inl (_, ea) ↦ inr (text, et, ground arith)
                        | inr (_, ea) ↦ inr (
                          text,
                          et,
                          ground (
                            arith,
                            (laws.remove_file_keeps p path fresh).keeps c,
                            (laws.remove_file_keeps p path fresh).keeps d,
                          ),
                        )
                      ],
                    )
              ]
        ]
