-- ===== src/Store/Rotate.antt =====
-- A change of the password and the file of the manifest.
use codex_vault.Prelude.{
  ◌≡◌, ap, ◌∙◌, ◌≢◌, ◌⊎◌, inl, inr, Option, ◌++◌, arith, ok, ◌>>◌, Result-cases, chain-eq-ok,
}
use codex_vault.Prelude.Bytes.{Bytes, Text, ascii}
use codex_vault.Manifest.{UserManifest}
use codex_vault.Stream.Format.{IsAead}
use codex_vault.Keys.{IsBase64}
use codex_vault.Files.Contents.{IsFiles}
use codex_vault.Files.Paths.{last, last-append, last-join, parent-join}
use codex_vault.Store.{validate_username, validate_password, rotate_keys, open_keys}
use codex_vault.Store.Keys.{open_keys-rotate_keys}
use codex_vault.Store.Host.{Host}
use codex_vault.Store.Disk.{
  VaultStore, user_root, read_manifest, replace_private_json, manifest_path, temporary_manifest,
  lock_path,
}
use codex_vault.Store.Replace.{IsText, replaced}
use codex_vault.Store.Read.{read_manifest_ok, read_manifest-Keeps, lock_profile-Keeps}
use codex_vault.Store.Session.{lock_profile, rotate_manifest, then_unlock, rotate_password}

-- The files of a profile by their last byte.
last-manifest_path : (root : Text) → last (manifest_path root) ≡ 110
unfolding last
last-manifest_path root = last-join root 109 (ascii "anifest.json")

pub manifest_path-ne-lock_path : (root : Text) → manifest_path root ≢ lock_path root
unfolding last
manifest_path-ne-lock_path root e =
    absurd
      (omega (arith, ap last e, last-manifest_path root, last-join root 97 (ascii "ctive.lock")))

manifest_path-ne-temporary_manifest :
    (root uuid directory : Text) → manifest_path root ≢ temporary_manifest uuid directory
unfolding last
manifest_path-ne-temporary_manifest root uuid directory e = absurd (
    omega (
      arith,
      ap last e,
      last-manifest_path root,
      last-join directory 46 (ascii "manifest-" ++ (uuid ++ ascii ".tmp")),
      last-append (ascii ".manifest-" ++ uuid) 46 (ascii "tmp"),
    ))

either_map {ℓ κ ι μ} :
    {A : Type ℓ} {B : Type κ} {C : Type ι} {D : Type μ} → (A → C) → (B → D) → A ⊎ B → C ⊎ D
either_map f g (inl a) = inl (f a)
either_map f g (inr b) = inr (g b)

module _ (h : Host) (laws : IsFiles h.files) (ic : IsAead h.cipher) (ib : IsBase64 h.base64) where
  open laws use {content}

  -- The file held a manifest whose data key opened under the current password, and holds now one
  -- whose data key, the same, opens under the new password.
  pub record Changed (username : Text) (current_password new_password before behind : Bytes)
      : Type 0 where
    pub old : UserManifest
    pub new : UserManifest
    pub data_key : Bytes
    pub old_read : h.json.from_slice before ≡ ok old
    pub new_text : IsText h new behind
    pub old_opens : open_keys h.cipher h.base64 h.argon2 old username current_password ≡ ok data_key
    pub new_opens : open_keys h.cipher h.base64 h.argon2 new username new_password ≡ ok data_key

  module _ (salt nonce : Option Bytes) (uuid username : Text)
      (current_password new_password : Bytes) where
    rotated_opens :
        (old new : UserManifest)
        → rotate_keys h.cipher h.base64 h.argon2 salt nonce old username current_password
            new_password
          ≡ ok new
        → (key : Bytes) × (open_keys h.cipher h.base64 h.argon2 old username current_password
            ≡ ok key)
          × (open_keys h.cipher h.base64 h.argon2 new username new_password ≡ ok key)
    unfolding rotate_keys
    rotated_opens old new e =
        let (key, opens, _) =
          chain-eq-ok _ (open_keys h.cipher h.base64 h.argon2 old username current_password) e in
        (
          key,
          opens,
          open_keys-rotate_keys h.cipher ic h.base64 ib h.argon2 salt nonce old new username
              current_password new_password key opens (unfold rotate_keys in e),
        )

    rotate_manifest_lem :
        (root : Text) (s : h.system.State)
        → let p = manifest_path root in
          let (r, t) =
            rotate_manifest h salt nonce uuid root username current_password new_password s in
          (r ≡ ok tt → Changed username current_password new_password (content p s) (content p t))
          × ((content p t ≡ content p s)
              ⊎ Changed username current_password new_password (content p s) (content p t))
    unfolding rotate_manifest
    rotate_manifest_lem root s =
        let p = manifest_path root in
        let t = (read_manifest h root s).1 in
        let kept = (read_manifest-Keeps h laws p root).keeps s in
        elim (Result-cases (read_manifest h root s).0) [
          | inr (x, er) ↦ ((λ e. absurd (ground arith)), inl (ground arith))
          | inl (old, er) ↦
              elim (Result-cases (
                rotate_keys h.cipher h.base64 h.argon2 salt nonce old username current_password
                  new_password)) [
                    | inr (x, ek) ↦ ((λ e. absurd (ground arith)), inl (ground arith))
                    | inl (new, ek) ↦
                        let (directory, found) = parent-join root 109 97 (ascii "nifest.json") in
                        let (on_ok, always) =
                          replaced h laws uuid p directory new found
                            (manifest_path-ne-temporary_manifest root uuid directory) t in
                        let (key, old_opens, new_opens) = rotated_opens old new ek in
                        let go : IsText h new (content p (replace_private_json h uuid p new t).1)
                            → Changed username current_password new_password (content p s)
                                (content p (replace_private_json h uuid p new t).1) =
                          λ text. record {
                            old = old;
                            new = new;
                            data_key = key;
                            old_read = (read_manifest_ok h laws root s old er).0;
                            new_text = text;
                            old_opens = old_opens;
                            new_opens = new_opens;
                          } in
                        let step : rotate_manifest h salt nonce uuid root username current_password
                              new_password s
                            ≡ replace_private_json h uuid p new t =
                          ground arith in
                        rw (step) ((λ e. go (on_ok e)), either_map (λ same. same ∙ kept) go always)
                  ]
        ]

    -- With the ciphers, the encodings and the files as documented: whatever becomes of a change of
    -- the password, the file of the manifest is as it was, or it held a manifest whose data key
    -- opens under the current password, and holds now the whole text of one whose data key, the
    -- same, opens under the new password. If the call succeeds, it is the latter.
    pub rotate_password-Changed :
        (store : VaultStore) (s : h.system.State)
        → let p = manifest_path (user_root store username) in
          let (r, t) =
            rotate_password h store salt nonce uuid username current_password new_password s in
          (r ≡ ok tt → Changed username current_password new_password (content p s) (content p t))
          × ((content p t ≡ content p s)
              ⊎ Changed username current_password new_password (content p s) (content p t))
    unfolding rotate_password then_unlock
    rotate_password-Changed store s =
        let root = user_root store username in
        let p = manifest_path root in
        let a = (lock_profile h root s).1 in
        let kept : content p a ≡ content p s =
          (lock_profile-Keeps h laws p root (manifest_path-ne-lock_path root)).keeps s in
        elim (Result-cases (validate_username username >> validate_password new_password)) [
          | inr (x, ev) ↦ ((λ e. absurd (ground arith)), inl (ground arith))
          | inl (_, ev) ↦ elim (Result-cases (lock_profile h root s).0) [
            | inr (x, el) ↦ ((λ e. absurd (ground arith)), inl (ground arith))
            | inl (_, el) ↦
                let (on_ok, always) = rotate_manifest_lem root a in
                let b =
                  (rotate_manifest h salt nonce uuid root username current_password new_password
                    a).1 in
                let c = (h.files.unlock (lock_path root) b).1 in
                let end : content p
                      (rotate_password h store salt nonce uuid username current_password
                        new_password s).1
                    ≡ content p b =
                  ground (
                    arith,
                    (laws.unlock_keeps (lock_path root) p).keeps b,
                    laws.drop_lock_leaves (lock_path root) p c,
                  ) in
                let inner : (rotate_password h store salt nonce uuid username current_password
                        new_password s).0
                      ≡ ok tt
                    → (rotate_manifest h salt nonce uuid root username current_password new_password
                        a).0
                      ≡ ok tt =
                  λ e.
                    elim (Result-cases
                      (rotate_manifest h salt nonce uuid root username current_password new_password
                        a).0) [ inl (_, er) ↦ er | inr (x, er) ↦ absurd (ground arith) ] in
                rw (end, ← kept) ((λ e. on_ok (inner e)), always)
          ]
        ]
