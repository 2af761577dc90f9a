-- ===== src/Store/Closed.antt =====
-- The archive of a profile behind the close of its vault.
use codex_vault.Prelude.{◌≡◌, ◌∙◌, ◌≢◌, ◌⊎◌, inl, inr, Option, ◌++◌, arith, ok, Result-cases}
use codex_vault.Prelude.Bytes.{Bytes, Text, ascii}
use codex_vault.Private.{join}
use codex_vault.Files.{with_extension}
use codex_vault.Files.Contents.{IsFiles}
use codex_vault.Archive.{seal_directory}
use codex_vault.Archive.Sealed.{IsArchive, seal_directory-IsArchive}
use codex_vault.Store.Host.{Host}
use codex_vault.Store.Session.{UnlockedVault, close}

module _ (h : Host) (laws : IsFiles h.files) where
  open laws use {content}

  -- With the files as documented, a temporary file of another name, and an archive
  -- that does not lie in the runtime directory: whatever becomes of the close of a vault, its archive
  -- is as it was, or the whole sealed archive that `tar` wrote of its Codex directory
  -- as it was at the call; a close with success is the latter.
  pub close-IsArchive :
      (uuid : Text) (seed : Option Bytes) (vault : UnlockedVault) (s : h.system.State)
      → vault.state_path ≢ with_extension vault.state_path (ascii "tmp-" ++ uuid)
      → ((name : Text) → vault.state_path ≢ join vault.runtime name)
      → let (r, t) = close h uuid seed vault s in
        let archive =
          IsArchive h.cipher h.files laws h.tar seed vault.data_key vault.codex_home
            (with_extension vault.state_path (ascii "tmp-" ++ uuid))
            s
            (content vault.state_path t) in
        (r ≡ ok tt → archive)
        × ((content vault.state_path t ≡ content vault.state_path s) ⊎ archive)
  unfolding close
  close-IsArchive uuid seed vault s other outside =
      let p = vault.state_path in
      let sealing =
        seal_directory h.cipher h.files h.tar uuid seed vault.codex_home p vault.data_key in
      let a = (sealing s).1 in
      let b = (h.files.close_tempdir vault.runtime a).1 in
      let d = (h.files.unlock vault.lock b).1 in
      let final : content p (close h uuid seed vault s).1 ≡ content p a =
        laws.drop_lock_leaves vault.lock p d
        ∙ (laws.unlock_keeps vault.lock p).keeps b
        ∙ (laws.close_tempdir_keeps vault.runtime p outside).keeps a in
      let (on_ok, on_err) =
        seal_directory-IsArchive h.cipher h.files laws h.tar uuid p seed vault.codex_home
          vault.data_key s other in
      elim (Result-cases (sealing s).0) [
        | inl (_, e) ↦ let archive = on_ok e in rw final ((λ same. archive), inr archive)
        | inr (x, e) ↦ ((λ same. absurd (ground arith)), inl (final ∙ on_err x e))
      ]
