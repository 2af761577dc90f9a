-- ===== src/Files/Directories.antt =====
-- What is documented of directories: what is renamed takes along all that lies in it.
use codex_vault.Prelude.{ℕ, ◌≡◌, ◌∷◌, ok, Keeps}
use codex_vault.Prelude.Bytes.{Text}
use codex_vault.Private.{FileSystem, join}
use codex_vault.Files.{Files}
use codex_vault.Files.Apart.{IsApart}
use codex_vault.Files.Contents.{IsFiles}
use codex_vault.Files.Kept.{IsKept}

-- A call changes no file but those at its paths and in them.
pub record IsDirectories {f : FileSystem} (fs : Files f) (laws : IsFiles fs) : Type 0 where
  pub kept : (q : Text) → IsKept fs (laws.content q) (IsApart q)
  pub rename_inside :
      (p q : Text) (b : ℕ) (name : Text) (s : f.State)
      → (fs.rename p q s).0 ≡ ok tt
      → laws.content (join q (b ∷ name)) (fs.rename p q s).1 ≡ laws.content (join p (b ∷ name)) s
  pub tempdir_keeps : (q : Text) → Keeps (laws.content q) fs.tempdir
  pub remove_dir_all_keeps :
      (p q : Text) → IsApart q p → Keeps (laws.content q) (fs.remove_dir_all p)
