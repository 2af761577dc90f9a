-- ===== src/Store/Beside.antt =====
-- The temporary file of an archive, and the directories of profiles, are other files than the rest.
use codex_vault.Prelude.{ℕ, ◌≡◌, sym, ap, ◌∙◌, ◌≢◌, ◌∷◌, ◌++◌, append_assoc, arith}
use codex_vault.Prelude.Bytes.{Text, ascii}
use codex_vault.Private.{join}
use codex_vault.Files.{with_extension}
use codex_vault.Files.Apart.{
  IsUnder, inside, join-inside, join-IsUnder, IsUnder-join, under-IsApart, with_extension-state,
}
use codex_vault.Store.Disk.{state_path}

-- The temporary file that an archive in `root` is written to.
abbrev pub beside_state : Text → Text → Text
beside_state root uuid = with_extension (state_path root) (ascii "tmp-" ++ uuid)

pub beside_state_as :
    (root uuid : Text) → beside_state root uuid ≡ join root (ascii "state.tmp-" ++ uuid)
beside_state_as root uuid =
    ap (λ p. with_extension p (ascii "tmp-" ++ uuid)) (join-inside root (ascii "state.cvlt"))
    ∙ with_extension-state (inside root) (ascii "tmp-" ++ uuid)
    ∙ sym (join-inside root (ascii "state.tmp-" ++ uuid))

-- An archive is never its own temporary file.
pub state_other : (root uuid : Text) → state_path root ≢ beside_state root uuid
state_other root uuid =
    let front = inside root ++ ascii "state." in
    (under-IsApart front 99 116 (state_path root) (beside_state root uuid)
      (ascii "vlt", join-inside root (ascii "state.cvlt") ∙ sym (append_assoc (inside root) _ _))
      (
        ascii "mp-" ++ uuid,
        beside_state_as root uuid
            ∙ join-inside root (ascii "state.tmp-" ++ uuid)
            ∙ sym (append_assoc (inside root) _ _),
      )
      (λ e. absurd (omega (arith, e)))).0

-- What lies in a directory of the users does not lie in one whose name starts with another byte.
pub IsUnder-inside :
    (users : Text) (a : ℕ) (name inner : Text)
    → IsUnder (inside users) a (join (join users (a ∷ name)) inner)
IsUnder-inside users a name inner =
    IsUnder-join (inside users) a (join users (a ∷ name)) inner (join-IsUnder users a name)

pub IsUnder-beside_state :
    (users : Text) (a : ℕ) (name uuid : Text)
    → IsUnder (inside users) a (beside_state (join users (a ∷ name)) uuid)
IsUnder-beside_state users a name uuid =
    let (rest, e) = IsUnder-inside users a name (ascii "state.tmp-" ++ uuid) in
    (rest, beside_state_as (join users (a ∷ name)) uuid ∙ e)
