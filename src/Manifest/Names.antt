-- ===== src/Manifest/Names.antt =====
-- The usernames of src/manifest.rs as entries of a directory.
use codex_vault.Prelude.{[], ◌≤◌, ◌≡◌, ◌≢◌, true, ◌∷◌, arith, length, All}
use codex_vault.Prelude.Bytes.{Bytes, Text, ascii}
use codex_vault.Manifest.{all_name_bytes, is_valid_username}

-- One component of a path, which is neither the directory itself nor its parent: not empty, no
-- separator and no zero byte in it.
abbrev pub IsEntryName : Text → Type 0
IsEntryName name =
    (1 ≤ length name)
    × All (λ b. (b ≢ 47) × (b ≢ 0)) name
    × (name ≢ ascii ".")
    × (name ≢ ascii "..")

all_name_bytes_lem : (bs : Bytes) → all_name_bytes bs ≡ true → All (λ b. (b ≢ 47) × (b ≢ 0)) bs
unfolding all_name_bytes
all_name_bytes_lem [] h = tt
all_name_bytes_lem (b ∷ bs) h = (ground arith, all_name_bytes_lem bs (ground arith))

-- A username that is accepted has at most 64 bytes and names one entry of a directory: it has no
-- separator and no zero byte, and is neither "." nor "..".
pub is_valid_username-IsEntryName :
    (username : Text)
    → is_valid_username username ≡ true
    → IsEntryName username × (length username ≤ 64)
unfolding is_valid_username
is_valid_username-IsEntryName [] h = absurd (ground arith)
is_valid_username-IsEntryName (b ∷ bs) h = (
  (
    ground arith,
    all_name_bytes_lem (b ∷ bs) (ground arith),
    (λ e. ground arith),
    (λ e. ground arith),
  ),
  ground arith,
)
