-- ===== src/Store/Listed.antt =====
-- The usernames that are listed.
use codex_vault.Prelude.{
  ◌+◌, ◌≡◌, refl, inl, inr, true, false, not, ◌||◌, List, [], ◌∷◌, ◌++◌, arith, Bool-cases, All,
  All-append, ok, err, Result-cases,
}
use codex_vault.Prelude.Bytes.{Text}
use codex_vault.Error.{IoResult}
use codex_vault.Manifest.{UserManifest, validate, is_valid_username}
use codex_vault.Private.{validate_private_file}
use codex_vault.Files.{Entry}
use codex_vault.Store.Host.{Host}
use codex_vault.Store.Disk.{
  VaultStore, initialize, users_root, manifest_path, manifest_size_limit, parse_manifest,
  read_manifest,
}
use codex_vault.Store.Users.{le_text, insert, sort_unstable, is_hidden, collect_users, list_users}

le_text_total : (s t : Text) → le_text s t ≡ false → le_text t s ≡ true
unfolding le_text
le_text_total [] t e = cc
le_text_total (b ∷ s) [] e = refl
le_text_total (b ∷ s) (c ∷ t) e = ground (arith, le_text_total s t)

le_text_trans : (s t u : Text) → le_text s t ≡ true → le_text t u ≡ true → le_text s u ≡ true
unfolding le_text
le_text_trans [] t u h k = refl
le_text_trans (b ∷ s) [] u h k = cc
le_text_trans (b ∷ s) (c ∷ t) [] h k = cc
le_text_trans (b ∷ s) (c ∷ t) (d ∷ u) h k = ground (arith, le_text_trans s t u)

-- Every text is at most those behind it.
abbrev pub IsSorted : List Text → Type 0
IsSorted [] = Unit {0}
IsSorted (x ∷ xs) = All (λ y. le_text x y ≡ true) xs × IsSorted xs

All-le :
    (x y : Text) (ys : List Text)
    → le_text x y ≡ true
    → All (λ z. le_text y z ≡ true) ys
    → All (λ z. le_text x z ≡ true) ys
All-le x y [] h k = tt
All-le x y (z ∷ ys) h (k, ks) = (le_text_trans x y z h k, All-le x y ys h ks)

All-insert {κ} :
    (P : Text → Type κ) (x : Text) (ys : List Text) → P x → All P ys → All P (insert x ys)
All-insert P x [] p ps = (p, ps)
All-insert P x (y ∷ ys) p (q, qs) = elim (Bool-cases (le_text x y)) [
  | inl e ↦ rw e (p, (q, qs))
  | inr e ↦ rw e (q, All-insert P x ys p qs)
]

insert-IsSorted : (x : Text) (ys : List Text) → IsSorted ys → IsSorted (insert x ys)
insert-IsSorted x [] h = (tt, tt)
insert-IsSorted x (y ∷ ys) (h, hs) = elim (Bool-cases (le_text x y)) [
  | inl e ↦ rw e ((e, All-le x y ys e h), (h, hs))
  | inr e ↦
      rw e
        (All-insert (λ z. le_text y z ≡ true) x ys (le_text_total x y e) h, insert-IsSorted x ys hs)
]

sort_unstable-IsSorted : (xs : List Text) → IsSorted (sort_unstable xs)
unfolding sort_unstable
sort_unstable-IsSorted [] = tt
sort_unstable-IsSorted (x ∷ xs) = insert-IsSorted x (sort_unstable xs) (sort_unstable-IsSorted xs)

All-sort_unstable {κ} : (P : Text → Type κ) (xs : List Text) → All P xs → All P (sort_unstable xs)
unfolding sort_unstable
All-sort_unstable P [] h = tt
All-sort_unstable P (x ∷ xs) (p, ps) =
    All-insert P x (sort_unstable xs) p (All-sort_unstable P xs ps)

module _ (h : Host) where
  read_manifest-valid :
      (root : Text) (s : h.system.State) (m : UserManifest)
      → (read_manifest h root s).0 ≡ ok m
      → is_valid_username m.username ≡ true
  unfolding read_manifest parse_manifest validate
  read_manifest-valid root s m e =
      let p = manifest_path root in
      let t = (h.files.open_read p s).1 in
      elim (Result-cases (validate_private_file h.system p s)) [
        | inr (x, ev) ↦ absurd (ground arith)
        | inl (file, ev) ↦ elim (Result-cases (h.files.open_read p s).0) [
          | inr (x, eo) ↦ absurd (ground arith)
          | inl (_, eo) ↦
              elim (Result-cases (h.files.read_to_end (manifest_size_limit + 1) p t).0) [
                | inr (x, er) ↦ absurd (ground arith)
                | inl (contents, er) ↦ elim (Result-cases (h.json.from_slice contents)) [
                  | inr (x, ej) ↦ absurd (ground arith)
                  | inl (found, ej) ↦ ground arith
                ]
              ]
        ]
      ]

  abbrev pub Named : Text → Type 0
  Named username = is_valid_username username ≡ true

  collect_users-IsSorted :
      (entries : List (IoResult Entry)) (users found : List Text) (s : h.system.State)
      → All Named users
      → (collect_users h entries users s).0 ≡ ok found
      → IsSorted found × All Named found
  unfolding collect_users
  collect_users-IsSorted [] users found s named e =
      let same : found ≡ sort_unstable users = ground arith in
      rw same (sort_unstable-IsSorted users, All-sort_unstable Named users named)
  collect_users-IsSorted (err x ∷ entries) users found s named e = absurd (ground arith)
  collect_users-IsSorted (ok entry ∷ entries) users found s named e =
      elim (Result-cases entry.is_dir) [
        | inr (x, ed) ↦ absurd (ground arith)
        | inl (is_dir, ed) ↦ elim (Bool-cases (not is_dir || is_hidden entry.file_name)) [
          | inl skipped ↦ collect_users-IsSorted entries users found s named (ground arith)
          | inr kept ↦
              let t = (read_manifest h entry.path s).1 in
              elim (Result-cases (read_manifest h entry.path s).0) [
                | inl (m, er) ↦
                    collect_users-IsSorted entries (users ++ (m.username ∷ [])) found t
                      (All-append Named users (m.username ∷ []) named
                        (read_manifest-valid entry.path s m er, tt))
                      (ground arith)
                | inr (x, er) ↦ collect_users-IsSorted entries users found t named (ground arith)
              ]
        ]
      ]

  -- The users that are listed are in the order of their bytes, and each has a valid username.
  pub list_users-IsSorted :
      (store : VaultStore) (s : h.system.State) (found : List Text)
      → (list_users h store s).0 ≡ ok found
      → IsSorted found × All Named found
  unfolding list_users
  list_users-IsSorted store s found e =
      let a = (initialize h store s).1 in
      let b = (h.files.read_dir (users_root store) a).1 in
      elim (Result-cases (initialize h store s).0) [
        | inr (x, ei) ↦ absurd (ground arith)
        | inl (_, ei) ↦ elim (Result-cases (h.files.read_dir (users_root store) a).0) [
          | inr (x, er) ↦ absurd (ground arith)
          | inl (entries, er) ↦ collect_users-IsSorted entries [] found b tt (ground arith)
        ]
      ]
