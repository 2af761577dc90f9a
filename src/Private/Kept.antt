-- ===== src/Private/Kept.antt =====
-- What the checks of private paths leave as it was.
use codex_vault.Prelude.{
  ℕ, refl, inl, inr, Option, none, some, List, [], ◌∷◌, arith, Bool-cases, Result-cases, Keeps,
}
use codex_vault.Prelude.Bytes.{Text}
use codex_vault.Private.{
  FileSystem, ensure_private_directory, prepare_runtime_root, first_usable,
  select_runtime_root_from, select_runtime_root, runtime_candidates, is_absolute, is_not_found,
}

module _ (f : FileSystem) {V : Type 0} (view : f.State → V)
    (creates : (mode : ℕ) (p : Text) → Keeps view (f.create_dir mode p)) where
  pub ensure_private_directory-Keeps : (p : Text) → Keeps view (ensure_private_directory f p)
  unfolding ensure_private_directory
  ensure_private_directory-Keeps p = record {
    keeps = λ s.
        let k = (creates 448 p).keeps s in
        elim (Result-cases (f.symlink_metadata p s)) [
          | inl (m, e) ↦ ground arith
          | inr (x, e) ↦ elim (Bool-cases (is_not_found f x)) [
            | inr other ↦ ground arith
            | inl gone ↦ elim (Result-cases (f.create_dir 448 p s).0) [
              | inl (_, ec) ↦ ground arith
              | inr (y, ec) ↦ ground arith
            ]
          ]
        ];
  }

  pub prepare_runtime_root-Keeps : (p : Text) → Keeps view (prepare_runtime_root f p)
  unfolding prepare_runtime_root
  prepare_runtime_root-Keeps p = record {
    keeps = λ s.
        let k = (ensure_private_directory-Keeps p).keeps s in
        elim (Bool-cases (is_absolute p)) [
          | inr relative ↦ ground arith
          | inl absolute ↦ elim (Result-cases (ensure_private_directory f p s).0) [
            | inl (_, ec) ↦ ground arith
            | inr (y, ec) ↦ ground arith
          ]
        ];
  }

  first_usable-Keeps : (candidates : List Text) → Keeps view (first_usable f candidates)
  unfolding first_usable
  first_usable-Keeps [] = record { keeps = λ s. refl }
  first_usable-Keeps (p ∷ candidates) = record {
    keeps = λ s.
        let k = (prepare_runtime_root-Keeps p).keeps s in
        let l = (first_usable-Keeps candidates).keeps (prepare_runtime_root f p s).1 in
        elim (Result-cases (prepare_runtime_root f p s).0) [
          | inl (_, ec) ↦ ground arith
          | inr (y, ec) ↦ ground arith
        ];
  }

  pub select_runtime_root-Keeps :
      (explicit xdg : Option Text) (temp_dir : Text)
      → Keeps view (select_runtime_root f explicit xdg temp_dir)
  unfolding select_runtime_root select_runtime_root_from
  select_runtime_root-Keeps none xdg temp_dir =
      first_usable-Keeps (runtime_candidates xdg temp_dir f.euid)
  select_runtime_root-Keeps (some p) xdg temp_dir = prepare_runtime_root-Keeps p
