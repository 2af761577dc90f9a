-- ===== src/Private/Select.antt =====
-- The choice of the runtime root.
use codex_vault.Prelude.{
  [], ◌≡◌, refl, inl, inr, Option, none, some, List, ◌∷◌, arith, ok, Result-cases,
}
use mathlib.Core.List.{Memᴰ}
use codex_vault.Prelude.Bytes.{Text}
use codex_vault.Private.{FileSystem, prepare_runtime_root, first_usable, select_runtime_root_from}
use codex_vault.Private.Safe.{IsRuntimeRoot, prepare_runtime_root-IsRuntimeRoot}

-- The paths that are tried: an explicit one stands alone.
abbrev pub tried : Option Text → List Text → List Text
tried (some path) candidates = path ∷ []
tried none candidates = candidates

module _ (f : FileSystem) where
  first_usable_lem :
      (candidates : List Text) (result : Text) (s : f.State)
      → (first_usable f candidates s).0 ≡ ok result
      → (path : Text) × Memᴰ path candidates
        × IsRuntimeRoot f path result (first_usable f candidates s).1
  unfolding first_usable
  first_usable_lem [] result s e = absurd (cc)
  first_usable_lem (c ∷ cs) result s e = elim (Result-cases (prepare_runtime_root f c s).0) [
    | inl (path, ep) ↦ (
      c,
      Memᴰ.head refl,
      rw (ep, first_usable) (prepare_runtime_root-IsRuntimeRoot f c result s (ground arith)),
    )
    | inr (x, ep) ↦
        let (path, at, root) =
          first_usable_lem cs result (prepare_runtime_root f c s).1 (ground arith) in
        (path, Memᴰ.tail at, rw (ep, first_usable) root)
  ]

  -- A runtime root that is chosen is the canonical path of one of the paths tried, which is
  -- absolute and private in the file system that the call leaves. An explicit path is the only one
  -- that is tried.
  pub select_runtime_root_from-IsRuntimeRoot :
      (explicit : Option Text) (candidates : List Text) (result : Text) (s : f.State)
      → (select_runtime_root_from f explicit candidates s).0 ≡ ok result
      → (path : Text) × Memᴰ path (tried explicit candidates)
        × IsRuntimeRoot f path result (select_runtime_root_from f explicit candidates s).1
  unfolding select_runtime_root_from
  select_runtime_root_from-IsRuntimeRoot (some path) candidates result s e =
      (path, Memᴰ.head refl, prepare_runtime_root-IsRuntimeRoot f path result s e)
  select_runtime_root_from-IsRuntimeRoot none candidates result s e =
      first_usable_lem candidates result s e
