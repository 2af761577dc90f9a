-- ===== src/Daemon/Listener/Bound.antt =====
-- What holds of the socket file behind `bind_listener`.
use codex_vault.Prelude.{
  ◌%◌, ◌≡◌, ap, ◌⊎◌, inl, inr, true, false, not, ◌||◌, some, arith, ◌==◌, Bool-cases, Option-cases,
  ok, is_ok, Result-cases,
}
use codex_vault.Prelude.Bytes.{Text}
use codex_vault.Private.{FileSystem, Metadata, is_absolute, unsafe_access, ensure_private_directory}
use codex_vault.Private.Safe.{IsPrivate, ensure_private_directory-IsPrivate}
use codex_vault.Files.{parent}
use codex_vault.Daemon.{Socket}
use codex_vault.Daemon.Listener.{
  Sockets, SocketGuard, remove_stale_socket, look_at, secure_socket, bind_listener,
}

module _ (f : FileSystem) (k : Socket) (ss : Sockets f k) where
  -- A socket of the user of the process, which is closed to the group and to others.
  abbrev pub IsSecure : Text → f.State → Type 0
  IsSecure path s =
      (m : Metadata) × (f.symlink_metadata path s ≡ ok m)
      × (m.is_socket ≡ true)
      × (m.uid ≡ f.euid)
      × (m.mode % 64 ≡ 0)

  secure_socket_ok :
      (guard found : SocketGuard) (s t : f.State)
      → secure_socket f k ss guard s ≡ (ok found, t)
      → (found ≡ guard) × IsSecure guard.path t
  unfolding secure_socket look_at
  secure_socket_ok guard found s t e =
      let a = (ss.set_permissions 384 guard.path s).1 in
      elim (Result-cases (ss.set_permissions 384 guard.path s).0) [
        | inr (x, ep) ↦ absurd (ground arith)
        | inl (_, ep) ↦ elim (Result-cases (f.symlink_metadata guard.path a)) [
          | inr (x, em) ↦ absurd (ground arith)
          | inl (m, em) ↦ elim (Bool-cases (not m.is_socket || unsafe_access f m)) [
            | inl unsafe ↦ absurd (ground arith)
            | inr safe ↦
                let same : t ≡ a = ground arith in
                (ground arith, rw same (m, em, ground arith, ground arith, ground arith))
          ]
        ]
      ]

  -- A listener that is bound: the path is absolute, its directory was private, the guard is for
  -- that path, and there is now a socket of the process's user, closed to all others.
  pub bind_listener-IsSecure :
      (path : Text) (s t : f.State) (guard : SocketGuard)
      → bind_listener f k ss path s ≡ (ok guard, t)
      → (is_absolute path ≡ true)
        × (guard.path ≡ path)
        × IsSecure path t
        × ((directory : Text) × (parent path ≡ some directory)
            × IsPrivate f directory (ensure_private_directory f directory s).1)
  unfolding bind_listener look_at
  bind_listener-IsSecure path s t guard e = elim (Bool-cases (is_absolute path)) [
    | inr relative ↦ absurd (ground arith)
    | inl absolute ↦ elim (Option-cases (parent path)) [
      | inl orphan ↦ absurd (ground arith)
      | inr (directory, ed) ↦
          let a = (ensure_private_directory f directory s).1 in
          elim (Result-cases (ensure_private_directory f directory s).0) [
            | inr (x, ep) ↦ absurd (ground arith)
            | inl (_, ep) ↦
                let b = (remove_stale_socket f k ss path a).1 in
                elim (Result-cases (remove_stale_socket f k ss path a).0) [
                  | inr (x, er) ↦ absurd (ground arith)
                  | inl (_, er) ↦
                      let c = (ss.bind_socket path b).1 in
                      elim (Result-cases (ss.bind_socket path b).0) [
                        | inr (x, eb) ↦ absurd (ground arith)
                        | inl (_, eb) ↦ elim (Result-cases (f.symlink_metadata path c)) [
                          | inr (x, em) ↦ absurd (ground arith)
                          | inl (m, em) ↦
                              let made : SocketGuard = record {
                                path = path;
                                device = m.dev;
                                inode = m.ino;
                              } in
                              let (same, secure) = secure_socket_ok made guard c t (ground arith) in
                              (
                                absolute,
                                ap (λ g. g.path) same,
                                secure,
                                (
                                  directory,
                                  ed,
                                  ensure_private_directory-IsPrivate f directory s ep,
                                ),
                              )
                        ]
                      ]
                ]
          ]
    ]
  ]

  -- Where a daemon answers at the path, a second one fails to bind, and it leaves the files as they were
  -- or as the check of the directory left them.
  pub bind_listener-running :
      (path directory : Text) (s : f.State) (m : Metadata)
      → parent path ≡ some directory
      → let u = (ensure_private_directory f directory s).1 in
        f.symlink_metadata path u ≡ ok m
        → ss.connect path u ≡ ok tt
        → (is_ok (bind_listener f k ss path s).0 ≡ false)
          × (((bind_listener f k ss path s).1 ≡ s) ⊎ ((bind_listener f k ss path s).1 ≡ u))
  unfolding bind_listener remove_stale_socket
  bind_listener-running path directory s m ed em ec = elim (Bool-cases (is_absolute path)) [
    | inr relative ↦ (ground arith, inl (ground arith))
    | inl absolute ↦ elim (Result-cases (ensure_private_directory f directory s).0) [
      | inr (x, ep) ↦ (ground arith, inr (ground arith))
      | inl (_, ep) ↦ elim (Bool-cases (not m.is_socket || not (m.uid == f.euid))) [
        | inl other ↦ (ground arith, inr (ground arith))
        | inr own ↦ (ground arith, inr (ground arith))
      ]
    ]
  ]
