-- ===== src/Tests/Messages.antt =====
-- Messages of the daemon over memory, with an encoding that runs.
use codex_vault.Prelude.{[], ◌≡◌, refl, ok, err, ◌∷◌, ◌++◌, arith, length, ◌≤◌, take, drop}
use codex_vault.Prelude.Bytes.{Bytes, u32_to_be, u32_from_be}
use codex_vault.Device.Memory.{vec, vec-IsSink, cursor, cursor-IsSource, cursor-IsReliable}
use codex_vault.Protocol.{DaemonRequest, status_of, Json, IsJson, write_message, read_message}
use codex_vault.Protocol.Framing.{read_message-write_message, read_message-Frame}

-- A request is written as a byte and its number.
abbrev pub plain_json : Json DaemonRequest
plain_json = record {
  to_vec = λ x. elim x [ status_of n ↦ ok (123 ∷ n ∷ []) ];
  from_slice = λ bytes. elim bytes [
    | b ∷ rest ↦ elim rest [ n ∷ more ↦ ok (status_of n) | [] ↦ err "EOF" ]
    | [] ↦ err "EOF"
  ];
}

reads_back :
    (x : DaemonRequest) (bytes : Bytes)
    → plain_json.to_vec x ≡ ok bytes
    → (plain_json.from_slice bytes ≡ ok x) × (1 ≤ length bytes)
reads_back (status_of n) bytes e = ground arith

plain_json-IsJson : IsJson plain_json
plain_json-IsJson = record {
  from_slice-to_vec = λ x bytes e. (reads_back x bytes e).0;
  to_vec_bytes = λ x bytes e. (reads_back x bytes e).1;
}

abbrev frame : Bytes
frame = 0 ∷ 0 ∷ 0 ∷ 2 ∷ 123 ∷ 1 ∷ []

writes : (write_message plain_json vec (status_of 1) []).0 ≡ ok tt
unfolding write_message u32_to_be
writes = refl

written : (write_message plain_json vec (status_of 1) []).1 ≡ frame
unfolding write_message u32_to_be
written = refl

read_message-write_message_example :
    ((read_message plain_json cursor (frame ++ (9 ∷ []))).0 ≡ ok (status_of 1))
    × (cursor-IsSource.rest (read_message plain_json cursor (frame ++ (9 ∷ []))).1 ≡ 9 ∷ [])
unfolding vec-IsSink cursor-IsSource
read_message-write_message_example =
    read_message-write_message plain_json plain_json-IsJson vec vec-IsSink cursor cursor-IsSource
      cursor-IsReliable (status_of 1) [] (frame ++ (9 ∷ [])) frame (9 ∷ []) writes written refl

reads : (read_message plain_json cursor frame).0 ≡ ok (status_of 1)
unfolding read_message u32_from_be take drop
reads = refl

read_message-Frame_example :
    (header : Bytes) × (payload : Bytes) × (cursor-IsSource.rest frame
      ≡ header ++ (payload ++ cursor-IsSource.rest (read_message plain_json cursor frame).1))
    × (length header ≡ 4)
    × (length payload ≡ u32_from_be header)
    × (1 ≤ length payload)
    × (length payload ≤ 16384)
    × (plain_json.from_slice payload ≡ ok (status_of 1))
read_message-Frame_example =
    read_message-Frame plain_json cursor cursor-IsSource frame (status_of 1) reads
