-- ===== src/Stream/Reader.antt =====
-- src/crypto/vault_stream.rs, `VaultReader`: frames are read, checked and opened one at a time.
-- Every method returns the reader that it leaves, after an error too.
pub mod Step
pub mod Rounds
pub mod Total
pub mod Inner
pub mod Meaning
pub mod Sound
pub mod Ends
pub mod Forward
pub mod Complete
use codex_vault.Prelude.{
  [], ℕ, zero, suc, ◌+◌, min, Bool, true, false, not, ◌&&◌, ◌||◌, Option, none, some, ◌∷◌, ◌++◌,
  Action, bind, with_error, after, lift, ok, err, fail_if, map_err, ok_or, length, take, drop, leb,
  ltb, ◌==◌, if◌then◌else◌, ◌>>=◌, ◌>>◌,
}
use codex_vault.Prelude.Bytes.{Bytes, u32_max, u32_from_be, eq_bytes}
use codex_vault.Error.{VaultError, VaultResult, integrity, cryptography, IoError, IoResult}
use codex_vault.Device.{Source}
use codex_vault.Stream.Format.{
  Aead, magic, chunk_size, tag_length, file_header_length, frame_header_length, data_frame,
  final_frame, new_from_slice, nonce_from, nonce_bytes, io_integrity, map_read_error,
}
use codex_vault.Stream.Frame.{Context}

pub record VaultReader (s : Source) : Type 0 where
  pub inner : s.State
  pub context : Context
  pub open context use *
  pub plaintext : Bytes
  pub plaintext_offset : ℕ
  pub sequence : ℕ
  pub finalized : Bool

-- The fields of a frame header.
pub record Header : Type 0 where
  pub frame_type : ℕ
  pub sequence : ℕ
  pub length : ℕ

abbrev head_or_zero : Bytes → ℕ
head_or_zero [] = 0
head_or_zero (b ∷ bs) = b

unfoldable pub parse_header : Bytes → Header
unfolding take drop
parse_header header = record {
  frame_type = head_or_zero header;
  sequence = u32_from_be (take 4 (drop 1 header));
  length = u32_from_be (take 4 (drop 5 header));
}

-- The three tests of a header, in the code's order.
unfoldable pub check_header : ℕ → Header → IoResult (Unit {0})
check_header expected h = do
  fail_if (not (h.sequence == expected)) (io_integrity "encrypted vault frame order is invalid")
  fail_if (not (h.frame_type == data_frame) && not (h.frame_type == final_frame))
      (io_integrity "encrypted vault frame type is invalid")
  fail_if (ltb chunk_size h.length || h.frame_type == final_frame && not (h.length == 0))
      (io_integrity "encrypted vault frame length is invalid")

module _ (c : Aead) where
  -- The nonce and the decryption of one frame.
  unfoldable pub unseal : Context → Bytes → ℕ → Bytes → IoResult Bytes
  unseal k header sequence ciphertext = do
    nonce_data ←
        map_err (λ _. io_integrity "encrypted vault nonce sequence overflow")
          (nonce_bytes k.nonce_seed sequence)
    nonce ← ok_or (nonce_from nonce_data) (io_integrity "encrypted vault nonce is invalid")
    ok_or (c.decrypt k.cipher nonce (k.file_header ++ header) ciphertext)
        (io_integrity "encrypted vault authentication failed")

module _ {s : Source} where
  abbrev start : Bytes → Option Bytes → s.State → VaultResult (VaultReader s)
  start file_header none t = err (cryptography "invalid vault data key")
  start file_header (some cipher) t = ok (record {
    inner = t;
    context = record {
      cipher = cipher;
      file_header = file_header;
      nonce_seed = drop 8 file_header;
    };
    plaintext = [];
    plaintext_offset = 0;
    sequence = 0;
    finalized = false;
  })

  -- A call of a method on the source.
  unfoldable pub on_source :
      {A : Type 0} → Action s.State IoError A → Action (VaultReader s) IoError A
  on_source m r = let (a, t) = m r.inner in (a, record r { inner = t })

  abbrev next_sequence : Action (VaultReader s) IoError (Unit {0})
  next_sequence r =
      if r.sequence == u32_max
      then (err (io_integrity "encrypted vault frame sequence overflow"), r)
      else (ok tt, record r { sequence = r.sequence + 1 })

  abbrev finalize : Bytes → Action (VaultReader s) IoError (Unit {0})
  finalize [] r = (ok tt, record r { finalized = true; plaintext = [] })
  finalize (_ ∷ _) r = (err (io_integrity "encrypted vault has trailing data"), r)

  abbrev load : Bytes → Action (VaultReader s) IoError (Unit {0})
  load plaintext r = (ok tt, record r { plaintext = plaintext; plaintext_offset = 0 })

module _ (s : Source) where
  -- `VaultReader::new`; the source moves into the reader, and is returned beside an error.
  unfoldable pub new : Bytes → Action s.State VaultError (VaultReader s)
  new data_key =
      bind
        (with_error (λ _. integrity "encrypted vault header is truncated")
          (s.read_exact file_header_length))
        (λ file_header t.
          if eq_bytes (take 8 file_header) magic
          then (start file_header (new_from_slice data_key) t, t)
          else (err (integrity "unsupported encrypted vault format"), t))

-- The rounds that the loop of `read` can make: `u32::MAX` frames can be accepted.
abbrev pub read_fuel : ℕ
read_fuel = 4294967296

module _ (c : Aead) (s : Source) where
  abbrev pub Read : Type 0 → Type 0 → Type 0
  Read E A = Action (VaultReader s) E A

  abbrev read_exact : ℕ → Read IoError Bytes
  read_exact n =
      with_error (λ _. io_integrity "encrypted vault is truncated") (on_source (s.read_exact n))

  -- What follows the decryption of a frame.
  unfoldable pub accept : ℕ → Bytes → Read IoError (Unit {0})
  accept frame_type plaintext = bind next_sequence (λ _.
      if frame_type == final_frame then bind (on_source (s.read 1)) finalize else load plaintext)

  -- `read_next_frame` behind the read of the header, by the header's fields.
  abbrev pub open_frame : Bytes → Header → Read IoError (Unit {0})
  open_frame header h r =
      bind (lift (check_header r.sequence h))
        (λ _. bind (read_exact (h.length + tag_length)) (λ ciphertext.
          bind (lift (unseal c r.context header h.sequence ciphertext)) (accept h.frame_type)))
        r

  unfoldable pub read_body : Bytes → Read IoError (Unit {0})
  read_body header = open_frame header (parse_header header)

  -- `read_next_frame`
  unfoldable pub read_next_frame : Read IoError (Unit {0})
  unfolding read_body
  read_next_frame = bind (read_exact frame_header_length) read_body

  abbrev exhausted : VaultReader s → Bool
  exhausted r = leb (length r.plaintext) r.plaintext_offset && not r.finalized

  -- The `while` of `read`; `none` means that the fuel ran out.
  unfoldable pub next_data : ℕ → VaultReader s → Option (IoResult (Unit {0}) × VaultReader s)
  next_data zero r = none
  next_data (suc fuel) r = elim (exhausted r) [
    | true ↦
        let (a, r') = read_next_frame r in
        elim a [ ok _ ↦ next_data fuel r' | err e ↦ some (err e, r') ]
    | false ↦ some (ok tt, r)
  ]

  -- The end of `read`: the bytes that fit the buffer.
  unfoldable pub copy_out : ℕ → Read IoError Bytes
  copy_out n r =
      let remaining = drop r.plaintext_offset r.plaintext in
      let length = min (length remaining) n in
      if r.finalized
      then (ok [], r)
      else (ok (take length remaining), record r { plaintext_offset = r.plaintext_offset + length })

  -- `Read::read` into a buffer of length `n`. Each round of the loop adds 1 to the sequence
  -- number, and fails at the largest: 2 ^ 32 rounds are fuel enough.
  unfoldable pub read : ℕ → VaultReader s → Option (IoResult Bytes × VaultReader s)
  read n r = if n == 0 then some (ok [], r) else elim (next_data read_fuel r) [
    | none ↦ none
    | some (a, r') ↦ some (after a (λ _. copy_out n) r')
  ]

  abbrev pub Run : Type 0
  Run = Option (IoResult Bytes × VaultReader s)

  abbrev pub prepend : Bytes → Run → Run
  prepend bytes (some (ok rest, r)) = some (ok (bytes ++ rest), r)
  prepend bytes (some (err e, r)) = some (err e, r)
  prepend bytes none = none

  -- What follows a read: more reads, unless it gave nothing or failed.
  abbrev pub continue : (VaultReader s → Run) → Run → Run
  continue more (some (ok (b ∷ bytes), r)) = prepend (b ∷ bytes) (more r)
  continue more (some (ok [], r)) = some (ok [], r)
  continue more (some (err e, r)) = some (err e, r)
  continue more none = none

  -- What `io::copy` and `read_to_end` do: reads into a buffer until one gives nothing.
  unfoldable pub drain : ℕ → ℕ → VaultReader s → Run
  drain buffer zero r = none
  drain buffer (suc fuel) r = continue (drain buffer fuel) (read buffer r)

  -- `verify_finished`; the buffer's length is that of `io::copy`.
  unfoldable pub verify_finished :
      ℕ → ℕ → VaultReader s → Option (VaultResult (Unit {0}) × VaultReader s)
  verify_finished buffer fuel r = elim (drain buffer fuel r) [
    | none ↦ none
    | some (err e, r') ↦ some (err (map_read_error e), r')
    | some (ok _, r') ↦
        some (fail_if (not r'.finalized) (integrity "encrypted vault is truncated"), r')
  ]
