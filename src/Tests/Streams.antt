-- ===== src/Tests/Streams.antt =====
-- The stream format over memory, with a cipher that runs.
use codex_vault.Prelude.{
  [], ◌<◌, ◌≡◌, refl, some, ok, err, List, ◌∷◌, ◌++◌, replicate, concat, length, arith, take, drop,
  false, true, All, ◌+◌, ◌^◌, ◌≤◌,
}
use codex_vault.Prelude.Bytes.{Bytes, IsByte, u32_to_be, be_value}
use codex_vault.Error.{IoResult, cryptography}
use codex_vault.Device.Memory.{vec, vec-IsSink, cursor, cursor-IsSource, cursor-IsReliable}
use codex_vault.Stream.Format.{magic, nonce_bytes, add_carry, frame_header}
use codex_vault.Stream.Frame.{seal}
use codex_vault.Stream.Writer
use codex_vault.Stream.Writer.{VaultWriter}
use codex_vault.Stream.Reader
use codex_vault.Stream.Reader.{VaultReader}
use codex_vault.Tests.Cipher.{toy, toy_encrypt, toy-IsAead}
use codex_vault.Stream.Nonce.{nonce_bytes_exact}
use codex_vault.Stream.Distinct.{Encrypted, IsDistinct, finish-IsDistinct}
use codex_vault.Stream.Writer.Image.{Image, file_context, finish-Image}
use codex_vault.Stream.Content.{Contains, drain-Contains}
use codex_vault.Stream.RoundTrip.{finish-concat, drain-finish}

abbrev key : Bytes
key = 7 ∷ 9 ∷ replicate 30 1

abbrev seed : Bytes
seed = replicate 11 255 ++ (250 ∷ [])

abbrev inputs : List Bytes
inputs = (104 ∷ 101 ∷ []) ∷ (108 ∷ 108 ∷ 111 ∷ []) ∷ []

abbrev other_inputs : List Bytes
other_inputs = (104 ∷ []) ∷ (101 ∷ 108 ∷ 108 ∷ 111 ∷ []) ∷ [] ∷ []

abbrev opened : VaultWriter vec
opened = record {
  inner = some (magic ++ seed);
  context = file_context key seed;
  pending = [];
  sequence = 0;
  finished = false;
}

written : List Bytes → IoResult (Unit {0}) × VaultWriter vec
unfolding Writer.write_each Writer.write Writer.fill_pending Writer.write_chunks Writer.write_frame
    Writer.on_inner seal frame_header nonce_bytes add_carry u32_to_be toy_encrypt take drop
    replicate
written xs = Writer.write_each toy vec xs opened

file_of : List Bytes → Bytes
unfolding written Writer.finish
file_of xs = elim (Writer.finish toy vec (written xs).1).0 [ ok u ↦ u | err e ↦ [] ]

abbrev file : Bytes
unfolding file_of
file = file_of inputs

opens : (Writer.new toy vec (some seed) key []).0 ≡ ok opened
unfolding Writer.new replicate
opens = refl

writes : (Writer.write_each toy vec inputs opened).0 ≡ ok tt
unfolding written
writes = refl

finishes :
    (Writer.finish toy vec (Writer.write_each toy vec inputs opened).1).0 ≡ ok (file_of inputs)
unfolding file_of
finishes = refl

writes_other : (Writer.write_each toy vec other_inputs opened).0 ≡ ok tt
unfolding written
writes_other = refl

finishes_other :
    (Writer.finish toy vec (Writer.write_each toy vec other_inputs opened).1).0
    ≡ ok (file_of other_inputs)
unfolding file_of
finishes_other = refl

finish-Image_example :
    Image toy vec vec-IsSink
      (file_context key seed)
      (magic ++ seed)
      (concat inputs)
      (file_of inputs)
unfolding vec-IsSink
finish-Image_example =
    finish-Image toy vec vec-IsSink seed key inputs [] opened (file_of inputs) opens writes finishes

finish-concat_example :
    vec-IsSink.written (file_of inputs) ≡ vec-IsSink.written (file_of other_inputs)
finish-concat_example =
    finish-concat toy vec vec-IsSink seed key inputs other_inputs [] opened (file_of inputs)
      (file_of other_inputs) opens (unfold concat in refl) writes writes_other finishes
      finishes_other

reads :
    (r : VaultReader cursor) × (r' : VaultReader cursor) × ((Reader.new cursor key
        (file_of inputs)).0
      ≡ ok r)
    × (Reader.drain toy cursor 2 9 r ≡ some (ok (concat inputs), r'))
    × (r'.finalized ≡ true)
unfolding vec-IsSink cursor-IsSource concat replicate
reads =
    drain-finish toy toy-IsAead vec vec-IsSink cursor cursor-IsSource cursor-IsReliable seed key
      inputs [] opened (file_of inputs) 2 9 (file_of inputs) refl refl refl opens writes finishes
      refl (omega arith) (omega arith)

drain-finish_example :
    (r : VaultReader cursor) × (r' : VaultReader cursor) × ((Reader.new cursor key
        (file_of inputs)).0
      ≡ ok r)
    × (Reader.drain toy cursor 2 9 r ≡ some (ok (concat inputs), r'))
    × (r'.finalized ≡ true)
unfolding vec-IsSink cursor-IsSource concat replicate
drain-finish_example =
    drain-finish toy toy-IsAead vec vec-IsSink cursor cursor-IsSource cursor-IsReliable seed key
      inputs [] opened (file_of inputs) 2 9 (file_of inputs) refl refl refl opens writes finishes
      refl (omega arith) (omega arith)

file_bytes : All IsByte (cursor-IsSource.rest (file_of inputs))
unfolding cursor-IsSource file_of
file_bytes = omega arith

drain-Contains_example : Contains toy key (concat inputs) (cursor-IsSource.rest (file_of inputs))
drain-Contains_example =
    drain-Contains toy toy-IsAead cursor cursor-IsSource key (file_of inputs) reads.0 reads.1 2 9
      (concat inputs) file_bytes (omega arith) reads.2 reads.3

nonce_bytes_exact_example :
    (be_value seed + 6 < 256 ^ 12
      → (nonce : Bytes) × (nonce_bytes seed 6 ≡ ok nonce)
        × (be_value nonce ≡ be_value seed + 6)
        × (length nonce ≡ 12)
        × All IsByte nonce)
    × (256 ^ 12 ≤ be_value seed + 6
        → nonce_bytes seed 6 ≡ err (cryptography "vault nonce sequence overflow"))
nonce_bytes_exact_example = nonce_bytes_exact seed (unfold replicate in refl) 6

finish-IsDistinct_example :
    (chunks : List Bytes) × (nonces : List Bytes) × (stream : Bytes) × (vec-IsSink.written
        (file_of inputs)
      ≡ (vec-IsSink.written [] ++ (magic ++ seed)) ++ stream)
    × (concat chunks ≡ concat inputs)
    × Encrypted toy key (magic ++ seed) (chunks ++ ([] ∷ [])) nonces stream
    × IsDistinct nonces
finish-IsDistinct_example =
    finish-IsDistinct toy vec vec-IsSink seed key inputs [] opened (file_of inputs)
      (unfold replicate in refl) opens writes finishes
