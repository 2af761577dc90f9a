-- ===== src/Tests/Cipher.antt =====
-- A cipher that runs, in place of AES-256-GCM: the ciphertext is the message with a tag that
-- depends on the key, the nonce and the associated data. It meets the cipher's assumptions.
use codex_vault.Prelude.{
  [], ℕ, Bool, true, ◌+◌, ◌-◌, ◌%◌, ◌≡◌, refl, ◌∙◌, sym, ap, some, none, Option, ◌∷◌, ◌++◌, length,
  length-append, take, replicate, length-replicate, take-append, arith, if◌then◌else◌, Bool-cases,
  inl, inr,
}
use codex_vault.Prelude.Bytes.{Bytes, eq_bytes}
use codex_vault.Prelude.Bytes.Laws.{eq_bytes→eq, eq_bytes_refl}
use codex_vault.Stream.Format.{Aead, IsAead}

total : Bytes → ℕ
total [] = 0
total (b ∷ bs) = b + total bs

tag : Bytes → Bytes → Bytes → Bytes
tag key nonce aad = replicate 16 ((total key + total nonce + total aad) % 256)

valid : Bytes → Bytes → Bytes → Bytes → Bool
valid key nonce aad ciphertext =
    eq_bytes ciphertext (take (length ciphertext - 16) ciphertext ++ tag key nonce aad)

unfoldable pub toy_decrypt : Bytes → Bytes → Bytes → Bytes → Option Bytes
unfolding valid total tag replicate take eq_bytes
toy_decrypt key nonce aad ciphertext =
    if valid key nonce aad ciphertext then some (take (length ciphertext - 16) ciphertext) else none

unfoldable pub toy_encrypt : Bytes → Bytes → Bytes → Bytes → Option Bytes
unfolding total tag replicate
toy_encrypt key nonce aad message = some (message ++ tag key nonce aad)

abbrev pub toy : Aead
toy = record { encrypt = toy_encrypt; decrypt = toy_decrypt }

length-tag : (key nonce aad : Bytes) → length (tag key nonce aad) ≡ 16
length-tag key nonce aad = unfold tag in length-replicate 16 _

message_back :
    (key nonce aad message : Bytes)
    → let whole = message ++ tag key nonce aad in take (length whole - 16) whole ≡ message
message_back key nonce aad message =
    take-append _ message (tag key nonce aad)
      (omega (arith, length-append message (tag key nonce aad), length-tag key nonce aad))

toy_decrypt_as :
    (key nonce aad ciphertext : Bytes)
    → toy_decrypt key nonce aad ciphertext ≡ (
        if valid key nonce aad ciphertext
        then some (take (length ciphertext - 16) ciphertext)
        else none)
toy_decrypt_as key nonce aad ciphertext = unfold toy_decrypt in refl

toy_encrypt_as :
    (key nonce aad message : Bytes)
    → toy_encrypt key nonce aad message ≡ some (message ++ tag key nonce aad)
toy_encrypt_as key nonce aad message = unfold toy_encrypt in refl

valid→eq :
    (key nonce aad ciphertext : Bytes)
    → valid key nonce aad ciphertext ≡ true
    → ciphertext ≡ take (length ciphertext - 16) ciphertext ++ tag key nonce aad
unfolding valid
valid→eq key nonce aad ciphertext h = eq_bytes→eq _ _ h

whole-valid :
    (key nonce aad message : Bytes) → valid key nonce aad (message ++ tag key nonce aad) ≡ true
unfolding valid
whole-valid key nonce aad message = rw (message_back key nonce aad message) (eq_bytes_refl _)

decrypts :
    (key nonce aad message ciphertext : Bytes)
    → toy_decrypt key nonce aad ciphertext ≡ some message
    → toy_encrypt key nonce aad message ≡ some ciphertext
decrypts key nonce aad message ciphertext e = elim (Bool-cases (valid key nonce aad ciphertext)) [
  | inl good ↦
      let found : take (length ciphertext - 16) ciphertext ≡ message =
        ground (arith, toy_decrypt_as key nonce aad ciphertext) in
      toy_encrypt_as key nonce aad message
      ∙ ap some (
          ap (λ t. t ++ tag key nonce aad) (sym found)
          ∙ sym (valid→eq key nonce aad ciphertext good))
  | inr bad ↦ absurd (ground (arith, toy_decrypt_as key nonce aad ciphertext))
]

encrypts :
    (key nonce aad message ciphertext : Bytes)
    → toy_encrypt key nonce aad message ≡ some ciphertext
    → toy_decrypt key nonce aad ciphertext ≡ some message
encrypts key nonce aad message ciphertext e =
    let same : message ++ tag key nonce aad ≡ ciphertext =
      ground (arith, toy_encrypt_as key nonce aad message) in
    rw (← same, toy_decrypt_as, whole-valid) (ap some (message_back key nonce aad message))

toy_length :
    (key nonce aad message ciphertext : Bytes)
    → toy_encrypt key nonce aad message ≡ some ciphertext
    → length ciphertext ≡ length message + 16
toy_length key nonce aad message ciphertext e =
    let same : message ++ tag key nonce aad ≡ ciphertext =
      ground (arith, toy_encrypt_as key nonce aad message) in
    rw (← same) (omega (arith, length-append message (tag key nonce aad), length-tag key nonce aad))

pub toy-IsAead : IsAead toy
toy-IsAead = record {
  decrypt_iff = λ key nonce aad message ciphertext.
      (decrypts key nonce aad message ciphertext, encrypts key nonce aad message ciphertext);
  length_ciphertext = toy_length;
  encrypt_total = λ key nonce aad message k n m.
      (message ++ tag key nonce aad, toy_encrypt_as key nonce aad message);
}
