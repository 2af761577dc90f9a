-- ===== src/Keys/Wrap/Laws.antt =====
-- Wrapping and unwrapping of data keys, as src/crypto/key_wrap.rs does them.
use codex_vault.Prelude.{
  ◌+◌, ◌≡◌, inl, inr, some, none, Option, ◌++◌, arith, Option-cases, length, take, drop,
  length-take, length-drop, take-append-drop, refl, ok, err, ok_or, chain-eq-ok,
}
use codex_vault.Prelude.Bytes.{Bytes}
use codex_vault.Error.{VaultError, authentication}
use codex_vault.Manifest.{WrappedKey}
use codex_vault.Stream.Format.{Aead, IsAead, tag_length}
use codex_vault.Keys.{Base64, IsBase64, key_length}
use codex_vault.Keys.Wrap.{wrap_data_key, unwrap_data_key, nonce_length, wrapped_key}

module _ (c : Aead) (ic : IsAead c) (b : Base64) (ib : IsBase64 b) where
  -- The split of a ciphertext at its tag.
  halves :
      (encrypted : Bytes)
      → length encrypted ≡ key_length + tag_length
      → (length (take 32 encrypted) ≡ 32)
        × (length (drop 32 encrypted) ≡ 16)
        × (take 32 encrypted ++ drop 32 encrypted ≡ encrypted)
  halves encrypted h =
      ground
        (arith, length-take 32 encrypted, length-drop 32 encrypted, take-append-drop 32 encrypted)

  -- With AES-256-GCM and base64 as documented: keys of 32 bytes are wrapped under every nonce of
  -- 12 bytes, and what was wrapped is unwrapped under the same key and associated data.
  pub unwrap_data_key-wrap_data_key :
      (nonce data_key wrapping_key associated_data : Bytes)
      → length nonce ≡ nonce_length
      → length data_key ≡ key_length
      → length wrapping_key ≡ key_length
      → (wrapped : WrappedKey) × (wrap_data_key c b
            (some nonce)
            data_key
            wrapping_key
            associated_data
          ≡ ok wrapped)
        × (unwrap_data_key c b wrapped wrapping_key associated_data ≡ ok data_key)
  unfolding wrap_data_key unwrap_data_key
  unwrap_data_key-wrap_data_key nonce data_key wrapping_key associated_data hn hd hw =
      let (encrypted, e) =
        ic.encrypt_total wrapping_key nonce associated_data data_key (omega arith) (omega arith)
          (omega arith) in
      let l = ic.length_ciphertext wrapping_key nonce associated_data data_key encrypted e in
      let (lt, ld, whole) = halves encrypted (omega arith) in
      let back = (ic.decrypt_iff wrapping_key nonce associated_data data_key encrypted).1 e in
      (
        wrapped_key c b nonce encrypted 32,
        ground arith,
        ground (
          arith,
          whole,
          ib.decode-encode nonce,
          ib.decode-encode (take 32 encrypted),
          ib.decode-encode (drop 32 encrypted),
        ),
      )

module _ (c : Aead) (ic : IsAead c) (b : Base64) where
  -- With AES-256-GCM as documented: a key that is unwrapped has 32 bytes, and the ciphertext and
  -- the tag that are stored are together its encryption under the stored nonce, the wrapping key
  -- and the associated data.
  pub unwrap_data_key-encrypt :
      (wrapped : WrappedKey) (wrapping_key associated_data key : Bytes)
      → unwrap_data_key c b wrapped wrapping_key associated_data ≡ ok key
      → (nonce : Bytes) × (ciphertext : Bytes) × (tag : Bytes) × (b.decode wrapped.iv ≡ some nonce)
        × (b.decode wrapped.ciphertext ≡ some ciphertext)
        × (b.decode wrapped.authentication_tag ≡ some tag)
        × (c.encrypt wrapping_key nonce associated_data key ≡ some (ciphertext ++ tag))
        × (length key ≡ key_length)
  unfolding unwrap_data_key
  unwrap_data_key-encrypt wrapped wrapping_key aad key e =
      let (nonce, en, e1) = chain-eq-ok _ (ok_or (b.decode wrapped.iv) authentication) e in
      let (ciphertext, ec, e2) =
        chain-eq-ok _ (ok_or (b.decode wrapped.ciphertext) authentication) e1 in
      let (tag, et, e3) =
        chain-eq-ok _ (ok_or (b.decode wrapped.authentication_tag) authentication) e2 in
      elim (Option-cases (c.decrypt wrapping_key nonce aad (ciphertext ++ tag))) [
        | inl missing ↦ absurd (ground arith)
        | inr (plaintext, ep) ↦ (
          nonce,
          ciphertext,
          tag,
          ground arith,
          ground arith,
          ground arith,
          ground
              (arith, (ic.decrypt_iff wrapping_key nonce aad plaintext (ciphertext ++ tag)).0 ep),
          ground arith,
        )
      ]

module _ (c : Aead) (b : Base64) where
  -- Every failure to unwrap is reported as the same error, whatever its cause.
  unwrap_data_key_err :
      (wrapped : WrappedKey) (wrapping_key associated_data : Bytes) (e : VaultError)
      → unwrap_data_key c b wrapped wrapping_key associated_data ≡ err e
      → e ≡ authentication
  unfolding unwrap_data_key
  unwrap_data_key_err wrapped wrapping_key associated_data e h = ground arith

module _ (c : Aead) (ic : IsAead c) (b : Base64) (ib : IsBase64 b) where
  wrap_data_key-lengths :
      (random : Option Bytes) (data_key wrapping_key associated_data : Bytes) (wrapped : WrappedKey)
      → wrap_data_key c b random data_key wrapping_key associated_data ≡ ok wrapped
      → (nonce : Bytes) × (random ≡ some nonce)
        × (length nonce ≡ nonce_length)
        × (length wrapping_key ≡ key_length)
  unfolding wrap_data_key
  wrap_data_key-lengths none data_key wrapping_key aad wrapped e = absurd (cc)
  wrap_data_key-lengths (some nonce) data_key wrapping_key aad wrapped e =
      (nonce, refl, ground arith, ground arith)

  -- Whatever was wrapped with success is unwrapped.
  pub unwrap_of_wrap :
      (random : Option Bytes) (data_key wrapping_key associated_data : Bytes) (wrapped : WrappedKey)
      → length data_key ≡ key_length
      → wrap_data_key c b random data_key wrapping_key associated_data ≡ ok wrapped
      → unwrap_data_key c b wrapped wrapping_key associated_data ≡ ok data_key
  unwrap_of_wrap random data_key wrapping_key aad wrapped hd e =
      let (nonce, en, hn, hw) = wrap_data_key-lengths random data_key wrapping_key aad wrapped e in
      let (w, ew, back) =
        unwrap_data_key-wrap_data_key c ic b ib nonce data_key wrapping_key aad hn hd hw in
      let same : w ≡ wrapped = cc in rw (← same) back
