-- ===== src/Manifest/Header.antt =====
-- The associated data of src/manifest.rs, read from the front.
use codex_vault.Prelude.{
  [], ℕ, ◌≤◌, ◌≡◌, refl, sym, ◌∙◌, ◌++◌, append-nil, append_assoc, arith, length, append_cancel, ok,
  chain-eq-ok,
}
use codex_vault.Prelude.Bytes.{Bytes, IsU32, IsU64, u32_max, u32_to_be, u64_to_be}
use codex_vault.Prelude.Bytes.Laws.{length-u32_to_be, u32_to_be_injective}
use codex_vault.Manifest.{UserManifest, KdfParameters, label, push_field, associated_data}

-- A word in front of the rest, and a field with its length in front of the rest.
word_injective :
    (m n : ℕ) (xs ys : Bytes)
    → IsU32 m
    → IsU32 n
    → u32_to_be m ++ xs ≡ u32_to_be n ++ ys
    → (m ≡ n) × (xs ≡ ys)
word_injective m n xs ys hm hn e =
    let (a, b) =
      append_cancel (u32_to_be m) (u32_to_be n) (length-u32_to_be m ∙ sym (length-u32_to_be n)) e in
    (u32_to_be_injective m n hm hn a, b)

field : Bytes → Bytes → Bytes
field value rest = u32_to_be (length value) ++ (value ++ rest)

field_injective :
    (v w xs ys : Bytes)
    → length v ≤ u32_max
    → length w ≤ u32_max
    → field v xs ≡ field w ys
    → (v ≡ w) × (xs ≡ ys)
unfolding field
field_injective v w xs ys hv hw e =
    let (a, b) =
      word_injective (length v) (length w) (v ++ xs) (w ++ ys) (omega arith) (omega arith) e in
    append_cancel v w a b

-- What `push_field` gives.
push_field_lem :
    (output value result : Bytes)
    → push_field output value ≡ ok result
    → (result ≡ output ++ field value []) × (length value ≤ u32_max)
unfolding push_field field
push_field_lem output value result e = ground (arith, append-nil value)

long_injective :
    (m n : ℕ) (xs ys : Bytes)
    → IsU64 m
    → IsU64 n
    → u64_to_be m ++ xs ≡ u64_to_be n ++ ys
    → (m ≡ n) × (xs ≡ ys)
unfolding u32_to_be
long_injective m n xs ys hm hn e =
    let (a, rest) = append_cancel (u64_to_be m) (u64_to_be n) refl e in (ground arith, rest)

-- The associated data, read from the front.
image : UserManifest → Bytes
image m =
    label
    ++ (u32_to_be m.version
        ++ field m.id (
            field m.username (
              u64_to_be m.created_at
              ++ field m.kdf.algorithm (
                  field m.kdf.salt (
                    u32_to_be m.kdf.memory_cost_ki_b
                    ++ (u32_to_be m.kdf.time_cost
                        ++ (u32_to_be m.kdf.parallelism
                            ++ (u32_to_be m.kdf.output_length ++ field m.vault_format []))))))))

-- The texts of the header are short enough for a length word.
abbrev IsShort : UserManifest → Type 0
IsShort m =
    (length m.id ≤ u32_max)
    × (length m.username ≤ u32_max)
    × (length m.kdf.algorithm ≤ u32_max)
    × (length m.kdf.salt ≤ u32_max)
    × (length m.vault_format ≤ u32_max)

associated_data_lem :
    (m : UserManifest) (bytes : Bytes)
    → associated_data m ≡ ok bytes
    → (bytes ≡ image m) × IsShort m
unfolding associated_data field image
associated_data_lem m bytes e =
    let (a, ea, e1) = chain-eq-ok _ (push_field (label ++ u32_to_be m.version) m.id) e in
    let (b, eb, e2) = chain-eq-ok _ (push_field a m.username) e1 in
    let (c, ec, e3) = chain-eq-ok _ (push_field (b ++ u64_to_be m.created_at) m.kdf.algorithm) e2 in
    let (d, ed, e4) = chain-eq-ok _ (push_field c m.kdf.salt) e3 in
    let (pa, la) = push_field_lem _ _ _ ea in
    let (pb, lb) = push_field_lem _ _ _ eb in
    let (pc, lc) = push_field_lem _ _ _ ec in
    let (pd, ld) = push_field_lem _ _ _ ed in
    let (pe, le) = push_field_lem _ _ _ e4 in
    (rw (pe, pd, pc, pb, pa) (simp (append_assoc, append-nil)), (la, lb, lc, ld, le))

-- The numbers of the header, within their types.
abbrev pub IsHeader : UserManifest → Type 0
IsHeader m =
    IsU32 m.version
    × IsU64 m.created_at
    × IsU32 m.kdf.memory_cost_ki_b
    × IsU32 m.kdf.time_cost
    × IsU32 m.kdf.parallelism
    × IsU32 m.kdf.output_length

abbrev pub SameKdf : KdfParameters → KdfParameters → Type 0
SameKdf p q =
    (p.algorithm ≡ q.algorithm)
    × (p.salt ≡ q.salt)
    × (p.memory_cost_ki_b ≡ q.memory_cost_ki_b)
    × (p.time_cost ≡ q.time_cost)
    × (p.parallelism ≡ q.parallelism)
    × (p.output_length ≡ q.output_length)

-- All fields but the wrapped key agree.
abbrev pub SameHeader : UserManifest → UserManifest → Type 0
SameHeader m n =
    (m.version ≡ n.version)
    × (m.id ≡ n.id)
    × (m.username ≡ n.username)
    × (m.created_at ≡ n.created_at)
    × SameKdf m.kdf n.kdf
    × (m.vault_format ≡ n.vault_format)

-- Two manifests with the same associated data, whose numbers are within their types, agree in
-- every field but the wrapped key.
pub associated_data_injective :
    (m n : UserManifest) (bytes : Bytes)
    → IsHeader m
    → IsHeader n
    → associated_data m ≡ ok bytes
    → associated_data n ≡ ok bytes
    → SameHeader m n
unfolding image
associated_data_injective m n bytes hm hn em en =
    let (im, (li, lu, la, ls, lf)) = associated_data_lem m bytes em in
    let (an, (li', lu', la', ls', lf')) = associated_data_lem n bytes en in
    let (hv, hc, hk, ht, hp, ho) = hm in
    let (hv', hc', hk', ht', hp', ho') = hn in
    let (_, r0) = append_cancel label label refl (sym im ∙ an) in
    let (version, r1) = word_injective m.version n.version _ _ hv hv' r0 in
    let (id, r2) = field_injective m.id n.id _ _ li li' r1 in
    let (username, r3) = field_injective m.username n.username _ _ lu lu' r2 in
    let (created, r4) = long_injective m.created_at n.created_at _ _ hc hc' r3 in
    let (algorithm, r5) = field_injective m.kdf.algorithm n.kdf.algorithm _ _ la la' r4 in
    let (salt, r6) = field_injective m.kdf.salt n.kdf.salt _ _ ls ls' r5 in
    let (memory, r7) = word_injective m.kdf.memory_cost_ki_b n.kdf.memory_cost_ki_b _ _ hk hk' r6 in
    let (time, r8) = word_injective m.kdf.time_cost n.kdf.time_cost _ _ ht ht' r7 in
    let (lanes, r9) = word_injective m.kdf.parallelism n.kdf.parallelism _ _ hp hp' r8 in
    let (size, r10) = word_injective m.kdf.output_length n.kdf.output_length _ _ ho ho' r9 in
    let (format, _) = field_injective m.vault_format n.vault_format _ _ lf lf' r10 in
    (version, id, username, created, (algorithm, salt, memory, time, lanes, size), format)
