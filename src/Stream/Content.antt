-- ===== src/Stream/Content.antt =====
-- A whole file: what its bytes must be for a reader to read it to the end, and what it then gives.
use codex_vault.Prelude.{
  [], ℕ, ◌<◌, ◌≤◌, ◌≡◌, refl, ◌∙◌, sym, ap, true, false, some, inl, inr, List, ◌∷◌, ◌++◌,
  append_cancel, length-append, ok, arith, length, length-drop, concat, All, All-back, drop,
  drop_nil, take, take-append-drop, Result-cases,
}
use mathlib.Core.Path.{subst₂}
use codex_vault.Prelude.Bytes.{Bytes, IsByte, eq_bytes}
use codex_vault.Prelude.Bytes.Laws.{eq_bytes→eq}
use codex_vault.Device.{Sink, IsSink, Source, IsSource, IsReliable}
use codex_vault.Stream.Format.{Aead, IsAead, magic, file_header_length}
use codex_vault.Stream.Frame.{Context, Sealed}
use codex_vault.Stream.Frame.Laws.{Chunked}
use codex_vault.Stream.Reader.{VaultReader, new, drain}
use codex_vault.Stream.Reader.Meaning.{Means, over, running, IsSound, IsShort}
use codex_vault.Stream.Reader.Sound.{drain_sound}
use codex_vault.Stream.Reader.Complete.{drain_complete}
use codex_vault.Stream.Writer.Image.{Image, file_context}

-- The bytes are a file that holds `content` under `key`.
pub record Contains (c : Aead) (key content bytes : Bytes) : Type 0 where
  pub seed : Bytes
  pub chunks : List Bytes
  pub stream : Bytes
  pub bytes_eq : bytes ≡ (magic ++ seed) ++ stream
  pub length_seed : length seed ≡ 12
  pub sealed : Sealed c (file_context key seed) 0 chunks stream
  pub short : All IsShort chunks
  pub content_eq : content ≡ concat chunks

module _ (c : Aead) (ic : IsAead c) (s : Source) (is : IsSource s) where
  -- The reader that `new` makes has read the header, and it holds nothing yet.
  pub new_runs :
      (key : Bytes) (t : s.State) (r : VaultReader s)
      → (new s key t).0 ≡ ok r
      → (seed : Bytes) × (is.rest t ≡ (magic ++ seed) ++ is.rest r.inner)
        × (length seed ≡ 12)
        × (r.context ≡ file_context key seed)
        × (r.plaintext ≡ [])
        × (r.sequence ≡ 0)
        × (r.finalized ≡ false)
  unfolding new
  new_runs key t r e = elim (Result-cases (s.read_exact file_header_length t).0) [
    | inl (header, got) ↦
        let (split, len) = is.read_exact_ok file_header_length t header got in
        let seed : Bytes = drop 8 header in
        let h8 : take 8 header ≡ magic = ground (arith, eq_bytes→eq (take 8 header) magic) in
        let header_eq : header ≡ magic ++ seed =
          sym (take-append-drop 8 header) ∙ ap (λ b. b ++ seed) h8 in
        let inner : r.inner ≡ (s.read_exact file_header_length t).1 = ground arith in
        let of_header : Bytes → Context =
          λ h. record { cipher = key; file_header = h; nonce_seed = seed } in
        let context : r.context ≡ of_header header = ground arith in
        (
          seed,
          split
              ∙ ap (λ b. b ++ is.rest (s.read_exact file_header_length t).1) header_eq
              ∙ ap (λ u. (magic ++ seed) ++ is.rest u) (sym inner),
          omega (arith, length-drop 8 header),
          context ∙ ap of_header header_eq,
          ground arith,
          ground arith,
          ground arith,
        )
    | inr (x, got) ↦ absurd (ground arith)
  ]

  -- A reader that is created with success is sound, and what is left to read is the content of its
  -- source.
  pub new-Starts :
      (key : Bytes) (t : s.State) (r : VaultReader s)
      → All IsByte (is.rest t)
      → (new s key t).0 ≡ ok r
      → IsSound c s is r × ((out : Bytes) → Means c s is r out → Contains c key out (is.rest t))
  unfolding drop
  new-Starts key t r bytes e =
      let (seed, split, len, context, empty_, zero_, open_) = new_runs key t r e in
      (
        record {
          bytes = All-back IsByte (magic ++ seed) (is.rest r.inner) (rw split at bytes);
          sequence_le = omega arith;
          closed = λ f. absurd (ground arith);
        },
        go seed split len context empty_ zero_ open_,
      )
    where
      go :
          (seed : Bytes)
          → is.rest t ≡ (magic ++ seed) ++ is.rest r.inner
          → length seed ≡ 12
          → r.context ≡ file_context key seed
          → r.plaintext ≡ []
          → r.sequence ≡ 0
          → r.finalized ≡ false
          → (out : Bytes) → Means c s is r out
          → Contains c key out (is.rest t)
      go seed split len context empty_ zero_ open_ out (over f e o) = absurd (ground arith)
      go seed split len context empty_ zero_ open_ out (running ps f sealed short o) = record {
        seed = seed;
        chunks = ps;
        stream = is.rest r.inner;
        bytes_eq = split;
        length_seed = len;
        sealed = subst₂ (λ k n. Sealed c k n ps (is.rest r.inner)) context zero_ sealed;
        short = short;
        content_eq = o ∙ rw (empty_, drop_nil r.plaintext_offset);
      }

  -- A reader that is created with success and read to its end with success: its source was a
  -- file, the bytes read are the content, and nothing follows the final frame.
  pub drain-Contains :
      (key : Bytes) (t : s.State) (r r' : VaultReader s) (n fuel : ℕ) (out : Bytes)
      → All IsByte (is.rest t)
      → 0 < n
      → (new s key t).0 ≡ ok r
      → drain c s n fuel r ≡ some (ok out, r')
      → Contains c key out (is.rest t)
  drain-Contains key t r r' n fuel out bytes pos e d =
      let (v, back) = new-Starts key t r bytes e in
      back out (drain_sound c ic s is n pos fuel r r' out v d).0

module _ (c : Aead) (ic : IsAead c) (s : Source) (is : IsSource s) (ir : IsReliable s is) where
  -- A source that does not fail and that holds a file: the reader is created, and reading with
  -- any buffer ends and gives the content.
  pub Contains-drain :
      (key : Bytes) (t : s.State) (n fuel : ℕ) (out : Bytes)
      → length key ≡ 32
      → 0 < n
      → length out < fuel
      → Contains c key out (is.rest t)
      → (r : VaultReader s) × (r' : VaultReader s) × ((new s key t).0 ≡ ok r)
        × (drain c s n fuel r ≡ some (ok out, r'))
        × (r'.finalized ≡ true)
  unfolding new drop take eq_bytes
  Contains-drain key t n fuel out k32 pos l h =
      let header : Bytes = magic ++ h.seed in
      let len : length header ≡ file_header_length = omega (arith, h.length_seed) in
      let long : file_header_length ≤ length (is.rest t) =
        rw h.bytes_eq (omega (arith, len, length-append header h.stream)) in
      let (header', got') = ir.read_exact_total file_header_length t long in
      let (split, len') = is.read_exact_ok file_header_length t header' got' in
      let (same, left) = append_cancel header header' (len ∙ sym len') (sym h.bytes_eq ∙ split) in
      let got : (s.read_exact file_header_length t).0 ≡ ok header = got' ∙ ap ok (sym same) in
      let t' : s.State = (s.read_exact file_header_length t).1 in
      let r : VaultReader s = record {
        inner = t';
        context = file_context key h.seed;
        plaintext = [];
        plaintext_offset = 0;
        sequence = 0;
        finalized = false;
      } in
      let m : Means c s is r out =
        running h.chunks refl (rw (← left) h.sealed) h.short h.content_eq in
      let (r', runs, f) = drain_complete c ic s is ir n fuel r out pos l m in
      (r, r', ground arith, runs, f)

-- What a writer left on an empty destination is such a file.
module _ (c : Aead) (s : Sink) (is : IsSink s) where
  pub Image-Contains :
      (seed key input : Bytes) (u : s.State)
      → length seed ≡ 12
      → Image c s is (file_context key seed) (magic ++ seed) input u
      → Contains c key input (is.written u)
  Image-Contains seed key input u len h = record {
    seed = seed;
    chunks = h.chunks;
    stream = h.stream;
    bytes_eq = h.written_eq;
    length_seed = len;
    sealed = h.sealed;
    short = Chunked-short h.chunks h.chunked;
    content_eq = sym h.input_eq;
  }
    where
      Chunked-short : (ps : List Bytes) → Chunked ps → All IsShort ps
      Chunked-short [] _ = tt
      Chunked-short (p ∷ ps) (_, h, _, hs) = (h, Chunked-short ps hs)
