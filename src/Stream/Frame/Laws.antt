-- ===== src/Stream/Frame/Laws.antt =====
-- Data frames can be added at the end, and be closed by a final frame; the chunking of a byte
-- string is unique.
use codex_vault.Prelude.{
  [], ℕ, suc, ◌+◌, ◌<◌, ◌≤◌, ◌≡◌, refl, ap, ◌⊎◌, List, ◌∷◌, ◌++◌, append-nil, append_assoc, length,
  concat, append_cancel, length-append, arith,
}
use codex_vault.Prelude.Bytes.{Bytes}
use codex_vault.Stream.Format.{Aead, data_frame, final_frame, chunk_size}
use codex_vault.Stream.Frame.{Context, Frame, Frames, Sealed}
use native.Mathlib.Nat.{add-zero}
use mathlib.Core.Path.{ap₂}

shift : (n m : ℕ) → n + suc m ≡ suc n + m
shift n m = omega arith

module _ (c : Aead) (k : Context) where
  pub Frames-snoc :
      (n : ℕ) (ps : List Bytes) (bytes p frame : Bytes)
      → Frames c k n ps bytes
      → Frame c k data_frame (n + length ps) p frame
      → Frames c k n (ps ++ (p ∷ [])) (bytes ++ frame)
  Frames-snoc n [] bytes p frame e f = (frame, [], rw add-zero at f, refl, rw (e, append-nil))
  Frames-snoc n (q ∷ ps) bytes p frame (front, back, g, gs, e) f = (
    front,
    back ++ frame,
    g,
    Frames-snoc (suc n) ps back p frame gs (rw (shift n (length ps)) at f),
    rw (e, append_assoc),
  )

  pub Frames-Sealed :
      (n : ℕ) (ps : List Bytes) (bytes frame : Bytes)
      → Frames c k n ps bytes
      → Frame c k final_frame (n + length ps) [] frame
      → Sealed c k n ps (bytes ++ frame)
  Frames-Sealed n [] bytes frame e f = rw e (rw add-zero at f)
  Frames-Sealed n (q ∷ ps) bytes frame (front, back, g, gs, e) f = (
    front,
    back ++ frame,
    g,
    Frames-Sealed (suc n) ps back frame gs (rw (shift n (length ps)) at f),
    rw (e, append_assoc),
  )

-- Nonempty chunks, all full but perhaps the last.
abbrev pub Chunked : List Bytes → Type 0
Chunked [] = Unit
Chunked (p ∷ ps) =
    (0 < length p) × (length p ≤ chunk_size) × ((ps ≡ []) ⊎ (length p ≡ chunk_size)) × Chunked ps

length-concat_cons :
    (p : Bytes) (ps : List Bytes) → length (concat (p ∷ ps)) ≡ length p + length (concat ps)
unfolding concat
length-concat_cons p ps = length-append p (concat ps)

same_head :
    (p q : Bytes) (ps qs : List Bytes)
    → Chunked (p ∷ ps)
    → Chunked (q ∷ qs)
    → concat (p ∷ ps) ≡ concat (q ∷ qs)
    → length p ≡ length q
unfolding concat
same_head p q ps qs (p0, p1, p2, cp) (q0, q1, q2, cq) e =
    ground (arith, ap length e, length-append p (concat ps), length-append q (concat qs))

concat_cancel :
    (p q : Bytes) (ps qs : List Bytes)
    → length p ≡ length q
    → concat (p ∷ ps) ≡ concat (q ∷ qs)
    → (p ≡ q) × (concat ps ≡ concat qs)
unfolding concat
concat_cancel p q ps qs h e = append_cancel p q h e

-- The chunks are determined by the bytes.
pub Chunked-unique :
    (ps qs : List Bytes) → Chunked ps → Chunked qs → concat ps ≡ concat qs → ps ≡ qs
Chunked-unique [] [] cp cq e = refl
Chunked-unique [] (q ∷ qs) cp (q0, _, _, _) e =
    absurd (unfold concat in omega (arith, ap length e, length-concat_cons q qs))
Chunked-unique (p ∷ ps) [] (p0, _, _, _) cq e =
    absurd (unfold concat in omega (arith, ap length e, length-concat_cons p ps))
Chunked-unique (p ∷ ps) (q ∷ qs) cp cq e =
    let (heads, tails) = concat_cancel p q ps qs (same_head p q ps qs cp cq e) e in
    ap₂ ◌∷◌ heads (Chunked-unique ps qs cp.3 cq.3 tails)
