-- ===== src/Protocol/Framing.antt =====
-- The frames of src/daemon_protocol.rs, written and read.
use codex_vault.Prelude.{
  ◌≤◌, ◌≡◌, refl, sym, ap, ◌∙◌, inl, inr, ◌++◌, append_assoc, arith, length, length-append,
  append_cancel, ok, Result-cases,
}
use codex_vault.Prelude.Bytes.{Bytes, u32_to_be, u32_from_be}
use codex_vault.Prelude.Bytes.Laws.{u32_from_be-u32_to_be, length-u32_to_be}
use codex_vault.Device.{Sink, IsSink, Source, IsSource, IsReliable}
use codex_vault.Protocol.{Json, IsJson, write_message, read_message, max_frame_bytes}

module _ {T : Type 0} (j : Json T) (s : Sink) (is : IsSink s) where
  -- What a successful call has written.
  write_message_lem :
      (x : T) (t : s.State)
      → (write_message j s x t).0 ≡ ok tt
      → (payload : Bytes) × (j.to_vec x ≡ ok payload)
        × (1 ≤ length payload)
        × (length payload ≤ max_frame_bytes)
        × (is.written (write_message j s x t).1
            ≡ is.written t ++ (u32_to_be (length payload) ++ payload))
  unfolding write_message
  write_message_lem x t e = elim (Result-cases (j.to_vec x)) [
    | inl (payload, ep) ↦
        let bytes = u32_to_be (length payload) in
        let u = (s.write_all bytes t).1 in
        let v = (s.write_all payload u).1 in
        elim (Result-cases (s.write_all bytes t).0) [
          | inl (_, ea) ↦ elim (Result-cases (s.write_all payload u).0) [
            | inl (_, eb) ↦ elim (Result-cases (s.flush v).0) [
              | inl (_, ec) ↦ (
                payload,
                ep,
                ground arith,
                ground arith,
                ground (
                  arith,
                  is.write_all_ok bytes t,
                  is.write_all_ok payload u,
                  is.flush_ok v,
                  append_assoc (is.written t) bytes payload,
                ),
              )
              | inr (_, ec) ↦ absurd (ground arith)
            ]
            | inr (_, eb) ↦ absurd (ground arith)
          ]
          | inr (_, ea) ↦ absurd (ground arith)
        ]
    | inr (x, ep) ↦ absurd (ground arith)
  ]

module _ {T : Type 0} (j : Json T) (s : Source) (is : IsSource s) where
  -- A message that is read stood in front as a frame within the limit; nothing more is taken.
  pub read_message-Frame :
      (r : s.State) (x : T)
      → (read_message j s r).0 ≡ ok x
      → (header : Bytes) × (payload : Bytes) × (is.rest r
          ≡ header ++ (payload ++ is.rest (read_message j s r).1))
        × (length header ≡ 4)
        × (length payload ≡ u32_from_be header)
        × (1 ≤ length payload)
        × (length payload ≤ max_frame_bytes)
        × (j.from_slice payload ≡ ok x)
  unfolding read_message
  read_message-Frame r x e = elim (Result-cases (s.read_exact 4 r).0) [
    | inl (header, eh) ↦
        let u = (s.read_exact 4 r).1 in
        let n = u32_from_be header in
        elim (Result-cases (s.read_exact n u).0) [
          | inl (payload, ep) ↦ elim (Result-cases (j.from_slice payload)) [
            | inl (y, ey) ↦ (
              header,
              payload,
              ground (arith, is.read_exact_ok 4 r header eh, is.read_exact_ok n u payload ep),
              ground (arith, is.read_exact_ok 4 r header eh),
              ground (arith, is.read_exact_ok n u payload ep),
              ground (arith, is.read_exact_ok n u payload ep),
              ground (arith, is.read_exact_ok n u payload ep),
              ground arith,
            )
            | inr (y, ey) ↦ absurd (ground arith)
          ]
          | inr (_, ep) ↦ absurd (ground arith)
        ]
    | inr (_, eh) ↦ absurd (ground arith)
  ]

module _ {T : Type 0} (j : Json T) (s : Source) (is : IsSource s) (ir : IsReliable s is) where
  -- A frame within the limit that stands in front is read.
  read_message_of_frame :
      (r : s.State) (x : T) (payload more : Bytes)
      → is.rest r ≡ u32_to_be (length payload) ++ (payload ++ more)
      → 1 ≤ length payload
      → length payload ≤ max_frame_bytes
      → j.from_slice payload ≡ ok x
      → ((read_message j s r).0 ≡ ok x) × (is.rest (read_message j s r).1 ≡ more)
  unfolding read_message
  read_message_of_frame r x payload more e lo hi ex =
      let header = u32_to_be (length payload) in
      let u = (s.read_exact 4 r).1 in
      let l4 = length-u32_to_be (length payload) in
      let (got, eg) =
        ir.read_exact_total 4 r
          (omega (arith, l4, length-append header (payload ++ more), ap length e)) in
      let (whole, lg) = is.read_exact_ok 4 r got eg in
      let (ph, rest_u) = append_cancel header got (omega arith) (sym e ∙ whole) in
      let n = u32_from_be-u32_to_be (length payload) (omega arith) in
      let (body, eb) =
        ir.read_exact_total (length payload) u
          (omega (arith, length-append payload more, ap length rest_u)) in
      let (whole', lb) = is.read_exact_ok (length payload) u body eb in
      let (pb, rest_v) = append_cancel payload body (omega arith) (rest_u ∙ whole') in
      ground (arith, ph, pb, n, eg, eb)

module _ {T : Type 0} (j : Json T) (ij : IsJson j) (s : Sink) (is : IsSink s) (q : Source)
    (iq : IsSource q) (ir : IsReliable q iq) where
  -- With `serde_json` and the devices as documented: what a successful write has put behind the
  -- bytes before, followed by any bytes, is read back as the message, and those bytes are left.
  pub read_message-write_message :
      (x : T) (t : s.State) (r : q.State) (frame more : Bytes)
      → (write_message j s x t).0 ≡ ok tt
      → is.written (write_message j s x t).1 ≡ is.written t ++ frame
      → iq.rest r ≡ frame ++ more
      → ((read_message j q r).0 ≡ ok x) × (iq.rest (read_message j q r).1 ≡ more)
  read_message-write_message x t r frame more e w h =
      let (payload, ep, lo, hi, image) = write_message_lem j s is x t e in
      let (_, same) = append_cancel (is.written t) (is.written t) refl (sym w ∙ image) in
      read_message_of_frame j q iq ir r x payload more
        (h ∙ ap (λ f. f ++ more) same ∙ append_assoc (u32_to_be (length payload)) payload more) lo
        hi (ij.from_slice-to_vec x payload ep)
