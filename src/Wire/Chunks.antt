-- ===== src/Wire/Chunks.antt =====
-- The decoder of mqtt_wire.rs over a stream that comes in chunks.
use mathlib.Core.List.{flatten}
use aquilo_offline.Base.{
  ℕ, zero, suc, ◌/◌, ◌≤◌, ◌<◌, ◌≡◌, refl, sym, ◌∙◌, ap, arith, List, [], ◌∷◌, ◌++◌, Bytes, length,
  drop, append_assoc, append-nil, bit_and, length-drop, drop-append_length, drop-append_le, inl,
  inr,
}
use aquilo_offline.Wire.Decode.{Packet, decode_body}
use aquilo_offline.Wire.Stream.{packet, incomplete, next_frame, Drained, emit, drain_loop, push}
use aquilo_offline.Wire.Frames.{
  Frames, stop, step, Frame-cases, next_frame-append, next_frame-append_corrupt, push-Frames,
}
use aquilo_offline.Wire.Encode.{frame}
use aquilo_offline.Wire.Framing.{max_body, next_frame-frame}

-- Whatever the bytes, also corrupt ones, the loop ends by one of its own breaks before the fuel is
-- out.
drain_loop-incomplete :
    (fuel : ℕ) (b : Bytes) (out : List Packet)
    → length b ≤ fuel
    → next_frame (drain_loop fuel b out).buf ≡ incomplete
unfolding drain_loop
drain_loop-incomplete zero [] out h = unfold next_frame in refl
drain_loop-incomplete zero (x ∷ xs) out h = absurd (omega arith)
drain_loop-incomplete (suc fuel) b out h = elim (Frame-cases (next_frame b)) [
  | inl e ↦ rw (e, drain_loop) e
  | inr (inl e) ↦ rw (e, drain_loop) (unfold next_frame in refl)
  | inr (inr (p, t, e)) ↦
      rw (e, drain_loop)
        (drain_loop-incomplete fuel (drop t b) (emit p out)
          (omega (arith, length-drop t b, next_frame-append b [] p t e)))
]

-- Whatever is pushed, corrupt bytes included, what stays buffered is the start of one frame: the
-- loop of `push` has taken every complete packet out, and did not stop short.
pub push-incomplete : (buf chunk : Bytes) → next_frame (push buf chunk).buf ≡ incomplete
unfolding push
push-incomplete buf chunk =
    drain_loop-incomplete (length (buf ++ chunk)) (buf ++ chunk) [] (omega arith)

-- A prefix of such a stream is one itself, and the rest goes on from what it leaves.
pub Frames-split :
    {w r : Bytes} {ps : List Packet} (a b : Bytes)
    → Frames w ps r
    → w ≡ a ++ b
    → (qs : List Packet) × (s : Bytes) × (qs' : List Packet) × Frames a qs s
      × Frames (s ++ b) qs' r
      × (ps ≡ qs ++ qs')
Frames-split {w} a b (stop e) h = elim (Frame-cases (next_frame a)) [
  | inl ea ↦ ([], a, [], stop ea, rw (← h) (stop e), refl)
  | inr (inl ea) ↦ cc (next_frame-append_corrupt a b ea)
  | inr (inr (p, t, ea)) ↦ cc ((next_frame-append a b p t ea).0)
]
Frames-split {w} {r} a b (step {ps = ps} p t e f) h = elim (Frame-cases (next_frame a)) [
  | inl ea ↦ ([], a, emit p [] ++ ps, stop ea, rw (← h) (step p t e f), refl)
  | inr (inl ea) ↦ cc (next_frame-append_corrupt a b ea)
  | inr (inr (p', t', ea)) ↦
      let (whole, two, fits) = next_frame-append a b p' t' ea in
      let same : (p ≡ p') × (t ≡ t') = ground (arith, whole) in
      let below : t ≤ length a = omega (arith, same.1, fits) in
      let tail : drop t w ≡ drop t a ++ b = rw h (drop-append_le t a b below) in
      let (qs, s, qs', fa, fb, split) = Frames-split (drop t a) b f tail in
      let here : next_frame a ≡ packet p t = rw (same.0, same.1) ea in
      (
        emit p [] ++ qs,
        s,
        qs',
        step p t here fa,
        fb,
        ap (λ l. emit p [] ++ l) split ∙ sym (append_assoc (emit p []) qs qs'),
      )
]

-- Chunk after chunk; what each leaves in the buffer stands before the next.
unfoldable pub push_all : Bytes → List Bytes → Drained
push_all buf [] = record { out = []; buf = buf }
push_all buf (c ∷ cs) =
    let d = push buf c in let e = push_all d.buf cs in record { out = d.out ++ e.out; buf = e.buf }

-- What is left over is the start of a frame, so a loop over it stops at once.
pub Frames-incomplete : {b r : Bytes} {ps : List Packet} → Frames b ps r → next_frame r ≡ incomplete
Frames-incomplete (stop e) = e
Frames-incomplete (step p t e f) = Frames-incomplete f

Frames-stop :
    {b r : Bytes} {ps : List Packet}
    → Frames b ps r
    → next_frame b ≡ incomplete
    → (ps ≡ []) × (r ≡ b)
Frames-stop (stop e) h = (refl, refl)
Frames-stop (step p t e f) h = cc

-- Chunk by chunk the decoder gives what one push of all the bytes would: if the buffer and the
-- chunks make up frames that decode to `ps` and the start `r` of one more, the packets `ps` come out
-- in order, and `r` is what stays buffered.
pub push_all-Frames :
    (chunks : List Bytes) (buf : Bytes) {r : Bytes} {ps : List Packet}
    → next_frame buf ≡ incomplete
    → Frames (buf ++ flatten chunks) ps r
    → push_all buf chunks ≡ record { out = ps; buf = r }
unfolding push_all flatten
push_all-Frames [] buf e f =
    let (none_left, kept) = Frames-stop (rw append-nil at f) e in rw (none_left, kept)
push_all-Frames (c ∷ cs) buf e f =
    let (qs, s, qs', fa, fb, split) =
      Frames-split (buf ++ c) (flatten cs) f (sym (append_assoc buf c (flatten cs))) in
    rw (push-Frames buf c fa, push_all-Frames cs s (Frames-incomplete fa) fb, split)

-- Frames as the encoders write them, one behind the other, and the packets that they decode to.
abbrev pub wire : List (ℕ × Bytes) → Bytes
wire [] = []
wire ((header, body) ∷ fs) = frame header body ++ wire fs

abbrev pub packets : List (ℕ × Bytes) → List Packet
packets [] = []
packets ((header, body) ∷ fs) =
    emit (decode_body (header / 16) (bit_and header 0x0f) body) [] ++ packets fs

abbrev pub FitFrames : List (ℕ × Bytes) → Type 0
FitFrames [] = Unit
FitFrames ((header, body) ∷ fs) = (length body < max_body) × FitFrames fs

Frames-wire :
    (fs : List (ℕ × Bytes)) (tail : Bytes)
    → FitFrames fs
    → next_frame tail ≡ incomplete
    → Frames (wire fs ++ tail) (packets fs) tail
Frames-wire [] tail h e = stop e
Frames-wire ((header, body) ∷ fs) tail h e =
    step (decode_body (header / 16) (bit_and header 0x0f) body) (length (frame header body))
      (rw append_assoc (next_frame-frame header body (wire fs ++ tail) h.0))
      (rw
        (
          append_assoc,
          drop-append_length (length (frame header body)) (frame header body) (wire fs ++ tail)
              refl,
        )
        (Frames-wire fs tail h.1 e))

-- However a run of encoded frames is cut into chunks, the decoder gives their packets in order, and
-- keeps exactly the part of a last frame that has not arrived yet.
pub push_all-wire :
    (fs : List (ℕ × Bytes)) (tail : Bytes) (chunks : List Bytes)
    → FitFrames fs
    → next_frame tail ≡ incomplete
    → flatten chunks ≡ wire fs ++ tail
    → push_all [] chunks ≡ record { out = packets fs; buf = tail }
push_all-wire fs tail chunks h e split =
    push_all-Frames chunks [] (unfold next_frame in refl) (rw split (Frames-wire fs tail h e))
