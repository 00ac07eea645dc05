-- ===== src/Wire/Cuts.antt =====
-- The decoder of mqtt_wire.rs on any bytes, corrupt ones included, however they are cut.
use mathlib.Core.List.{flatten}
use aquilo_offline.Base.{
  ℕ, zero, suc, ◌≤◌, ◌<◌, ◌≡◌, ◌≢◌, refl, sym, ◌∙◌, ap, arith, List, [], ◌∷◌, ◌++◌, ◌⊎◌, Bytes,
  Option, length, drop, append_assoc, append-nil, length-drop, drop-append_le, inl, inr,
}
use aquilo_offline.Wire.Decode.{Packet}
use aquilo_offline.Wire.Stream.{packet, incomplete, corrupt, next_frame, emit, drain_loop, push}
use aquilo_offline.Wire.Frames.{
  Frames, stop, step, Frame-cases, next_frame-append, next_frame-append_corrupt, emit-append,
  push-Frames,
}
use aquilo_offline.Wire.Chunks.{push_all, push_all-Frames, Frames-incomplete}

-- The buffer holds frames that decode to `ps`, and then a length field that is corrupt.
pub data Broken : Bytes → List Packet → Type 0 where
  garbled : {b : Bytes} → next_frame b ≡ corrupt → Broken b []
  past :
      {b : Bytes} {ps : List Packet} (p : Option Packet) (t : ℕ)
      → next_frame b ≡ packet p t
      → Broken (drop t b) ps
      → Broken b (emit p [] ++ ps)

corrupt_pos : (b : Bytes) → next_frame b ≡ corrupt → 0 < length b
unfolding next_frame
corrupt_pos [] h = cc
corrupt_pos (x ∷ xs) h = omega arith

-- Any bytes are frames and the start of one more, or frames and a corrupt length.
Frames-or-Broken :
    (fuel : ℕ) (b : Bytes)
    → length b ≤ fuel
    → ((ps : List Packet) × (r : Bytes) × Frames b ps r) ⊎ ((ps : List Packet) × Broken b ps)
Frames-or-Broken zero [] h = inl ([], [], stop {b = []} (unfold next_frame in refl))
Frames-or-Broken zero (x ∷ xs) h = absurd (omega arith)
Frames-or-Broken (suc fuel) b h = elim (Frame-cases (next_frame b)) [
  | inl e ↦ inl ([], b, stop e)
  | inr (inl e) ↦ inr ([], garbled e)
  | inr (inr (p, t, e)) ↦
      let less : length (drop t b) ≤ fuel =
        omega (arith, length-drop t b, next_frame-append b [] p t e) in
      elim (Frames-or-Broken fuel (drop t b) less) [
        | inl (ps, r, f) ↦ inl (emit p [] ++ ps, r, step p t e f)
        | inr (ps, k) ↦ inr (emit p [] ++ ps, past p t e k)
      ]
]

drain_loop-Broken :
    (fuel : ℕ) (out : List Packet) {b : Bytes} {ps : List Packet}
    → Broken b ps
    → length b ≤ fuel
    → drain_loop fuel b out ≡ record { out = out ++ ps; buf = [] }
unfolding drain_loop
drain_loop-Broken zero out {b} (garbled e) h = absurd (omega (arith, corrupt_pos b e))
drain_loop-Broken zero out {b} (past p t e k) h =
    absurd (omega (arith, next_frame-append b [] p t e))
drain_loop-Broken (suc fuel) out (garbled e) h = rw (e, drain_loop, append-nil)
drain_loop-Broken (suc fuel) out {b} (past {ps = ps} p t e k) h =
    rw (e, drain_loop, ← emit-append p out ps)
      (drain_loop-Broken fuel (emit p out) k
        (omega (arith, length-drop t b, next_frame-append b [] p t e)))

push-Broken :
    (buf chunk : Bytes) {ps : List Packet}
    → Broken (buf ++ chunk) ps
    → push buf chunk ≡ record { out = ps; buf = [] }
unfolding push
push-Broken buf chunk k = drain_loop-Broken (length (buf ++ chunk)) [] k (omega arith)

-- The corrupt length lies in the first part, or behind what that part leaves.
Broken-split :
    {w : Bytes} {ps : List Packet} (a b : Bytes)
    → Broken w ps
    → w ≡ a ++ b
    → Broken a ps
      ⊎ ((qs : List Packet) × (s : Bytes) × (qs' : List Packet) × Frames a qs s
          × Broken (s ++ b) qs'
          × (ps ≡ qs ++ qs'))
Broken-split a b (garbled e) h = elim (Frame-cases (next_frame a)) [
  | inl ea ↦ inr ([], a, [], stop ea, rw (← h) (garbled e), refl)
  | inr (inl ea) ↦ inl (garbled ea)
  | inr (inr (p, t, ea)) ↦ cc ((next_frame-append a b p t ea).0)
]
Broken-split {w} a b (past {ps = ps} p t e k) h = elim (Frame-cases (next_frame a)) [
  | inl ea ↦ inr ([], a, emit p [] ++ ps, stop ea, rw (← h) (past p t e k), refl)
  | inr (inl ea) ↦ cc (next_frame-append_corrupt a b ea)
  | inr (inr (p', t', ea)) ↦
      let (whole, two, fits) = next_frame-append a b p' t' ea in
      let same : (p ≡ p') × (t ≡ t') = ground (arith, whole) in
      let below : t ≤ length a = omega (arith, same.1, fits) in
      let tail : drop t w ≡ drop t a ++ b = rw h (drop-append_le t a b below) in
      let here : next_frame a ≡ packet p t = rw (same.0, same.1) ea in
      elim (Broken-split (drop t a) b k tail) [
        | inl first ↦ inl (past p t here first)
        | inr (qs, s, qs', fa, rest, split) ↦ inr (
          emit p [] ++ qs,
          s,
          qs',
          step p t here fa,
          rest,
          ap (λ l. emit p [] ++ l) split ∙ sym (append_assoc (emit p []) qs qs'),
        )
      ]
]

not_Broken : {b : Bytes} {ps : List Packet} → Broken b ps → next_frame b ≢ incomplete
not_Broken (garbled e) h = cc
not_Broken (past p t e k) h = cc

push_all-Broken :
    (chunks : List Bytes) (buf : Bytes) {ps : List Packet}
    → next_frame buf ≡ incomplete
    → Broken (buf ++ flatten chunks) ps
    → (extra : List Packet) × ((push_all buf chunks).out ≡ ps ++ extra)
unfolding push_all flatten
push_all-Broken [] buf e k = absurd (not_Broken (rw append-nil at k) e)
push_all-Broken (c ∷ cs) buf {ps} e k =
    elim (Broken-split (buf ++ c) (flatten cs) k (sym (append_assoc buf c (flatten cs)))) [
      | inl first ↦ ((push_all [] cs).out, rw (push-Broken buf c first) refl)
      | inr (qs, s, qs', fa, rest, split) ↦
          let (extra, later) = push_all-Broken cs s (Frames-incomplete fa) rest in
          (extra, rw (push-Frames buf c fa, later, split, append_assoc) refl)
    ]

-- Any bytes in any cut: the decoder gives and keeps what one push of all of them would; or they hold
-- frames with a corrupt length behind them, and then one push gives the packets of these frames and
-- keeps nothing, and chunk by chunk the decoder gives the same packets first.
pub push_all-push :
    (chunks : List Bytes)
    → (push_all [] chunks ≡ push [] (flatten chunks))
      ⊎ ((ps : List Packet) × (extra : List Packet) × Broken (flatten chunks) ps
          × (push [] (flatten chunks) ≡ record { out = ps; buf = [] })
          × ((push_all [] chunks).out ≡ ps ++ extra))
push_all-push chunks =
    let bytes = flatten chunks in
    let empty : next_frame [] ≡ incomplete = unfold next_frame in refl in
    elim (Frames-or-Broken (length bytes) bytes (omega arith)) [
      | inl (ps, r, f) ↦ inl (push_all-Frames chunks [] empty f ∙ sym (push-Frames [] bytes f))
      | inr (ps, k) ↦
          let (extra, later) = push_all-Broken chunks [] empty k in
          inr (ps, extra, k, push-Broken [] bytes k, later)
    ]
