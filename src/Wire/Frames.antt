-- ===== src/Wire/Frames.antt =====
-- The loop of `push` against a relation: the frames that a buffer holds, one behind the other.
use aquilo_offline.Base.{
  lengths, ℕ, zero, suc, ◌+◌, ◌-◌, ◌*◌, ◌≤◌, ◌<◌, ◌≡◌, refl, arith, Option, some, none, List, [],
  ◌∷◌, ◌++◌, ◌⊎◌, Bytes, length, drop, length-append, append_assoc, append-nil, bit_and,
  length-drop, take-append_le, drop-append_le, inl, inr,
}
use aquilo_offline.Wire.Decode.{Packet, slice}
use aquilo_offline.Wire.Stream.{
  Frame, packet, incomplete, corrupt, Varint, length_at, cut, too_long, varint_loop, finish_frame,
  next_frame, emit, drain_loop, push,
}
use aquilo_offline.Wire.Framing.{next_frame_lem}

-- The varint loop does not look past the varint.
varint_loop-append :
    (xs ys : Bytes) (mult len i n j : ℕ)
    → varint_loop xs mult len i ≡ length_at n j
    → (varint_loop (xs ++ ys) mult len i ≡ length_at n j) × (i < j) × (j ≤ i + length xs)
unfolding varint_loop
varint_loop-append [] ys mult len i n j h = cc
varint_loop-append (b ∷ bs) ys mult len i n j h =
    ground (arith, varint_loop-append bs ys (mult * 128) (len + bit_and b 0x7f * mult) (i + 1) n j)

varint_loop-append_long :
    (xs ys : Bytes) (mult len i : ℕ)
    → varint_loop xs mult len i ≡ too_long
    → varint_loop (xs ++ ys) mult len i ≡ too_long
unfolding varint_loop
varint_loop-append_long [] ys mult len i h = cc
varint_loop-append_long (b ∷ bs) ys mult len i h =
    ground (arith, varint_loop-append_long bs ys (mult * 128) (len + bit_and b 0x7f * mult) (i + 1))

Varint-cases : (v : Varint) → (v ≡ cut) ⊎ (v ≡ too_long) ⊎ ((n : ℕ) × (j : ℕ) × (v ≡ length_at n j))
Varint-cases cut = inl refl
Varint-cases too_long = inr (inl refl)
Varint-cases (length_at n j) = inr (inr (n, j, refl))

pub Frame-cases :
    (f : Frame)
    → (f ≡ incomplete) ⊎ (f ≡ corrupt) ⊎ ((p : Option Packet) × (t : ℕ) × (f ≡ packet p t))
Frame-cases incomplete = inl refl
Frame-cases corrupt = inr (inl refl)
Frame-cases (packet p t) = inr (inr (p, t, refl))

slice-append :
    (b c : Bytes) (start end : ℕ)
    → start ≤ end
    → end ≤ length b
    → slice (b ++ c) start end ≡ slice b start end
slice-append b c start end h k =
    rw (drop-append_le start b c (omega arith))
      (take-append_le (end - start) (drop start b) c (grind (arith, lengths)))

-- A frame takes two bytes at least, lies in the buffer, and is read alike with more bytes behind it.
pub next_frame-append :
    (a b : Bytes) (p : Option Packet) (t : ℕ)
    → next_frame a ≡ packet p t
    → (next_frame (a ++ b) ≡ packet p t) × (2 ≤ t) × (t ≤ length a)
unfolding finish_frame
next_frame-append [] b p t h = unfold next_frame in cc
next_frame-append (x ∷ xs) b p t h =
    let h' = rw next_frame_lem at h in
    elim (Varint-cases (varint_loop xs 1 0 1)) [
      | inl e ↦ cc (rw e at h')
      | inr (inl e) ↦ cc (rw e at h')
      | inr (inr (n, j, e)) ↦ ground (
        arith,
        rw e at h',
        next_frame_lem x (xs ++ b),
        varint_loop-append xs b 1 0 1 n j e,
        slice-append (x ∷ xs) b j (j + n),
        length-append xs b,
      )
    ]

pub next_frame-append_corrupt :
    (a b : Bytes) → next_frame a ≡ corrupt → next_frame (a ++ b) ≡ corrupt
unfolding finish_frame
next_frame-append_corrupt [] b h = unfold next_frame in cc
next_frame-append_corrupt (x ∷ xs) b h =
    let h' = rw next_frame_lem at h in
    elim (Varint-cases (varint_loop xs 1 0 1)) [
      | inl e ↦ cc (rw e at h')
      | inr (inl e) ↦
          ground (arith, next_frame_lem x (xs ++ b), varint_loop-append_long xs b 1 0 1 e)
      | inr (inr (n, j, e)) ↦ ground (arith, rw e at h')
    ]

-- The buffer holds frames that decode to `ps`, and then the start `r` of a frame that is cut short:
-- nothing in it is corrupt.
pub data Frames : Bytes → List Packet → Bytes → Type 0 where
  stop : {b : Bytes} → next_frame b ≡ incomplete → Frames b [] b
  step :
      {b r : Bytes} {ps : List Packet} (p : Option Packet) (t : ℕ)
      → next_frame b ≡ packet p t
      → Frames (drop t b) ps r
      → Frames b (emit p [] ++ ps) r

pub emit-append :
    (p : Option Packet) (out ps : List Packet) → emit p out ++ ps ≡ out ++ (emit p [] ++ ps)
emit-append none out ps = refl
emit-append (some p) out ps = append_assoc out (p ∷ []) ps

-- The loop of `push` reads all the frames, and the length of the buffer is fuel enough.
pub drain_loop-Frames :
    (fuel : ℕ) (out : List Packet) {b r : Bytes} {ps : List Packet}
    → Frames b ps r
    → length b ≤ fuel
    → drain_loop fuel b out ≡ record { out = out ++ ps; buf = r }
unfolding drain_loop
drain_loop-Frames zero out (stop e) h = rw append-nil
drain_loop-Frames (suc fuel) out (stop e) h = rw (e, drain_loop, append-nil)
drain_loop-Frames zero out {b} (step p t e f) h =
    absurd (omega (arith, next_frame-append b [] p t e))
drain_loop-Frames (suc fuel) out {b} (step {ps = ps} p t e f) h =
    rw (e, drain_loop, ← emit-append p out ps)
      (drain_loop-Frames fuel (emit p out) f
        (omega (arith, length-drop t b, next_frame-append b [] p t e)))

pub push-Frames :
    (buf chunk : Bytes) {r : Bytes} {ps : List Packet}
    → Frames (buf ++ chunk) ps r
    → push buf chunk ≡ record { out = ps; buf = r }
unfolding push
push-Frames buf chunk f = drain_loop-Frames (length (buf ++ chunk)) [] f (omega arith)
