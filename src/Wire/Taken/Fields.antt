-- ===== src/Wire/Taken/Fields.antt =====
-- The parts of a CONNECT on any body: the header, the will, and the user name and the password.
use mathlib.Core.Option
use aquilo_offline.Base.{
  ℕ, ◌+◌, ◌≤◌, ◌≡◌, refl, ◌∙◌, ap, arith, Option, some, none, [], ◌∷◌, Bytes, Str, AreBytes, length,
  Option-cases, Bool-cases, inl, inr, from_utf8_lossy, is_some, ltb, get_elem?, false,
}
use aquilo_offline.Wire.Cursor.{Ahead, Ahead-skip, length-Ahead}
use aquilo_offline.Wire.Decode.{skip_will, optional_str, read_bytes, has, read_str}
use aquilo_offline.Wire.Layout.{opt_bytes, will_bytes, FitsWill}
use aquilo_offline.Wire.Reads.{
  Reads, IsShort, Reads-none, Reads-then, get_elem?-Reads, read_bytes-Reads, read_str-Reads,
}

abbrev pub ShortField : Option Bytes → Type 0
ShortField none = Unit
ShortField (some s) = IsShort s

two_more : (b : Bytes) → 2 ≤ length b → (hi : ℕ) × (lo : ℕ) × (more : Bytes) × (b ≡ hi ∷ lo ∷ more)
two_more [] h = absurd (omega arith)
two_more (x ∷ []) h = absurd (omega arith)
two_more (hi ∷ lo ∷ more) h = (hi, lo, more, refl)

module _ {body : Bytes} where
  pub optional_str-Reads :
      (flags bit off : ℕ) (rest : Bytes) {o : Option Str} {off' : ℕ}
      → Ahead body off rest
      → AreBytes rest
      → optional_str body flags bit off ≡ some (o, off')
      → (raw : Option Bytes) × (o ≡ Option.map from_utf8_lossy raw)
        × Reads body off' rest (opt_bytes raw)
        × (has flags bit ≡ is_some raw)
        × ShortField raw
  unfolding optional_str
  optional_str-Reads flags bit off rest {o} {off'} a b h = elim (Bool-cases (has flags bit)) [
    | inr e ↦
        let h0 = rw e at h in
        let same : off ≡ off' = cc in (none, cc, rw same at (Reads-none a b), e, tt)
    | inl e ↦
        let h0 = rw e at h in
        elim (Option-cases (read_str body off)) [
          | inl e1 ↦ cc (rw e1 at h0)
          | inr ((s, end), e1) ↦
              let h1 = rw e1 at h0 in
              let (raw, text, r, short) = read_str-Reads rest a b e1 in
              let same : end ≡ off' = cc in
              let value : o ≡ some s = cc in
              (some raw, value ∙ ap (λ t. some t) text, rw same at r, e, short)
        ]
  ]

  pub skip_will-Reads :
      (flags off : ℕ) (rest : Bytes) {off' : ℕ}
      → Ahead body off rest
      → AreBytes rest
      → skip_will body flags off ≡ some off'
      → (will : Option (Bytes × Bytes)) × Reads body off' rest (will_bytes will)
        × (has flags 0x04 ≡ is_some will)
        × FitsWill will
  unfolding skip_will
  skip_will-Reads flags off rest {off'} a b h = elim (Bool-cases (has flags 0x04)) [
    | inr e ↦
        let h0 = rw e at h in
        let same : off ≡ off' = cc in (none, rw same at (Reads-none a b), e, tt)
    | inl e ↦
        let h0 = rw e at h in
        elim (Option-cases (read_bytes body off)) [
          | inl e1 ↦ cc (rw e1 at h0)
          | inr ((topic, off1), e1) ↦
              let h1 = rw e1 at h0 in
              elim (Option-cases (read_bytes body off1)) [
                | inl e2 ↦ cc (rw e2 at h1)
                | inr ((message, off2), e2) ↦
                    let h2 = rw e2 at h1 in
                    let (r1, short1) = read_bytes-Reads rest a b e1 in
                    let (r2, short2) = read_bytes-Reads r1.left r1.ahead r1.bytes e2 in
                    let same : off2 ≡ off' = cc in
                    (some (topic, message), rw same at (Reads-then r1 r2), e, (short1, short2))
              ]
        ]
  ]

  -- The level, the flags and the two bytes of the keep-alive.
  pub header-Reads :
      (off : ℕ) (rest : Bytes) {level flags : ℕ}
      → Ahead body off rest
      → AreBytes rest
      → get_elem? body off ≡ some level
      → get_elem? body (off + 1) ≡ some flags
      → ltb (length body) (off + 1 + 1 + 2) ≡ false
      → (hi : ℕ) × (lo : ℕ) × Reads body (off + 1 + 1 + 2) rest (level ∷ flags ∷ hi ∷ lo ∷ [])
  header-Reads off rest {level} {flags} a b e1 e2 h =
      let (r1, byte1) = get_elem?-Reads rest a b e1 in
      let (r2, byte2) = get_elem?-Reads r1.left r1.ahead r1.bytes e2 in
      let (hi, lo, more, e) = two_more r2.left (ground (arith, length-Ahead r2.ahead)) in
      let ahead : Ahead body (off + 1 + 1 + 2) more =
        Ahead-skip (hi ∷ lo ∷ []) (rw e at r2.ahead) in
      let bytes : AreBytes (hi ∷ lo ∷ more) = rw e at r2.bytes in
      (
        hi,
        lo,
        record {
          left = more;
          split = r1.split ∙ ap (λ l. level ∷ l) r2.split ∙ ap (λ l. level ∷ flags ∷ l) e;
          ahead = ahead;
          bytes = bytes.1.1;
        },
      )
