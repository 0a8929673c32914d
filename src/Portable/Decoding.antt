-- ===== src/Portable/Decoding.antt =====
-- portable_stream.py: the incremental decoder, on parts of a file.
use ah_there_it_is.Base.{
  ℕ, zero, suc, ◌≡◌, refl, ap, subst, ◌⊎◌, inl, inr, ◌<◌, ◌≤◌, Option, none, some, List, [], ◌∷◌,
  ◌++◌, length, arith, Bool, true, false, Bool-cases, Option-cases, if◌then◌else◌,
}
use ah_there_it_is.Text.{Text}
use ah_there_it_is.Portable.Bytes.{
  Decoder, start, Step, invalid, pending, complete, first_byte, decode_byte, decode, with_code,
  between,
}

Step-cases :
    (x : Step) → (x ≡ invalid) ⊎ ((d : Decoder) × (x ≡ pending d)) ⊎ ((c : ℕ) × (x ≡ complete c))
Step-cases invalid = inl refl
Step-cases (pending d) = inr (inl (d, refl))
Step-cases (complete c) = inr (inr (c, refl))

-- more than the bytes that can be read without a character
abbrev pub wait : ℕ → ℕ
wait zero = 4
wait (suc m) = suc m

wait_positive : (n : ℕ) → 0 < wait n
wait_positive zero = omega arith
wait_positive (suc m) = omega arith

-- ... after a byte, where a character is open
abbrev pub waits : Step → ℕ
waits (pending d) = wait d.needed
waits _ = 0

if_waits : (c : Bool) (x y : Step) → waits x < 4 → waits y < 4 → waits (if c then x else y) < 4
if_waits true x y h k = h
if_waits false x y h k = k

waits-first_byte : (b : ℕ) → waits (first_byte b) < 4
unfolding first_byte
waits-first_byte b = ground arith

waits-decode_byte : (n b : ℕ) (d : Decoder) → waits (decode_byte n d b) < wait n
unfolding decode_byte
waits-decode_byte zero b d = waits-first_byte b
waits-decode_byte (suc zero) b d = elim (Bool-cases (between d.low d.high b)) [
  | inl y ↦ rw y (omega arith)
  | inr m ↦ rw m (omega arith)
]
waits-decode_byte (suc (suc m)) b d = elim (Bool-cases (between d.low d.high b)) [
  | inl y ↦ rw y (omega arith)
  | inr n ↦ rw n (omega arith)
]

pending_waits :
    (b : ℕ) (d d' : Decoder)
    → decode_byte d.needed d b ≡ pending d'
    → wait d'.needed < wait d.needed
pending_waits b d d' h = subst (λ x. waits x < wait d.needed) h (waits-decode_byte d.needed b d)

-- a decoder reads bytes, gives a text, and is left in a state
pub data Decodes : Decoder → List ℕ → Decoder → Text → Type 0 where
  ends : {d : Decoder} → Decodes d [] d []
  opens :
      {d e d' : Decoder} {b : ℕ} {bs : List ℕ} {s : Text}
      → decode_byte d.needed d b ≡ pending e
      → Decodes e bs d' s
      → Decodes d (b ∷ bs) d' s
  emits :
      {d d' : Decoder} {b c : ℕ} {bs : List ℕ} {s : Text}
      → decode_byte d.needed d b ≡ complete c
      → Decodes start bs d' s
      → Decodes d (b ∷ bs) d' (c ∷ s)

no_text : {A : Type 0} {x : Decoder × Text} → none ≡ some x → A
no_text h = ground (arith, h)

payload : Decoder × Text → Option (Decoder × Text) → Decoder × Text
payload x none = x
payload x (some y) = y

carry : {x y : Decoder × Text} (P : Decoder × Text → Type 0) → some x ≡ some y → P x → P y
unfolding payload
carry {x} P h = subst P (ap (payload x) h)

pub decode-Decodes :
    (bs : List ℕ) (d d' : Decoder) (s : Text) → decode d bs ≡ some (d', s) → Decodes d bs d' s
unfolding decode
decode-Decodes [] d d' s h = carry (λ x. Decodes d [] x.0 x.1) h ends
decode-Decodes (b ∷ bs) d d' s h = elim (Step-cases (decode_byte d.needed d b)) [
  | inl p ↦ no_text (rw (p, decode) at h)
  | inr (inl (e, p)) ↦ opens p (decode-Decodes bs e d' s (rw (p, decode) at h))
  | inr (inr (c, p)) ↦ elim (Option-cases (decode start bs)) [
    | inl q ↦ no_text (rw (p, q, decode) at h)
    | inr ((e, u), q) ↦
        carry (λ x. Decodes d (b ∷ bs) x.0 x.1) (rw (p, q, decode) at h)
          (emits p (decode-Decodes bs start e u q))
  ]
]

pub Decodes-eq :
    {bs : List ℕ} {d d' : Decoder} {s : Text} → Decodes d bs d' s → decode d bs ≡ some (d', s)
unfolding decode
Decodes-eq ends = refl
Decodes-eq (opens p h) = rw (p, decode) (Decodes-eq h)
Decodes-eq (emits {c} p h) = rw (p, decode) (ap (with_code c) (Decodes-eq h))

pub Decodes-waits :
    {bs : List ℕ} {d d' : Decoder} {s : Text}
    → Decodes d bs d' s
    → wait d.needed ≤ 4
    → wait d'.needed ≤ 4
Decodes-waits ends k = k
Decodes-waits (opens {d} {e} {b} p h) k = Decodes-waits h (omega (arith, pending_waits b d e p, k))
Decodes-waits (emits p h) k = Decodes-waits h (omega arith)

-- bytes that give no character are few
pub Decodes-silent : {bs : List ℕ} {d d' : Decoder} → Decodes d bs d' [] → length bs < wait d.needed
Decodes-silent (ends {d}) = wait_positive d.needed
Decodes-silent (opens {d} {e} {b} p h) = omega (arith, pending_waits b d e p, Decodes-silent h)

-- a text is read as its parts are
pub Decodes-split :
    (xs ys : List ℕ) {d d' : Decoder} {s : Text}
    → Decodes d (xs ++ ys) d' s
    → (e : Decoder) × (u : Text) × (v : Text) × Decodes d xs e u × Decodes e ys d' v × (s ≡ u ++ v)
Decodes-split [] ys {d} {d'} {s} h = (d, [], s, ends, h, refl)
Decodes-split (b ∷ xs) ys (opens p h) =
    let (e, u, v, k, l, q) = Decodes-split xs ys h in (e, u, v, opens p k, l, q)
Decodes-split (b ∷ xs) ys (emits {c} p h) =
    let (e, u, v, k, l, q) = Decodes-split xs ys h in (e, c ∷ u, v, emits p k, l, ap (λ r. c ∷ r) q)

-- of no bytes, no text
pub nothing_decoded : {d d' : Decoder} {s : Text} → Decodes d [] d' s → (d ≡ d') × (s ≡ [])
nothing_decoded ends = (refl, refl)
