-- ===== src/Portable/Chunks.antt =====
-- portable_stream.py: a file that is read in chunks, and the text that it decodes to.
use ah_there_it_is.Base.{
  inl, inr, Bool-cases, Option-cases, ℕ, suc, ◌≡◌, refl, sym, ap, ◌∙◌, subst, ◌≤◌, Bool, Option,
  none, some, List, [], ◌∷◌, ◌++◌, arith, ◌==◌, ==_iff,
}
use ah_there_it_is.Text.{Text}
use ah_there_it_is.Portable.Programs.{Program, got, Workspace, run}
use ah_there_it_is.Portable.Bytes.{
  Decoder, start, decode, decode_all, ChunkedText, first_of, peek, advanced, chunked, open_chunked,
  WholeText, whole,
}
use ah_there_it_is.Portable.Simulation.{Agree, Simulation, outcome, run-agrees}
use ah_there_it_is.Portable.Decoding.{decode-Decodes}
use ah_there_it_is.Portable.Peeks.{View, Represents, Peeked, peeked, state}

nothing_taken : (r : Text) (n : ℕ) → none ≡ first_of r → whole.take (r, n) ≡ got (first_of r) (r, n)
nothing_taken [] n h = refl
nothing_taken (c ∷ r) n h = ground (arith, h)

-- the next character is taken from the buffer
taken_next :
    (source : List ℕ) (k : ℕ) (buffer : Text) (n : ℕ) (eof : Bool) (d : Decoder)
    (v : View (state source k buffer n eof d))
    → first_of buffer ≡ first_of (buffer ++ v.rest)
    → (s' : ChunkedText) × (t' : WholeText) × (advanced (state source k buffer n eof d) buffer ≡ s')
      × (whole.take (buffer ++ v.rest, n) ≡ got (first_of (buffer ++ v.rest)) t')
      × Represents s' t'
taken_next source k [] n eof d v h =
    (state source k [] n eof d, (v.rest, n), refl, nothing_taken v.rest n h, (v, refl))
taken_next source k (c ∷ buffer) n eof d v h =
    let v' : View (state source k buffer (suc n) eof d) = record {
      ending = v.ending;
      rest = v.rest;
      decodes = v.decodes;
      closes = v.closes;
      waiting = v.waiting;
      at_end = v.at_end;
      long = v.long;
    } in
    (state source k buffer (suc n) eof d, (buffer ++ v.rest, suc n), refl, refl, (v', refl))

Peeked-at : (s : ChunkedText) (t : WholeText) → Represents s t → Peeked s t
Peeked-at s t (v, e) =
    subst (Peeked s) (sym e) (peeked s.source s.chunk_size s.buffer s.offset s.eof s.decoder v)

peek_agrees :
    (s : ChunkedText) (t : WholeText) → Represents s t → Agree Represents (peek s) (whole.peek t)
unfolding Peeked
peek_agrees s t r = let (s', p, r', f) = Peeked-at s t r in (first_of t.0, s', t, p, refl, r')

take_agrees :
    (s : ChunkedText) (t : WholeText)
    → Represents s t
    → Agree Represents (chunked.take s) (whole.take t)
unfolding Peeked
take_agrees s t r =
    let (s', p, (v, e), f) = Peeked-at s t r in
    let (s2, t2, p2, q2, r2) =
      taken_next s'.source s'.chunk_size s'.buffer s'.offset s'.eof s'.decoder v
        (f ∙ ap (λ x. first_of x.0) e) in
    (
      first_of t.0,
      s2,
      t2,
      rw p (ap (got (first_of t.0)) p2),
      subst (λ x. whole.take x ≡ got (first_of x.0) t2) (sym e) q2,
      r2,
    )

offset_agrees : (s : ChunkedText) (t : WholeText) → Represents s t → s.offset ≡ t.1
offset_agrees s t (v, e) = sym (ap (λ x. x.1) e)

abbrev chunked_simulation : Simulation ChunkedText WholeText chunked whole Represents
chunked_simulation = record {
  peeks_agree = peek_agrees;
  takes_agree = take_agrees;
  offsets_agree = offset_agrees;
}

no_value_of : {A B : Type 0} {x : B} → none ≡ some x → A
no_value_of h = ground (arith, h)

text_of : Option Text → Text
text_of none = []
text_of (some s) = s

same_text : {s t : Text} → some s ≡ some t → s ≡ t
unfolding text_of
same_text h = ap text_of h

opened :
    (bytes : List ℕ) (k : ℕ) (t : Text)
    → decode_all bytes ≡ some t
    → 4 ≤ k
    → Represents (open_chunked bytes k) (t, 0)
unfolding decode_all
opened bytes k t h l = elim (Option-cases (decode start bytes)) [
  | inl q ↦ no_value_of (rw (q, decode_all) at h)
  | inr ((d, u), q) ↦ elim (Bool-cases (d.needed == 0)) [
    | inr z ↦ no_value_of (rw (q, z, decode_all) at h)
    | inl z ↦
        let same = same_text (rw (q, z, decode_all) at h) in
        let v : View (open_chunked bytes k) = record {
          ending = d;
          rest = u;
          decodes = decode-Decodes bytes start d u q;
          closes = (==_iff d.needed 0).0 z;
          waiting = omega arith;
          at_end = λ f. ground (arith, f);
          long = l;
        } in
        (v, ap (λ r. (r, 0)) (sym same))
  ]
]

-- A file that is UTF-8, read in chunks of any size of at least four bytes, gives every reader the outcome
-- that the decoded text gives it: the value and the spooled records, or the refusal and its offset.
pub chunks_agree :
    {A : Type 0} (p : Program A) (bytes : List ℕ) (chunk_size : ℕ) (t : Text) (w : Workspace)
    → decode_all bytes ≡ some t
    → 4 ≤ chunk_size
    → outcome (run chunked p (open_chunked bytes chunk_size) w) ≡ outcome (run whole p (t, 0) w)
chunks_agree p bytes chunk_size t w h l =
    run-agrees chunked whole Represents chunked_simulation p (open_chunked bytes chunk_size) (t, 0)
      w (opened bytes chunk_size t h l)
