-- ===== src/Portable/Peeks.antt =====
-- portable_stream.py: peek, on a file that is read in chunks.
use ah_there_it_is.Base.{
  ℕ, zero, suc, ◌≡◌, refl, sym, ap, ◌∙◌, subst, ◌≤◌, ◌<◌, Bool, true, false, List, [], ◌∷◌, ◌++◌,
  length, arith, take, drop, take-drop, ==_iff,
}
use ah_there_it_is.Text.{Text}
use ah_there_it_is.Portable.Programs.{got}
use ah_there_it_is.Portable.Bytes.{Decoder, ChunkedText, fill_chunk, first_of, peek, WholeText}
use ah_there_it_is.Portable.Decoding.{
  Decodes, wait, Decodes-eq, Decodes-waits, Decodes-silent, Decodes-split, nothing_decoded,
}

-- what is left of the file decodes, and a chunk is no shorter than a character
pub record View (s : ChunkedText) : Type 0 where
  pub ending : Decoder
  pub rest : Text
  pub decodes : Decodes s.decoder s.source ending rest
  pub closes : ending.needed ≡ 0
  pub waiting : wait s.decoder.needed ≤ 4
  pub at_end : s.eof ≡ true → s.source ≡ []
  pub long : 4 ≤ s.chunk_size

-- the buffer and what is left are the text
abbrev pub Represents : ChunkedText → WholeText → Type 0
Represents s t = (v : View s) × (t ≡ (s.buffer ++ v.rest, s.offset))

take_nil : (k : ℕ) → take {A = ℕ} k [] ≡ []
take_nil zero = refl
take_nil (suc k) = refl

-- a chunk that is shorter than asked is the last one
short_take : (k : ℕ) (xs : List ℕ) → length (take k xs) < k → drop k xs ≡ []
short_take zero xs h = ground (arith, h)
short_take (suc k) [] h = refl
short_take (suc k) (x ∷ xs) h = short_take k xs (omega (arith, h))

first_part :
    (k : ℕ) (source : List ℕ) (d e f : Decoder) (u v : Text)
    → 4 ≤ k
    → wait d.needed ≤ 4
    → Decodes d (take k source) e u
    → Decodes e (drop k source) f v
    → first_of u ≡ first_of (u ++ v)
first_part k source d e f (c ∷ u) v long waiting h l = refl
first_part k source d e f [] v long waiting h l =
    let none_left = short_take k source (omega (arith, Decodes-silent h, long, waiting)) in
    ap first_of (sym (nothing_decoded (subst (λ xs. Decodes e xs f v) none_left l)).1)

-- after a peek: the state, whose buffer shows the next character
unfoldable pub Peeked : ChunkedText → WholeText → Type 0
Peeked s t =
    (s' : ChunkedText) × (peek s ≡ got (first_of t.0) s')
    × Represents s' t
    × (first_of s'.buffer ≡ first_of t.0)

abbrev pub state : List ℕ → ℕ → Text → ℕ → Bool → Decoder → ChunkedText
state source k buffer n eof d = record {
  source = source;
  chunk_size = k;
  buffer = buffer;
  offset = n;
  eof = eof;
  decoder = d;
}

module _ (k n : ℕ) (d : Decoder) where
  -- the end of the file
  at_the_end : (v : View (state [] k [] n true d)) → Peeked (state [] k [] n true d) (v.rest, n)
  unfolding Peeked peek
  at_the_end v =
      let none_left = (nothing_decoded v.decodes).1 in
      (
        state [] k [] n true d,
        ap (λ r. got (first_of r) (state [] k [] n true d)) (sym none_left),
        (v, refl),
        ap first_of (sym none_left),
      )

  -- the file is found to be at its end
  reaches_the_end :
      (v : View (state [] k [] n false d)) → Peeked (state [] k [] n false d) (v.rest, n)
  unfolding Peeked peek fill_chunk
  reaches_the_end v =
      let (same, none_left) = nothing_decoded v.decodes in
      let closed = (==_iff d.needed 0).1 (ap (λ e. e.needed) same ∙ v.closes) in
      let v' : View (state [] k [] n true d) = record {
        ending = v.ending;
        rest = v.rest;
        decodes = v.decodes;
        closes = v.closes;
        waiting = v.waiting;
        at_end = λ _. refl;
        long = v.long;
      } in
      (
        state [] k [] n true d,
        rw (take_nil k, closed, none_left),
        (v', refl),
        ap first_of (sym none_left),
      )

-- a chunk is read
reads_a_chunk :
    (b : ℕ) (bs : List ℕ) (k n : ℕ) (d : Decoder) (v : View (state (b ∷ bs) (suc k) [] n false d))
    → Peeked (state (b ∷ bs) (suc k) [] n false d) (v.rest, n)
unfolding Peeked peek fill_chunk
reads_a_chunk b bs k n d v =
    let whole_file =
      subst (λ xs. Decodes d xs v.ending v.rest) (sym (take-drop (suc k) (b ∷ bs))) v.decodes in
    let (e, u, w, h, l, q) =
      Decodes-split (take (suc k) (b ∷ bs)) (drop (suc k) (b ∷ bs)) whole_file in
    let s' = state (drop k bs) (suc k) u n false e in
    let first = first_part (suc k) (b ∷ bs) d e v.ending u w v.long v.waiting h l in
    let v' : View s' = record {
      ending = v.ending;
      rest = w;
      decodes = l;
      closes = v.closes;
      waiting = Decodes-waits h v.waiting;
      at_end = λ f. ground (arith, f);
      long = v.long;
    } in
    (
      s',
      rw (Decodes-eq h) (ap (λ c. got c s') (first ∙ ap first_of (sym q))),
      (v', ap (λ r. (r, n)) q),
      first ∙ ap first_of (sym q),
    )

Peeked-empty :
    (source : List ℕ) (k n : ℕ) (eof : Bool) (d : Decoder) (v : View (state source k [] n eof d))
    → Peeked (state source k [] n eof d) (v.rest, n)
Peeked-empty [] k n true d v = at_the_end k n d v
Peeked-empty [] k n false d v = reaches_the_end k n d v
Peeked-empty (b ∷ bs) k n true d v = ground (arith, v.at_end refl)
Peeked-empty (b ∷ bs) zero n false d v = ground (arith, v.long)
Peeked-empty (b ∷ bs) (suc k) n false d v = reads_a_chunk b bs k n d v

pub peeked :
    (source : List ℕ) (k : ℕ) (buffer : Text) (n : ℕ) (eof : Bool) (d : Decoder)
    (v : View (state source k buffer n eof d))
    → Peeked (state source k buffer n eof d) (buffer ++ v.rest, n)
unfolding Peeked peek
peeked source k [] n eof d v = Peeked-empty source k n eof d v
peeked source k (c ∷ buffer) n eof d v =
    (state source k (c ∷ buffer) n eof d, refl, (v, refl), refl)
