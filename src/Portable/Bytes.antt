-- ===== src/Portable/Bytes.antt =====
-- portable_stream.py: _ChunkedText, with the incremental strict decoder of UTF-8 that it uses.
use ah_there_it_is.Base.{
  ℕ, zero, suc, ◌+◌, ◌-◌, ◌*◌, Bool, true, false, ◌&&◌, Option, none, some, List, [], ◌∷◌, ◌++◌,
  leb, ◌==◌, if◌then◌else◌, take, drop,
}
use ah_there_it_is.Text.{Text}
use ah_there_it_is.Portable.Programs.{Read, unreadable, got, Source}

-- the bytes that a character still needs, its bits so far, and the bounds of its next byte
pub record Decoder : Type 0 where
  pub needed : ℕ
  pub bits : ℕ
  pub low : ℕ
  pub high : ℕ

abbrev pub start : Decoder
start = record { needed = 0; bits = 0; low = 128; high = 191 }

abbrev pub between : ℕ → ℕ → ℕ → Bool
between low high b = leb low b && leb b high

-- what a byte does: a character is begun, continued or complete, or the byte is none of UTF-8
pub data Step : Type 0 where
  invalid : Step
  pending : Decoder → Step
  complete : ℕ → Step

abbrev pub lead : ℕ → ℕ → ℕ → ℕ → Step
lead needed bits low high =
    pending (record { needed = needed; bits = bits; low = low; high = high })

-- the first byte of a character
unfoldable pub first_byte : ℕ → Step
first_byte b =
    if leb b 127
    then complete b
    else if between 194 223 b
    then lead 1 (b - 192) 128 191
    else if b == 224
    then lead 2 0 160 191
    else if b == 237
    then lead 2 13 128 159
    else if between 225 239 b
    then lead 2 (b - 224) 128 191
    else if b == 240
    then lead 3 0 144 191
    else if between 241 243 b
    then lead 3 (b - 240) 128 191
    else if b == 244
    then lead 3 4 128 143
    else invalid

-- a further byte, after which so many are needed
abbrev pub next_byte : ℕ → Decoder → ℕ → Step
next_byte zero d b = complete (d.bits * 64 + (b - 128))
next_byte (suc m) d b = lead (suc m) (d.bits * 64 + (b - 128)) 128 191

unfoldable pub decode_byte : ℕ → Decoder → ℕ → Step
decode_byte zero d b = first_byte b
decode_byte (suc m) d b = if between d.low d.high b then next_byte m d b else invalid

abbrev pub with_code : ℕ → Option (Decoder × Text) → Option (Decoder × Text)
with_code c none = none
with_code c (some (d, s)) = some (d, c ∷ s)

-- `decoder.decode(chunk, final=False)`
unfoldable pub decode : Decoder → List ℕ → Option (Decoder × Text)
decode d [] = some (d, [])
decode d (b ∷ bs) = elim (decode_byte d.needed d b) [
  | invalid ↦ none
  | pending d' ↦ decode d' bs
  | complete c ↦ with_code c (decode start bs)
]

-- `bytes.decode("utf-8")`, strict: no character is left open
unfoldable pub decode_all : List ℕ → Option Text
decode_all bs = elim (decode start bs) [
  | none ↦ none
  | some (d, s) ↦ if d.needed == 0 then some s else none
]

-- `_ChunkedText`: the bytes that the file still has, and the part of the buffer from the position on
pub record ChunkedText : Type 0 where
  pub source : List ℕ
  pub chunk_size : ℕ
  pub buffer : Text
  pub offset : ℕ
  pub eof : Bool
  pub decoder : Decoder

-- the end of `_fill`, with the chunk that was read
abbrev pub decoded : ChunkedText → List ℕ → Option (Decoder × Text) → Option ChunkedText
decoded s rest none = none
decoded s rest (some (d, more)) =
    some (record s { source = rest; buffer = s.buffer ++ more; decoder = d })

-- `_fill`: `read` returns a whole chunk, or all that is left
unfoldable pub fill_chunk : ChunkedText → List ℕ → Option ChunkedText
fill_chunk s [] = if s.decoder.needed == 0 then some (record s { eof = true }) else none
fill_chunk s (b ∷ bs) = decoded s (drop s.chunk_size s.source) (decode s.decoder (b ∷ bs))

abbrev pub fill : ChunkedText → Option ChunkedText
fill s = if s.eof then some s else fill_chunk s (take s.chunk_size s.source)

abbrev pub first_of : Text → Option ℕ
first_of [] = none
first_of (c ∷ s) = some c

abbrev pub filled : Option ChunkedText → Read ChunkedText
filled none = unreadable
filled (some s) = got (first_of s.buffer) s

abbrev pub is_empty : Text → Bool
is_empty [] = true
is_empty (_ ∷ _) = false

-- `peek`
unfoldable pub peek : ChunkedText → Read ChunkedText
peek s = if is_empty s.buffer then filled (fill s) else got (first_of s.buffer) s

abbrev pub advanced : ChunkedText → Text → ChunkedText
advanced s [] = s
advanced s (c ∷ rest) = record s { buffer = rest; offset = suc s.offset }

abbrev pub taken : Read ChunkedText → Read ChunkedText
taken unreadable = unreadable
taken (got c s) = got c (advanced s s.buffer)

abbrev pub chunked : Source ChunkedText
chunked = record { peek = peek; take = λ s. taken (peek s); offset = λ s. s.offset }

-- `_ChunkedText(source, chunk_size)`
abbrev pub open_chunked : List ℕ → ℕ → ChunkedText
open_chunked source chunk_size = record {
  source = source;
  chunk_size = chunk_size;
  buffer = [];
  offset = 0;
  eof = false;
  decoder = start;
}

-- the same stream on a text that is decoded as a whole: the rest of it, and the characters taken
abbrev pub WholeText : Type 0
WholeText = Text × ℕ

abbrev pub whole_take : WholeText → Read WholeText
whole_take ([], n) = got none ([], n)
whole_take (c ∷ s, n) = got (some c) (s, suc n)

abbrev pub whole : Source WholeText
whole = record { peek = λ s. got (first_of s.0) s; take = whole_take; offset = λ s. s.1 }
