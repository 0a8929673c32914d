-- ===== src/Tests/Portable.antt =====
-- Runs and witnesses for portable_stream.py, on a small file with a letter of two bytes.
use ah_there_it_is.Base.{
  ℕ, ◌≡◌, ◌≢◌, refl, arith, Option, none, some, List, [], ◌∷◌, ◌++◌, if◌then◌else◌, ◌==◌,
}
use ah_there_it_is.Text.{Text, codes, text_eq}
use ah_there_it_is.Portable.Programs.{
  Json, Section, Detail, Ended, read, refused, out_of_fuel, run, append, ◌>>=◌,
}
use ah_there_it_is.Portable.Bytes.{
  ChunkedText, chunked, whole, open_chunked, decode_all, decode, decode_byte, first_byte,
  fill_chunk, peek,
}
use ah_there_it_is.Portable.Parser.{
  parse, value, value_at, parse_object, parse_array, spooled_array, members, elements,
  spooled_elements, scalar, string, token, quoted, whitespace, expect, spool_section,
}
use ah_there_it_is.Portable.Simulation.{outcome}
use ah_there_it_is.Portable.Chunks.{chunks_agree}
use ah_there_it_is.Portable.Reader.{
  no_records, iter_records, read_portable_workspace, read_portable_workspace-Ends,
}

abbrev without_last : Text → Text
without_last [] = []
without_last (c ∷ []) = []
without_last (c ∷ d ∷ s) = c ∷ without_last (d ∷ s)

-- a stand-in for `json.loads`: strings without escapes, and numbers
abbrev loads : Text → Option Json
loads [] = none
loads (c ∷ s) = if c == 34 then some (Json.text (without_last s)) else some (Json.number (c ∷ s))

-- `{"history":{"events":["é",7]}}`
abbrev file : List ℕ
file = codes "{\"history\":{\"events\":[\"" ++ 195 ∷ 169 ∷ codes "\",7]}}"

abbrev contents : Text
contents = codes "{\"history\":{\"events\":[\"é\",7]}}"

file_decodes : decode_all file ≡ some contents
unfolding decode_all decode decode_byte first_byte
file_decodes = refl

-- the records that a run has spooled
abbrev spooled_events : {S : Type 0} → Ended Json S → List Json
spooled_events (read v s w) = iter_records Section.events w
spooled_events _ = []

events_are_spooled :
    spooled_events (run whole (parse loads 40) (contents, 0) no_records)
    ≡ Json.text (codes "é") ∷ Json.number (codes "7") ∷ []
unfolding run append ◌>>=◌ parse value value_at parse_object parse_array spooled_array members
    elements spooled_elements scalar string token quoted whitespace expect spool_section text_eq
events_are_spooled = refl

-- a chunk of one byte ends in the middle of the letter, which is taken for the end of the file
one_byte_chunks_lose_letters :
    outcome (run chunked (parse loads 10) (open_chunked (34 ∷ 195 ∷ 169 ∷ 34 ∷ []) 1) no_records)
    ≡ refused Detail.unterminated_string 1
unfolding outcome run ◌>>=◌ parse value value_at string quoted whitespace expect peek fill_chunk
    decode decode_byte first_byte
one_byte_chunks_lose_letters = refl

chunks_agree_example :
    outcome (run chunked (parse loads 40) (open_chunked file 5) no_records)
    ≡ outcome (run whole (parse loads 40) (contents, 0) no_records)
chunks_agree_example =
    chunks_agree (parse loads 40) file 5 contents no_records file_decodes (omega arith)

read_portable_workspace-Ends_example :
    (e : Ended Json ChunkedText) × (read_portable_workspace loads 40 file 5 ≡ some e)
    × (outcome e ≢ out_of_fuel)
read_portable_workspace-Ends_example =
    read_portable_workspace-Ends loads file 5 40 contents file_decodes (omega arith) (omega arith)
