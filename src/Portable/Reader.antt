-- ===== src/Portable/Reader.antt =====
-- portable_stream.py: read_portable_workspace. The file is the list of its bytes; its temporary directory is
-- the workspace, and is removed when the reading fails.
use ah_there_it_is.Base.{
  ℕ, ◌+◌, ◌≡◌, ◌≢◌, sym, ◌∙◌, ◌≤◌, ◌<◌, true, Option, none, some, List, [], length, arith, leb,
  if◌then◌else◌,
}
use ah_there_it_is.Text.{Text}
use ah_there_it_is.Portable.Programs.{
  Json, Section, Ended, read, refused, undecodable, out_of_fuel, Workspace, run,
}
use ah_there_it_is.Portable.Bytes.{ChunkedText, chunked, open_chunked, decode_all, WholeText, whole}
use ah_there_it_is.Portable.Parser.{parse}
use ah_there_it_is.Portable.Simulation.{outcome}
use ah_there_it_is.Portable.Chunks.{chunks_agree}
use ah_there_it_is.Portable.Fuel.{Ends, Uses}
use ah_there_it_is.Portable.Ending.{parse-Uses}

-- the workspace at the start
abbrev pub no_records : Workspace
no_records section = []

-- `read_portable_workspace`, or none when the size of the chunks is refused
unfoldable pub read_portable_workspace :
    (Text → Option Json) → ℕ → List ℕ → ℕ → Option (Ended Json ChunkedText)
read_portable_workspace loads fuel bytes chunk_size =
    if leb 1 chunk_size
    then some (run chunked (parse loads fuel) (open_chunked bytes chunk_size) no_records)
    else none

-- `iter_records`
abbrev pub iter_records : Section → Workspace → List Json
iter_records section workspace = workspace section

Ends-outcome :
    {A : Type 0} (t : Text) (k : ℕ) (e : Ended A WholeText) → Ends t k e → outcome e ≢ out_of_fuel
unfolding Ends outcome
Ends-outcome t k (read a s w) h p = ground (arith, p)
Ends-outcome t k (refused detail n) h p = ground (arith, p)
Ends-outcome t k undecodable h p = ground (arith, p)
Ends-outcome t k out_of_fuel h p = ground (arith, h)

parse-Ends :
    (loads : Text → Option Json) (bytes : List ℕ) (chunk_size fuel : ℕ) (t : Text)
    → decode_all bytes ≡ some t
    → 4 ≤ chunk_size
    → length t + 1 < fuel
    → outcome (run chunked (parse loads fuel) (open_chunked bytes chunk_size) no_records)
      ≢ out_of_fuel
unfolding Uses
parse-Ends loads bytes chunk_size fuel t h k l p =
    Ends-outcome t 0 (run whole (parse loads fuel) (t, 0) no_records)
      (parse-Uses loads fuel t 0 no_records (omega (arith, l)))
      (sym (chunks_agree (parse loads fuel) bytes chunk_size t no_records h k) ∙ p)

-- Whatever json.loads returns, on a file that is UTF-8, read in chunks of any size of at least four bytes,
-- with fuel for each character and two more, the reader ends: it returns a value or refuses the file.
pub read_portable_workspace-Ends :
    (loads : Text → Option Json) (bytes : List ℕ) (chunk_size fuel : ℕ) (t : Text)
    → decode_all bytes ≡ some t
    → 4 ≤ chunk_size
    → length t + 1 < fuel
    → (e : Ended Json ChunkedText) × (read_portable_workspace loads fuel bytes chunk_size ≡ some e)
      × (outcome e ≢ out_of_fuel)
unfolding read_portable_workspace
read_portable_workspace-Ends loads bytes chunk_size fuel t h k l =
    let positive : leb 1 chunk_size ≡ true = ground arith in
    (
      run chunked (parse loads fuel) (open_chunked bytes chunk_size) no_records,
      rw positive,
      parse-Ends loads bytes chunk_size fuel t h k l,
    )
