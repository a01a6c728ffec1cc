-- ===== src/Frame/Reader.antt =====
-- frame/reader.go: `Reader.Read` over the bytes that the connection delivers.
pub mod Chunks
pub mod Fuel
pub mod Lines
pub mod RoundTrip
pub mod Session
use mathlib.Core.Option
use go_stomp.Base.{
  ℕ, zero, suc, ◌+◌, ◌-◌, ◌≤◌, ◌≡◌, refl, Bool, true, false, ◌||◌, Option, none, some, List, [],
  ◌∷◌, ◌++◌, Bytes, leb, ◌==◌, if◌then◌else◌, length, take, drop, str_eq, Result, ok, err, ◌>>=◌,
  ◌>>◌, Error, invalid_command, invalid_frame_format,
}
use go_stomp.Frame.Codec.{unencode_value}
use go_stomp.Frame.Command.{Command, parse_command}
use go_stomp.Frame.Data.{Frame}
use go_stomp.Frame.Header.{Header, add}
use go_stomp.Frame.Header.ContentLength.{content_length}

-- What a reader has still to give: the pieces that the connection delivers, in order. Where they
-- end, a read returns the reader's `fault`, io.EOF or another error of the connection.
abbrev pub Chunks : Type 0
Chunks = List Bytes

-- How many bytes are left.
abbrev pub total : Chunks → ℕ
total [] = 0
total (c ∷ cs) = length c + total cs

-- The bytes up to the first `delim`, with it, and what follows.
unfoldable pub cut : ℕ → Bytes → Option (Bytes × Bytes)
cut delim [] = none
cut delim (c ∷ s) =
    if c == delim then some (c ∷ [], s) else Option.map (λ p. (c ∷ p.0, p.1)) (cut delim s)

-- bufio.Reader.ReadBytes.
unfoldable pub read_bytes : ℕ → Chunks → Option (Bytes × Chunks)
unfolding cut
read_bytes delim [] = none
read_bytes delim (c ∷ cs) = elim (cut delim c) [
  | some (line, rest) ↦ some (line, rest ∷ cs)
  | none ↦ Option.map (λ p. (c ++ p.0, p.1)) (read_bytes delim cs)
]

-- bufio.Reader.ReadByte.
unfoldable pub read_byte : Chunks → Option (ℕ × Chunks)
read_byte [] = none
read_byte ([] ∷ cs) = read_byte cs
read_byte ((b ∷ c) ∷ cs) = some (b, c ∷ cs)

-- `for bytesRead < contentLength`: one `Read` gives at most what is left of a chunk.
unfoldable pub read_full : ℕ → Chunks → Option (Bytes × Chunks)
read_full zero cs = some ([], cs)
read_full (suc n) [] = none
read_full (suc n) (c ∷ cs) =
    if leb (suc n) (length c)
    then some (take (suc n) c, drop (suc n) c ∷ cs)
    else Option.map (λ p. (c ++ p.0, p.1)) (read_full (suc n - length c) cs)

-- bytes.HasSuffix.
unfoldable pub has_suffix : Bytes → Bytes → Bool
has_suffix [] suffix = str_eq [] suffix
has_suffix (c ∷ s) suffix = str_eq (c ∷ s) suffix || has_suffix s suffix

-- The `switch` of `readLine`.
unfoldable pub strip_line : Bytes → Bytes
unfolding has_suffix
strip_line line =
    if has_suffix line (b'\r' ∷ b'\n' ∷ [])
    then take (length line - 2) line
    else if has_suffix line (b'\n' ∷ [])
    then take (length line - 1) line
    else line

-- bytes.IndexByte, `none` for -1.
unfoldable pub index_byte : Bytes → ℕ → Option ℕ
index_byte [] b = none
index_byte (c ∷ s) b = if c == b then some 0 else Option.map suc (index_byte s b)

-- One header line: its name and value.
unfoldable pub parse_header_line : Bytes → Result (Bytes × Bytes)
unfolding index_byte unencode_value
parse_header_line line = elim (index_byte line b':') [
  | none ↦ err invalid_frame_format
  | some zero ↦ err invalid_frame_format
  | some (suc i) ↦ ok (unencode_value (take (suc i) line), unencode_value (drop (suc (suc i)) line))
]

module _ (fault : Error) where
  -- A read that ran into the end of the input.
  abbrev pub or_fault : {A : Type 0} → Option A → Result A
  or_fault none = err fault
  or_fault (some a) = ok a

  unfoldable pub read_line : Chunks → Result (Bytes × Chunks)
  unfolding read_bytes strip_line
  read_line cs = do (line, rest) ← or_fault (read_bytes b'\n' cs); ok (strip_line line, rest)

  -- The header loop. Every line takes a byte off the input, so the number of bytes that are left
  -- is enough fuel: with none left the next line is at the end of the input.
  unfoldable pub read_headers : ℕ → Header → Chunks → Result (Header × Chunks)
  unfolding read_line parse_header_line add
  read_headers zero h cs = err fault
  read_headers (suc fuel) h cs = read_line cs >>= λ (line, rest). elim line [
    | [] ↦ ok (h, rest)
    | c ∷ s ↦
        parse_header_line (c ∷ s) >>= λ (name, value). read_headers fuel (add h name value) rest
  ]

  -- The body: as many bytes as "content-length" says and a null byte, or all up to a null byte.
  unfoldable pub read_body : Header → Chunks → Result (Bytes × Chunks)
  unfolding read_full read_byte read_bytes content_length
  read_body h cs = content_length h >>= elim [
    | some n ↦ do
      (body, rest) ← or_fault (read_full n cs)
      (terminator, rest') ← or_fault (read_byte rest)
      if terminator == 0 then ok (body, rest') else err invalid_frame_format
    | none ↦ do (body, rest) ← or_fault (read_bytes 0 cs); ok (take (length body - 1) body, rest)
  ]

  unfoldable pub or_invalid : Option Command → Result Command
  or_invalid none = err invalid_command
  or_invalid (some c) = ok c

  unfoldable pub read_frame : Command → Chunks → Result (Frame × Chunks)
  unfolding read_headers read_body
  read_frame command cs = do
    (header, rest) ← read_headers (total cs) [] cs
    (body, rest') ← read_body header rest
    ok (record { command = command; header = header; body = body }, rest')

  -- `Read`, with what is left of the input; a `none` for its nil frame.
  unfoldable pub read : Chunks → Result (Option Frame × Chunks)
  unfolding read_line or_invalid read_frame parse_command
  read cs = read_line cs >>= λ (line, rest). elim line [
    | [] ↦ ok (none, rest)
    | c ∷ s ↦ do
      command ← or_invalid (parse_command (c ∷ s))
      (f, rest') ← read_frame command rest
      ok (some f, rest')
  ]
