-- ===== src/Logger/Async/Flushing.antt =====
-- Writing a buffer out, `flush_buf` of src/logger/async_logger.cpp.
use api_gateway.Prelude.{
  Bool-cases, true, Bool, append_assoc, none, refl, ◌<◌, length-append, ap, inr, false, inl, ◌∙◌,
  ◌≤◌, arith, length, ◌&&◌, [], append-nil, ltb, ◌+◌, some, ◌++◌, ◌∷◌, ◌⊎◌, Bytes, List, ℕ, ◌≡◌,
}
use api_gateway.Logger.Async.{
  opened, standard_error, LogFile, FileSystem, roll_file, write_line, roll_if_full, flush_buf,
}

-- The lines with their ends.
unfoldable pub text_of : List Bytes → Bytes
text_of [] = []
text_of (line ∷ lines) = (line ++ b'\n' ∷ []) ++ text_of lines

-- What has been written to where the lines go.
unfoldable pub output : LogFile → Bytes
output f = elim f.fp [ opened ↦ f.file_text | _ ↦ f.error_text ]

pub output-opened : (f : LogFile) → f.fp ≡ opened → output f ≡ f.file_text
unfolding output
output-opened f e = rw e refl

abbrev pub IsOpen : LogFile → Type 0
IsOpen f = (f.fp ≡ opened) ⊎ (f.fp ≡ standard_error)

module _ (fs : FileSystem) (roll_size : ℕ) where
  -- No line is too long for what is left of the file.
  abbrev pub Fits : ℕ → List Bytes → Type 0
  Fits written lines = (roll_size ≡ 0) ⊎ (written + length (text_of lines) ≤ roll_size + 1)

  stays :
      (line : Bytes) (lines : List Bytes) (f : LogFile)
      → Fits f.written_bytes (line ∷ lines)
      → (ltb 0 roll_size && ltb roll_size (f.written_bytes + length line)) ≡ false
  unfolding text_of
  stays line lines f (inl e) = ground arith
  stays line lines f (inr e) =
      ground
        (arith, length-append (line ++ b'\n' ∷ []) (text_of lines), length-append line (b'\n' ∷ []))

  Fits-rest :
      (written : ℕ) (line : Bytes) (lines : List Bytes)
      → Fits written (line ∷ lines)
      → Fits (written + (length line + 1)) lines
  unfolding text_of
  Fits-rest written line lines (inl e) = inl e
  Fits-rest written line lines (inr e) = inr (
      omega (
        arith,
        length-append (line ++ b'\n' ∷ []) (text_of lines),
        length-append line (b'\n' ∷ []),
      ))

  -- What a buffer that fits does to where the lines go.
  abbrev pub Written : List Bytes → LogFile → LogFile → Type 0
  Written lines f g =
      (output g ≡ output f ++ text_of lines)
      × (g.fp ≡ f.fp)
      × (g.written_bytes ≡ f.written_bytes + length (text_of lines))

  write_line-Written :
      (line : Bytes) (f : LogFile)
      → IsOpen f
      → (g : LogFile) × (write_line line f ≡ some g)
        × (output g ≡ output f ++ (line ++ b'\n' ∷ []))
        × (g.fp ≡ f.fp)
        × (g.written_bytes ≡ f.written_bytes + (length line + 1))
  unfolding write_line output
  write_line-Written line f (inl e) = (
    record f {
      file_text = f.file_text ++ line ++ b'\n' ∷ [];
      written_bytes = f.written_bytes + (length line + 1);
    },
    rw e refl,
    rw e (append_assoc f.file_text line (b'\n' ∷ [])),
    refl,
    refl,
  )
  write_line-Written line f (inr e) = (
    record f {
      error_text = f.error_text ++ line ++ b'\n' ∷ [];
      written_bytes = f.written_bytes + (length line + 1);
    },
    rw e refl,
    rw e (append_assoc f.error_text line (b'\n' ∷ [])),
    refl,
    refl,
  )

  pub flush_buf-Written :
      (lines : List Bytes) (f : LogFile)
      → IsOpen f
      → Fits f.written_bytes lines
      → (g : LogFile) × (flush_buf fs roll_size lines f ≡ some g) × Written lines f g
  unfolding flush_buf text_of roll_if_full
  flush_buf-Written [] f o fits = (f, refl, (simp append-nil, refl, omega arith))
  flush_buf-Written (line ∷ lines) f o fits =
      let (g, e, out, same, n) = write_line-Written line f o in
      let (h, d, (out', same', n')) =
        flush_buf-Written lines g (rw same o) (rw n (Fits-rest f.written_bytes line lines fits)) in
      (
        h,
        rw (stays line lines f fits, e, d) refl,
        (
          out'
              ∙ ap (λ t. t ++ text_of lines) out
              ∙ append_assoc (output f) (line ++ b'\n' ∷ []) (text_of lines),
          same' ∙ same,
          omega (
            arith,
            n,
            n',
            length-append (line ++ b'\n' ∷ []) (text_of lines),
            length-append line (b'\n' ∷ []),
          ),
        ),
      )

  -- Rolling an open file over is undefined behaviour.
  roll_file-opened : (moved ok : Bool) (f : LogFile) → f.fp ≡ opened → roll_file moved ok f ≡ none
  unfolding roll_file
  roll_file-opened true ok f e = rw e refl
  roll_file-opened false ok f e = rw e refl

  -- Writing out a buffer to an open file that has not been overrun is undefined behaviour
  -- whenever rolling is on and the buffer's lines with their ends go more than one byte over the
  -- size to roll at.
  pub flush_buf-none :
      (lines : List Bytes) (f : LogFile)
      → f.fp ≡ opened
      → f.written_bytes ≤ roll_size + 1
      → 0 < roll_size
      → roll_size + 1 < f.written_bytes + length (text_of lines)
      → flush_buf fs roll_size lines f ≡ none
  unfolding flush_buf text_of roll_if_full
  flush_buf-none [] f o le positive over = absurd (omega arith)
  flush_buf-none (line ∷ lines) f o le positive over =
      elim (Bool-cases (ltb 0 roll_size && ltb roll_size (f.written_bytes + length line))) [
        | inl full ↦ rw (full, roll_file-opened (fs.renames f) (fs.opens f) f o) refl
        | inr room ↦
            let (g, e, out, same, n) = write_line-Written line f (inl o) in
            let rest = flush_buf-none lines g (same ∙ o) (ground arith) positive (
              omega (
                arith,
                n,
                length-append (line ++ b'\n' ∷ []) (text_of lines),
                length-append line (b'\n' ∷ []),
              )) in
            rw (room, e, rest) refl
      ]
