-- ===== src/Logger/Lines.antt =====
-- The name of the source file in a line of the log, and the filter by level, in
-- src/logger/logger.cpp.
use api_gateway.Prelude.Perms.{All-append}
use api_gateway.Prelude.{
  append_assoc, ==_iff, refl, sym, ap, inr, Bool-cases, ◌∙◌, false, inl, ◌∷◌, ◌⊎◌, [], append-nil,
  ◌==◌, All, ◌++◌, ◌≡◌, Bytes,
}
use api_gateway.Logger.{filename_from, filename_of}

-- No byte of the text is a slash.
abbrev pub IsPlain : Bytes → Type 0
IsPlain s = All (λ c. (c == b'/') ≡ false) s

-- The directory of a path: nothing, or a text that ends in a slash.
abbrev pub IsDirectory : Bytes → Type 0
IsDirectory dir = (dir ≡ []) ⊎ ((s : Bytes) × (dir ≡ s ++ b'/' ∷ []))

-- The loop, at the bytes `p` behind those that it has read: the name so far is what is behind the
-- last slash, and `p`.
filename_from-split :
    (p dir name : Bytes)
    → IsDirectory dir
    → IsPlain name
    → (dir' name' : Bytes) × (filename_from (name ++ p) p ≡ name')
      × (dir ++ name ++ p ≡ dir' ++ name')
      × IsDirectory dir'
      × IsPlain name'
unfolding filename_from
filename_from-split [] dir name d n = (dir, name, append-nil name, append-nil (dir ++ name), d, n)
filename_from-split (c ∷ p) dir name d n = elim (Bool-cases (c == b'/')) [
  | inl slash ↦
      let same : c ≡ b'/' = (==_iff c b'/').0 slash in
      let parent = (dir ++ name) ++ c ∷ [] in
      let (dir', name', e, whole, d', n') =
        filename_from-split p parent [] (inr (dir ++ name, rw same refl)) tt in
      (
        dir',
        name',
        rw slash e,
        sym (append_assoc (dir ++ name) (c ∷ []) p)
            ∙ ap (λ t. t ++ p) (sym (append-nil parent))
            ∙ whole,
        d',
        n',
      )
  | inr other ↦
      let longer = append_assoc name (c ∷ []) p in
      let (dir', name', e, whole, d', n') =
        filename_from-split p dir (name ++ c ∷ []) d
          (All-append (λ c. (c == b'/') ≡ false) name (c ∷ []) n (other, tt)) in
      (
        dir',
        name',
        rw other (rw longer at e),
        append_assoc dir name (c ∷ p)
            ∙ ap (λ t. dir ++ t) (sym longer)
            ∙ sym (append_assoc dir (name ++ c ∷ []) p)
            ∙ whole,
        d',
        n',
      )
]

-- The file name in a line of the log is what is behind the last slash of the source file's path:
-- the path is a directory, empty or ending in a slash, and then the name, which has no slash.
pub filename_of-split :
    (file : Bytes)
    → (dir : Bytes) × (file ≡ dir ++ filename_of file)
      × IsDirectory dir
      × IsPlain (filename_of file)
unfolding filename_of
filename_of-split file =
    let (dir, name, e, whole, d, n) = filename_from-split file [] [] (inl refl) tt in
    (dir, whole ∙ ap (λ t. dir ++ t) (sym e), d, rw (sym e) at n)
