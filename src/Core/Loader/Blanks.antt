-- ===== src/Core/Loader/Blanks.antt =====
-- That the loop over blanks and comments ends within the modelled fuel, or never.
use api_gateway.Prelude.{
  loop_stuck, false, ◌==◌, ℕ, ◌≡◌, refl, none, some, [], ◌∷◌, Bytes, ◌≤◌, ◌<◌, ◌⊎◌, inr, arith,
  loop, loop_ends_or_not, length, more, suc,
}
use api_gateway.Core.Loader.Lexer.{
  is_white, skip_line, skip_block, skip_comment, white_round, skip_whitespace,
}

skip_line-le : (s : Bytes) → length (skip_line s) ≤ length s
unfolding skip_line
skip_line-le [] = omega arith
skip_line-le (c ∷ cs) = ground (arith, skip_line-le cs)

skip_block-le : (s : Bytes) → length (skip_block s) ≤ length s
unfolding skip_block
skip_block-le [] = omega arith
skip_block-le (c ∷ []) = omega arith
skip_block-le (c ∷ d ∷ cs) = ground (arith, skip_block-le (d ∷ cs))

skip_comment-step :
    (c : ℕ) (cs : Bytes)
    → (length (skip_comment (c ∷ cs)) < suc (length cs)) ⊎ (skip_comment (c ∷ cs) ≡ c ∷ cs)
unfolding skip_comment skip_line
skip_comment-step c [] = inr refl
skip_comment-step c (d ∷ cs) = ground (arith, skip_line-le cs, skip_block-le cs)

white_round-step : (s t : Bytes) → white_round s ≡ more t → (length t < length s) ⊎ (t ≡ s)
unfolding white_round
white_round-step [] t e = inr cc
white_round-step (c ∷ cs) t e = ground (arith, skip_comment-step c cs)

-- Skipping blanks and comments ends in as many rounds as there are bytes and one more, or it
-- never ends.
pub skip_whitespace_or_never :
    (s : Bytes)
    → ((t : Bytes) × (skip_whitespace s ≡ some t)) ⊎ ((fuel : ℕ) → loop fuel white_round s ≡ none)
unfolding skip_whitespace
skip_whitespace_or_never s =
    loop_ends_or_not length white_round white_round-step (suc (length s)) s (omega arith)

slash_round :
    (c : ℕ) (cs : Bytes)
    → (c == b'/') ≡ false
    → (c == b'*') ≡ false
    → white_round (b'/' ∷ c ∷ cs) ≡ more (b'/' ∷ c ∷ cs)
unfolding white_round skip_comment is_white
slash_round c cs l b = rw (l, b) refl

-- It never ends at a slash that opens no comment.
pub skip_whitespace-slash :
    (c : ℕ) (cs : Bytes)
    → (c == b'/') ≡ false
    → (c == b'*') ≡ false
    → skip_whitespace (b'/' ∷ c ∷ cs) ≡ none
unfolding skip_whitespace
skip_whitespace-slash c cs l b = loop_stuck white_round (b'/' ∷ c ∷ cs) (slash_round c cs l b) _
