-- ===== src/Utils/Requests.antt =====
-- What `recv_all_request` of src/utils/utils.cpp does with the head of a request.
use api_gateway.Prelude.{
  refl, arith, false, true, ltb, ◌<◌, ◌≡◌, ◌≢◌, ◌↔◌, ◌∙◌, sym, ap, double_crlf, find, ◌≤◌, length,
  List, Bytes, ℕ, ◌∷◌, ◌++◌, [], some, none, zero, suc, map, All, joined, length-append,
  append_assoc, Option-cases, Bool-cases, not, ◌&&◌, Bool, Option, inl, inr,
}
use api_gateway.Prelude.Int.{ℤ}
use api_gateway.Prelude.Finding.{find-append-none}
use api_gateway.Utils.{
  RecvAnswer, ReadStep, stopping, reading_on, request_round, got, closed, failed, Reading,
  undefined, effective_max, content_length_literal, read_bytes, find_length, note_found,
  note_header, too_long, after_headers, look_for_header, request_loop, recv_all_request,
}

read_bytes_beyond : (n : ℕ) (s : Bytes) → length s < n → read_bytes n s ≡ none
unfolding read_bytes
read_bytes_beyond zero s h = absurd (omega arith)
read_bytes_beyond (suc n) [] h = refl
read_bytes_beyond (suc n) (c ∷ s) h = rw (read_bytes_beyond n s (omega arith)) refl

read_bytes_within : (n : ℕ) (s : Bytes) → n ≤ length s → (t : Bytes) × (read_bytes n s ≡ some t)
unfolding read_bytes
read_bytes_within zero s h = ([], refl)
read_bytes_within (suc n) [] h = absurd (omega arith)
read_bytes_within (suc n) (c ∷ s) h =
    let (t, e) = read_bytes_within n s (omega arith) in (c ∷ t, rw e refl)

-- A round with a defined end, or one that has looked through the head.
IsFine : ReadStep → Type 0
IsFine (stopping text) = text ≢ undefined
IsFine (reading_on q) = q.headers_complete ≡ true

le→not_ltb : (a b : ℕ) → b ≤ a → ltb a b ≡ false
le→not_ltb a b h = ground arith

&&-false : (b : Bool) → (b && false) ≡ false
&&-false false = refl
&&-false true = refl

after-IsFine :
    (limit : ℕ) (s : Bytes) (r q : Reading)
    → q.headers_complete ≡ true
    → look_for_header (record r { data_ = r.data_ ++ s }) ≡ some q
    → IsFine (request_round limit s r)
unfolding request_round IsFine
after-IsFine limit s r q h e = elim (Bool-cases (ltb limit (length (r.data_ ++ s)))) [
  | inl big ↦ rw big (λ u. cc u)
  | inr fits ↦ elim (Bool-cases (not r.headers_complete && too_long limit q.content_length)) [
    | inl long ↦ rw (fits, e, long) (λ u. cc u)
    | inr short ↦ elim (Option-cases (after_headers q)) [
      | inl on ↦ rw (fits, e, short, on, h, &&-false (ltb (length s) 4096)) refl
      | inr (t, whole) ↦ rw (fits, e, short, whole) (λ u. cc u)
    ]
  ]
]

complete-IsFine :
    (limit : ℕ) (s : Bytes) (r : Reading)
    → r.headers_complete ≡ true
    → IsFine (request_round limit s r)
unfolding look_for_header
complete-IsFine limit s r h =
    after-IsFine limit s r (record r { data_ = r.data_ ++ s }) h (rw h refl)

-- Once the head has been looked through, the reading has a defined end.
defined_of_fine :
    (limit : ℕ) (s : Bytes) (answers : List RecvAnswer) (r : Reading) (n : ReadStep)
    → request_round limit s r ≡ n
    → IsFine n
    → request_loop limit (got s ∷ answers) r ≢ undefined
unfolding request_loop IsFine
defined_of_fine limit s answers r (stopping text) e f = rw (e, request_loop) f
defined_of_fine limit s [] r (reading_on q) e f = rw (e, request_loop) (λ u. cc u)
defined_of_fine limit s (closed ∷ answers) r (reading_on q) e f = rw (e, request_loop) (λ u. cc u)
defined_of_fine limit s (failed ∷ answers) r (reading_on q) e f = rw (e, request_loop) (λ u. cc u)
defined_of_fine limit s (got t ∷ answers) r (reading_on q) e f =
    rw (e, request_loop)
      (defined_of_fine limit t answers q (request_round limit t q) refl
        (complete-IsFine limit t q f))

find_length_beyond : (i : ℕ) (d : Bytes) → 16 < i → find_length i d ≡ none
unfolding find_length
find_length_beyond i d h = rw (read_bytes_beyond i content_length_literal h) refl

find_length_within : (i : ℕ) (d : Bytes) → i ≤ 16 → (m : Option ℕ) × (find_length i d ≡ some m)
unfolding find_length
find_length_within i d h =
    let (t, e) = read_bytes_within i content_length_literal h in (find t d, rw e refl)

note_found_complete :
    (i : ℕ) (name : Option ℕ) (r : Reading) → (note_found i name r).headers_complete ≡ true
unfolding note_found
note_found_complete i none r = refl
note_found_complete i (some name) r = refl

-- The text with the new piece, before the head has been looked through.
look_for_header_found :
    (i : ℕ) (r : Reading)
    → r.headers_complete ≡ false
    → find double_crlf r.data_ ≡ some i
    → look_for_header r ≡ note_header i r
unfolding look_for_header
look_for_header_found i r h e = ground arith

head_defined :
    (limit i : ℕ) (s : Bytes) (answers : List RecvAnswer) (r : Reading)
    → r.headers_complete ≡ false
    → find double_crlf (r.data_ ++ s) ≡ some i
    → i ≤ 16
    → request_loop limit (got s ∷ answers) r ≢ undefined
unfolding note_header
head_defined limit i s answers r h e le =
    let grown = record r { data_ = r.data_ ++ s } in
    let (m, known) = find_length_within i grown.data_ le in
    let looked : look_for_header grown ≡ some (note_found i m grown) =
      look_for_header_found i grown h e ∙ rw known refl in
    defined_of_fine limit s answers r (request_round limit s r) refl
      (after-IsFine limit s r (note_found i m grown) (note_found_complete i m grown) looked)

head_undefined :
    (limit i : ℕ) (s : Bytes) (answers : List RecvAnswer) (r : Reading)
    → length (r.data_ ++ s) ≤ limit
    → r.headers_complete ≡ false
    → find double_crlf (r.data_ ++ s) ≡ some i
    → 16 < i
    → request_loop limit (got s ∷ answers) r ≡ undefined
unfolding request_loop request_round note_header
head_undefined limit i s answers r fits h e lt =
    let grown = record r { data_ = r.data_ ++ s } in
    let looked : look_for_header grown ≡ none =
      look_for_header_found i grown h e ∙ rw (find_length_beyond i grown.data_ lt) refl in
    let round : request_round limit s r ≡ stopping undefined =
      rw (le→not_ltb limit (length grown.data_) fits, looked) refl in
    rw (round, request_loop) refl

look_for_header_missing :
    (r : Reading) → find double_crlf r.data_ ≡ none → look_for_header r ≡ some r
unfolding look_for_header
look_for_header_missing r e = ground arith

-- A full piece without the end of the head is kept, and the loop goes on.
loop_headless :
    (limit : ℕ) (s : Bytes) (answers : List RecvAnswer) (r : Reading)
    → length (r.data_ ++ s) ≤ limit
    → r.headers_complete ≡ false
    → r.content_length ≡ none
    → find double_crlf (r.data_ ++ s) ≡ none
    → 4096 ≤ length s
    → request_loop limit (got s ∷ answers) r
      ≡ request_loop limit answers (record r { data_ = r.data_ ++ s })
unfolding request_loop request_round after_headers too_long
loop_headless limit s answers r fits h c e long =
    let grown = record r { data_ = r.data_ ++ s } in
    let looked = look_for_header_missing grown e in
    let round : request_round limit s r ≡ reading_on grown = ground (arith, looked) in
    rw (round, request_loop) refl

-- The reading of pieces that are full, up to the one with which the head ends.
loop_head :
    (limit i : ℕ) (prior : List Bytes) (s : Bytes) (answers : List RecvAnswer) (r : Reading)
    → r.headers_complete ≡ false
    → r.content_length ≡ none
    → length (r.data_ ++ (joined prior ++ s)) ≤ limit
    → All (λ t. 4096 ≤ length t) prior
    → find double_crlf (r.data_ ++ joined prior) ≡ none
    → find double_crlf (r.data_ ++ (joined prior ++ s)) ≡ some i
    → (request_loop limit (map got prior ++ got s ∷ answers) r ≡ undefined) ↔ (16 < i)
loop_head limit i [] s answers r h c fits full missing e = (
  (λ u. elim (Bool-cases (ltb 16 i)) [
    | inl lt ↦ ground arith
    | inr le ↦ absurd (head_defined limit i s answers r h e (ground arith) u)
  ]),
  head_undefined limit i s answers r fits h e,
)
loop_head limit i (t ∷ prior) s answers r h c fits full missing e =
    let grown = record r { data_ = r.data_ ++ t } in
    let whole : r.data_ ++ (joined (t ∷ prior) ++ s) ≡ grown.data_ ++ (joined prior ++ s) =
      ap (λ x. r.data_ ++ x) (append_assoc t (joined prior) s)
      ∙ sym (append_assoc r.data_ t (joined prior ++ s)) in
    let before : find double_crlf (grown.data_ ++ joined prior) ≡ none =
      rw (append_assoc r.data_ t (joined prior)) missing in
    let sizes = length-append grown.data_ (joined prior ++ s) in
    let ih =
      loop_head limit i prior s answers grown h c (rw⁻¹ whole fits) full.1 before (rw⁻¹ whole e) in
    rw
      (loop_headless limit t (map got prior ++ got s ∷ answers) r
        (omega (arith, sizes, ap length whole)) h c
        (find-append-none double_crlf grown.data_ (joined prior) before) full.0)
      ih

-- When the end of the head arrives with a piece, all that has arrived with it is within the
-- limit, and the pieces before it are of 4096 bytes at least, `recv_all_request` runs into
-- undefined behaviour exactly if the head, without its end, is longer than 16 bytes.
pub recv_all_request-undefined :
    (max_size : ℤ) (prior : List Bytes) (s : Bytes) (i : ℕ) (answers : List RecvAnswer)
    → length (joined prior ++ s) ≤ effective_max max_size
    → All (λ t. 4096 ≤ length t) prior
    → find double_crlf (joined prior) ≡ none
    → find double_crlf (joined prior ++ s) ≡ some i
    → (recv_all_request max_size (map got prior ++ got s ∷ answers) ≡ undefined) ↔ (16 < i)
unfolding recv_all_request
recv_all_request-undefined max_size prior s i answers fits full missing e =
    loop_head (effective_max max_size) i prior s answers _ refl refl fits full missing e
