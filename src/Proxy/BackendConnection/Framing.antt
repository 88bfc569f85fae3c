-- ===== src/Proxy/BackendConnection/Framing.antt =====
-- What `recv_all` takes for a whole response, whatever the pieces in which it arrives.
use api_gateway.Prelude.{
  le→leb, lt→not_leb, ℕ, suc, ◌+◌, ◌≤◌, ◌<◌, ◌≡◌, refl, ap, ◌∙◌, sym, subst, true, false, none,
  some, List, [], ◌∷◌, ◌++◌, map, Bytes, length, take, leb, find, double_crlf, Option-cases, ◌⊎◌,
  inl, inr, arith, length-append, take-append, append_assoc, append-nil, All, ◌≢◌, joined,
}
use api_gateway.Prelude.Slices.{take-append-le}
use api_gateway.Prelude.Finding.{find-append, find-le}
use api_gateway.Proxy.BackendConnection.{
  BackendConnection, RecvAnswer, got, Receiving, nothing_received, announced, note_length,
  has_response, take_chunk, recv_loop, recv_result, recv_all, is_open, touch,
}

-- A response whose head ends where the text first has an empty line, and whose body has the
-- announced length.
pub record IsFramed (head body : Bytes) : Type 0 where
  pub cut : find double_crlf (head ++ (double_crlf ++ body)) ≡ some (length head)
  pub size : announced head ≡ length body

abbrev whole : Bytes → Bytes → Bytes
whole head body = head ++ (double_crlf ++ body)

length-whole : (head body : Bytes) → length (whole head body) ≡ length head + 4 + length body
length-whole head body =
    omega (arith, length-append head (double_crlf ++ body), length-append double_crlf body)

-- What is known of the header so far.
abbrev IsSettled : Bytes → Bytes → Receiving → Type 0
IsSettled head body r =
    (r.content_length ≡ none)
    ⊎ ((r.content_length ≡ some (length body)) × (r.header_end ≡ some (length head)))

-- A piece is noted: the text so far, and whether it is all.
abbrev IsNoted : Bytes → Bytes → Receiving → Type 0
IsNoted head body q =
    IsSettled head body q
    × ((q.got_data ≡ true) × (has_response q ≡ leb (length (whole head body)) (length q.resp)))

found_end :
    (head body s rest : Bytes) (i : ℕ)
    → IsFramed head body
    → s ++ rest ≡ whole head body
    → find double_crlf s ≡ some i
    → (i ≡ length head) × (announced (take i s) ≡ length body)
found_end head body s rest i f e q =
    let later : find double_crlf (s ++ rest) ≡ some i = find-append double_crlf s rest i q in
    let there : find double_crlf (s ++ rest) ≡ some (length head) = rw e f.cut in
    let same : i ≡ length head = cc (later, there) in
    let inside : i ≤ length s = omega (arith, find-le double_crlf s i q) in
    let start : take i s ≡ head =
      sym (take-append-le i s rest inside)
      ∙ ap (take i) e
      ∙ ap (λ k. take k (whole head body)) same
      ∙ take-append head (double_crlf ++ body) in
    (same, ap announced start ∙ f.size)

note_length-known : (r : Receiving) (n : ℕ) → r.content_length ≡ some n → note_length r ≡ r
unfolding note_length
note_length-known r n e = ground arith

pub note_length-missing :
    (r : Receiving)
    → r.content_length ≡ none
    → find double_crlf r.resp ≡ none
    → note_length r ≡ record r { header_end = none }
unfolding note_length
note_length-missing r e q = ground arith

pub note_length-found :
    (r : Receiving) (i : ℕ)
    → r.content_length ≡ none
    → find double_crlf r.resp ≡ some i
    → note_length r
      ≡ record r { header_end = some i; content_length = some (announced (take i r.resp)) }
unfolding note_length
note_length-found r i e q = rw (e, note_length) (rw q refl)

-- An unfinished text is shorter than the whole one.
unfinished :
    (head body s rest : Bytes)
    → IsFramed head body
    → s ++ rest ≡ whole head body
    → find double_crlf s ≡ none
    → leb (length (whole head body)) (length s) ≡ false
unfinished head body s [] f e q =
    let all : s ≡ whole head body = sym (append-nil s) ∙ e in absurd (cc (all, f.cut))
unfinished head body s (c ∷ cs) f e q =
    let sizes : length (whole head body) ≡ length s + suc (length cs) =
      ap length (sym e) ∙ length-append s (c ∷ cs) in
    ground (arith, sizes)

settled-has_response :
    (head body : Bytes) (q : Receiving)
    → q.content_length ≡ some (length body)
    → q.header_end ≡ some (length head)
    → has_response q ≡ leb (length (whole head body)) (length q.resp)
unfolding has_response
settled-has_response head body q c h = rw (c, h, length-whole head body) refl

pub take_chunk-lem :
    (s : Bytes) (r : Receiving)
    → take_chunk s r ≡ note_length (record r { resp = r.resp ++ s; got_data = true })
unfolding take_chunk
take_chunk-lem s r = refl

-- Before the end of the header has been seen.
open-IsNoted :
    (head body : Bytes) (q : Receiving) (rest : Bytes)
    → IsFramed head body
    → q.content_length ≡ none
    → q.resp ++ rest ≡ whole head body
    → q.got_data ≡ true
    → IsNoted head body (note_length q) × ((note_length q).resp ≡ q.resp)
unfolding has_response
open-IsNoted head body q rest f c e g = elim (Option-cases (find double_crlf q.resp)) [
  | inl missing ↦
      let kept = note_length-missing q c missing in
      let short = unfinished head body q.resp rest f e missing in
      subst (λ t. IsNoted head body t × (t.resp ≡ q.resp)) (sym kept)
        ((inl c, (g, sym short)), refl)
  | inr (i, found) ↦
      let kept = note_length-found q i c found in
      let (there, size) = found_end head body q.resp rest i f e found in
      let t = record q { header_end = some i; content_length = some (announced (take i q.resp)) } in
      let known : t.content_length ≡ some (length body) = ap some size in
      let ended_ : t.header_end ≡ some (length head) = ap some there in
      subst (λ t. IsNoted head body t × (t.resp ≡ q.resp)) (sym kept)
        ((inr (known, ended_), (g, settled-has_response head body t known ended_)), refl)
]

noted :
    (head body : Bytes) (r : Receiving) (s rest : Bytes)
    → IsFramed head body
    → IsSettled head body r
    → (r.resp ++ s) ++ rest ≡ whole head body
    → IsNoted head body (take_chunk s r) × ((take_chunk s r).resp ≡ r.resp ++ s)
unfolding take_chunk note_length
noted head body r s rest f settled e =
    let fed = record r { resp = r.resp ++ s; got_data = true } in
    elim settled [
      | inl open_ ↦ open-IsNoted head body fed rest f open_ e refl
      | inr (c, h) ↦
          let kept : take_chunk s r ≡ fed =
            take_chunk-lem s r ∙ note_length-known fed (length body) c in
          subst (λ q. IsNoted head body q × (q.resp ≡ r.resp ++ s)) (sym kept)
            ((inr (c, h), (refl, settled-has_response head body fed c h)), refl)
    ]

nonempty : (t : Bytes) → t ≢ [] → 0 < length t
nonempty [] h = absurd (h refl)
nonempty (c ∷ cs) h = omega arith

pub recv_loop-stop :
    (s : Bytes) (answers : List RecvAnswer) (r : Receiving)
    → has_response (take_chunk s r) ≡ true
    → recv_loop (got s ∷ answers) r ≡ some (take_chunk s r, false)
unfolding recv_loop take_chunk
recv_loop-stop s answers r h = rw (h, recv_loop) refl

pub recv_loop-more :
    (s : Bytes) (answers : List RecvAnswer) (r : Receiving)
    → has_response (take_chunk s r) ≡ false
    → recv_loop (got s ∷ answers) r ≡ recv_loop answers (take_chunk s r)
unfolding recv_loop take_chunk
recv_loop-more s answers r h = rw (h, recv_loop) refl

-- The loop has read the whole response, and stops.
recv_loop-pieces :
    (head body : Bytes) (s : Bytes) (ss : List Bytes) (more : List RecvAnswer) (r : Receiving)
    → IsFramed head body
    → IsSettled head body r
    → r.resp ++ joined (s ∷ ss) ≡ whole head body
    → All (λ t. t ≢ []) ss
    → (q : Receiving) × (recv_loop (got s ∷ (map got ss ++ more)) r ≡ some (q, false))
      × (q.resp ≡ whole head body)
      × (q.got_data ≡ true)
recv_loop-pieces head body s [] more r f settled e pieces =
    let (known, text) = noted head body r s [] f settled (append_assoc r.resp s [] ∙ e) in
    let all : (take_chunk s r).resp ≡ whole head body =
      text ∙ ap (λ t. r.resp ++ t) (sym (append-nil s)) ∙ e in
    let full : has_response (take_chunk s r) ≡ true =
      known.1.1 ∙ rw all (le→leb _ _ (omega arith)) in
    (take_chunk s r, recv_loop-stop s more r full, all, known.1.0)
recv_loop-pieces head body s (t ∷ ts) more r f settled e pieces =
    let whole_ = append_assoc r.resp s (joined (t ∷ ts)) ∙ e in
    let (known, text) = noted head body r s (joined (t ∷ ts)) f settled whole_ in
    let again = ap (λ x. x ++ joined (t ∷ ts)) text ∙ whole_ in
    let sizes : length (whole head body) ≡ length (take_chunk s r).resp + length (joined (t ∷ ts)) =
      ap length (sym again) ∙ length-append (take_chunk s r).resp (joined (t ∷ ts)) in
    let piece : 0 < length (joined (t ∷ ts)) =
      omega (arith, nonempty t pieces.0, length-append t (joined ts)) in
    let short : has_response (take_chunk s r) ≡ false =
      known.1.1 ∙ lt→not_leb _ _ (omega (arith, sizes, piece)) in
    let (q, run, all, data_) =
      recv_loop-pieces head body t ts more (take_chunk s r) f known.0 again pieces.1 in
    (q, recv_loop-more s (got t ∷ (map got ts ++ more)) r short ∙ run, all, data_)

-- Whatever the pieces in which a framed response arrives (the announced length is that of the
-- body, and the head ends at the first empty line), no piece after the first one empty, and
-- whatever may follow, `recv_all` on an open connection returns exactly the response, and no
-- later than its last piece.
pub recv_all-pieces :
    (now : ℕ) (head body s : Bytes) (ss : List Bytes) (more : List RecvAnswer)
    (c : BackendConnection)
    → is_open c.fd ≡ true
    → IsFramed head body
    → s ++ joined ss ≡ head ++ (double_crlf ++ body)
    → All (λ t. t ≢ []) ss
    → recv_all now (got s ∷ (map got ss ++ more)) c
      ≡ some (touch now c, head ++ (double_crlf ++ body))
unfolding recv_all recv_result
recv_all-pieces now head body s ss more c o f e pieces =
    let (q, run, all, data_) =
      recv_loop-pieces head body s ss more nothing_received f (inl refl) e pieces in
    ground (arith, run, all, data_)
