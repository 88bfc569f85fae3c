-- ===== src/Logger/Async/Order.antt =====
-- The lines over any interleaving of callers that append, the thread of `backend_loop` and `stop`,
-- in src/logger/async_logger.cpp.
use api_gateway.Prelude.{
  refl, append_assoc, length-append, sym, arith, ◌∙◌, ap, length, inr, ◌+◌, ◌∷◌, [], inl, some,
  ◌++◌, ◌≡◌, Bytes, List, Option,
}
use api_gateway.Prelude.Options.{◌>>=◌}
use api_gateway.Logger.Async.{
  LogFile, FileSystem, AsyncLogger, Phase, at_loop, at_swap, at_flush, at_last_swap, at_last_flush,
  ended, append, signal_stop, flush_next, backend_step,
}
use api_gateway.Logger.Async.Flushing.{text_of, output, IsOpen, Fits, flush_buf-Written}

pub data Action : Type 0 where
  appending : Bytes → Action
  backend : Action
  stopping : Action

unfoldable pub lines_of : List Action → List Bytes
lines_of [] = []
lines_of (appending line ∷ actions) = line ∷ lines_of actions
lines_of (backend ∷ actions) = lines_of actions
lines_of (stopping ∷ actions) = lines_of actions

pub text_of-append : (xs ys : List Bytes) → text_of (xs ++ ys) ≡ text_of xs ++ text_of ys
unfolding text_of
text_of-append [] ys = refl
text_of-append (x ∷ xs) ys =
    ap (λ t. (x ++ b'\n' ∷ []) ++ t) (text_of-append xs ys)
    ∙ sym (append_assoc (x ++ b'\n' ∷ []) (text_of xs) (text_of ys))

-- The other buffer is empty where the thread does not write it out.
unfoldable pub Drained : Phase → List Bytes → Type 0
Drained p next = elim p [ at_flush ↦ Unit {0} | at_last_flush ↦ Unit {0} | _ ↦ next ≡ [] ]

-- What the lines go to has `old` and then the lines that are in no buffer; together with the
-- buffers' they are the appended ones.
pub record IsKept (old : Bytes) (appended : List Bytes) (a : AsyncLogger) : Type 0 where
  pub text : output a.log_file ++ text_of (a.next_buf ++ a.cur_buf) ≡ old ++ text_of appended
  pub goes_out : IsOpen a.log_file
  pub count : a.log_file.written_bytes + length old ≡ length (output a.log_file)
  pub drained : Drained a.phase a.next_buf

module _ (fs : FileSystem) where
  unfoldable pub act : Action → AsyncLogger → Option AsyncLogger
  unfolding append signal_stop backend_step
  act (appending line) a = some (append line a)
  act backend a = backend_step fs a
  act stopping a = some (signal_stop a)

  unfoldable pub act_all : List Action → AsyncLogger → Option AsyncLogger
  unfolding act
  act_all [] a = some a
  act_all (x ∷ actions) a = act x a >>= act_all actions

  Kept : Bytes → List Bytes → AsyncLogger → Type 0
  Kept old appended a =
      (b : AsyncLogger) × (backend_step fs a ≡ some b)
      × IsKept old appended b
      × (b.roll_size ≡ a.roll_size)

  -- The buffer that waits fits, if all that is appended does.
  next-Fits :
      (old : Bytes) (appended : List Bytes) (a : AsyncLogger)
      → IsKept old appended a
      → Fits fs a.roll_size 0 appended
      → Fits fs a.roll_size a.log_file.written_bytes a.next_buf
  next-Fits old appended a k (inl e) = inl e
  next-Fits old appended a k (inr e) = inr (
      let sizes = ap length k.text in
      omega (
        arith,
        length-append (output a.log_file) (text_of (a.next_buf ++ a.cur_buf)),
        length-append old (text_of appended),
        ap length (text_of-append a.next_buf a.cur_buf),
        length-append (text_of a.next_buf) (text_of a.cur_buf),
        k.count,
        sizes,
      ))

  pub Drained-at : (p : Phase) (next : List Bytes) → next ≡ [] → Drained p next
  unfolding Drained
  Drained-at at_loop next e = e
  Drained-at at_swap next e = e
  Drained-at at_flush next e = tt
  Drained-at at_last_swap next e = e
  Drained-at at_last_flush next e = tt
  Drained-at ended next e = e

  -- The thread has written the other buffer out, and goes on at `next`.
  abbrev pub Flushed : Bytes → List Bytes → Phase → AsyncLogger → AsyncLogger → Type 0
  Flushed old appended next a b =
      IsKept old appended b
      × (b.next_buf ≡ [])
      × (b.phase ≡ next)
      × (b.cur_buf ≡ a.cur_buf)
      × (b.running ≡ a.running)
      × (b.roll_size ≡ a.roll_size)

  pub flush_next-IsKept :
      (old : Bytes) (appended : List Bytes) (a : AsyncLogger) (next : Phase)
      → IsKept old appended a
      → Fits fs a.roll_size 0 appended
      → (b : AsyncLogger) × (flush_next fs next a ≡ some b) × Flushed old appended next a b
  unfolding flush_next
  flush_next-IsKept old appended a next k fits = go a.next_buf refl
    where
      go :
          (lines : List Bytes)
          → a.next_buf ≡ lines
          → (b : AsyncLogger) × (flush_next fs next a ≡ some b) × Flushed old appended next a b
      go [] e = (
        record a { phase = next },
        rw e refl,
        (
          record {
            text = k.text;
            goes_out = k.goes_out;
            count = k.count;
            drained = Drained-at next a.next_buf e;
          },
          e,
          refl,
          refl,
          refl,
          refl,
        ),
      )
      go (line ∷ lines) e =
          let (f, r, (out, same, n)) =
            flush_buf-Written fs a.roll_size a.next_buf a.log_file k.goes_out
              (next-Fits old appended a k fits) in
          (
            record a { next_buf = []; phase = next; log_file = f },
            rw (r, e) refl,
            (
              record {
                text = emptied f out;
                goes_out = rw same k.goes_out;
                count = omega (
                  arith,
                  n,
                  ap length out,
                  length-append (output a.log_file) (text_of a.next_buf),
                  k.count,
                );
                drained = Drained-at next [] refl;
              },
              refl,
              refl,
              refl,
              refl,
              refl,
            ),
          )
        where
          emptied :
              (f : LogFile)
              → output f ≡ output a.log_file ++ text_of a.next_buf
              → output f ++ text_of a.cur_buf ≡ old ++ text_of appended
          emptied f out =
              ap (λ t. t ++ text_of a.cur_buf) out
              ∙ append_assoc (output a.log_file) (text_of a.next_buf) (text_of a.cur_buf)
              ∙ ap (λ t. output a.log_file ++ t) (sym (text_of-append a.next_buf a.cur_buf))
              ∙ k.text
