-- ===== src/Logger/Async/Stepping.antt =====
-- A step of the thread of `backend_loop`, in src/logger/async_logger.cpp.
use api_gateway.Prelude.{
  ◌∷◌, refl, is_empty, inr, arith, append-nil, inl, ◌-◌, ◌∙◌, Bool-cases, ap, false, ◌++◌, [], some,
  true, ◌≡◌, Bytes, List, ℕ, ◌≤◌,
}
use api_gateway.Logger.Async.{
  FileSystem, AsyncLogger, Phase, at_loop, at_swap, at_flush, at_last_swap, at_last_flush, ended,
  backend_step,
}
use api_gateway.Logger.Async.Flushing.{text_of, output, Fits}
use api_gateway.Logger.Async.Order.{IsKept, Drained, Drained-at, flush_next-IsKept}

-- How many steps a thread that has to stop is from its end.
unfoldable pub rank : Phase → ℕ
rank at_swap = 5
rank at_flush = 4
rank at_loop = 3
rank at_last_swap = 2
rank at_last_flush = 1
rank ended = 0

-- Behind its last swap nothing waits in the first buffer.
abbrev pub IsTaken : AsyncLogger → Type 0
IsTaken a = rank a.phase ≤ 1 → a.cur_buf ≡ []

-- What a step from `a` to `b` keeps, and where it leads.
pub record Stepped (old : Bytes) (appended : List Bytes) (a b : AsyncLogger) : Type 0 where
  pub kept : IsKept old appended b
  pub size : b.roll_size ≡ a.roll_size
  pub runs : b.running ≡ a.running
  pub goes_on : a.running ≡ true → 3 ≤ rank a.phase → 3 ≤ rank b.phase
  pub winds_down : a.running ≡ false → rank b.phase ≤ rank a.phase - 1
  pub takes : a.running ≡ false → IsTaken a → IsTaken b

empty_of : (xs : List Bytes) → is_empty xs ≡ true → xs ≡ []
empty_of [] h = refl
empty_of (x ∷ xs) h = cc

swap_texts : (cur next : List Bytes) → next ≡ [] → text_of (cur ++ next) ≡ text_of (next ++ cur)
swap_texts cur next e = rw e (ap text_of (append-nil cur))

module _ (fs : FileSystem) (old : Bytes) (appended : List Bytes) where
  -- The swap of the two buffers, on the way to `p`.
  swapped :
      (a : AsyncLogger) (p : Phase)
      → IsKept old appended a
      → a.next_buf ≡ []
      → Drained p a.cur_buf
      → IsKept old appended (record a { cur_buf = a.next_buf; next_buf = a.cur_buf; phase = p })
  swapped a p k e d = record {
    text = ap (λ t. output a.log_file ++ t) (swap_texts a.cur_buf a.next_buf e) ∙ k.text;
    goes_out = k.goes_out;
    count = k.count;
    drained = d;
  }

  moved :
      (a : AsyncLogger) (p : Phase)
      → IsKept old appended a
      → a.next_buf ≡ []
      → IsKept old appended (record a { phase = p })
  moved a p k e = record {
    text = k.text;
    goes_out = k.goes_out;
    count = k.count;
    drained = Drained-at fs p a.next_buf e;
  }

  pub backend_step-Stepped :
      (a : AsyncLogger)
      → IsKept old appended a
      → Fits fs a.roll_size 0 appended
      → (b : AsyncLogger) × (backend_step fs a ≡ some b) × Stepped old appended a b
  unfolding backend_step Drained rank
  backend_step-Stepped a k fits = go a.phase refl
    where
      go :
          (p : Phase)
          → a.phase ≡ p
          → (b : AsyncLogger) × (backend_step fs a ≡ some b) × Stepped old appended a b
      go at_loop e = elim (Bool-cases a.running) [
        | inl r ↦ (
          record a { phase = at_swap },
          rw (e, r) refl,
          record {
            kept = moved a at_swap k (rw e at k.drained);
            size = refl;
            runs = refl;
            goes_on = λ _ _. omega arith;
            winds_down = λ h. cc;
            takes = λ h. cc;
          },
        )
        | inr r ↦ (
          record a { phase = at_last_swap },
          rw (e, r) refl,
          record {
            kept = moved a at_last_swap k (rw e at k.drained);
            size = refl;
            runs = refl;
            goes_on = λ h. cc;
            winds_down = λ h. rw e (omega arith);
            takes = λ _ _ le. absurd (omega arith);
          },
        )
      ]
      go at_swap e = (
        record a { cur_buf = a.next_buf; next_buf = a.cur_buf; phase = at_flush },
        rw e refl,
        record {
          kept = swapped a at_flush k (rw e at k.drained) tt;
          size = refl;
          runs = refl;
          goes_on = λ _ _. omega arith;
          winds_down = λ h. rw e (omega arith);
          takes = λ _ _ le. absurd (omega arith);
        },
      )
      go at_flush e =
          let (b, r, (kept, next, phase, cur, runs, size)) =
            flush_next-IsKept fs old appended a at_loop k fits in
          (
            b,
            rw (e, r) refl,
            record {
              kept = kept;
              size = size;
              runs = runs;
              goes_on = λ _ _. rw phase (omega arith);
              winds_down = λ h. rw (phase, e) (omega arith);
              takes = λ _ _ le. absurd (omega (arith, ap rank phase));
            },
          )
      go at_last_swap e = elim (Bool-cases (is_empty a.cur_buf)) [
        | inl h ↦ (
          record a { phase = at_last_flush },
          rw (e, h) refl,
          record {
            kept = moved a at_last_flush k (rw e at k.drained);
            size = refl;
            runs = refl;
            goes_on = λ _ le. absurd (omega (arith, ap rank e));
            winds_down = λ _. rw e (omega arith);
            takes = λ _ _ _. empty_of a.cur_buf h;
          },
        )
        | inr h ↦ (
          record a { cur_buf = a.next_buf; next_buf = a.cur_buf; phase = at_last_flush },
          rw (e, h) refl,
          record {
            kept = swapped a at_last_flush k (rw e at k.drained) tt;
            size = refl;
            runs = refl;
            goes_on = λ _ le. absurd (omega (arith, ap rank e));
            winds_down = λ _. rw e (omega arith);
            takes = λ _ _ _. rw e at k.drained;
          },
        )
      ]
      go at_last_flush e =
          let (b, r, (kept, next, phase, cur, runs, size)) =
            flush_next-IsKept fs old appended a ended k fits in
          (
            b,
            rw (e, r) refl,
            record {
              kept = kept;
              size = size;
              runs = runs;
              goes_on = λ _ le. absurd (omega (arith, ap rank e));
              winds_down = λ h. rw (phase, e) (omega arith);
              takes = λ _ t _. cur ∙ t (rw e (omega arith));
            },
          )
      go ended e = (
        a,
        rw e refl,
        record {
          kept = k;
          size = refl;
          runs = refl;
          goes_on = λ _ le. le;
          winds_down = λ h. rw e (omega arith);
          takes = λ _ t. t;
        },
      )
