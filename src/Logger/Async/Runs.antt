-- ===== src/Logger/Async/Runs.antt =====
-- All appended lines are kept, in order, in src/logger/async_logger.cpp.
use api_gateway.Prelude.{
  length-append, length, refl, sym, ap, arith, ◌∙◌, [], append_assoc, false, inr, ◌≤◌, append-nil,
  inl, some, true, ◌∷◌, Bool, ℕ, ◌++◌, ◌≡◌, Bytes, List,
}
use api_gateway.Logger.Async.{FileSystem, AsyncLogger, append, signal_stop}
use api_gateway.Logger.Async.Flushing.{text_of, output, Fits}
use api_gateway.Logger.Async.Order.{
  Action, appending, backend, stopping, lines_of, act, act_all, IsKept, text_of-append,
}
use api_gateway.Logger.Async.Stepping.{rank, backend_step-Stepped}

append-IsKept :
    (old line : Bytes) (appended : List Bytes) (a : AsyncLogger)
    → IsKept old appended a
    → IsKept old (appended ++ line ∷ []) (append line a)
unfolding append
append-IsKept old line appended a k = record {
  text =
      ap (λ t. output a.log_file ++ t)
        (ap text_of (sym (append_assoc a.next_buf a.cur_buf (line ∷ [])))
          ∙ text_of-append (a.next_buf ++ a.cur_buf) (line ∷ []))
      ∙ sym (
          append_assoc (output a.log_file) (text_of (a.next_buf ++ a.cur_buf))
            (text_of (line ∷ [])))
      ∙ ap (λ t. t ++ text_of (line ∷ [])) k.text
      ∙ append_assoc old (text_of appended) (text_of (line ∷ []))
      ∙ ap (λ t. old ++ t) (sym (text_of-append appended (line ∷ [])));
  goes_out = k.goes_out;
  count = k.count;
  drained = k.drained;
}

unfoldable pub never_stops : List Action → Bool
never_stops [] = true
never_stops (appending line ∷ actions) = never_stops actions
never_stops (backend ∷ actions) = never_stops actions
never_stops (stopping ∷ actions) = false

module _ (fs : FileSystem) (old : Bytes) where
  Fits-prefix : (roll : ℕ) (xs ys : List Bytes) → Fits fs roll 0 (xs ++ ys) → Fits fs roll 0 xs
  Fits-prefix roll xs ys (inl e) = inl e
  Fits-prefix roll xs ys (inr e) =
      inr (omega (arith, ap length (text_of-append xs ys), length-append (text_of xs) (text_of ys)))

  -- A run from `a` on ends in a state that has kept all lines, and goes on if it was never stopped.
  abbrev pub Ran : List Action → List Bytes → AsyncLogger → Type 0
  Ran actions appended a =
      (b : AsyncLogger) × (act_all fs actions a ≡ some b)
      × IsKept old (appended ++ lines_of actions) b
      × (b.roll_size ≡ a.roll_size)
      × (never_stops actions ≡ true → a.running ≡ true → 3 ≤ rank a.phase → 3 ≤ rank b.phase)

  pub act_all-Ran :
      (actions : List Action) (appended : List Bytes) (a : AsyncLogger)
      → IsKept old appended a
      → Fits fs a.roll_size 0 (appended ++ lines_of actions)
      → Ran actions appended a
  unfolding act_all act lines_of never_stops signal_stop append
  act_all-Ran [] appended a k fits = (a, refl, rw append-nil k, refl, λ _ _ h. h)
  act_all-Ran (appending line ∷ actions) appended a k fits =
      let shift = append_assoc appended (line ∷ []) (lines_of actions) in
      let (b, r, kept, size, goes) =
        act_all-Ran actions (appended ++ line ∷ []) (append line a)
          (append-IsKept old line appended a k) (rw shift fits) in
      (b, r, rw shift at kept, size, goes)
  act_all-Ran (backend ∷ actions) appended a k fits =
      let (c, e, s) =
        backend_step-Stepped fs old appended a k
          (Fits-prefix a.roll_size appended (lines_of actions) fits) in
      let (b, r, kept, size, goes) = act_all-Ran actions appended c s.kept (rw s.size fits) in
      (b, rw e r, kept, size ∙ s.size, λ h run le. goes h (s.runs ∙ run) (s.goes_on run le))
  act_all-Ran (stopping ∷ actions) appended a k fits =
      let (b, r, kept, size, goes) =
        act_all-Ran actions appended (signal_stop a)
          (record { text = k.text; goes_out = k.goes_out; count = k.count; drained = k.drained })
          fits in
      (b, r, kept, size, λ h. cc)
