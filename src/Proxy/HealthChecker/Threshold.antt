-- ===== src/Proxy/HealthChecker/Threshold.antt =====
-- When a backend is healthy: three failures in a row make it unhealthy, one success healthy.
use api_gateway.Proxy.HealthChecker.{unchecked}
use api_gateway.Prelude.{◌||◌, ap, ◌∙◌, leb, ◌&&◌, ltb}
use api_gateway.Prelude.{
  ℕ, ◌+◌, ◌≡◌, refl, Bool, true, false, ◌&&◌, List, [], ◌∷◌, ◌++◌, leb, ltb, if◌then◌else◌, arith,
}
use api_gateway.Core.Config.{Backend}
use api_gateway.Proxy.HealthChecker.{BackendHealth, checked, changes}

-- The backend after each of the probes, the first one first.
unfoldable pub history : List (ℕ × Bool) → BackendHealth → BackendHealth
unfolding checked
history [] bh = bh
history ((now, ok) ∷ probes) bh = history probes (checked now ok bh)

-- The last reports of the probes, as the callback gets them.
unfoldable pub reports : List (ℕ × Bool) → BackendHealth → List (Backend × Bool)
unfolding checked changes
reports [] bh = []
reports ((now, ok) ∷ probes) bh =
    changes bh (checked now ok bh) ++ reports probes (checked now ok bh)

-- How many probes have failed since the last success, with those that failed before the list.
unfoldable pub failures : List (ℕ × Bool) → ℕ → ℕ
failures [] n = n
failures ((now, ok) ∷ probes) n = if ok then failures probes 0 else failures probes (n + 1)

-- Whether a probe has succeeded.
unfoldable pub succeeded : List (ℕ × Bool) → Bool
succeeded [] = false
succeeded ((now, ok) ∷ probes) = if ok then true else succeeded probes

abbrev IsCounted : ℕ → Bool → BackendHealth → Type 0
IsCounted n seen bh = (bh.consecutive_failures ≡ n) × (bh.healthy ≡ (seen && ltb n 3))

history-IsCounted :
    (probes : List (ℕ × Bool)) (n : ℕ) (seen : Bool) (bh : BackendHealth)
    → IsCounted n seen bh
    → IsCounted (failures probes n) (seen || succeeded probes) (history probes bh)
unfolding history failures succeeded checked
history-IsCounted [] n true bh h = h
history-IsCounted [] n false bh h = h
history-IsCounted ((now, true) ∷ probes) n true bh h =
    history-IsCounted probes 0 true (checked now true bh) (refl, refl)
history-IsCounted ((now, true) ∷ probes) n false bh h =
    history-IsCounted probes 0 true (checked now true bh) (refl, refl)
history-IsCounted ((now, false) ∷ probes) n seen bh h =
    history-IsCounted probes (n + 1) seen (checked now false bh) (failed n seen bh h)
  where
    failed :
        (n : ℕ) (seen : Bool) (bh : BackendHealth)
        → IsCounted n seen bh
        → (bh.consecutive_failures + 1 ≡ n + 1)
          × ((if leb 3 (bh.consecutive_failures + 1) then false else bh.healthy)
              ≡ (seen && ltb (n + 1) 3))
    failed n true bh h = (omega (arith, h.0), ground (arith, h.0, h.1))
    failed n false bh h = (omega (arith, h.0), ground (arith, h.0, h.1))

-- After any sequence of probes a backend is healthy exactly if one has succeeded and fewer than
-- three have failed since the last success.
pub history-healthy :
    (probes : List (ℕ × Bool)) (backend : Backend)
    → (history probes (unchecked backend)).healthy ≡ (succeeded probes && ltb (failures probes 0) 3)
history-healthy probes backend =
    (history-IsCounted probes 0 false (unchecked backend) (refl, refl)).1

-- The callback's view of a backend: the last report, or unhealthy.
unfoldable pub reported : Bool → List (Backend × Bool) → Bool
reported health [] = health
reported health ((backend, healthy) ∷ rest) = reported healthy rest

reported-append :
    (health : Bool) (xs ys : List (Backend × Bool))
    → reported health (xs ++ ys) ≡ reported (reported health xs) ys
unfolding reported
reported-append health [] ys = refl
reported-append health ((backend, healthy) ∷ xs) ys = reported-append healthy xs ys

changes-reported :
    (before after : BackendHealth) → reported before.healthy (changes before after) ≡ after.healthy
unfolding reported changes
changes-reported before after = ground arith

-- Whoever follows the reports of the changes knows, after any sequence of probes, whether the
-- backend is healthy.
pub reports-healthy :
    (probes : List (ℕ × Bool)) (bh : BackendHealth)
    → reported bh.healthy (reports probes bh) ≡ (history probes bh).healthy
unfolding reports history reported
reports-healthy [] bh = refl
reports-healthy ((now, ok) ∷ probes) bh =
    reported-append bh.healthy (changes bh (checked now ok bh)) (reports probes (checked now ok bh))
    ∙ ap (λ b. reported b (reports probes (checked now ok bh)))
        (changes-reported bh (checked now ok bh))
    ∙ reports-healthy probes (checked now ok bh)
