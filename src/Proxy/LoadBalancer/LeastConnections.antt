-- ===== src/Proxy/LoadBalancer/LeastConnections.antt =====
-- Least connections: the choice is a minimum, and what the counts come to.
use api_gateway.Proxy.LoadBalancer.Counts.{count_of-insert}
use mathlib.Core.List.{Mem, mem-cons, mem-cons_self, mem-cons_of_mem}
use mathlib.Core.Logic.Or
use api_gateway.Prelude.{
  ap, sym, subst, false, true, ℕ, ◌+◌, ◌-◌, ◌^◌, ◌≤◌, ◌<◌, ◌≡◌, List, [], ◌∷◌, length, All, arith,
  Bytes, text_eq, text_eq_iff, Bool-cases, inl, inr, Bool, ◌≤◌, ltb, if◌then◌else◌,
}
use api_gateway.Prelude.Map.{bytes_key, insert}
use api_gateway.Core.Config.{Backend}
use api_gateway.Proxy.LoadBalancer.{
  LoadBalancer, least_connections, count_of, make_key, int_order, fewest, least_of,
  select_least_connections, select, on_connect, on_disconnect,
}

-- A count is small enough to be read as an `int`.
abbrev pub IsSmall : List (Bytes × ℕ) → Backend → Type 0
IsSmall counts b = count_of (make_key b) counts < 2 ^ 31

-- One round of the loop, with the least count so far the count of the best backend so far.
fewest-cons :
    (counts : List (Bytes × ℕ)) (best b : Backend) (bs : List Backend) (better : Bool)
    → ltb (int_order (count_of (make_key b) counts)) (int_order (count_of (make_key best) counts))
      ≡ better
    → fewest counts best (count_of (make_key best) counts) (b ∷ bs)
      ≡ fewest counts
          (if better then b else best)
          (count_of (make_key (if better then b else best)) counts)
          bs
unfolding fewest
fewest-cons counts best b bs true h = rw h
fewest-cons counts best b bs false h = rw h

abbrev chosen_count : List (Bytes × ℕ) → Backend → List Backend → ℕ
chosen_count counts best bs =
    count_of (make_key (fewest counts best (count_of (make_key best) counts) bs)) counts

-- A number that is no more than the count of the best backend so far and of each other one.
abbrev IsBelow : List (Bytes × ℕ) → Backend → List Backend → ℕ → Type 0
IsBelow counts best bs n =
    (n ≤ count_of (make_key best) counts) × All (λ b. n ≤ count_of (make_key b) counts) bs

abbrev IsLeast : List (Bytes × ℕ) → Backend → List Backend → Type 0
IsLeast counts best bs = IsBelow counts best bs (chosen_count counts best bs)

IsLeast-cons :
    (counts : List (Bytes × ℕ)) (best b : Backend) (bs : List Backend)
    → IsSmall counts best
    → IsSmall counts b
    → IsLeast counts b bs
    → IsLeast counts best bs
    → IsLeast counts best (b ∷ bs)
IsLeast-cons counts best b bs s t lb lbest =
    elim (Bool-cases (
      ltb (int_order (count_of (make_key b) counts))
        (int_order (count_of (make_key best) counts)))) [
          | inl h ↦
              let less : count_of (make_key b) counts < count_of (make_key best) counts =
                ground arith in
              subst (IsBelow counts best (b ∷ bs))
                (sym (ap (λ x. count_of (make_key x) counts) (fewest-cons counts best b bs true h)))
                (omega (arith, lb.0), (lb.0, lb.1))
          | inr h ↦
              let more : count_of (make_key best) counts ≤ count_of (make_key b) counts =
                ground arith in
              subst (IsBelow counts best (b ∷ bs))
                (sym
                  (ap (λ x. count_of (make_key x) counts) (fewest-cons counts best b bs false h)))
                (lbest.0, (omega (arith, lbest.0), lbest.1))
        ]

fewest-le :
    (counts : List (Bytes × ℕ)) (best : Backend) (bs : List Backend)
    → IsSmall counts best
    → All (IsSmall counts) bs
    → IsLeast counts best bs
unfolding fewest
fewest-le counts best [] s all = (omega arith, tt)
fewest-le counts best (b ∷ bs) s all =
    IsLeast-cons counts best b bs s all.0 (fewest-le counts b bs all.0 all.1)
      (fewest-le counts best bs s all.1)

least_of-le :
    (counts : List (Bytes × ℕ)) (backends : List Backend)
    → All (IsSmall counts) backends
    → All
        (λ b. count_of (make_key (least_of counts backends)) counts ≤ count_of (make_key b) counts)
        backends
unfolding least_of
least_of-le counts [] all = tt
least_of-le counts (b ∷ bs) all = let (le, rest) = fewest-le counts b bs all.0 all.1 in (le, rest)

fewest-Mem :
    (counts : List (Bytes × ℕ)) (best : Backend) (min_conn : ℕ) (bs : List Backend)
    → Mem (fewest counts best min_conn bs) (best ∷ bs)
unfolding fewest
fewest-Mem counts best min_conn [] = mem-cons_self
fewest-Mem counts best min_conn (b ∷ bs) =
    elim (Bool-cases (ltb (int_order (count_of (make_key b) counts)) (int_order min_conn))) [
      | inl better ↦
          rw better (mem-cons_of_mem best (fewest-Mem counts b (count_of (make_key b) counts) bs))
      | inr worse ↦ rw worse (
          Or.elim squash₁ (mem-cons.0 (fewest-Mem counts best min_conn bs))
            (λ same. rw same mem-cons_self)
            (λ later. mem-cons_of_mem best (mem-cons_of_mem b later)))
    ]

least_of-Mem :
    (counts : List (Bytes × ℕ)) (bs : List Backend) → 1 < length bs → Mem (least_of counts bs) bs
unfolding least_of
least_of-Mem counts [] h = absurd (omega arith)
least_of-Mem counts (b ∷ bs) h = fewest-Mem counts b (count_of (make_key b) counts) bs

select_least :
    (draw : ℕ) (backends : List Backend) (lb : LoadBalancer)
    → 1 < length backends
    → lb.algo ≡ least_connections
    → select draw backends lb ≡ select_least_connections backends lb
unfolding select
select_least draw [] lb h a = absurd (omega arith)
select_least draw (b ∷ []) lb h a = absurd (omega arith)
select_least draw (b ∷ c ∷ bs) lb h a = rw a

-- With least connections, at least two backends and counts within an int, the choice is one of
-- the backends and has the least count among them all, its count goes up by one, and no other
-- count changes.
pub select-least_connections :
    (draw : ℕ) (backends : List Backend) (lb : LoadBalancer) (key : Bytes)
    → 1 < length backends
    → lb.algo ≡ least_connections
    → All (IsSmall lb.conn_counts) backends
    → let (lb', chosen) = select draw backends lb in
      Mem chosen backends
      × All
          (λ b. count_of (make_key chosen) lb.conn_counts ≤ count_of (make_key b) lb.conn_counts)
          backends
      × (count_of key lb'.conn_counts ≡ (
          if text_eq (make_key chosen) key
          then count_of key lb.conn_counts + 1
          else count_of key lb.conn_counts))
unfolding select_least_connections
select-least_connections draw backends lb key h a small = rw (select_least draw backends lb h a) (
  least_of-Mem lb.conn_counts backends h,
  least_of-le lb.conn_counts backends small,
  (let k = make_key (least_of lb.conn_counts backends) in
      ground (
        arith,
        count_of-insert k key (count_of k lb.conn_counts + 1) lb.conn_counts,
        text_eq_iff k key,
      )),
)

connect_disconnect :
    (b : Backend) (lb : LoadBalancer)
    → count_of (make_key b) (on_disconnect b (on_connect b lb)).conn_counts
      ≡ count_of (make_key b) lb.conn_counts
unfolding on_connect on_disconnect
connect_disconnect b lb =
    let k = make_key b in
    let n = count_of k lb.conn_counts in
    ground (
      arith,
      count_of-insert k k (n + 1) lb.conn_counts,
      count_of-insert k k (n + 1 - 1) (insert k (n + 1) lb.conn_counts),
      text_eq_iff k k,
    )

-- With least connections and at least two backends, a selection, an `on_connect` and an
-- `on_disconnect` of the choice leave its count one higher than before.
pub select_connect_disconnect :
    (draw : ℕ) (backends : List Backend) (lb : LoadBalancer)
    → 1 < length backends
    → lb.algo ≡ least_connections
    → let (lb', chosen) = select draw backends lb in
      count_of (make_key chosen) (on_disconnect chosen (on_connect chosen lb')).conn_counts
      ≡ count_of (make_key chosen) lb.conn_counts + 1
unfolding select_least_connections
select_connect_disconnect draw backends lb h a = rw (select_least draw backends lb h a) (
    let b = least_of lb.conn_counts backends in
    let k = make_key b in
    ground (
      arith,
      connect_disconnect b (select_least_connections backends lb).0,
      count_of-insert k k (count_of k lb.conn_counts + 1) lb.conn_counts,
      text_eq_iff k k,
    ))
