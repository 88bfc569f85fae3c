-- ===== src/Core/Router/Longest.antt =====
-- The router finds the longest prefix.
use mathlib.Core.List.{Mem, mem-cons, mem-cons_self, mem-cons_of_mem, not-mem-nil}
use mathlib.Core.HLevel.{⊥_prop}
use mathlib.Core.List.Perm
use mathlib.Core.Bool.{Bool-set, false≢true}
use mathlib.Core.Logic.Or
use api_gateway.Prelude.{
  ℕ, ◌≤◌, ◌<◌, ◌≡◌, refl, sym, ap, ◌∙◌, ◌↔◌, ◌⊎◌, inl, inr, Bool, true, false, none, some, List, [],
  ◌∷◌, ◌++◌, Bytes, length, length-append, ◌==◌, starts_with, get_elem?, All, starts_with-append,
  arith, Bool-cases,
}
use native.Mathlib.Bridge.{le_prop}
use api_gateway.Prelude.Sorting.{IsOrdered, Sorting}
use api_gateway.Core.Config.{Backend, Route}
use api_gateway.Core.Router.{count_slashes, goes_before, is_match, first_match, match_path}

-- A prefix serves a path that is the prefix, or goes on behind it with a slash.
abbrev pub Covers : Bytes → Bytes → Type 0
Covers prefix path = (path ≡ prefix) ⊎ ((rest : Bytes) × (path ≡ prefix ++ (b'/' ∷ rest)))

-- The code's test on one prefix.
abbrev tests : Bytes → Bytes → Bool
tests prefix path = is_match path (record { prefix = prefix; backends = [] })

Covers-cons : (c : ℕ) (p s : Bytes) → Covers p s → Covers (c ∷ p) (c ∷ s)
Covers-cons c p s (inl e) = inl (ap (◌∷◌ c) e)
Covers-cons c p s (inr (rest, e)) = inr (rest, ap (◌∷◌ c) e)

Covers-of_tests : (p s : Bytes) → tests p s ≡ true → Covers p s
unfolding is_match starts_with
Covers-of_tests [] [] h = inl refl
Covers-of_tests [] (d ∷ s) h = inr (s, ground arith)
Covers-of_tests (c ∷ p) [] h = ground arith
Covers-of_tests (c ∷ p) (d ∷ s) h = elim (Bool-cases (c == d)) [
  | inl e ↦
      let same : d ≡ c = ground arith in
      rw same (Covers-cons c p s (Covers-of_tests p s (ground arith)))
  | inr e ↦ ground arith
]

get_elem?-append : (p s : Bytes) (c : ℕ) → get_elem? (p ++ (c ∷ s)) (length p) ≡ some c
get_elem?-append [] s c = refl
get_elem?-append (d ∷ p) s c = get_elem?-append p s c

starts_with_self : (p : Bytes) → starts_with p p ≡ true
unfolding starts_with
starts_with_self [] = refl
starts_with_self (c ∷ p) = ground (arith, starts_with_self p)

tests_of_Covers : (p s : Bytes) → Covers p s → tests p s ≡ true
unfolding is_match
tests_of_Covers p s (inl e) = rw e (ground (arith, starts_with_self p))
tests_of_Covers p s (inr (rest, e)) = rw e (
    ground (
      arith,
      starts_with-append p (b'/' ∷ rest),
      length-append p (b'/' ∷ rest),
      get_elem?-append p rest b'/',
    ))

-- The test of a route succeeds exactly if the path is the prefix itself or goes on behind it with
-- a slash.
pub is_match_iff : (path : Bytes) (r : Route) → (is_match path r ≡ true) ↔ Covers r.prefix path
unfolding is_match
is_match_iff path r = (Covers-of_tests r.prefix path, tests_of_Covers r.prefix path)

-- Of two prefixes of one path the longer has at least as many slashes.
slashes_mono :
    (p q s : Bytes)
    → starts_with p s ≡ true
    → starts_with q s ≡ true
    → length p ≤ length q
    → count_slashes p ≤ count_slashes q
unfolding count_slashes starts_with
slashes_mono [] q s hp hq le = omega arith
slashes_mono (c ∷ p) [] s hp hq le = absurd (omega arith)
slashes_mono (c ∷ p) (d ∷ q) [] hp hq le = cc
slashes_mono (c ∷ p) (d ∷ q) (e ∷ s) hp hq le = ground (arith, slashes_mono p q s)

longer_goes_before :
    (path : Bytes) (a b : Route)
    → is_match path a ≡ true
    → is_match path b ≡ true
    → length a.prefix < length b.prefix
    → goes_before b a ≡ true
unfolding goes_before is_match
longer_goes_before path a b ha hb lt = ground (arith, slashes_mono a.prefix b.prefix path)

not_longer :
    (path : Bytes) (a b : Route)
    → is_match path a ≡ true
    → goes_before b a ≡ false
    → is_match path b ≡ true
    → length b.prefix ≤ length a.prefix
not_longer path a b ha before hb = ground (arith, longer_goes_before path a b ha hb)

All-mem {ℓ} :
    {A : Type ℓ} (f : A → Bool) (v : Bool) (xs : List A) (x : A)
    → All (λ y. f y ≡ v) xs
    → Mem x xs
    → f x ≡ v
All-mem f v [] x h m = absurd (not-mem-nil m)
All-mem f v (y ∷ ys) x h m =
    Or.elim (Bool-set _ _) (mem-cons.0 m) (λ e. rw e h.0) (All-mem f v ys x h.1)

-- What holds of a found route: it is in the table, it matches, and no matching route is longer.
abbrev pub IsLongest : Bytes → List Route → Route → Type 0
IsLongest path routes r =
    Mem r routes
    × Covers r.prefix path
    × ((b : Route) → Mem b routes → Covers b.prefix path → length b.prefix ≤ length r.prefix)

first_match-IsLongest :
    (path : Bytes) (rs : List Route) (bs : List Backend)
    → IsOrdered goes_before rs
    → first_match path rs ≡ some bs
    → (r : Route) × (r.backends ≡ bs) × IsLongest path rs r
unfolding first_match
first_match-IsLongest path [] bs o e = cc
first_match-IsLongest path (r ∷ rs) bs o e = elim (Bool-cases (is_match path r)) [
  | inl hit ↦ (
    r,
    ground arith,
    (
      mem-cons_self,
      (is_match_iff path r).0 hit,
      λ b m c.
          Or.elim le_prop (mem-cons.0 m) (λ same. rw same (omega arith))
            λ later.
              not_longer path r b hit (All-mem (λ y. goes_before y r) false rs b o.0 later)
                ((is_match_iff path b).1 c),
    ),
  )
  | inr miss ↦
      let (a, same, (listed, covers, longest)) =
        first_match-IsLongest path rs bs o.1 (ground arith) in
      (
        a,
        same,
        (
          mem-cons_of_mem r listed,
          covers,
          λ b m c.
              Or.elim le_prop (mem-cons.0 m)
                (λ here.
                  let hit : is_match path r ≡ true = (is_match_iff path r).1 (rw here at c) in
                  absurd (false≢true (sym miss ∙ hit)))
                λ later. longest b later c,
        ),
      )
]

first_match-none :
    (path : Bytes) (rs : List Route)
    → first_match path rs ≡ none
    → (b : Route) → Mem b rs
    → ¬ Covers b.prefix path
unfolding first_match
first_match-none path [] e b m c = absurd (not-mem-nil m)
first_match-none path (r ∷ rs) e b m c = elim (Bool-cases (is_match path r)) [
  | inl hit ↦ cc hit
  | inr miss ↦
      Or.elim ⊥_prop (mem-cons.0 m)
        (λ here.
          let hit : is_match path r ≡ true = (is_match_iff path r).1 (rw here at c) in
          false≢true (sym miss ∙ hit))
        λ later. first_match-none path rs (ground arith) b later c
]

module _ (s : Sorting goes_before) (routes : List Route) (path : Bytes) where
  -- Whatever conforming sort is used, what `match` answers are the backends of a route of the
  -- configuration whose prefix covers the path, and no route of the configuration that covers the
  -- path has a longer prefix.
  pub match_path-IsLongest :
      (bs : List Backend)
      → match_path s routes path ≡ some bs
      → (r : Route) × (r.backends ≡ bs) × IsLongest path routes r
  unfolding match_path
  match_path-IsLongest bs e =
      let p = s.sort_perm routes in
      let (r, same, (listed, covers, longest)) =
        first_match-IsLongest path (s.sort routes) bs (s.sort_ordered routes) e in
      (r, same, ((Perm.mem_iff p).0 listed, covers, λ b m c. longest b ((Perm.mem_iff p).1 m) c))

  -- Whatever conforming sort is used, `match` answers nothing only if no route of the
  -- configuration covers the path.
  pub match_path-none :
      match_path s routes path ≡ none → (b : Route) → Mem b routes → ¬ Covers b.prefix path
  unfolding match_path
  match_path-none e b m =
      first_match-none path (s.sort routes) e b ((Perm.mem_iff (s.sort_perm routes)).1 m)
