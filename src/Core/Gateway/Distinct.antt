-- ===== src/Core/Gateway/Distinct.antt =====
-- `collect_all_backends` of src/core/gateway.cpp has each backend of the routes once.
use api_gateway.Prelude.Perms.{All-of_Mem, All-Mem}
use api_gateway.Prelude.{
  ◌∙◌, sym, ◌↔◌, inr, subst, false, inl, Bool-cases, [], ◌≡◌, All, ◌∷◌, ◌≢◌, List,
}
use mathlib.Core.List.{Mem, mem-cons, mem-cons_self, mem-cons_of_mem}
use mathlib.Core.List.Perm
use mathlib.Core.Bool.{false≢true}
use mathlib.Core.List.{Mem-prop}
use mathlib.Core.Logic.Or
use api_gateway.Prelude.Sorting.{Sorting, IsOrdered}
use api_gateway.Core.Config.{Backend, Route}
use api_gateway.Core.Gateway.Collecting.{
  backend_less, same_backend, all_backends, unique_after, unique, collect_all_backends,
  same_backend_iff, backend_less_total,
}

-- No two elements are equal.
abbrev pub IsDistinct : List Backend → Type 0
IsDistinct [] = Unit {0}
IsDistinct (x ∷ xs) = All (λ y. y ≢ x) xs × IsDistinct xs

All-unique_after :
    (P : Backend → Type 0) (x : Backend) (xs : List Backend) → All P xs → All P (unique_after x xs)
unfolding unique_after
All-unique_after P x [] h = tt
All-unique_after P x (y ∷ ys) h = elim (Bool-cases (same_backend x y)) [
  | inl e ↦ rw e (All-unique_after P x ys h.1)
  | inr e ↦ rw e (h.0, All-unique_after P y ys h.1)
]

-- Behind an element that is not the first one of a sorted list the first one does not come again.
not_again :
    (x y : Backend) (ys : List Backend)
    → y ≢ x
    → backend_less y x ≡ false
    → All (λ z. backend_less z y ≡ false) ys
    → All (λ z. z ≢ x) ys
not_again x y [] n le h = tt
not_again x y (z ∷ zs) n le h = (
  λ e. n (backend_less_total y x le (subst (λ z. backend_less z y ≡ false) e h.0)),
  not_again x y zs n le h.1,
)

unique_after-IsDistinct :
    (x : Backend) (xs : List Backend)
    → IsOrdered backend_less (x ∷ xs)
    → All (λ y. y ≢ x) (unique_after x xs) × IsDistinct (unique_after x xs)
unfolding unique_after
unique_after-IsDistinct x [] o = (tt, tt)
unique_after-IsDistinct x (y ∷ ys) (h, (k, o)) = elim (Bool-cases (same_backend x y)) [
  | inl e ↦ rw e (unique_after-IsDistinct x ys (h.1, o))
  | inr e ↦
      let other : y ≢ x = λ q. false≢true (sym e ∙ (same_backend_iff x y).1 (sym q)) in
      rw e (
        (other, All-unique_after (λ z. z ≢ x) y ys (not_again x y ys other h.0 k)),
        unique_after-IsDistinct y ys (k, o),
      )
]

mem-unique_after :
    (b x : Backend) (xs : List Backend) → Mem b (x ∷ xs) → Mem b (x ∷ unique_after x xs)
unfolding unique_after
mem-unique_after b x [] m = m
mem-unique_after b x (y ∷ ys) m = elim (Bool-cases (same_backend x y)) [
  | inl e ↦
      let same = (same_backend_iff x y).0 e in
      rw e (
        mem-unique_after b x ys (
          Or.elim Mem-prop (mem-cons.0 m) (λ q. rw q mem-cons_self)
            (λ m'. subst (λ z. Mem b (z ∷ ys)) (sym same) m')))
  | inr e ↦ rw e (
      Or.elim Mem-prop (mem-cons.0 m) (λ q. rw q mem-cons_self)
        (λ m'. mem-cons_of_mem x (mem-unique_after b y ys m')))
]

unique-IsDistinct : (xs : List Backend) → IsOrdered backend_less xs → IsDistinct (unique xs)
unfolding unique
unique-IsDistinct [] o = tt
unique-IsDistinct (x ∷ xs) o = unique_after-IsDistinct x xs o

mem-unique : (b : Backend) (xs : List Backend) → Mem b (unique xs) ↔ Mem b xs
unfolding unique
mem-unique b [] = (λ m. m, λ m. m)
mem-unique b (x ∷ xs) = (
  λ m.
      Or.elim Mem-prop (mem-cons.0 m) (λ q. rw q mem-cons_self)
        (λ m'.
          All-Mem {P = λ z. Mem z (x ∷ xs)} (λ _. Mem-prop) (unique_after x xs)
            (All-unique_after (λ z. Mem z (x ∷ xs)) x xs
              (All-of_Mem (λ _. Mem-prop) xs λ z. mem-cons_of_mem x))
            m'),
  mem-unique_after b x xs,
)

-- Whatever conforming sort is used, `collect_all_backends` returns exactly the backends of the
-- routes, each once.
pub collect_all_backends-IsDistinct :
    (s : Sorting backend_less) (routes : List Route)
    → IsDistinct (collect_all_backends s routes)
      × ((b : Backend) → Mem b (collect_all_backends s routes) ↔ Mem b (all_backends routes))
unfolding collect_all_backends
collect_all_backends-IsDistinct s routes = (
  unique-IsDistinct _ (s.sort_ordered (all_backends routes)),
  λ b.
      let sorted = mem-unique b (s.sort (all_backends routes)) in
      let same = Perm.mem_iff (s.sort_perm (all_backends routes)) in
      (λ m. same.0 (sorted.0 m), λ m. sorted.1 (same.1 m)),
)
