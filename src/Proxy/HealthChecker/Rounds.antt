-- ===== src/Proxy/HealthChecker/Rounds.antt =====
-- What a round of `check_all` does to the table.
use mathlib.Core.Option.{some-ne-none}
use api_gateway.Prelude.Map.{insert}
use api_gateway.Proxy.HealthChecker.{unchecked, add_backend}
use mathlib.Core.Option
use api_gateway.Prelude.{
  ℕ, ◌≡◌, refl, ap, sym, ◌∙◌, Bool, true, false, Option, none, some, [], ◌∷◌, Bytes, text_eq,
  text_eq_iff, if◌then◌else◌, Bool-cases, Option-cases, inl, inr, arith,
}
use api_gateway.Prelude.Map.{bytes_key, lookup, insert, lookup-insert}
use api_gateway.Core.Config.{Backend}
use api_gateway.Proxy.LoadBalancer.{make_key}
use api_gateway.Proxy.BackendConnection.{Dial}
use api_gateway.Proxy.HealthChecker.{
  BackendHealth, Table, unchecked, add_backend, tcp_check, checked, write_back, check_each,
  check_all,
}

-- Each backend under its key, and each key once.
abbrev pub IsTable : Table → Type 0
IsTable [] = Unit {0}
IsTable ((key, bh) ∷ m) = ((key ≡ make_key bh.backend) × (lookup key m ≡ none)) × IsTable m

checked-backend :
    (now : ℕ) (ok : Bool) (bh : BackendHealth) → (checked now ok bh).backend ≡ bh.backend
unfolding checked
checked-backend now true bh = refl
checked-backend now false bh = refl

abbrev pub probed : ℕ → (Backend → Dial) → BackendHealth → BackendHealth
probed now probe bh = checked now (tcp_check (probe bh.backend)) bh

-- A probed entry in place of an old one.
abbrev pub chosen :
    (BackendHealth → BackendHealth)
    → Option BackendHealth
    → Option BackendHealth
    → Option BackendHealth
chosen f none old = old
chosen f (some bh) old = some (f bh)

abbrev IsCovered : Table → Table → Type 0
IsCovered snapshot backends =
    (k : Bytes) (bh : BackendHealth)
    → lookup k snapshot ≡ some bh
    → (old : BackendHealth) × (lookup k backends ≡ some old)

write_back-lookup :
    (k : Bytes) (bh old : BackendHealth) (backends : Table)
    → lookup (make_key bh.backend) backends ≡ some old
    → lookup k (write_back bh backends)
      ≡ (if text_eq (make_key bh.backend) k then some bh else lookup k backends)
unfolding write_back
write_back-lookup k bh old backends e =
    rw (e, write_back) (lookup-insert (make_key bh.backend) k bh backends)

-- One entry written back.
written-lookup :
    (now : ℕ) (probe : Backend → Dial) (key : Bytes) (bh : BackendHealth) (m backends : Table)
    → key ≡ make_key bh.backend
    → IsCovered ((key, bh) ∷ m) backends
    → (j : Bytes)
    → lookup j (write_back (probed now probe bh) backends)
      ≡ (if text_eq key j then some (probed now probe bh) else lookup j backends)
unfolding lookup
written-lookup now probe key bh m backends named covered j =
    let after = probed now probe bh in
    let at_key : make_key after.backend ≡ key =
      ap make_key (checked-backend now (tcp_check (probe bh.backend)) bh) ∙ sym named in
    let itself : text_eq key key ≡ true = (text_eq_iff key key).1 refl in
    let (old, e) = covered key bh (rw itself refl) in
    write_back-lookup j after old backends (ap (λ k. lookup k backends) at_key ∙ e)
    ∙ ap (λ k. if text_eq k j then some after else lookup j backends) at_key

written-IsCovered :
    (key : Bytes) (bh after : BackendHealth) (m backends backends' : Table)
    → IsCovered ((key, bh) ∷ m) backends
    → ((j : Bytes) → lookup j backends' ≡ (if text_eq key j then some after else lookup j backends))
    → IsCovered m backends'
unfolding lookup
written-IsCovered key bh after m backends backends' covered w j other e =
    elim (Bool-cases (text_eq key j)) [
      | inl same ↦ (after, w j ∙ rw same refl)
      | inr apart ↦ let (old, q) = covered j other (rw apart e) in (old, w j ∙ rw apart q)
    ]

check_each-lookup :
    (now : ℕ) (probe : Backend → Dial) (snapshot backends : Table) (k : Bytes)
    → IsTable snapshot
    → IsCovered snapshot backends
    → lookup k (check_each now probe snapshot backends).0
      ≡ chosen (probed now probe) (lookup k snapshot) (lookup k backends)
unfolding check_each lookup
check_each-lookup now probe [] backends k t covered = refl
check_each-lookup now probe ((key, bh) ∷ m) backends k ((named, once), t) covered =
    let after = probed now probe bh in
    let w = written-lookup now probe key bh m backends named covered in
    let rest =
      check_each-lookup now probe m (write_back after backends) k t
        (written-IsCovered key bh after m backends (write_back after backends) covered w) in
    elim (Bool-cases (text_eq key k)) [
      | inl same ↦
          let none_ : lookup k m ≡ none =
            ap (λ j. lookup j m) (sym ((text_eq_iff key k).0 same)) ∙ once in
          let is_after : lookup k (write_back after backends) ≡ some after = w k ∙ rw same refl in
          rw same (rest ∙ rw (none_, is_after) refl)
      | inr apart ↦
          let is_old : lookup k (write_back after backends) ≡ lookup k backends =
            w k ∙ rw apart refl in
          rw apart (rest ∙ ap (chosen (probed now probe) (lookup k m)) is_old)
    ]

-- On a table with each backend under its key and each key once, a round of `check_all` gives
-- every backend the result of its own probe, and no other entry appears or disappears.
pub check_all-lookup :
    (now : ℕ) (probe : Backend → Dial) (backends : Table) (k : Bytes)
    → IsTable backends
    → lookup k (check_all now probe backends).0 ≡ Option.map (probed now probe) (lookup k backends)
unfolding check_all
check_all-lookup now probe backends k t =
    check_each-lookup now probe backends backends k t (λ j bh e. (bh, e))
    ∙ chosen_self (probed now probe) (lookup k backends)
  where
    chosen_self :
        (f : BackendHealth → BackendHealth) (o : Option BackendHealth)
        → chosen f o o ≡ Option.map f o
    chosen_self f none = refl
    chosen_self f (some bh) = refl

flipped : (a b : Bytes) → text_eq a b ≡ false → text_eq b a ≡ false
flipped a b h = elim (Bool-cases (text_eq b a)) [
  | inl same ↦ ground (arith, text_eq_iff a b, text_eq_iff b a)
  | inr apart ↦ apart
]

insert-IsTable :
    (bh : BackendHealth) (m : Table)
    → IsTable m
    → lookup (make_key bh.backend) m ≡ none
    → IsTable (insert (make_key bh.backend) bh m)
unfolding insert lookup
insert-IsTable bh [] t absent = ((refl, refl), tt)
insert-IsTable bh ((key, old) ∷ m) ((named, once), t) absent =
    elim (Bool-cases (text_eq key (make_key bh.backend))) [
      | inl same ↦ let gone : some old ≡ none = (rw same refl) ∙ absent in cc
      | inr apart ↦ rw apart (
        (
          named,
          lookup-insert (make_key bh.backend) key bh m
              ∙ rw (flipped key (make_key bh.backend) apart) once,
        ),
        insert-IsTable bh m t (rw apart at absent),
      )
    ]

-- Adding a backend keeps each backend under its key, and each key once.
add_backend-IsTable : (backend : Backend) (m : Table) → IsTable m → IsTable (add_backend backend m)
unfolding add_backend
add_backend-IsTable backend m t = elim (Option-cases (lookup (make_key backend) m)) [
  | inl absent ↦ rw (absent, add_backend) (insert-IsTable (unchecked backend) m t absent)
  | inr (old, there) ↦ rw (there, add_backend) t
]
