-- ===== src/Core/Gateway/Accepting/Counting.antt =====
-- The number of the connections and their limit, in src/core/gateway.cpp.
use api_gateway.Prelude.{
  Bool-cases, lt→ltb, subst, ap, inr, leb→le, ◌⊎◌, inl, length-append, refl, ◌<◌, ◌∙◌, ◌++◌, arith,
  suc, ◌∷◌, false, length, true, [], ◌≡◌, List, ◌&&◌, ◌≤◌, ℕ,
}
use api_gateway.Prelude.Map.{insert, nat_key}
use api_gateway.Prelude.Int.{ℤ, pos, negsuc, is_positive}
use api_gateway.Core.Gateway.Accepting.{
  decrement, increment, Connections, no_connections, on_new_connection, on_close,
  cleanup_idle_connections, int_geq,
}

module _ {ℓ} {Conn : Type ℓ} (last_active_time : Conn → ℕ) where
  -- The gateway's connections, with the descriptors that are open: those that the system has given
  -- to the gateway, that it has kept, and that have not been closed since.
  pub data Step (open_fds : List ℕ) (c : Connections Conn) (open_fds' : List ℕ)
      (c' : Connections Conn) : Type ℓ where
    keeps :
        (cfd : ℕ) (conn : Conn)
        → on_new_connection cfd conn c ≡ (true, c')
        → open_fds' ≡ cfd ∷ open_fds
        → Step open_fds c open_fds' c'
    rejects :
        (cfd : ℕ) (conn : Conn)
        → on_new_connection cfd conn c ≡ (false, c')
        → open_fds' ≡ open_fds
        → Step open_fds c open_fds' c'
    closes :
        (before : List ℕ) (fd : ℕ) (after : List ℕ)
        → open_fds ≡ before ++ fd ∷ after
        → c' ≡ on_close fd c
        → open_fds' ≡ before ++ after
        → Step open_fds c open_fds' c'
    cleans :
        (now : ℕ) (forced : List Conn)
        → cleanup_idle_connections last_active_time now c ≡ (c', forced)
        → open_fds' ≡ open_fds
        → Step open_fds c open_fds' c'

  pub data Reach (max_connections keep_alive : ℤ) : List ℕ → Connections Conn → Type ℓ where
    here : Reach max_connections keep_alive [] (no_connections max_connections keep_alive)
    next :
        {open_fds open_fds' : List ℕ} {c c' : Connections Conn}
        → Reach max_connections keep_alive open_fds c
        → Step open_fds c open_fds' c'
        → Reach max_connections keep_alive open_fds' c'

  -- The number is that of the open descriptors, and within the limit if there is one.
  IsCounted : ℤ → List ℕ → Connections Conn → Type 0
  IsCounted max_connections open_fds c =
      (c.max_connections ≡ max_connections)
      × (c.connection_count ≡ pos (length open_fds))
      × (is_positive max_connections ≡ true
          → int_geq max_connections (pos (length open_fds)) ≡ true)

  below_limit :
      (limit : ℤ) (n : ℕ)
      → (is_positive limit && int_geq (pos n) limit) ≡ false
      → is_positive limit ≡ true
      → int_geq limit (pos (suc n)) ≡ true
  unfolding int_geq
  below_limit (pos m) n h p = ground arith
  below_limit (negsuc m) n h p = cc

  less_open :
      (limit : ℤ) (m n : ℕ) → m ≤ n → int_geq limit (pos n) ≡ true → int_geq limit (pos m) ≡ true
  unfolding int_geq
  less_open (pos l) m n le h = ground arith
  less_open (negsuc l) m n le h = cc

  none_open : (limit : ℤ) → is_positive limit ≡ true → int_geq limit (pos 0) ≡ true
  unfolding int_geq
  none_open (pos l) h = ground arith
  none_open (negsuc l) h = cc

  limit_kept :
      (now : ℕ) (c c' : Connections Conn) (forced : List Conn)
      → cleanup_idle_connections last_active_time now c ≡ (c', forced)
      → (c'.max_connections ≡ c.max_connections) × (c'.connection_count ≡ c.connection_count)
  unfolding cleanup_idle_connections
  limit_kept now c c' forced e = (cc, cc)

  cleaned-IsCounted :
      (limit : ℤ) (open_fds : List ℕ) (now : ℕ) (c c' : Connections Conn) (forced : List Conn)
      → cleanup_idle_connections last_active_time now c ≡ (c', forced)
      → IsCounted limit open_fds c
      → IsCounted limit open_fds c'
  unfolding IsCounted
  cleaned-IsCounted limit open_fds now c c' forced e (m, n, h) =
      let (same, number) = limit_kept now c c' forced e in (same ∙ m, number ∙ n, h)

  new_connection-IsCounted :
      (limit : ℤ) (open_fds : List ℕ) (c : Connections Conn) (cfd : ℕ) (conn : Conn)
      → IsCounted limit open_fds c
      → ((on_new_connection cfd conn c ≡ (false, c)))
        ⊎ ((d : Connections Conn) × (on_new_connection cfd conn c ≡ (true, d))
            × IsCounted limit (cfd ∷ open_fds) d)
  unfolding on_new_connection IsCounted increment
  new_connection-IsCounted limit open_fds c cfd conn (m, n, h) =
      elim (Bool-cases
        (is_positive c.max_connections && int_geq c.connection_count c.max_connections)) [
          | inl full ↦ inl (rw full refl)
          | inr room ↦ inr (
            record c {
              connections = insert cfd conn c.connections;
              connection_count = increment c.connection_count;
            },
            rw room refl,
            (m, ap increment n, below_limit limit (length open_fds) (rw (m, n) at room)),
          )
        ]

  length-without :
      (before : List ℕ) (fd : ℕ) (after : List ℕ)
      → length (before ++ fd ∷ after) ≡ suc (length (before ++ after))
  length-without before fd after =
      omega (arith, length-append before (fd ∷ after), length-append before after)

  closed-IsCounted :
      (limit : ℤ) (before : List ℕ) (fd : ℕ) (after : List ℕ) (c : Connections Conn)
      → IsCounted limit (before ++ fd ∷ after) c
      → IsCounted limit (before ++ after) (on_close fd c)
  unfolding on_close IsCounted decrement
  closed-IsCounted limit before fd after c (m, n, h) = (
    m,
    ap decrement (n ∙ ap pos (length-without before fd after)),
    λ positive.
        less_open limit (length (before ++ after)) (length (before ++ fd ∷ after))
          (omega (arith, length-without before fd after)) (h positive),
  )

  Step-IsCounted :
      (limit : ℤ) {open_fds open_fds' : List ℕ} {c c' : Connections Conn}
      → Step open_fds c open_fds' c'
      → IsCounted limit open_fds c
      → IsCounted limit open_fds' c'
  Step-IsCounted limit {open_fds} {open_fds'} {c} {c'} (keeps cfd conn e o) k =
      elim (new_connection-IsCounted limit open_fds c cfd conn k) [
        | inl r ↦ cc
        | inr (d, r, kept) ↦
            let same : d ≡ c' = cc in rw o (subst (IsCounted limit (cfd ∷ open_fds)) same kept)
      ]
  Step-IsCounted limit {open_fds} {open_fds'} {c} {c'} (rejects cfd conn e o) k =
      elim (new_connection-IsCounted limit open_fds c cfd conn k) [
        | inl r ↦ let same : c ≡ c' = cc in rw o (subst (IsCounted limit open_fds) same k)
        | inr (d, r, kept) ↦ cc
      ]
  Step-IsCounted limit {open_fds} {open_fds'} {c} {c'} (closes before fd after o e o') k =
      rw (o', e) (closed-IsCounted limit before fd after c (rw o at k))
  Step-IsCounted limit {open_fds} {open_fds'} {c} {c'} (cleans now forced e o) k =
      rw o (cleaned-IsCounted limit open_fds now c c' forced e k)

  Reach-IsCounted :
      (limit keep_alive : ℤ) {open_fds : List ℕ} {c : Connections Conn}
      → Reach limit keep_alive open_fds c
      → IsCounted limit open_fds c
  unfolding IsCounted
  Reach-IsCounted limit keep_alive here = (refl, refl, none_open limit)
  Reach-IsCounted limit keep_alive (next r st) =
      Step-IsCounted limit st (Reach-IsCounted limit keep_alive r)

  -- With a positive limit, after any sequence of new connections, kept or rejected, closings of
  -- open ones and clean-ups, the number of connections is that of the open descriptors, and at
  -- most the limit.
  pub connection_count-open :
      (max_connections keep_alive : ℕ) {open_fds : List ℕ} {c : Connections Conn}
      → 0 < max_connections
      → Reach (pos max_connections) (pos keep_alive) open_fds c
      → (c.connection_count ≡ pos (length open_fds)) × (length open_fds ≤ max_connections)
  unfolding IsCounted int_geq
  connection_count-open max_connections keep_alive {open_fds} {c} positive r =
      let (m, n, h) = Reach-IsCounted (pos max_connections) (pos keep_alive) r in
      (n, leb→le _ _ (h (lt→ltb 0 max_connections positive)))
