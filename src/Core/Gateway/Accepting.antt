-- ===== src/Core/Gateway/Accepting.antt =====
-- The table of the connections and their number: the callback for a new connection, the one for a
-- closed connection, and `cleanup_idle_connections`, in src/core/gateway.cpp.
pub mod Counting
use api_gateway.Prelude.{
  ◌∷◌, [], false, true, ◌&&◌, ◌+◌, if◌then◌else◌, leb, ltb, zero, Bool, List, [], suc, ℕ,
}
use api_gateway.Prelude.Map.{nat_key, lookup, insert, erase}
use api_gateway.Prelude.Int.{ℤ, pos, negsuc, is_positive}

-- `connection_count_++` and `connection_count_--`, while they do not overflow.
unfoldable pub increment : ℤ → ℤ
increment (pos n) = pos (suc n)
increment (negsuc zero) = pos 0
increment (negsuc (suc n)) = negsuc n

unfoldable pub decrement : ℤ → ℤ
decrement (pos zero) = negsuc 0
decrement (pos (suc n)) = pos n
decrement (negsuc n) = negsuc (suc n)

-- `a >= b`
unfoldable pub int_geq : ℤ → ℤ → Bool
int_geq (pos m) (pos n) = leb n m
int_geq (pos m) (negsuc n) = true
int_geq (negsuc m) (pos n) = false
int_geq (negsuc m) (negsuc n) = leb m n

-- `now - last > limit`
unfoldable pub is_idle : ℕ → ℕ → ℤ → Bool
is_idle now last (pos limit) = ltb (last + limit) now
is_idle now last (negsuc n) = ltb last (now + suc n)

module _ {ℓ} (Conn : Type ℓ) where
  pub record Connections : Type ℓ where
    pub max_connections : ℤ
    pub keep_alive_timeout_sec : ℤ
    pub connections : List (ℕ × Conn)
    pub connection_count : ℤ

module _ {ℓ} {Conn : Type ℓ} where
  abbrev pub no_connections : ℤ → ℤ → Connections Conn
  no_connections max_connections keep_alive_timeout_sec = record {
    max_connections = max_connections;
    keep_alive_timeout_sec = keep_alive_timeout_sec;
    connections = [];
    connection_count = pos 0;
  }

  -- Whether the new connection is kept; the descriptor is closed if it is not.
  unfoldable pub on_new_connection : ℕ → Conn → Connections Conn → Bool × Connections Conn
  unfolding increment int_geq
  on_new_connection cfd conn c =
      if is_positive c.max_connections && int_geq c.connection_count c.max_connections
      then (false, c)
      else (
        true,
        record c {
          connections = insert cfd conn c.connections;
          connection_count = increment c.connection_count;
        },
      )

  unfoldable pub on_close : ℕ → Connections Conn → Connections Conn
  unfolding decrement
  on_close fd c = record c {
    connections = erase fd c.connections;
    connection_count = decrement c.connection_count;
  }

module _ {ℓ} {Conn : Type ℓ} (last_active_time : Conn → ℕ) where
  -- The entries that stay, and the connections that are forced to close.
  unfoldable pub sweep : ℕ → ℤ → List (ℕ × Conn) → List (ℕ × Conn) × List Conn
  unfolding is_idle
  sweep now limit [] = ([], [])
  sweep now limit ((fd, conn) ∷ m) =
      let (kept, forced) = sweep now limit m in
      if is_idle now (last_active_time conn) limit
      then (kept, conn ∷ forced)
      else ((fd, conn) ∷ kept, forced)

  unfoldable pub cleanup_idle_connections : ℕ → Connections Conn → Connections Conn × List Conn
  unfolding sweep
  cleanup_idle_connections now c =
      let (kept, forced) = sweep now c.keep_alive_timeout_sec c.connections in
      (record c { connections = kept }, forced)
