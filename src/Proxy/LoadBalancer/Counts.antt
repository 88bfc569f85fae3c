-- ===== src/Proxy/LoadBalancer/Counts.antt =====
-- The counts of connections under `on_connect` and `on_disconnect`.
use api_gateway.Prelude.{
  ℕ, ◌+◌, ◌-◌, ◌≡◌, refl, List, [], ◌∷◌, Bytes, text_eq, text_eq_iff, if◌then◌else◌, arith,
}
use api_gateway.Prelude.Map.{bytes_key, insert, lookup-insert}
use api_gateway.Core.Config.{Backend}
use api_gateway.Proxy.LoadBalancer.{
  LoadBalancer, round_robin, make_key, count_of, select, select_round_robin, on_connect,
  on_disconnect,
}

pub count_of-insert :
    (k j : Bytes) (v : ℕ) (m : List (Bytes × ℕ))
    → count_of j (insert k v m) ≡ (if text_eq k j then v else count_of j m)
unfolding count_of
count_of-insert k j v m = ground (arith, lookup-insert k j v m)

pub connect_disconnect-count :
    (j : Bytes) (b : Backend) (lb : LoadBalancer)
    → count_of j (on_disconnect b (on_connect b lb)).conn_counts ≡ count_of j lb.conn_counts
unfolding on_connect on_disconnect
connect_disconnect-count j b lb =
    let k = make_key b in
    let n = count_of k lb.conn_counts in
    ground (
      arith,
      count_of-insert k k (n + 1) lb.conn_counts,
      count_of-insert k j (n + 1) lb.conn_counts,
      count_of-insert k j (n + 1 - 1) (insert k (n + 1) lb.conn_counts),
      text_eq_iff k k,
      text_eq_iff k j,
    )

pub select-counts :
    (draw : ℕ) (backends : List Backend) (lb : LoadBalancer)
    → lb.algo ≡ round_robin
    → (select draw backends lb).0.conn_counts ≡ lb.conn_counts
unfolding select select_round_robin
select-counts draw [] lb h = refl
select-counts draw (b ∷ []) lb h = refl
select-counts draw (b ∷ c ∷ bs) lb h = rw (h, select) refl
