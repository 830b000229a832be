-- ===== src/ServiceManager/Crossed.antt =====
-- The CoT services over TCP and over SSL share an attribute: what stops the one stops the other.
use free_tak_server.Base.{ℕ, true, some, ◌≡◌, refl, Outcome, returns, arith}
use free_tak_server.Base.Dict.{contains, contains-insert, contains-insert_same}
use free_tak_server.ServiceManager.FilterGroup.{tcpcotservice}
use free_tak_server.ServiceManager.State.{Startup, Fts, Machine, Code, success, running, exited}
use free_tak_server.ServiceManager.Starting.{start_cot_service, start_ssl_cot_service}
use free_tak_server.ServiceManager.Stopping.{stop_cot_service}
use free_tak_server.ServiceManager.Services.{cot, ssl_cot, can_start}
use free_tak_server.ServiceManager.Starting.Registered.{registered, running-of}
use free_tak_server.ServiceManager.Starting.Kept.{start_service-Kept}
use free_tak_server.ServiceManager.Starting.Numbered.{
  start_cot_service-Numbered, start_ssl_cot_service-Numbered,
}
use free_tak_server.ServiceManager.Stopping.Stopped.{stop_cot_service-Stopped}

-- After the stop of the TCP service, `i` still runs and `j` has ended.
abbrev pub Crossed : Fts → ℕ → ℕ → Outcome Code × Fts → Type 0
Crossed s i j r =
    (r.0 ≡ returns success)
    × ((r.1.processes i).phase ≡ running)
    × ((r.1.processes j).phase ≡ exited)

-- If the machine lets both CoT services start, then after the TCP service and then the SSL service
-- were started, the method that stops the TCP service returns 1, and has ended the process of the
-- SSL service, while that of the TCP service runs on.
pub stop_cot_service-start_ssl_cot_service :
    (m : Machine) (c : Startup) (s : Fts)
    → can_start m cot ≡ true
    → can_start m ssl_cot ≡ true
    → let t = (start_cot_service m c s).1 in
      let u = (start_ssl_cot_service m c t).1 in
      (i : ℕ) × (j : ℕ) × (t.cot_service ≡ some i)
      × (u.cot_service ≡ some j)
      × Crossed u i j (stop_cot_service u)
stop_cot_service-start_ssl_cot_service m c s h k =
    let t : Fts = (start_cot_service m c s).1 in
    let u : Fts = (start_ssl_cot_service m c t).1 in
    let (a, alive_t, (p, q, l, f, g)) = registered cot m c s h in
    let (b, alive_u, (p', q', l', f', g')) = registered ssl_cot m c t k in
    let (i, e, is_i, old, new, pill) = start_cot_service-Numbered m c s h in
    let (j, e', is_j, old', new', pill') = start_ssl_cot_service-Numbered m c t k in
    let alive_i : (t.processes i).phase ≡ running = running-of t _ i is_i alive_t in
    let alive_j : (u.processes j).phase ≡ running = running-of u _ j is_j alive_u in
    let sources : contains tcpcotservice u.filter_group.sources ≡ true =
      rw (f', contains-insert, f, contains-insert_same) refl in
    let receivers : contains tcpcotservice u.filter_group.receivers ≡ true =
      rw (g', contains-insert, g, contains-insert_same) refl in
    let (x0, x1, x2, x3, x4, x5, x6, others, same) =
      stop_cot_service-Stopped u j e' pill' is_j alive_j sources receivers in
    let kept : u.processes i ≡ t.processes i = (start_service-Kept ssl_cot m c t i new).0 in
    (i, j, is_i, is_j, (x0, rw (others i (ground arith), kept) alive_i, x3))
