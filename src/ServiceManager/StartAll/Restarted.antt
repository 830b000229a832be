-- ===== src/ServiceManager/StartAll/Restarted.antt =====
-- What `start_all` does with the running CoT service when the object asks for its start.
use free_tak_server.Base.{
  false, nat_eq, ℕ, ◌<◌, true, some, ◌==◌, ◌≡◌, refl, Outcome, returns, arith, ⊤,
}
use free_tak_server.Base.Dict.{contains}
use free_tak_server.ServiceManager.FilterGroup.{tcpcotservice}
use free_tak_server.ServiceManager.State.{Startup, Fts, Machine, running, exited, is_alive_process}
use free_tak_server.ServiceManager.Starting.{start_cot_service}
use free_tak_server.ServiceManager.Stopping.{stop_cot_service}
use free_tak_server.ServiceManager.Stopping.Stopped.{stop_cot_service-Stopped}
use free_tak_server.ServiceManager.Services.{cot, can_start}
use free_tak_server.ServiceManager.Starting.Registered.{registered, running-of}
use free_tak_server.ServiceManager.Starting.Kept.{start_service-Kept}
use free_tak_server.ServiceManager.Starting.Numbered.{start_cot_service-Numbered}
use free_tak_server.ServiceManager.StartAll.{arrange_cot_service, take_status}

-- Process `i` of the CoT service runs and is entered, and it is to be started.
abbrev pub Restartable : Machine → Startup → Fts → ℕ → ℕ → Type 0
Restartable m c s i e =
    (c.cot_service.status ≡ "start")
    × (can_start m cot ≡ true)
    × (i < s.next_id)
    × (s.cot_poison_pill ≡ some e)
    × (s.cot_service ≡ some i)
    × ((s.processes i).phase ≡ running)
    × (contains tcpcotservice s.filter_group.sources ≡ true)
    × (contains tcpcotservice s.filter_group.receivers ≡ true)

-- The old process `i` has ended, and the attribute holds another one that runs.
abbrev pub Restarted : ℕ → Outcome ⊤ × Fts → Type 0
Restarted i r =
    (j : ℕ) × (r.0 ≡ returns tt)
    × (r.1.cot_service ≡ some j)
    × (nat_eq i j ≡ false)
    × ((r.1.processes i).phase ≡ exited)
    × ((r.1.processes j).phase ≡ running)

-- If the object asks for a start of the TCP CoT service, the machine lets it start, and its
-- process runs, is registered and has a number given before, then the part of start_all for it
-- ends that process and leaves another one running, which the attribute holds.
pub arrange_cot_service-Restarted :
    (m : Machine) (c : Startup) (s : Fts) (i e : ℕ)
    → Restartable m c s i e
    → Restarted i (arrange_cot_service m c s)
unfolding arrange_cot_service
arrange_cot_service-Restarted m c s i e (a, can, old, pill, is_i, h, f, g) =
    let t : Fts = record s {
      startup_object = record (s.startup_object) {
        cot_service = take_status c.cot_service s.startup_object.cot_service;
      };
    } in
    let (x0, x1, x2, x3, x4, x5, x6, others, same) =
      stop_cot_service-Stopped t i e pill is_i h f g in
    let u : Fts = (stop_cot_service t).1 in
    let (b, alive, rest) = registered cot m c u can in
    let (j, e', is_j, after, new, pill') = start_cot_service-Numbered m c u can in
    let kept : (start_cot_service m c u).1.processes i ≡ u.processes i =
      (start_service-Kept cot m c u i (omega arith)).0 in
    let start_service : (c.cot_service.status == "start") ≡ true = rw a refl in
    let runs : is_alive_process s.cot_service t ≡ true = rw (is_i, h) refl in
    rw (start_service, runs, x0, b)
      (
        j,
        refl,
        is_j,
        ground arith,
        rw kept x3,
        running-of (start_cot_service m c u).1 _ j is_j alive,
      )
