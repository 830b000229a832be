-- ===== src/ServiceManager/Stopping/Stopped.antt =====
-- A stop of a service that runs and is registered.
use free_tak_server.Base.{
  ℕ, String, true, false, some, ◌≡◌, refl, Outcome, returns, nat_eq, if◌then◌else◌,
}
use free_tak_server.Base.Dict.{contains, erase}
use free_tak_server.ServiceManager.FilterGroup.{delete-returns}
use free_tak_server.ServiceManager.State.{
  Pipe, delete_pipe, remove_source_of, remove_receiver_of, Fts, Code, success, running, exited,
}
use free_tak_server.ServiceManager.Stopping.{
  stop_cot_service, stop_tcp_data_package_service, stop_ssl_data_package_service,
  stop_federation_client_service, stop_federation_server_service,
}
use free_tak_server.ServiceManager.Services.{
  ServiceName, cot, tcp_data_package, ssl_data_package, federation_client, federation_server,
  pipe_name, service_type, pipe_of, process_of, receives, drops,
}
use free_tak_server.ServiceManager.Stopping.Ended.{
  terminate-Ended, join_process-exited, end_process-Ended, clear_event-returns, close_pipe-returns,
}

delete_pipe-returns :
    (k : String) (s : Fts)
    → contains k s.pipe_list ≡ true
    → delete_pipe k s ≡ (returns tt, record s { pipe_list = erase k s.pipe_list })
unfolding delete_pipe
delete_pipe-returns k s h = rw (delete_pipe, delete-returns k s.pipe_list h) refl

remove_source_of-returns :
    (k : String) (s : Fts)
    → contains k s.filter_group.sources ≡ true
    → remove_source_of k s ≡ (
      returns tt,
      record s {
        filter_group = record (s.filter_group) { sources = erase k s.filter_group.sources };
      },
    )
unfolding remove_source_of
remove_source_of-returns k s h =
    rw (remove_source_of, delete-returns k s.filter_group.sources h) refl

remove_receiver_of-returns :
    (k : String) (s : Fts)
    → contains k s.filter_group.receivers ≡ true
    → remove_receiver_of k s ≡ (
      returns tt,
      record s {
        filter_group = record (s.filter_group) { receivers = erase k s.filter_group.receivers };
      },
    )
unfolding remove_receiver_of
remove_receiver_of-returns k s h =
    rw (remove_receiver_of, delete-returns k s.filter_group.receivers h) refl

-- The attributes of the service hold process `i` and queue `p`, which are in use.
abbrev pub Up : ServiceName → Fts → ℕ → Pipe → Type 0
Up v s i p =
    (process_of v s ≡ some i)
    × ((s.processes i).phase ≡ running)
    × (pipe_of v s ≡ some p)
    × (contains (service_type v) s.filter_group.sources ≡ true)
    × (contains (pipe_name v) s.pipe_list ≡ true)

-- The stop succeeded: the process has ended, its names are gone, and so is its queue from the list
-- if the method deletes it there.
abbrev pub Stopped : ServiceName → Fts → ℕ → Outcome Code × Fts → Type 0
Stopped v s i r =
    (r.0 ≡ returns success)
    × (process_of v r.1 ≡ some i)
    × (pipe_of v r.1 ≡ pipe_of v s)
    × ((r.1.processes i).phase ≡ exited)
    × (r.1.filter_group.sources ≡ erase (service_type v) s.filter_group.sources)
    × (r.1.filter_group.receivers ≡ (
        if receives v
        then erase (service_type v) s.filter_group.receivers
        else s.filter_group.receivers))
    × (r.1.pipe_list ≡ (if drops v then erase (pipe_name v) s.pipe_list else s.pipe_list))
    × ((j : ℕ) → nat_eq i j ≡ false → r.1.processes j ≡ s.processes j)
    × (r.1.next_id ≡ s.next_id)

-- The event of a poison pill has been created.
pub stop_cot_service-Stopped :
    (s : Fts) (i e : ℕ)
    → s.cot_poison_pill ≡ some e
    → s.cot_service ≡ some i
    → (s.processes i).phase ≡ running
    → contains (service_type cot) s.filter_group.sources ≡ true
    → contains (service_type cot) s.filter_group.receivers ≡ true
    → Stopped cot s i (stop_cot_service s)
unfolding stop_cot_service
stop_cot_service-Stopped s i e k a h f g =
    let (es, c) = clear_event-returns s s.cot_poison_pill e k in
    let t : Fts = record s { set_events = es } in
    let (ps, d, x, o) = end_process-Ended t s.cot_service i a h in
    rw
      (
        c,
        d,
        remove_source_of-returns _ (record t { processes = ps }) f,
        remove_receiver_of-returns _
            (record t {
              processes = ps;
              filter_group = record (s.filter_group) {
                sources = erase (service_type cot) s.filter_group.sources;
              };
            })
            g,
      )
      (refl, a, refl, x, refl, refl, refl, o, refl)

pub stop_tcp_data_package_service-Stopped :
    (s : Fts) (i : ℕ) (p : Pipe)
    → Up tcp_data_package s i p
    → Stopped tcp_data_package s i (stop_tcp_data_package_service s)
unfolding stop_tcp_data_package_service
stop_tcp_data_package_service-Stopped s i p (a, h, q, f, l) =
    let dropped : Fts = record s { pipe_list = erase (pipe_name tcp_data_package) s.pipe_list } in
    let gone : Fts = record dropped {
      filter_group = record (s.filter_group) {
        sources = erase (service_type tcp_data_package) s.filter_group.sources;
      };
    } in
    let (ps, d, x, o) = terminate-Ended gone s.tcp_data_package_service i a h in
    let ended : Fts = record gone { processes = ps } in
    let (qs, c) = close_pipe-returns ended s.tcp_data_package_service_pipe p q in
    rw
      (
        delete_pipe-returns _ s l,
        remove_source_of-returns _ dropped f,
        d,
        join_process-exited ended s.tcp_data_package_service i a x,
        c,
      )
      (refl, a, refl, x, refl, refl, refl, o, refl)

pub stop_ssl_data_package_service-Stopped :
    (s : Fts) (i : ℕ) (p : Pipe)
    → Up ssl_data_package s i p
    → Stopped ssl_data_package s i (stop_ssl_data_package_service s)
unfolding stop_ssl_data_package_service
stop_ssl_data_package_service-Stopped s i p (a, h, q, f, l) =
    let dropped : Fts = record s { pipe_list = erase (pipe_name ssl_data_package) s.pipe_list } in
    let gone : Fts = record dropped {
      filter_group = record (s.filter_group) {
        sources = erase (service_type ssl_data_package) s.filter_group.sources;
      };
    } in
    let (ps, d, x, o) = terminate-Ended gone s.ssl_data_package_service i a h in
    let ended : Fts = record gone { processes = ps } in
    let (qs, c) = close_pipe-returns ended s.ssl_data_package_service_pipe p q in
    rw
      (
        delete_pipe-returns _ s l,
        remove_source_of-returns _ dropped f,
        d,
        join_process-exited ended s.ssl_data_package_service i a x,
        c,
      )
      (refl, a, refl, x, refl, refl, refl, o, refl)

pub stop_federation_client_service-Stopped :
    (s : Fts) (i : ℕ) (p : Pipe)
    → contains (service_type federation_client) s.filter_group.receivers ≡ true
    → Up federation_client s i p
    → Stopped federation_client s i (stop_federation_client_service s)
unfolding stop_federation_client_service
stop_federation_client_service-Stopped s i p g (a, h, q, f, l) =
    let gone : Fts = record s { pipe_list = erase (pipe_name federation_client) s.pipe_list } in
    let (ps, d, x, o) = end_process-Ended gone s.federation_client_service i a h in
    let ended : Fts = record gone { processes = ps } in
    rw
      (
        delete_pipe-returns _ s l,
        d,
        remove_receiver_of-returns _ ended g,
        remove_source_of-returns _
            (record ended {
              filter_group = record (s.filter_group) {
                receivers = erase (service_type federation_client) s.filter_group.receivers;
              };
            })
            f,
      )
      (refl, a, refl, x, refl, refl, refl, o, refl)

pub stop_federation_server_service-Stopped :
    (s : Fts) (i : ℕ) (p : Pipe)
    → contains (service_type federation_server) s.filter_group.receivers ≡ true
    → Up federation_server s i p
    → Stopped federation_server s i (stop_federation_server_service s)
unfolding stop_federation_server_service
stop_federation_server_service-Stopped s i p g (a, h, q, f, l) =
    let (ps, d, x, o) = end_process-Ended s s.federation_server_service i a h in
    let (qs, c) =
      close_pipe-returns (record s { processes = ps }) s.federation_server_service_pipe p q in
    let closed : Fts = record s { processes = ps; closed = qs } in
    rw
      (
        d,
        c,
        remove_source_of-returns _ closed f,
        remove_receiver_of-returns _
            (record closed {
              filter_group = record (s.filter_group) {
                sources = erase (service_type federation_server) s.filter_group.sources;
              };
            })
            g,
      )
      (refl, a, refl, x, refl, refl, refl, o, refl)
