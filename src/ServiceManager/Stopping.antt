-- ===== src/ServiceManager/Stopping.antt =====
-- FreeTAKServer/controllers/services/FTS.py: the methods that stop a service.
pub mod Ended
pub mod Stopped
pub mod RoundTrip
use free_tak_server.Base.{
  ℕ, String, Bool, true, false, Option, none, some, List, ◌∷◌, ⊤, Outcome, returns, raised,
  attribute_error, if◌then◌else◌, nat_eq,
}
use free_tak_server.Base.Actions.{pure, ◌>>=◌, ◌>>◌, change, field, try◌except◌, raise}
use free_tak_server.ServiceManager.FilterGroup.{
  tcpcotservice, sslcotservice, tcpdpservice, ssldpservice, fedserverservice, fedclientservice,
  delete,
}
use free_tak_server.ServiceManager.State.{
  Pipe, Fts, Run, Code, success, failure, clear_event, is_alive, terminate, join_process,
  close_pipe, delete_pipe, remove_source_of, remove_receiver_of,
}

-- `if p.is_alive(): p.terminate(); p.join()` and `else: p.join()`
unfoldable pub end_process : Option ℕ → Run ⊤
end_process i = do
  alive ← is_alive i
  if alive then (do terminate i; join_process i) else join_process i

-- The method goes on where an `except` did not return -1.
abbrev pub unless_failed : Code → Run Code → Run Code
unless_failed failure m = pure failure
unless_failed success m = m

-- A `QueueManager` has none of the methods of a process: a call of one is an AttributeError.
abbrev process_of : Option Pipe → Option ℕ
process_of pipe = none

unfoldable pub stop_cot_service : Run Code
stop_cot_service =
    try (do
      pill ← field (λ s. s.cot_poison_pill)
      clear_event pill
      i ← field (λ s. s.cot_service)
      end_process i
      remove_source_of tcpcotservice
      remove_receiver_of tcpcotservice
      pure success)
    except failure

unfoldable pub stop_tcp_data_package_service : Run Code
stop_tcp_data_package_service = do
  delete_pipe "tcp_data_package_service_pipe"
  remove_source_of tcpdpservice
  terminated ←
      (try (do i ← field (λ s. s.tcp_data_package_service); terminate i; pure success)
        except failure)
  unless_failed terminated (do
    joined ←
        (try (do i ← field (λ s. s.tcp_data_package_service); join_process i; pure success)
          except failure)
    unless_failed joined
        (do p ← field (λ s. s.tcp_data_package_service_pipe); close_pipe p; pure success))

unfoldable pub stop_ssl_data_package_service : Run Code
stop_ssl_data_package_service = do
  delete_pipe "ssl_data_package_service"
  remove_source_of ssldpservice
  terminated ←
      (try (do i ← field (λ s. s.ssl_data_package_service); terminate i; pure success)
        except failure)
  unless_failed terminated (do
    joined ←
        (try (do i ← field (λ s. s.ssl_data_package_service); join_process i; pure success)
          except failure)
    unless_failed joined
        (do p ← field (λ s. s.ssl_data_package_service_pipe); close_pipe p; pure success))

-- No method sets `SSLCoTPoisonPill`, so `ssl_cot_poison_pill` is none, and `SSLCoTService` is the
-- `QueueManager` of `ssl_cot_service`.
unfoldable pub stop_ssl_cot_service : Run Code
stop_ssl_cot_service =
    try (do
      pipe ← field (λ s. s.ssl_client_data_pipe)
      close_pipe pipe
      pill ← field (λ s. s.ssl_cot_poison_pill)
      clear_event pill
      service ← field (λ s. process_of s.ssl_cot_service)
      end_process service
      delete_pipe "SSLCoTServiceFTSPipe"
      remove_source_of sslcotservice
      remove_receiver_of sslcotservice
      pure success)
    except failure

unfoldable pub stop_federation_client_service : Run Code
stop_federation_client_service =
    try (do
      delete_pipe "FederationClientServiceFTSPipe"
      i ← field (λ s. s.federation_client_service)
      end_process i
      remove_receiver_of fedclientservice
      remove_source_of fedclientservice
      pure success)
    except failure

unfoldable pub stop_federation_server_service : Run Code
stop_federation_server_service =
    try (do
      i ← field (λ s. s.federation_server_service)
      end_process i
      pipe ← field (λ s. s.federation_server_service_pipe)
      close_pipe pipe
      remove_source_of fedserverservice
      remove_receiver_of fedserverservice
      pure success)
    except failure
