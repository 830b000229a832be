-- ===== src/CotService/Reception.antt =====
-- FreeTAKServer/services/tcp_cot_service/controllers/ClientReceptionHandler.py: one pass over the
-- clients, and what each read becomes.
pub mod Departures
use Prim.Native.Char.{code}
use mathlib.Core.Option
use text.Mathlib.Text.{starts_with}
use free_tak_server.Base.{
  ℕ, zero, suc, ◌+◌, ◌-◌, String, str_append, ◌==◌, ◌≡◌, refl, nat_eq, if◌then◌else◌, Option, none,
  some, List, [], ◌∷◌, ◌++◌,
}
use free_tak_server.CotService.SendData.{Clients}
use free_tak_server.CotService.MainLoop.{RawCot}

-- What one call of `recv` does. `blocked` is an error with `errno` EWOULDBLOCK, `broken` one of the
-- three errors of a connection that is gone, `failed` any other exception.
pub data Recv : Type 0 where
  chunk : String → Recv
  timeout blocked broken failed : Recv

-- How a read ends: with a text, or with an exception of one of these kinds.
pub data Reading : Type 0 where
  message : String → Reading
  timed_out would_block disconnected faulty : Reading

-- The loop of `recv_until`: each round reads once more, and an exception ends it. `rounds` is how
-- often the clock still allows a round.
unfoldable pub read_more : ℕ → List Recv → String → String
read_more zero rs m = m
read_more (suc n) (chunk c ∷ rs) m = read_more n rs (str_append m c)
read_more (suc n) _ m = m

-- The first `recv` stands outside of the `try`.
unfoldable pub recv_until : ℕ → List Recv → Reading
unfolding read_more
recv_until rounds [] = timed_out
recv_until rounds (chunk c ∷ rs) = message (read_more rounds rs c)
recv_until rounds (timeout ∷ rs) = timed_out
recv_until rounds (blocked ∷ rs) = would_block
recv_until rounds (broken ∷ rs) = disconnected
recv_until rounds (failed ∷ rs) = faulty

-- `data.replace(b'\n', b'')`
unfoldable pub strip_newlines : String → String
strip_newlines String.[] = ""
strip_newlines (String.◌∷◌ c s) =
    let rest = strip_newlines s in if nat_eq (code c) 10 then rest else String.◌∷◌ c rest

-- The length of the shortest `.*?\?>` at the start of a text; `.` is any character but a newline.
abbrev pub closing : String → Option ℕ
closing String.[] = none
closing (String.◌∷◌ c s) =
    let rest = Option.map suc (closing s) in
    if nat_eq (code c) 10 then none else if starts_with (String.◌∷◌ c s) "?>" then some 2 else rest

abbrev pub drop_chars : ℕ → String → String
drop_chars zero s = s
drop_chars (suc n) String.[] = ""
drop_chars (suc n) (String.◌∷◌ c s) = drop_chars n s

-- The length of a match of `<\?xml.*?\?>` at the start of a text, 0 for none.
abbrev pub declaration : String → ℕ
declaration s =
    if starts_with s "<?xml"
    then elim (closing (drop_chars 5 s)) [ none ↦ 0 | some n ↦ 5 + n ]
    else 0

-- `re.sub` of that pattern by nothing. `skip` characters of a match are still to be passed over.
unfoldable pub strip_from : ℕ → String → String
strip_from skip String.[] = ""
strip_from (suc skip) (String.◌∷◌ c s) = strip_from skip s
strip_from zero (String.◌∷◌ c s) =
    let n = declaration (String.◌∷◌ c s) in
    let rest = strip_from (n - 1) s in if nat_eq n 0 then String.◌∷◌ c rest else rest

unfoldable pub strip_declarations : String → String
unfolding strip_from
strip_declarations s = strip_from 0 s

-- `returnReceivedData`
unfoldable pub return_received_data : String → String → RawCot
unfolding strip_newlines
return_received_data client s = record { client = client; xml = strip_newlines s }

unfoldable pub wrapped : String → String
unfolding strip_declarations
wrapped s = strip_declarations (str_append "<multiEvent>" (str_append s "</multiEvent>"))

unfoldable pub return_all : String → List String → List RawCot
unfolding return_received_data
return_all client [] = []
return_all client (e ∷ es) = return_received_data client e ∷ return_all client es

-- `events` is what defusedxml makes of a document: the texts of its events in order, or `none` where
-- it raises. Every exception but a timeout and EWOULDBLOCK returns an empty text for the client.
unfoldable pub report_reading : (String → Option (List String)) → String → Reading → List RawCot
unfolding return_received_data wrapped return_all
report_reading events client (message s) =
    if s == "" then return_received_data client "" ∷ [] else elim (events (wrapped s)) [
      | none ↦ return_received_data client "" ∷ []
      | some es ↦ return_all client es
    ]
report_reading events client timed_out = []
report_reading events client would_block = []
report_reading events client disconnected = return_received_data client "" ∷ []
report_reading events client faulty = return_received_data client "" ∷ []

-- `monitorForData`: the clients in the order of the dictionary; `reads` is what each socket does.
unfoldable pub monitor_for_data :
    (String → Option (List String)) → ℕ → (ℕ → List Recv) → Clients → List RawCot
unfolding recv_until report_reading
monitor_for_data events rounds reads [] = []
monitor_for_data events rounds reads ((id, e) ∷ rest) =
    report_reading events id (recv_until rounds (reads e.sock))
    ++ monitor_for_data events rounds reads rest

strip_declarations_test : strip_declarations "a<?xml v?>b<?xml" ≡ "ab<?xml"
unfolding strip_declarations
strip_declarations_test = refl
