-- ===== src/CotService/MainLoop/InStep.antt =====
-- Dictionaries of clients and of connections that are in step, and what keeps them so.
use mathlib.Core.Option
use free_tak_server.Base.{
  String, ◌≡◌, refl, ◌∙◌, ap, inl, inr, none, some, [], ◌∷◌, ◌==◌, eq_iff, arith, Bool-cases,
  Option-cases,
}
use free_tak_server.Base.Dict.{
  Dict, lookup, insert, erase, lookup-insert, lookup-erase, IsDict, insert-IsDict, erase-IsDict,
}
use free_tak_server.CotService.SendData.{Client, Entry, Clients}
use free_tak_server.CotService.ComponentData.{Connection, Connections}
use free_tak_server.CotService.MainLoop.{refresh}

-- The connection of an entry: under the object id of the uid, with the uid and the entry's socket.
abbrev pub Connects : (String → String) → Connections → String → Entry → Type 0
Connects oid connections id e =
    (k : Connection) × (lookup (oid id) connections ≡ some k) × (k.uid ≡ id) × (k.sock ≡ e.sock)

-- Both dictionaries have each key once, and every client has its connection.
abbrev pub InStep : (String → String) → Clients → Connections → Type 0
InStep oid clients connections =
    IsDict clients
    × IsDict connections
    × ((id : String) (e : Entry) → lookup id clients ≡ some e → Connects oid connections id e)

abbrev pub IsInjective : (String → String) → Type 0
IsInjective f = (a b : String) → f a ≡ f b → a ≡ b

module _ (oid : String → String) (distinct : IsInjective oid) where
  pub InStep-insert :
      (uid : String) (e : Entry) (k : Connection) (clients : Clients) (connections : Connections)
      → k.uid ≡ uid
      → k.sock ≡ e.sock
      → InStep oid clients connections
      → InStep oid (insert uid e clients) (insert (oid uid) k connections)
  InStep-insert uid e k clients connections named same (ds, dc, step) = (
    insert-IsDict uid e clients ds,
    insert-IsDict (oid uid) k connections dc,
    λ id e' at. elim (Bool-cases (uid == id)) [
      | inl own ↦
          let u = (eq_iff uid id).0 own in
          (
            k,
            ground (
              arith,
              lookup-insert (oid uid) (oid id) k connections,
              eq_iff (oid uid) (oid id),
              ap oid u,
            ),
            named ∙ u,
            ground (arith, lookup-insert uid id e clients),
          )
      | inr other ↦
          let (k', at', named', same') =
            step id e' (ground (arith, lookup-insert uid id e clients)) in
          (
            k',
            ground (
              arith,
              lookup-insert (oid uid) (oid id) k connections,
              eq_iff (oid uid) (oid id),
              distinct uid id,
              eq_iff uid id,
            ),
            named',
            same',
          )
    ],
  )

pub InStep-erase :
    (oid : String → String) (id : String) (clients : Clients) (connections : Connections)
    → InStep oid clients connections
    → InStep oid (erase id clients) connections
InStep-erase oid id clients connections (ds, dc, step) =
    (erase-IsDict id clients ds, dc, λ j e at. step j e (ground (arith, lookup-erase id j clients)))

-- What the core says of an entry.
abbrev told : Dict Client → String → Entry → Entry
told users id e = elim (lookup id users) [ none ↦ e | some c ↦ record e { client = some c } ]

sock-told : (users : Dict Client) (id : String) (e : Entry) → (told users id e).sock ≡ e.sock
sock-told users id e = ground arith

lookup-refresh :
    (users : Dict Client) (id : String) (clients : Clients)
    → lookup id (refresh users clients) ≡ Option.map (told users id) (lookup id clients)
unfolding lookup refresh
lookup-refresh users id [] = refl
lookup-refresh users id ((j, e) ∷ rest) = elim (Bool-cases (j == id)) [
  | inl same ↦ rw same (ap (λ k. some (told users k e)) ((eq_iff j id).0 same))
  | inr other ↦ rw other (lookup-refresh users id rest)
]

refresh-IsDict :
    (users : Dict Client) (clients : Clients) → IsDict clients → IsDict (refresh users clients)
unfolding refresh
refresh-IsDict users [] h = tt
refresh-IsDict users ((j, e) ∷ rest) (fresh, h) = (
  lookup-refresh users j rest ∙ ap (Option.map (told users j)) fresh,
  refresh-IsDict users rest h,
)

pub InStep-refresh :
    (oid : String → String) (users : Dict Client) (clients : Clients) (connections : Connections)
    → InStep oid clients connections
    → InStep oid (refresh users clients) connections
InStep-refresh oid users clients connections (ds, dc, step) = (
  refresh-IsDict users clients ds,
  dc,
  λ id e at. elim (Option-cases (lookup id clients)) [
    | inl absent ↦ absurd (ground (arith, lookup-refresh users id clients))
    | inr (e', present) ↦
        let (k, at', named, same) = step id e' present in
        (k, at', named, ground (arith, lookup-refresh users id clients, sock-told users id e'))
  ],
)
