-- ===== src/Repeater/Examples.antt =====
-- The repeated messages at concrete inputs.
use free_tak_server.Base.{◌≡◌, String, some, [], ◌∷◌}
use free_tak_server.Base.Dict.{lookup, values, IsDict}
use free_tak_server.Repeater.{
  _load_repeated_messages, missing, create_repeated_messages, delete_repeated_message,
  get_repeated_messages,
}
use free_tak_server.Repeater.Stored.{held, repeated_message}

abbrev itself : String → String
itself e = e

repeated_message_example :
    let file' =
      delete_repeated_message itself
        ("a" ∷ [])
        (create_repeated_messages itself ("a" ∷ "b" ∷ []) missing) in
    (lookup "b" (held itself file') ≡ some "b")
    × IsDict (held itself file')
    × (get_repeated_messages itself file' ≡ (values (held itself file'), file'))
unfolding held _load_repeated_messages
repeated_message_example = repeated_message itself ("a" ∷ "b" ∷ []) ("a" ∷ []) missing "b" tt
