-- ===== src/DbWorker/Columns.antt =====
-- From the parameters of the INSERT on one server to the message that another server makes of the row.
use palworld_pal_crosschat.Base.{
  ℕ, ◌-◌, ◌≤◌, ◌<◌, ◌≡◌, refl, ◌⊎◌, inl, inr, Option, none, some, List, [], ◌∷◌, ◌++◌, arith, ltb,
  ltb→lt, Bool-cases, length, take, Bytes, ℤ,
}
use palworld_pal_crosschat.Config.Types.{Config}
use palworld_pal_crosschat.Queues.{OutboundMessage, InboundMessage}
use palworld_pal_crosschat.DbWorker.Mysql.{Row, Param, text_param}
use palworld_pal_crosschat.DbWorker.Rows.{assign_column, short_buffer, message_buffer, to_inbound}
use palworld_pal_crosschat.DbWorker.State.{insert_params}

-- The row that `INSERT … (origin, sender_name, sender_id, guild_name, message)` stores.
abbrev pub stored_row : ℤ → List Param → Option Row
stored_row id (text_param a ∷ text_param b ∷ text_param c ∷ text_param d ∷ text_param e ∷ []) =
    some (record {
      id = id;
      origin = some a;
      sender_name = some b;
      sender_id = some c;
      guild_name = some d;
      message = some e;
    })
stored_row id _ = none

-- The message of a row.
abbrev pub carried : Option Row → Option InboundMessage
carried none = none
carried (some row) = to_inbound row

abbrev pub carried_as : Config → ℤ → OutboundMessage → Bytes → InboundMessage
carried_as config id m text = record {
  id = id;
  origin = config.server_origin;
  sender_name = m.sender_name;
  sender_id = m.sender_id;
  guild_name = m.guild_name;
  message = text;
}

-- The texts that the short buffers hold.
abbrev pub IsNarrow : Config → OutboundMessage → Type 0
IsNarrow config m =
    (length config.server_origin < short_buffer)
    × (length m.sender_name < short_buffer)
    × (length m.sender_id < short_buffer)
    × (length m.guild_name < short_buffer)

assign_column-narrow :
    (size : ℕ) (s : Bytes) → length s < size → assign_column size (some s) ≡ some s
unfolding assign_column
assign_column-narrow size s h = ground arith

assign_column-full :
    (size : ℕ) (s : Bytes)
    → length s ≡ size
    → assign_column size (some s) ≡ some (take (size - 1) s ++ 0 ∷ [])
unfolding assign_column
assign_column-full size s h = ground arith

carried-message :
    (config : Config) (id : ℤ) (m : OutboundMessage) (text : Bytes)
    → IsNarrow config m
    → assign_column message_buffer (some m.message) ≡ some text
    → carried (stored_row id (insert_params config m)) ≡ some (carried_as config id m text)
unfolding to_inbound
carried-message config id m text (a, b, c, d) e =
    rw
      (
        assign_column-narrow short_buffer config.server_origin a,
        assign_column-narrow short_buffer m.sender_name b,
        assign_column-narrow short_buffer m.sender_id c,
        assign_column-narrow short_buffer m.guild_name d,
        e,
      )
      refl

-- A message whose origin, name, id and guild are shorter than 64 bytes and whose text has at most 512
-- bytes, inserted by one server, is queued on another with the same origin, name, id and guild; its
-- text is the same if it is shorter than 512 bytes, and has a zero for its last byte if it has 512.
pub carried_lem :
    (config : Config) (id : ℤ) (m : OutboundMessage)
    → IsNarrow config m
    → length m.message ≤ message_buffer
    → ((length m.message < message_buffer)
        × (carried (stored_row id (insert_params config m))
            ≡ some (carried_as config id m m.message)))
      ⊎ ((length m.message ≡ message_buffer)
          × (carried (stored_row id (insert_params config m))
              ≡ some (carried_as config id m (take (message_buffer - 1) m.message ++ 0 ∷ []))))
carried_lem config id m narrow fits = elim (Bool-cases (ltb (length m.message) message_buffer)) [
  | inl e ↦ inl (
    ltb→lt _ _ e,
    carried-message config id m m.message narrow
        (assign_column-narrow message_buffer m.message (ltb→lt _ _ e)),
  )
  | inr e ↦
      let full : length m.message ≡ message_buffer = ground arith in
      inr (
        full,
        carried-message config id m _ narrow (assign_column-full message_buffer m.message full),
      )
]
