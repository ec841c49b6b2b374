-- ===== src/DbWorker/Rows.antt =====
-- A row of the poll, and the message that the worker makes of it.
use palworld_pal_crosschat.Base.{
  ℕ, ◌-◌, Option, none, some, [], ◌∷◌, ◌++◌, ltb, ◌==◌, if◌then◌else◌, length, take, Bytes,
}
use palworld_pal_crosschat.Queues.{InboundMessage}
use palworld_pal_crosschat.DbWorker.Mysql.{Column, Row}

-- `assign(buffer, is_null ? 0 : length)` for a buffer of `size` bytes, zeroed, of which the library
-- may write all but the last. `length` is the length of the column and not what was written, so a
-- column of `size` bytes ends in the buffer's last byte, which is 0, and a longer one is read past the
-- end of the buffer: `none`.
unfoldable pub assign_column : ℕ → Column → Option Bytes
assign_column size none = some []
assign_column size (some s) =
    if ltb (length s) size
    then some s
    else if length s == size
    then some (take (size - 1) s ++ 0 ∷ [])
    else none

abbrev pub short_buffer : ℕ
short_buffer = 64

abbrev pub message_buffer : ℕ
message_buffer = 512

abbrev pub ◌>>=◌ {ℓ κ} : {A : Type ℓ} {B : Type κ} → Option A → (A → Option B) → Option B
none >>= f = none
some a >>= f = f a

infixl 5 ◌>>=◌
unfoldable pub to_inbound : Row → Option InboundMessage
to_inbound row = do
  origin ← assign_column short_buffer row.origin
  sender_name ← assign_column short_buffer row.sender_name
  sender_id ← assign_column short_buffer row.sender_id
  guild_name ← assign_column short_buffer row.guild_name
  message ← assign_column message_buffer row.message
  some (record {
    id = row.id;
    origin = origin;
    sender_name = sender_name;
    sender_id = sender_id;
    guild_name = guild_name;
    message = message;
  })
