-- ===== src/DbWorker/Fresh.antt =====
-- What the query of the poll promises of its rows, and what a list of deeds must keep to.
use palworld_pal_crosschat.Base.{
  ◌+◌, ◌<◌, ◌≡◌, ◌≢◌, true, false, Option, none, some, List, [], ◌∷◌, ◌++◌, arith, length, Bytes, ℤ,
  pos_part, neg_part,
}
use palworld_pal_crosschat.Config.Types.{Config}
use palworld_pal_crosschat.Queues.{InboundMessage}
use palworld_pal_crosschat.DbWorker.Mysql.{
  Mysql, select_messages, Column, Row, Fetch, fetched, truncated, fetch_failed, run_stmt,
  ◌and_then◌,
}
use palworld_pal_crosschat.DbWorker.Rows.{
  assign_column, short_buffer, message_buffer, to_inbound, ◌>>=◌,
}
use palworld_pal_crosschat.DbWorker.State.{select_params}
use palworld_pal_crosschat.DbWorker.Worker.{Deed, inserted, received, restarted, answered, waited}

abbrev pub ◌<ℤ◌ : ℤ → ℤ → Type 0
◌<ℤ◌ a b = pos_part a + neg_part b < pos_part b + neg_part a

infix 50 ◌<ℤ◌
-- Of another server than `own`, in a column that the worker's buffer holds.
abbrev pub IsForeign : Bytes → Column → Type 0
IsForeign own none = false ≡ true
IsForeign own (some origin) = (length origin < short_buffer) × (origin ≢ own)

-- What `id > cursor AND origin != own ORDER BY id ASC` says of the rows.
abbrev pub IsSelected : Bytes → ℤ → List Fetch → Type 0
IsSelected own cursor [] = Unit
IsSelected own cursor (fetch_failed ∷ rows) = Unit
IsSelected own cursor (fetched row ∷ rows) =
    (cursor <ℤ row.id) × IsForeign own row.origin × IsSelected own row.id rows
IsSelected own cursor (truncated row ∷ rows) =
    (cursor <ℤ row.id) × IsForeign own row.origin × IsSelected own row.id rows

-- The database answers the poll's query.
abbrev pub Selects : Mysql → Config → Type 0
Selects lib config =
    (cursor : ℤ) (d : lib.Db)
    → (run_stmt lib select_messages (select_params config cursor) d).0 ≡ true
    → ((lib.bind_result select_messages and_then lib.store_result select_messages)
        (run_stmt lib select_messages (select_params config cursor) d).1).0
      ≡ true
    → IsSelected config.server_origin cursor (
        lib.fetches select_messages
          ((lib.bind_result select_messages and_then lib.store_result select_messages)
            (run_stmt lib select_messages (select_params config cursor) d).1).1)

-- Each message has an id above the one before it, or above the point of the last restart, and is of
-- another server.
abbrev pub IsFresh : Bytes → ℤ → List Deed → Type 0
IsFresh own last [] = Unit
IsFresh own last (received m ∷ deeds) = (last <ℤ m.id) × (m.origin ≢ own) × IsFresh own m.id deeds
IsFresh own last (restarted id ∷ deeds) = IsFresh own id deeds
IsFresh own last (inserted _ ∷ deeds) = IsFresh own last deeds
IsFresh own last (answered _ _ ∷ deeds) = IsFresh own last deeds
IsFresh own last (waited _ ∷ deeds) = IsFresh own last deeds

abbrev pub last_id : ℤ → List Deed → ℤ
last_id last [] = last
last_id last (received m ∷ deeds) = last_id m.id deeds
last_id last (restarted id ∷ deeds) = last_id id deeds
last_id last (inserted _ ∷ deeds) = last_id last deeds
last_id last (answered _ _ ∷ deeds) = last_id last deeds
last_id last (waited _ ∷ deeds) = last_id last deeds

pub IsFresh-append :
    (own : Bytes) (last : ℤ) (ds es : List Deed)
    → IsFresh own last ds
    → IsFresh own (last_id last ds) es
    → IsFresh own last (ds ++ es)
IsFresh-append own last [] es h k = k
IsFresh-append own last (received m ∷ ds) es (a, b, h) k = (a, b, IsFresh-append own m.id ds es h k)
IsFresh-append own last (restarted id ∷ ds) es h k = IsFresh-append own id ds es h k
IsFresh-append own last (inserted _ ∷ ds) es h k = IsFresh-append own last ds es h k
IsFresh-append own last (answered _ _ ∷ ds) es h k = IsFresh-append own last ds es h k
IsFresh-append own last (waited _ ∷ ds) es h k = IsFresh-append own last ds es h k

pub assign_column-foreign :
    (own : Bytes) (c : Column) (origin : Bytes)
    → IsForeign own c
    → assign_column short_buffer c ≡ some origin
    → origin ≢ own
unfolding assign_column
assign_column-foreign own none origin h e = cc
assign_column-foreign own (some o) origin (h, k) e = ground arith

-- What the message of a row keeps of it, whatever its columns come to.
made_keeps :
    (id : ℤ) (a b c d f : Option Bytes) (m : InboundMessage)
    → (a >>= λ origin. b >>= λ sender_name. c >>= λ sender_id. d >>= λ guild_name. f >>= λ message.
        some (record {
          id = id;
          origin = origin;
          sender_name = sender_name;
          sender_id = sender_id;
          guild_name = guild_name;
          message = message;
        }))
      ≡ some m
    → (m.id ≡ id) × (a ≡ some m.origin)
made_keeps id none b c d f m e = cc
made_keeps id (some _) none c d f m e = cc
made_keeps id (some _) (some _) none d f m e = cc
made_keeps id (some _) (some _) (some _) none f m e = cc
made_keeps id (some _) (some _) (some _) (some _) none m e = cc
made_keeps id (some _) (some _) (some _) (some _) (some _) m e = (cc, cc)

pub to_inbound_keeps :
    (row : Row) (m : InboundMessage)
    → to_inbound row ≡ some m
    → (m.id ≡ row.id) × (assign_column short_buffer row.origin ≡ some m.origin)
unfolding to_inbound
to_inbound_keeps row m e =
    made_keeps row.id (assign_column short_buffer row.origin)
      (assign_column short_buffer row.sender_name) (assign_column short_buffer row.sender_id)
      (assign_column short_buffer row.guild_name) (assign_column message_buffer row.message) m e

pub some-injective : (xs ys : List Fetch) → some xs ≡ some ys → xs ≡ ys
some-injective xs ys e = cc
