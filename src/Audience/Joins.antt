-- ===== src/Audience/Joins.antt =====
-- How long a join waits.
use palworld_pal_crosschat.Base.{◌<◌, List, All}
use palworld_pal_crosschat.Guid.{Guid}
use palworld_pal_crosschat.Audience.Defs.{PendingJoin}
use palworld_pal_crosschat.Audience.Hooks.{join_max_wait_frames}

abbrev pub IsWaiting : List PendingJoin → Type 0
IsWaiting items = All (λ (i : PendingJoin). i.frames < join_max_wait_frames) items
