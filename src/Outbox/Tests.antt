-- ===== src/Outbox/Tests.antt =====
-- The publication of a row, run on an outbox of one row.
use lingxi_learn.Prelude.{String, ◌≡◌, refl, true, List, [], ◌∷◌}
use lingxi_learn.Prelude.Tables.{lookup, modify}
use lingxi_learn.Outbox.{OutboxRow, NewEvent, new_row, publish, mark_outbox_published}

abbrev event : String → NewEvent
event payload = record {
  event_key = "k";
  task_id = "t";
  turn_id = "u";
  plan_revision = 1;
  kind = "delivered";
  payload = payload;
}

abbrev outbox : List OutboxRow
outbox = new_row "o1" (event "a") ∷ []

abbrev published : List OutboxRow
published = publish 5 (new_row "o1" (event "a")) ∷ []

publish_run : mark_outbox_published "o1" 5 outbox ≡ (published, true)
unfolding mark_outbox_published lookup modify
publish_run = refl
