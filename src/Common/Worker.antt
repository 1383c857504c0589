-- ===== src/Common/Worker.antt =====
-- `Worker` of knight/src/common/worker.h: a thread with a flag. The body of the thread, `run`, is that of
-- each class that derives from it.
use dex_knight.Prelude.{Bool, true, false, not, if◌then◌else◌}

pub record Worker : Type 0 where
  pub running : Bool
  -- the thread was started and not joined
  pub joinable : Bool

abbrev pub new_worker : Worker
new_worker = record { running = false; joinable = false }

unfoldable pub start : Worker → Worker
start w = if w.running then w else record { running = true; joinable = true }

unfoldable pub stop : Worker → Worker
stop w = if not w.running then w else record { running = false; joinable = false }
