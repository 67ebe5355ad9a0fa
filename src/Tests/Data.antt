-- ===== src/Tests/Data.antt =====
-- A clock for the runs.
use finvoice.Prelude.{◌+◌}
use finvoice.Runtime.{Clock}

-- A clock that advances by one millisecond with each reading.
abbrev pub clock : Clock
clock k = 1000 + k
