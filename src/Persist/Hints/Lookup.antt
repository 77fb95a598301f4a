-- ===== src/Persist/Hints/Lookup.antt =====
-- shared/persist.ts: what `find` gives after `upsertBusHint`.
use vanilla_bus.Prelude.{[], Text}
use vanilla_bus.Prelude.Strings.{trim}
use vanilla_bus.Persist.{persist_max_iface}
use vanilla_bus.Persist.Sanitize.{clamp_trimmed}

-- the name as `upsertBusHint` stores it
abbrev pub clean_name : Text → Text
clean_name name = clamp_trimmed (trim name) persist_max_iface []
