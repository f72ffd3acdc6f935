-- ===== src/Poller/Tests.antt =====
-- A poller with a descriptor for reading and one for both.
use pingkv.Base.{true, false, none, some, List, [], ◌∷◌, ◌==◌, if◌then◌else◌}
use pingkv.Poller.{Poller, read_arg, read_write_arg, Event}

abbrev poller : Poller
poller fd = if fd == 3 then some (read_arg 3) else if fd == 4 then some (read_write_arg 4) else none

abbrev events : List Event
events =
    record { fd = 4; error = false; ctl_ok = true }
    ∷ record { fd = 3; error = true; ctl_ok = false }
    ∷ []
