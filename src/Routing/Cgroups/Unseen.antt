-- ===== src/Routing/Cgroups/Unseen.antt =====
-- What setupOneClass (routing/routing_policy_manager.cpp) knows of the write of a class's number.
use wifi_offload_rpi.Prelude.{Bool, Text}
use wifi_offload_rpi.Routing.Cgroups.{Files}

-- A file system that differs from a given one in what it does when a stream is destroyed.
abbrev pub closing : (files : Files) → (Text → files.Disk → Bool × files.Disk) → Files
closing files close = record files { close_file = close }
