-- ===== src/Api/Server/Registration.antt =====
-- Register and Unregister as a pair (api/consumer_api_server.cpp).
use wifi_offload_rpi.Prelude.{
  List, Option-cases, [], ap, erase_if, find_if, inl, inr, some, true, ℕ, ◌%◌, ◌++◌, ◌+◌, ◌^◌, ◌∷◌,
  ◌≡◌,
}
use wifi_offload_rpi.Api.Wire.{ApiMsg, array_string}
use wifi_offload_rpi.Api.Server.{
  ConsumerEntry, Env, Server, find_class, handle_register, handle_unregister, has_handle,
  register_known,
}
use wifi_offload_rpi.Api.Server.Registry.{
  IsAscending, IsAscending-keep, erase_if-handle_snoc, find_if-handle_snoc, without_fd,
}
use wifi_offload_rpi.Api.Server.Replies.{find_class-unknown}
use wifi_offload_rpi.Api.Server.Invariant.{IsValid, is_known}

abbrev pub entry_of : ℕ → ApiMsg → Server → ConsumerEntry
entry_of fd msg s = record {
  fd = fd;
  pid = msg.pid;
  handle = s.next_handle;
  class_id = array_string msg.class_id;
}

handle_register-known :
    (env : Env) (fd : ℕ) (msg : ApiMsg) (s : Server)
    → is_known (array_string msg.class_id) s.class_states ≡ true
    → (handle_register env fd msg s).0 ≡ record s {
      registry = without_fd fd s.registry ++ entry_of fd msg s ∷ [];
      next_handle = (s.next_handle + 1) % 2 ^ 64;
    }
unfolding handle_register register_known
handle_register-known env fd msg s known =
    elim (Option-cases (find_class (array_string msg.class_id) s.class_states)) [
      | inl e ↦ cc (find_class-unknown _ _ e)
      | inr (cls, e) ↦ rw (e, handle_register)
    ]

-- Unregister of the newest entry.
handle_unregister-last :
    (env : Env) (fd : ℕ) (msg : ApiMsg) (s : Server) (es : List ConsumerEntry) (e : ConsumerEntry)
    → s.registry ≡ es ++ e ∷ []
    → IsAscending 1 es e.handle
    → msg.handle ≡ e.handle
    → (handle_unregister env fd msg s).0 ≡ record s { registry = es }
unfolding handle_unregister
handle_unregister-last env fd msg s es e r a h =
    rw (found, handle_unregister) (λ i. record s { registry = erased i })
  where
    found : find_if (has_handle msg.handle) s.registry ≡ some e
    found = rw (r, h) (find_if-handle_snoc 1 es e a)

    erased : erase_if (has_handle msg.handle) s.registry ≡ es
    erased = rw (r, h) (erase_if-handle_snoc 1 es e a)

-- A registration for a configured class replaces what the descriptor had registered and is found
-- under the handle that it was given; a later Unregister of that handle, from whatever descriptor,
-- takes back exactly this registration.
pub handle_unregister-handle_register :
    (env env' : Env) (fd fd' : ℕ) (msg msg' : ApiMsg) (s : Server)
    → IsValid s
    → is_known (array_string msg.class_id) s.class_states ≡ true
    → msg'.handle ≡ s.next_handle
    → let s' = (handle_register env fd msg s).0 in
      (find_if (has_handle s.next_handle) s'.registry ≡ some (entry_of fd msg s))
      × ((handle_unregister env' fd' msg' s').0 ≡ record s' { registry = without_fd fd s.registry })
handle_unregister-handle_register env env' fd fd' msg msg' s v known same = (
  rw reg (find_if-handle_snoc 1 (without_fd fd s.registry) (entry_of fd msg s) ascending),
  handle_unregister-last env' fd' msg' s' (without_fd fd s.registry) (entry_of fd msg s) reg
      ascending same,
)
  where
    s' : Server
    s' = (handle_register env fd msg s).0

    reg : s'.registry ≡ without_fd fd s.registry ++ entry_of fd msg s ∷ []
    reg = ap (λ t. t.registry) (handle_register-known env fd msg s known)

    ascending : IsAscending 1 (without_fd fd s.registry) s.next_handle
    ascending = IsAscending-keep _ 1 s.next_handle s.registry v.ascending
