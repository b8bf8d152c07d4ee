-- ===== src/Daemon/Agreement.antt =====
-- The caches of the server (api/consumer_api_server.cpp) and the machines of the classes under the
-- steps of all threads (main.cpp).
use wifi_offload_rpi.Prelude.{
  All, Bool-cases, List, Text, [], ap, false, if◌then◌else◌, inl, inr, map, refl, suc, sym, text_eq,
  text_eq_self, text_eq_sound, true, zero, ℕ, ◌∙◌, ◌∷◌, ◌≡◌, ◌≢◌,
}
use wifi_offload_rpi.Types.{PathClassConfig, WpaEvent}
use wifi_offload_rpi.Routing.Netlink.{Netlink}
use wifi_offload_rpi.Mptcp.{Genl}
use wifi_offload_rpi.Fsm.{PathStateFsm, new_fsm}
use wifi_offload_rpi.Api.Server.{Server, new_server, query_current_state}
use wifi_offload_rpi.Api.Server.Cache.{
  handle_client-classes, new_server-known, query-new_server, remove_client-classes,
}
use wifi_offload_rpi.Api.Server.Invariant.{is_known}
use wifi_offload_rpi.Daemon.{
  Happening, Surroundings, World, deliver, delivers, hangs_up, happen, new_fsms, new_world, reads,
  run,
}
use wifi_offload_rpi.Daemon.Cache.{on_event, on_event-config, on_event-known, on_event-query}
use wifi_offload_rpi.Config.Schema.{IsLoaded, IsWellFormed}
use wifi_offload_rpi.Config.Unique.{IsApart}

-- The server knows the class of the machine, and has its state.
abbrev pub IsCached : Server → PathStateFsm → Type 0
IsCached s fsm =
    (is_known fsm.config.id s.class_states ≡ true)
    × (query_current_state fsm.config.id s ≡ fsm.state)

abbrev ids_of : List PathStateFsm → List Text
ids_of = map (λ fsm. fsm.config.id)

-- What a step may change of the caches: those of the given classes.
record IsFramed (ids : List Text) (s s' : Server) : Type 0 where
  known_kept : (id : Text) → is_known id s'.class_states ≡ is_known id s.class_states
  others_kept :
      (id : Text) → All (λ own. own ≢ id) ids → query_current_state id s' ≡ query_current_state id s

text_differs : (x y : Text) → x ≢ y → text_eq x y ≡ false
text_differs x y n = elim (Bool-cases (text_eq x y)) [
  | inl same ↦ absurd (n (text_eq_sound x y same))
  | inr differ ↦ differ
]

-- Machines of other classes are not concerned.
IsFramed-IsCached :
    (ids : List Text) (s s' : Server) (fsms : List PathStateFsm)
    → IsFramed ids s s'
    → All (λ id. All (λ own. own ≢ id) ids) (ids_of fsms)
    → All (IsCached s) fsms
    → All (IsCached s') fsms
IsFramed-IsCached ids s s' [] f a h = tt
IsFramed-IsCached ids s s' (fsm ∷ fsms) f a h = (
  (f.known_kept fsm.config.id ∙ h.0.0, f.others_kept fsm.config.id a.0 ∙ h.0.1),
  IsFramed-IsCached ids s s' fsms f a.1 h.1,
)

module _ (netlink : Netlink) (genl : Genl netlink.Net) (word_bits : ℕ) (around : Surroundings)
    (classes : List PathClassConfig) where
  on_event-IsFramed :
      (ev : WpaEvent) (fsm : PathStateFsm) (w : World netlink.Net)
      → IsCached w.server fsm
      → IsFramed
          (fsm.config.id ∷ [])
          w.server
          (on_event netlink genl word_bits around classes ev fsm w).1.server
  on_event-IsFramed ev fsm w h = record {
    known_kept = λ id. on_event-known netlink genl word_bits around classes ev fsm w id;
    others_kept = λ id a.
        rw
          (
            on_event-query netlink genl word_bits around classes ev fsm w id h.0 h.1,
            text_differs _ _ a.0,
          )
          refl;
  }

  on_event-IsCached :
      (ev : WpaEvent) (fsm : PathStateFsm) (w : World netlink.Net)
      → IsCached w.server fsm
      → let (fsm', w') = on_event netlink genl word_bits around classes ev fsm w in
        IsCached w'.server fsm'
  on_event-IsCached ev fsm w h =
      rw (on_event-config netlink genl word_bits around classes ev fsm w) (
        on_event-known netlink genl word_bits around classes ev fsm w fsm.config.id ∙ h.0,
        rw
            (
              on_event-query netlink genl word_bits around classes ev fsm w fsm.config.id h.0 h.1,
              text_eq_self fsm.config.id,
            )
            refl,
      )

pub All-mono {ℓ κ μ} :
    {A : Type ℓ} (P : A → Type κ) (Q : A → Type μ) (xs : List A)
    → ((x : A) → P x → Q x)
    → All P xs
    → All Q xs
All-mono P Q [] f h = tt
All-mono P Q (x ∷ xs) f h = (f x h.0, All-mono P Q xs f h.1)

record IsDelivered (fsms fsms' : List PathStateFsm) (s s' : Server) : Type 0 where
  same_ids : ids_of fsms' ≡ ids_of fsms
  cached : All (IsCached s') fsms'
  framed : IsFramed (ids_of fsms) s s'

module _ (netlink : Netlink) (genl : Genl netlink.Net) (word_bits : ℕ) (around : Surroundings)
    (classes : List PathClassConfig) where
  deliver-IsDelivered :
      (i : ℕ) (ev : WpaEvent) (fsms : List PathStateFsm) (w : World netlink.Net)
      → IsApart (ids_of fsms)
      → All (IsCached w.server) fsms
      → let (fsms', w') = deliver netlink genl word_bits around classes i ev fsms w in
        IsDelivered fsms fsms' w.server w'.server
  unfolding deliver on_event
  deliver-IsDelivered i ev [] w a h = record {
    same_ids = refl;
    cached = tt;
    framed = record { known_kept = λ id. refl; others_kept = λ id a. refl };
  }
  deliver-IsDelivered zero ev (fsm ∷ fsms) w a h =
      let framed = on_event-IsFramed netlink genl word_bits around classes ev fsm w h.0 in
      record {
        same_ids =
            ap (λ c. c.id ∷ ids_of fsms)
              (on_event-config netlink genl word_bits around classes ev fsm w);
        cached = (
          on_event-IsCached netlink genl word_bits around classes ev fsm w h.0,
          IsFramed-IsCached (fsm.config.id ∷ []) w.server _ fsms framed
              (All-mono _ (λ id. All (λ own. own ≢ id) (fsm.config.id ∷ [])) (ids_of fsms)
                (λ id n. (n, tt)) a.0)
              h.1,
        );
        framed = record {
          known_kept = framed.known_kept;
          others_kept = λ id n. framed.others_kept id (n.0, tt);
        };
      }
  deliver-IsDelivered (suc i) ev (fsm ∷ fsms) w a h =
      let rest = deliver-IsDelivered i ev fsms w a.1 h.1 in
      let unmoved =
        rest.framed.others_kept fsm.config.id
          (All-mono _ (λ own. own ≢ fsm.config.id) (ids_of fsms) (λ id n e. n (sym e)) a.0) in
      record {
        same_ids = ap (λ ids. fsm.config.id ∷ ids) rest.same_ids;
        cached = ((rest.framed.known_kept fsm.config.id ∙ h.0.0, unmoved ∙ h.0.1), rest.cached);
        framed = record {
          known_kept = rest.framed.known_kept;
          others_kept = λ id n. rest.framed.others_kept id n.1;
        };
      }

-- A server that has the same caches serves the same machines.
IsCached-classes :
    (s s' : Server) (fsms : List PathStateFsm)
    → s'.class_states ≡ s.class_states
    → All (IsCached s) fsms
    → All (IsCached s') fsms
unfolding query_current_state
IsCached-classes s s' [] e h = tt
IsCached-classes s s' (fsm ∷ fsms) e h =
    ((rw e h.0.0, rw e h.0.1), IsCached-classes s s' fsms e h.1)

module _ (netlink : Netlink) (genl : Genl netlink.Net) (word_bits : ℕ)
    (classes : List PathClassConfig) where
  -- The machines of the given classes, all in step with the server.
  abbrev IsInStep : List Text → List PathStateFsm → Server → Type 0
  IsInStep ids fsms s = (ids_of fsms ≡ ids) × All (IsCached s) fsms

  happen-IsInStep :
      (ids : List Text) (h : Happening) (fsms : List PathStateFsm) (w : World netlink.Net)
      → IsApart ids
      → IsInStep ids fsms w.server
      → let (fsms', w') = happen netlink genl word_bits classes h fsms w in
        IsInStep ids fsms' w'.server
  unfolding happen
  happen-IsInStep ids (delivers around i ev) fsms w a h =
      let done =
        deliver-IsDelivered netlink genl word_bits around classes i ev fsms w (rw h.0 a) h.1 in
      (done.same_ids ∙ h.0, done.cached)
  happen-IsInStep ids (reads env fd msg) fsms w a h =
      (h.0, IsCached-classes w.server _ fsms (handle_client-classes env fd msg w.server) h.1)
  happen-IsInStep ids (hangs_up env fd) fsms w a h =
      (h.0, IsCached-classes w.server _ fsms (remove_client-classes env fd w.server) h.1)

  run-IsInStep :
      (ids : List Text) (steps : List Happening) (fsms : List PathStateFsm) (w : World netlink.Net)
      → IsApart ids
      → IsInStep ids fsms w.server
      → let (fsms', w') = run netlink genl word_bits classes steps fsms w in
        IsInStep ids fsms' w'.server
  unfolding run
  run-IsInStep ids [] fsms w a h = h
  run-IsInStep ids (s ∷ steps) fsms w a h =
      run-IsInStep ids steps _ _ a (happen-IsInStep ids s fsms w a h)

module _ (netlink : Netlink) (genl : Genl netlink.Net) (word_bits : ℕ) where
  -- Every class of a loaded configuration has an interface, so it has a machine.
  pub new_fsms-loaded :
      (cs : List PathClassConfig)
      → All IsWellFormed cs
      → new_fsms netlink genl word_bits cs ≡ map new_fsm cs
  unfolding new_fsms
  new_fsms-loaded [] h = refl
  new_fsms-loaded (c ∷ cs) h = rw (h.0.attached, if◌then◌else◌, new_fsms-loaded cs h.1) refl

  new_fsms-ids : (cs : List PathClassConfig) → ids_of (map new_fsm cs) ≡ map (λ c. c.id) cs
  unfolding new_fsm
  new_fsms-ids [] = refl
  new_fsms-ids (c ∷ cs) = ap (λ ids. c.id ∷ ids) (new_fsms-ids cs)

  new_fsms-IsInStep :
      (classes : List PathClassConfig) (net : netlink.Net)
      → IsLoaded classes
      → IsInStep netlink genl word_bits classes
          (map (λ c. c.id) classes)
          (new_fsms netlink genl word_bits classes)
          (new_world netlink genl word_bits classes net).server
  unfolding new_world new_fsm
  new_fsms-IsInStep classes net h =
      rw (new_fsms-loaded classes h.well_formed)
        (new_fsms-ids classes, All-new_fsm classes (new_server-known classes))
    where
      All-new_fsm :
          (cs : List PathClassConfig)
          → All (λ c. is_known c.id (new_server classes).class_states ≡ true) cs
          → All (IsCached (new_server classes)) (map new_fsm cs)
      All-new_fsm [] h = tt
      All-new_fsm (c ∷ cs) h = ((h.0, query-new_server c.id classes), All-new_fsm cs h.1)

  -- For a configuration that the loader accepts, and whatever the steps of the monitors and of the
  -- clients, in any order: there is a machine for each class, in the order of the classes, and a
  -- query at the server gives the state of the class's machine.
  pub run-new_fsms-IsCached :
      (classes : List PathClassConfig) (net : netlink.Net) (steps : List Happening)
      → IsLoaded classes
      → let (fsms, w) =
          run netlink genl word_bits classes steps
            (new_fsms netlink genl word_bits classes)
            (new_world netlink genl word_bits classes net) in
        (map (λ fsm. fsm.config.id) fsms ≡ map (λ c. c.id) classes) × All (IsCached w.server) fsms
  run-new_fsms-IsCached classes net steps h =
      run-IsInStep netlink genl word_bits classes (map (λ c. c.id) classes) steps _ _ h.ids_apart
        (new_fsms-IsInStep classes net h)
