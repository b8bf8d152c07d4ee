-- ===== src/Api/Server/Broadcast.antt =====
-- broadcastPathEvent and removeClient (api/consumer_api_server.cpp): who is told, who is dropped,
-- and which descriptors are closed.
use wifi_offload_rpi.Prelude.{
  All, Bool, Bool-cases, List, Option-cases, Text, [], any, ap, arith, false, find_if,
  if◌then◌else◌, inl, inr, keep, map, none, not, refl, some, sym, true, ℕ, ℤ, ◌==◌, ◌∙◌, ◌∷◌, ◌≡◌,
}
use wifi_offload_rpi.Types.{PathState}
use wifi_offload_rpi.Api.Server.Effects.{
  closed_fds, closed_fds-append, drop_consumer-IsSilent, sent_to, sent_to-append,
}
use wifi_offload_rpi.Api.Server.{
  ConsumerEntry, Env, Server, broadcast_path_event, cache_state, drop_consumer, has_fd, is_dead,
  is_for, path_event_msg, remove_client, remove_dead, send,
}
use wifi_offload_rpi.Api.Server.Registry.{
  All-keep, IsDistinct, IsDistinct-keep, IsFreeFd, erase_if-without_fd, without_fd, without_fd-free,
}
use wifi_offload_rpi.Api.Server.Invariant.{IsValid}
use wifi_offload_rpi.Api.Wire.{ApiMsg}
use mathlib.Core.List.{append-nil}
use mathlib.Core.Path.{subst}

find_if-none_without :
    (fd : ℕ) (es : List ConsumerEntry) → find_if (has_fd fd) es ≡ none → without_fd fd es ≡ es
find_if-none_without fd [] h = refl
find_if-none_without fd (e ∷ es) h = ground (arith, find_if-none_without fd es)

drop_consumer-registry :
    (env : Env) (fd : ℕ) (s : Server)
    → IsDistinct s.registry
    → (drop_consumer env fd s).0.registry ≡ without_fd fd s.registry
unfolding drop_consumer
drop_consumer-registry env fd s d = elim (Option-cases (find_if (has_fd fd) s.registry)) [
  | inl e ↦ rw (e, drop_consumer) (sym (find_if-none_without fd s.registry e))
  | inr (x, e) ↦ rw (e, drop_consumer) (erase_if-without_fd fd s.registry d)
]

-- The entries left when those of several descriptors are erased one after the other.
abbrev strip : List ℕ → List ConsumerEntry → List ConsumerEntry
strip [] es = es
strip (fd ∷ fds) es = strip fds (without_fd fd es)

remove_dead-registry :
    (env : Env) (fds : List ℕ) (s : Server)
    → IsDistinct s.registry
    → (remove_dead env fds s).0.registry ≡ strip fds s.registry
unfolding remove_dead
remove_dead-registry env [] s d = refl
remove_dead-registry env (fd ∷ fds) s d =
    remove_dead-registry env fds _
      (rw (drop_consumer-registry env fd s d) (IsDistinct-keep _ s.registry d))
    ∙ ap (strip fds) (drop_consumer-registry env fd s d)

remove_dead-closed :
    (env : Env) (fds : List ℕ) (s : Server) → closed_fds (remove_dead env fds s).1 ≡ fds
unfolding remove_dead
remove_dead-closed env [] s = refl
remove_dead-closed env (fd ∷ fds) s =
    let (s', effects) = drop_consumer env fd s in
    closed_fds-append effects _
    ∙ rw ((drop_consumer-IsSilent env fd s).1) (ap (◌∷◌ fd) (remove_dead-closed env fds s'))

remove_dead-sent : (env : Env) (fds : List ℕ) (s : Server) → sent_to (remove_dead env fds s).1 ≡ []
unfolding remove_dead
remove_dead-sent env [] s = refl
remove_dead-sent env (fd ∷ fds) s =
    let (s', effects) = drop_consumer env fd s in
    sent_to-append effects _
    ∙ rw ((drop_consumer-IsSilent env fd s).0) (remove_dead-sent env fds s')

abbrev pub fds_of : List ConsumerEntry → List ℕ
fds_of = map (λ e. e.fd)

IsOther : ConsumerEntry → List ℕ → Type 0
IsOther e fds = All (λ fd. has_fd fd e ≡ false) fds

strip-other :
    (e : ConsumerEntry) (fds : List ℕ) (es : List ConsumerEntry)
    → IsOther e fds
    → strip fds (e ∷ es) ≡ e ∷ strip fds es
unfolding IsOther
strip-other e [] es o = refl
strip-other e (fd ∷ fds) es o = rw (o.0, if◌then◌else◌) (strip-other e fds (without_fd fd es) o.1)

fds_of-IsOther :
    (e : ConsumerEntry) (p : ConsumerEntry → Bool) (es : List ConsumerEntry)
    → IsFreeFd e.fd es
    → IsOther e (fds_of (keep p es))
unfolding IsOther
fds_of-IsOther e p [] f = tt
fds_of-IsOther e p (x ∷ es) f = ground (arith, fds_of-IsOther e p es f.1)

strip_self :
    (e : ConsumerEntry) (fds : List ℕ) (es : List ConsumerEntry)
    → IsFreeFd e.fd es
    → strip (e.fd ∷ fds) (e ∷ es) ≡ strip fds es
strip_self e fds es f = ap (strip fds) (ground (arith, without_fd-free e.fd es f))

strip-keep :
    (p : ConsumerEntry → Bool) (es : List ConsumerEntry)
    → IsDistinct es
    → strip (fds_of (keep p es)) es ≡ keep (λ e. not (p e)) es
strip-keep p [] d = refl
strip-keep p (e ∷ es) d = elim (Bool-cases (p e)) [
  | inl dead ↦ rw dead (strip_self e (fds_of (keep p es)) es d.0 ∙ strip-keep p es d.1)
  | inr alive ↦
      rw alive (strip-other e _ es (fds_of-IsOther e p es d.0) ∙ ap (◌∷◌ e) (strip-keep p es d.1))
]

sent_to-map :
    (msg : ApiMsg) (es : List ConsumerEntry) → sent_to (map (λ e. send e.fd msg) es) ≡ fds_of es
sent_to-map msg [] = refl
sent_to-map msg (e ∷ es) = ap (◌∷◌ e.fd) (sent_to-map msg es)

closed_fds-map :
    (msg : ApiMsg) (es : List ConsumerEntry) → closed_fds (map (λ e. send e.fd msg) es) ≡ []
closed_fds-map msg [] = refl
closed_fds-map msg (e ∷ es) = closed_fds-map msg es

-- A broadcast sends to the entries of its class, in the order of the registry, and to nobody else;
-- exactly the entries of the class that cannot be reached leave the registry, the others stay in
-- their order; and the descriptor of each entry that leaves is closed once.
pub broadcast_path_event_lem :
    (env : Env) (id iface : Text) (new : PathState) (rssi : ℤ) (s : Server)
    → IsValid s
    → let (s', effects) = broadcast_path_event env id new iface rssi s in
      (sent_to effects ≡ fds_of (keep (is_for id) s.registry))
      × (s'.registry ≡ keep (λ e. not (is_dead env id e)) s.registry)
      × (closed_fds effects ≡ fds_of (keep (is_dead env id) s.registry))
unfolding broadcast_path_event
broadcast_path_event_lem env id iface new rssi s v = (
  rw (
    sent_to-append,
    sent_to-map (path_event_msg id new iface rssi) (keep (is_for id) s.registry),
    remove_dead-sent,
    append-nil,
  ),
  remove_dead-registry env _ (cache_state id new iface rssi s) v.distinct
      ∙ strip-keep (is_dead env id) s.registry v.distinct,
  rw (
    closed_fds-append,
    closed_fds-map (path_event_msg id new iface rssi) (keep (is_for id) s.registry),
    remove_dead-closed,
  ),
)

apart : (a b : ℕ) → (b == a) ≡ false → (a == b) ≡ false
apart a b h = ground arith

module _ (p : ConsumerEntry → Bool) (e : ConsumerEntry) where
  found_here :
      (x : ConsumerEntry) (es : List ConsumerEntry)
      → p x ≡ true
      → find_if p (x ∷ es) ≡ some e
      → x ≡ e
  found_here x es hit h = ground arith

  found_later :
      (x : ConsumerEntry) (es : List ConsumerEntry)
      → p x ≡ false
      → find_if p (x ∷ es) ≡ some e
      → find_if p es ≡ some e
  found_later x es miss h = ground arith

  find_if-All {κ} :
      (P : ConsumerEntry → Type κ) (es : List ConsumerEntry)
      → All P es
      → find_if p es ≡ some e
      → P e
  find_if-All P [] a h = cc
  find_if-All P (x ∷ es) a h = elim (Bool-cases (p x)) [
    | inl hit ↦ subst P (found_here x es hit h) a.0
    | inr miss ↦ find_if-All P es a.1 (found_later x es miss h)
  ]

  find_if-fds_of :
      (es : List ConsumerEntry)
      → find_if p es ≡ some e
      → any (λ fd. fd == e.fd) (fds_of (keep p es)) ≡ true
  find_if-fds_of [] h = cc
  find_if-fds_of (x ∷ es) h = ground (arith, find_if-fds_of es)

  find_if-IsFreeFd :
      (es : List ConsumerEntry)
      → IsDistinct es
      → find_if p es ≡ some e
      → IsFreeFd e.fd (keep (λ x. not (p x)) es)
  find_if-IsFreeFd [] d h = tt
  find_if-IsFreeFd (x ∷ es) d h = elim (Bool-cases (p x)) [
    | inl hit ↦
        rw (hit, if◌then◌else◌)
          (subst (λ y. IsFreeFd y.fd (keep (λ z. not (p z)) es)) (found_here x es hit h)
            (All-keep _ _ es d.0))
    | inr miss ↦
        rw (miss, if◌then◌else◌)
          (
            apart x.fd e.fd
                (find_if-All (λ y. has_fd x.fd y ≡ false) es d.0 (found_later x es miss h)),
            find_if-IsFreeFd es d.1 (found_later x es miss h),
          )
  ]

-- removeClient closes its descriptor and drops its entry, but the descriptor of a consumer that a
-- broadcast dropped and closed already is closed a second time, for nothing in the registry any
-- more: it is not idempotent.
pub remove_client_closes_again :
    (env env' : Env) (id iface : Text) (new : PathState) (rssi : ℤ) (s : Server) (e : ConsumerEntry)
    → IsValid s
    → find_if (is_dead env id) s.registry ≡ some e
    → let (s', effects) = broadcast_path_event env id new iface rssi s in
      let (s'', effects') = remove_client env' e.fd s' in
      (any (λ fd. fd == e.fd) (closed_fds effects) ≡ true)
      × (closed_fds effects' ≡ e.fd ∷ [])
      × (s''.registry ≡ s'.registry)
unfolding remove_client
remove_client_closes_again env env' id iface new rssi s e v dead =
    let (sent, reg, gone) = broadcast_path_event_lem env id iface new rssi s v in
    let s' = (broadcast_path_event env id new iface rssi s).0 in
    let d : IsDistinct s'.registry = rw reg (IsDistinct-keep _ s.registry v.distinct) in
    (
      rw gone (find_if-fds_of (is_dead env id) e s.registry dead),
      ap (◌∷◌ e.fd) (drop_consumer-IsSilent env' e.fd s').1,
      drop_consumer-registry env' e.fd s' d
          ∙ without_fd-free e.fd s'.registry
              (rw reg (find_if-IsFreeFd (is_dead env id) e s.registry v.distinct dead)),
    )
