-- ===== src/Api/Session/Answers.antt =====
-- A client's conversation with the server over its stream socket (api/consumer_api_server.cpp).
use wifi_offload_rpi.Prelude.{
  ==_self, All, List, Text, [], ap, drop, length, map, refl, some, suc, sym, take, zero, ℕ, ◌++◌,
  ◌∙◌, ◌∷◌, ◌≡◌,
}
use wifi_offload_rpi.Api.Session.{handled, perform, serve_client, serve_clients}
use wifi_offload_rpi.Api.Wire.{ApiMsg}
use wifi_offload_rpi.Api.Wire.Frame.{
  IsWire, decode, decode-encode, drop-append, encode, length-encode, msg_size, take-append,
}
use wifi_offload_rpi.Api.Server.{
  Effect, Env, Server, closed, epoll_removed, handle_client, send, wrote,
}
use wifi_offload_rpi.Api.Server.Replies.{expected, handle_client-replies, replies}
use wifi_offload_rpi.Api.Transfer.{StreamSocket, send_msg}
use wifi_offload_rpi.Api.Session.Widths.{
  IsSized, handle_client-IsSendable, handle_client-IsSized, sent_msgs,
}
use wifi_offload_rpi.Api.Transfer.Reliable.{ReliableLaws, recv_msg-encode, send_msg-encode}
use wifi_offload_rpi.Api.Transfer.Total.{StreamLaws}
use mathlib.Core.Path.{subst}
use mathlib.Core.List.{append_assoc, append-nil}

-- Messages as bytes, one frame after the other, and a stream cut into that many frames.
unfoldable pub frames : List ApiMsg → Text
frames [] = []
frames (msg ∷ msgs) = encode msg ++ frames msgs

unfoldable pub read_frames : ℕ → Text → List ApiMsg
read_frames zero bytes = []
read_frames (suc n) bytes = decode (take msg_size bytes) ∷ read_frames n (drop msg_size bytes)

-- The type and the error code of each answer that the protocol promises, the requests taken in
-- turn, and the server after them.
unfoldable pub promised : Env → ℕ → List ApiMsg → Server → List (ℕ × ℕ)
promised env fd [] server = []
promised env fd (msg ∷ msgs) server =
    expected msg server ∷ promised env fd msgs (handle_client env fd (some msg) server).0

unfoldable pub server_after : Env → ℕ → List ApiMsg → Server → Server
server_after env fd [] server = server
server_after env fd (msg ∷ msgs) server =
    server_after env fd msgs (handle_client env fd (some msg) server).0

abbrev pub summary : ApiMsg → ℕ × ℕ
summary msg = (msg.type, msg.error)

read_frames-frames :
    (msgs : List ApiMsg) → All IsWire msgs → read_frames (length msgs) (frames msgs) ≡ msgs
unfolding read_frames frames
read_frames-frames [] v = refl
read_frames-frames (msg ∷ msgs) v =
    let size = length-encode msg v.0 in
    rw
      (
        take-append msg_size (encode msg) (frames msgs) size,
        drop-append msg_size (encode msg) (frames msgs) size,
        decode-encode msg v.0,
        read_frames-frames msgs v.1,
      )
      refl

no_replies : (es : List Effect) → replies es ≡ [] → sent_msgs es ≡ []
no_replies [] e = refl
no_replies (send fd msg ∷ es) e = cc
no_replies (wrote path pid ∷ es) e = no_replies es e
no_replies (epoll_removed fd ∷ es) e = no_replies es e
no_replies (closed fd ∷ es) e = no_replies es e

module _ (socket : StreamSocket) (env : Env) (fd : ℕ) where
  open socket use {State}

  -- Without replies nothing is written; with one, its frame is.
  pub perform-silent :
      (es : List Effect) (s : State) → replies es ≡ [] → perform socket env fd es s ≡ some s
  unfolding perform
  perform-silent [] s e = refl
  perform-silent (send to msg ∷ es) s e = cc
  perform-silent (wrote path pid ∷ es) s e = perform-silent es s e
  perform-silent (epoll_removed to ∷ es) s e = perform-silent es s e
  perform-silent (closed to ∷ es) s e = perform-silent es s e

  -- The message of the only reply, which is what is sent.
  abbrev IsSingle : ℕ → ℕ → List Effect → Type 0
  IsSingle type error es =
      (answer : ApiMsg) × (sent_msgs es ≡ answer ∷ [])
      × (summary answer ≡ (type, error))
      × ((s s' : State) → send_msg socket answer s ≡ some s' → perform socket env fd es s ≡ some s')

  replies-IsSingle :
      (type error : ℕ) (es : List Effect)
      → replies es ≡ (fd, type, error) ∷ []
      → IsSingle type error es
  unfolding perform
  replies-IsSingle type error [] e = cc
  replies-IsSingle type error (send to msg ∷ es) e =
      let head : ◌≡◌ {A = ℕ × ℕ × ℕ} (to, msg.type, msg.error) (fd, type, error) = cc in
      let rest : replies es ≡ [] = cc in
      let own : to ≡ fd = ap (λ r. r.0) head in
      (
        msg,
        ap (◌∷◌ msg) (no_replies es rest),
        ap (λ r. (r.1, r.2)) head,
        λ s s' sent. rw (own, ==_self fd, perform, sent) (perform-silent es s' rest),
      )
  replies-IsSingle type error (wrote path pid ∷ es) e = replies-IsSingle type error es e
  replies-IsSingle type error (epoll_removed to ∷ es) e = replies-IsSingle type error es e
  replies-IsSingle type error (closed to ∷ es) e = replies-IsSingle type error es e

module _ (socket : StreamSocket) (laws : StreamLaws socket) (reliable : ReliableLaws socket laws)
    (env : Env) (fd : ℕ) where
  open socket use {State}

  -- One wake-up: the request is taken from the stream, and its answer given to it.
  abbrev IsAnswered : ApiMsg → Text → Server → State → Type 0
  IsAnswered msg rest server s =
      (answer : ApiMsg) × (s' : State) × (serve_client socket env fd server s
        ≡ some ((handle_client env fd (some msg) server).0, s'))
      × (laws.coming s' ≡ rest)
      × (laws.given s' ≡ laws.given s ++ encode answer)
      × IsWire answer
      × (summary answer ≡ expected msg server)

  serve_client-IsAnswered :
      (msg : ApiMsg) (rest : Text) (server : Server) (s : State)
      → IsWire msg
      → IsSized server
      → laws.coming s ≡ encode msg ++ rest
      → IsAnswered msg rest server s
  unfolding serve_client handled
  serve_client-IsAnswered msg rest server s v z comes =
      let (mid, read, left, same) = recv_msg-encode socket laws reliable msg rest s v comes in
      let effects = (handle_client env fd (some msg) server).1 in
      let (answer, messages, described, performed) =
        replies-IsSingle socket env fd _ _ effects (handle_client-replies env fd msg server).0 in
      let fits : IsWire answer =
        (subst (All IsWire) messages (handle_client-IsSendable env fd msg server v z)).0 in
      let (s', sent, gave, kept) = send_msg-encode socket laws reliable answer mid fits in
      (
        answer,
        s',
        rw (read, handled, performed mid s' sent) refl,
        kept ∙ left,
        gave ∙ ap (λ x. x ++ encode answer) same,
        fits,
        described,
      )

  -- All wake-ups: the stream is read to the last request, and the answers are what was given.
  abbrev pub IsConversation : List ApiMsg → Text → Server → State → Type 0
  IsConversation msgs rest server s =
      (answers : List ApiMsg) × (s' : State) × (serve_clients socket env fd (length msgs) server s
        ≡ some (server_after env fd msgs server, s'))
      × (laws.coming s' ≡ rest)
      × (laws.given s' ≡ laws.given s ++ frames answers)
      × (read_frames (length msgs) (frames answers) ≡ answers)
      × (map summary answers ≡ promised env fd msgs server)

  -- With the widths of the answers.
  serve_clients-answers :
      (msgs : List ApiMsg) (rest : Text) (server : Server) (s : State)
      → All IsWire msgs
      → IsSized server
      → laws.coming s ≡ frames msgs ++ rest
      → (answers : List ApiMsg) × (s' : State) × (serve_clients socket env fd (length msgs) server s
          ≡ some (server_after env fd msgs server, s'))
        × (laws.coming s' ≡ rest)
        × (laws.given s' ≡ laws.given s ++ frames answers)
        × All IsWire answers
        × (length answers ≡ length msgs)
        × (map summary answers ≡ promised env fd msgs server)
  unfolding serve_clients server_after frames promised
  serve_clients-answers [] rest server s v z comes =
      ([], s, refl, comes, sym (append-nil (laws.given s)), tt, refl, refl)
  serve_clients-answers (msg ∷ msgs) rest server s v z comes =
      let after = (handle_client env fd (some msg) server).0 in
      let (answer, mid, done, left, gave, fits, described) =
        serve_client-IsAnswered msg (frames msgs ++ rest) server s v.0 z
          (comes ∙ append_assoc (encode msg) (frames msgs) rest) in
      let (answers, s', later, end, given, all_fit, as_many, summaries) =
        serve_clients-answers msgs rest after mid v.1 (handle_client-IsSized env fd msg server z)
          left in
      (
        answer ∷ answers,
        s',
        rw (done, serve_clients) later,
        end,
        given
            ∙ ap (λ x. x ++ frames answers) gave
            ∙ append_assoc (laws.given s) (encode answer) (frames answers),
        (fits, all_fit),
        ap suc as_many,
        λ i. described i ∷ summaries i,
      )

  -- A client sends requests one after the other, and its socket fails neither way: when the server
  -- has been woken once for each, every transfer has ended, the server is in the state that the
  -- handlers make of the requests in their order, exactly the frames of the requests were read from
  -- the stream, and what was written are whole frames, one for each request, that decode to answers
  -- with the types and the error codes that the protocol promises.
  pub serve_clients-IsConversation :
      (msgs : List ApiMsg) (rest : Text) (server : Server) (s : State)
      → All IsWire msgs
      → IsSized server
      → laws.coming s ≡ frames msgs ++ rest
      → IsConversation msgs rest server s
  serve_clients-IsConversation msgs rest server s v z comes =
      let (answers, s', done, end, gave, fit, as_many, summaries) =
        serve_clients-answers msgs rest server s v z comes in
      (
        answers,
        s',
        done,
        end,
        gave,
        ap (λ n. read_frames n (frames answers)) (sym as_many) ∙ read_frames-frames answers fit,
        summaries,
      )
