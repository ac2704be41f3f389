-- ===== src/Bridge/Answers.antt =====
-- What a client of server/src/h3_server.rs receives.
use context_first_docs.Prelude.{
  String, Option, List, [], ◌∷◌, ◌++◌, ◌≡◌, refl, sym, ap, ◌∙◌, arith, Result, ok, err, inl, inr,
  Result-cases,
}
use mathlib.Core.List.{append_assoc, append-nil}
use context_first_docs.Bridge.{
  Bytes, Frame, content, trailers, Response, Sent, response, bytes, fin, Stream, read_body,
  send_frames, handle_request, after, next_send,
}

-- The bytes of the chunks, in order.
abbrev pub joined : List Bytes → Bytes
joined [] = []
joined (c ∷ cs) = c ++ joined cs

abbrev pub delivered : List Bytes → List (Result String Bytes)
delivered [] = []
delivered (c ∷ cs) = ok c ∷ delivered cs

-- The bytes that a body has in its frames before it ends or fails.
abbrev pub body_bytes : List (Result String Frame) → Bytes
body_bytes [] = []
body_bytes (err e ∷ later) = []
body_bytes (ok trailers ∷ later) = body_bytes later
body_bytes (ok (content c) ∷ later) = c ++ body_bytes later

-- The bytes that were sent.
abbrev pub sent_bytes : {Head : Type 0} → List (Sent Head) → Bytes
sent_bytes [] = []
sent_bytes (response h ∷ later) = sent_bytes later
sent_bytes (bytes c ∷ later) = c ++ sent_bytes later
sent_bytes (fin ∷ later) = sent_bytes later

read_body-delivered :
    (cs : List Bytes) (acc : Bytes) → read_body (delivered cs) acc ≡ ok (acc ++ joined cs)
unfolding read_body
read_body-delivered [] acc = ap ok (sym (append-nil acc))
read_body-delivered (c ∷ cs) acc =
    read_body-delivered cs (acc ++ c) ∙ ap ok (append_assoc acc c (joined cs))

module _ {Head : Type 0} where
  -- Where every send succeeds, the body's bytes are sent, and the stream is ended.
  send_frames-all :
      (frames : List (Result String Frame))
      → (sent : List (Sent Head)) × (send_frames frames [] ≡ (ok tt, sent ++ fin ∷ []))
        × (sent_bytes sent ≡ body_bytes frames)
  unfolding send_frames
  send_frames-all [] = ([], refl, refl)
  send_frames-all (err e ∷ later) = ([], refl, refl)
  send_frames-all (ok trailers ∷ later) = send_frames-all later
  send_frames-all (ok (content []) ∷ later) = send_frames-all later
  send_frames-all (ok (content (b ∷ c)) ∷ later) =
      let (sent, runs, same) = send_frames-all later in
      (bytes (b ∷ c) ∷ sent, ap (after (bytes (b ∷ c))) runs, ap (λ bs. (b ∷ c) ++ bs) same)

  -- Where the stream delivers a body in any chunks and takes all that is sent, the router is given
  -- the chunks in one piece, and the client is sent the head of its response, then the bytes of
  -- its body up to the end or a failure, then the end of the stream.
  pub handle_request-answers :
      (app : Bytes → Response Head) (chunks : List Bytes)
      → (sent : List (Sent Head)) × (handle_request app
            (record { incoming = delivered chunks; sends = [] })
          ≡ (ok tt, response (app (joined chunks)).head ∷ (sent ++ fin ∷ [])))
        × (sent_bytes sent ≡ body_bytes (app (joined chunks)).body)
  unfolding handle_request
  handle_request-answers app chunks =
      let (sent, runs, same) = send_frames-all (app (joined chunks)).body in
      (sent, ground (arith, read_body-delivered chunks [], runs), same)

  -- A body that fails is sent as one that ends where it fails.
  send_frames-cut :
      (frames later : List (Result String Frame)) (e : String) (sends : List (Option String))
      → send_frames (frames ++ err e ∷ later) sends ≡ send_frames {Head = Head} frames sends
  unfolding send_frames
  send_frames-cut [] later e sends = refl
  send_frames-cut (err f ∷ frames) later e sends = refl
  send_frames-cut (ok trailers ∷ frames) later e sends = send_frames-cut frames later e sends
  send_frames-cut (ok (content c) ∷ frames) later e sends = ground (
    arith,
    send_frames-cut frames later e sends,
    send_frames-cut frames later e (next_send sends).1,
  )

  -- A response whose body fails after some frames is sent exactly as the one whose body ends
  -- there, whatever the stream does.
  pub handle_request-cut :
      (head : Bytes → Head) (frames later : Bytes → List (Result String Frame)) (e : String)
      (stream : Stream)
      → handle_request
          (λ body. record { head = head body; body = frames body ++ err e ∷ later body })
          stream
        ≡ handle_request (λ body. record { head = head body; body = frames body }) stream
  unfolding handle_request
  handle_request-cut head frames later e stream =
      elim (Result-cases (read_body stream.incoming [])) [
        | inr (f, bad) ↦ ground arith
        | inl (body, good) ↦
            let same = send_frames-cut (frames body) (later body) e (next_send stream.sends).1 in
            ground (arith, same)
      ]
