-- ===== src/Bridge.antt =====
-- `handle_request` of server/src/h3_server.rs: one HTTP/3 request, passed to the router and answered
-- frame by frame. What the stream does is a list of outcomes; the router is a function.
pub mod Answers
use context_first_docs.Prelude.{
  ℕ, String, Option, none, some, List, [], ◌∷◌, ◌++◌, Bool, true, false, Result, ok, err, is_empty,
  if◌then◌else◌,
}

-- Bytes, as numbers.
abbrev pub Bytes : Type 0
Bytes = List ℕ

-- A frame of a response: data, or trailers, which the bridge passes over.
pub data Frame : Type 0 where
  content : Bytes → Frame
  trailers : Frame

-- A response of the router: its head, and its body as the frames that come, until it ends.
pub record Response (Head : Type 0) : Type 0 where
  pub head : Head
  pub body : List (Result String Frame)

-- What is sent on a stream.
pub data Sent (Head : Type 0) : Type 0 where
  response : Head → Sent Head
  bytes : Bytes → Sent Head
  fin : Sent Head

-- The stream: the chunks that it delivers, and how its sends fare, which succeed when none is listed.
pub record Stream : Type 0 where
  pub incoming : List (Result String Bytes)
  pub sends : List (Option String)

-- The request's body: `while let Some(chunk) = recv_data().await?`
unfoldable pub read_body : List (Result String Bytes) → Bytes → Result String Bytes
read_body [] acc = ok acc
read_body (err e ∷ later) acc = err e
read_body (ok chunk ∷ later) acc = read_body later (acc ++ chunk)

-- How the next send fares, and how the later ones do.
abbrev pub next_send : List (Option String) → Option String × List (Option String)
next_send [] = (none, [])
next_send (o ∷ later) = (o, later)

module _ {Head : Type 0} where
  -- The end of the stream.
  abbrev pub finish : List (Option String) → Result String (Unit {0}) × List (Sent Head)
  finish sends = elim (next_send sends).0 [ none ↦ (ok tt, fin ∷ []) | some e ↦ (err e, []) ]

  abbrev pub after :
      Sent Head
      → Result String (Unit {0}) × List (Sent Head)
      → Result String (Unit {0}) × List (Sent Head)
  after first (r, sent) = (r, first ∷ sent)

  -- The loop over the frames. A body that fails ends the loop as one that is complete does; a client
  -- that has gone ends the call.
  unfoldable pub send_frames :
      List (Result String Frame)
      → List (Option String)
      → Result String (Unit {0}) × List (Sent Head)
  send_frames [] sends = finish sends
  send_frames (err e ∷ later) sends = finish sends
  send_frames (ok trailers ∷ later) sends = send_frames later sends
  send_frames (ok (content c) ∷ later) sends =
      let passed = send_frames later sends in
      let sent = after (bytes c) (send_frames later (next_send sends).1) in
      if is_empty c then passed else elim (next_send sends).0 [ none ↦ sent | some e ↦ (ok tt, []) ]

  unfoldable pub send_all :
      Response Head → List (Option String) → Result String (Unit {0}) × List (Sent Head)
  unfolding send_frames
  send_all r sends = elim (next_send sends).0 [
    | some e ↦ (err e, [])
    | none ↦ after (response r.head) (send_frames r.body (next_send sends).1)
  ]

  -- `handle_request`, and what it sends
  unfoldable pub handle_request :
      (Bytes → Response Head) → Stream → Result String (Unit {0}) × List (Sent Head)
  unfolding send_all read_body
  handle_request app stream = elim (read_body stream.incoming []) [
    | err e ↦ (err e, [])
    | ok body ↦ send_all (app body) stream.sends
  ]
