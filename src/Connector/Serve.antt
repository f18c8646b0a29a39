-- ===== src/Connector/Serve.antt =====
-- core/connector.c: the serving loop: connector_serve, connector_settle and one round of
-- connector_loop. The connects in flight are a list, at most CONNECTOR_FLIGHT long, and the bytes
-- read of the next request are another; the state also keeps what was replied and closed.
pub mod Sweep
pub mod Account
pub mod Rounds
pub mod Bounds
use cosmic.Prelude.{
  ℕ, zero, suc, ◌+◌, ◌-◌, ◌*◌, ◌/◌, ◌%◌, ◌^◌, Bool, true, false, not, ◌&&◌, ◌||◌, Option, none,
  some, List, [], ◌∷◌, ◌++◌, ◌==◌, ltb, leb, if◌then◌else◌, length, get_or, get_elem?, set, take,
  drop,
}
use cosmic.Connector.Request.{
  Request, Network, Plan, Answer, decode, connect, public_connect, public_index, request_bytes,
  einprogress, eio, etimedout,
}

-- CONNECTOR_FLIGHT
abbrev pub flight_max : ℕ
flight_max = 64

-- struct connector_flight
pub record Flight : Type 0 where
  pub fd : ℕ
  pub tag : ℕ
  pub deadline : ℕ

pub record Reply : Type 0 where
  pub tag : ℕ
  pub failure : ℕ
  pub fd : Option ℕ

-- struct connector_serving, and the replies sent and the sockets closed so far.
pub record Serving : Type 0 where
  pub flight : List Flight
  pub held : List ℕ
  pub replies : List Reply
  pub closed : List ℕ

-- What stands outside: the network, whether a reply is taken by the stream, and the clock's
-- milliseconds, none where it cannot be read: for the connects in flight, and then for the one that
-- begins.
pub record World : Type 0 where
  pub net : Network
  pub takes : ℕ → Reply → Bool
  pub now : Option ℕ
  pub later : Option ℕ

abbrev optional : Option ℕ → List ℕ
optional none = []
optional (some fd) = fd ∷ []

-- connector_reply, closing the socket, and the end of the process (none) where the stream does not
-- take it. Only a success passes a descriptor.
pub send : World → Serving → ℕ → ℕ → Option ℕ → Option Serving
send w s tag failure fd =
    let reply : Reply = record {
      tag = tag;
      failure = failure;
      fd = if failure == 0 then fd else none;
    } in
    if w.takes (length s.replies) reply
    then some (record s { replies = s.replies ++ reply ∷ []; closed = s.closed ++ optional fd })
    else none

-- The answer to a whole request.
pub answer_of : World → Plan → Request → Bool → Answer
answer_of w plan request room =
    if request.index == public_index
    then public_connect w.net plan request room
    else connect w.net plan request room

abbrev pub wait_of : Plan → Request → ℕ
wait_of plan request =
    if request.wait == 0 || ltb plan.timeout request.wait then plan.timeout else request.wait

-- The rest of connector_serve, by the answer; a connect that has begun carries its socket.
pub conclude : World → Plan → Serving → Request → ℕ → Option ℕ → Option Serving
unfolding send
conclude w plan s request failure none = send w s request.tag failure none
conclude w plan s request failure (some fd) =
    if failure == einprogress
    then elim w.later [
      | some now ↦ some (record s {
        flight =
            s.flight
            ++ record { fd = fd; tag = request.tag; deadline = now + wait_of plan request } ∷ [];
      })
      | none ↦ send w (record s { closed = s.closed ++ fd ∷ [] }) request.tag eio none
    ]
    else send w s request.tag failure (some fd)

-- connector_serve
unfoldable pub serve : World → Plan → Serving → Option Serving
unfolding answer_of conclude
serve w plan s =
    let request = decode s.held in
    let answer = answer_of w plan request (ltb (length s.flight) flight_max) in
    conclude w plan s request answer.failure answer.fd

-- flight[at] = flight[--flying]
pub swap_remove : List Flight → ℕ → List Flight
swap_remove flights at = elim (get_elem? flights (length flights - 1)) [
  | none ↦ flights
  | some last ↦ take (length flights - 1) (set flights at last)
]

-- connector_settle
unfoldable pub settle : World → ℕ → ℕ → Serving → Option Serving
unfolding swap_remove send
settle w at failure s = elim (get_elem? s.flight at) [
  | none ↦ some s
  | some f ↦ send w (record s { flight = swap_remove s.flight at }) f.tag failure (some f.fd)
]

-- What poll and getsockopt say of one connect in flight.
pub record Polled : Type 0 where
  pub ready : Bool
  pub failure : ℕ

-- How a connect in flight ends, if it does: as its socket says, or by the clock.
pub verdict : Option ℕ → Polled → Flight → Option ℕ
verdict now p f =
    if p.ready
    then some p.failure
    else elim now [ none ↦ some eio | some n ↦ if leb f.deadline n then some etimedout else none ]

-- The body of the loop over the connects in flight.
pub look : World → (ℕ → Polled) → ℕ → Serving → Option Serving
unfolding settle verdict
look w polled i s = elim (get_elem? s.flight i) [
  | none ↦ some s
  | some f ↦ elim (verdict w.now (polled i) f) [
    | none ↦ some s
    | some failure ↦ settle w i failure s
  ]
]

-- The loop, downward from `i`.
unfoldable pub sweep : World → (ℕ → Polled) → ℕ → Serving → Option Serving
unfolding look
sweep w polled zero s = some s
sweep w polled (suc i) s = elim (look w polled i s) [ none ↦ none | some s' ↦ sweep w polled i s' ]

-- What the read from the stream gives: some bytes, at most the rest of a request; an interruption;
-- or the end, an error included.
pub data Reading : Type 0 where
  bytes : List ℕ → Reading
  interrupted : Reading
  ended : Reading

-- The end of a round, where the stream was readable.
pub receive : World → Plan → Reading → Serving → Option Serving
unfolding serve
receive w plan ended s = none
receive w plan interrupted s = some s
receive w plan (bytes bs) s =
    let held = s.held ++ bs in
    if length held == request_bytes
    then elim (serve w plan (record s { held = held })) [
      | none ↦ none
      | some s' ↦ some (record s' { held = [] })
    ]
    else some (record s { held = held })

-- What ppoll says of the stream, once it has returned.
pub data Stream : Type 0 where
  broken : Stream
  quiet : Stream
  readable : Reading → Stream

-- One round of connector_loop after ppoll; a round that ppoll did not end starts over.
unfoldable pub round : World → Plan → (ℕ → Polled) → Stream → Serving → Option Serving
unfolding sweep receive
round w plan polled broken s = none
round w plan polled quiet s = sweep w polled (length s.flight) s
round w plan polled (readable reading) s = elim (sweep w polled (length s.flight) s) [
  | none ↦ none
  | some s' ↦ receive w plan reading s'
]

-- How long ppoll may sleep: until the nearest deadline.
pub nearest : List Flight → Option ℕ
nearest [] = none
nearest (f ∷ rest) = elim (nearest rest) [
  | none ↦ some f.deadline
  | some n ↦ some (if ltb n f.deadline then n else f.deadline)
]
