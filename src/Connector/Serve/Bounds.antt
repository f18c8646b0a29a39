-- ===== src/Connector/Serve/Bounds.antt =====
-- The serving state's arrays never overflow: flight[CONNECTOR_FLIGHT] and held[36].

use cosmic.Prelude.{
  ℕ, zero, suc, ◌+◌, ◌-◌, ◌≤◌, ◌<◌, ◌≡◌, refl, Bool, true, false, Option, none, some, List, [], ◌∷◌,
  ◌++◌, arith, ◌==◌, ltb, ap, length, get_elem?, set, Option-cases, of-some, Bool-cases, inl, inr,
  length-take, length-set, length-append, ltb→lt,
}
use cosmic.Connector.Request.{
  Request, Network, Plan, decode, request_bytes, eio, connect, public_connect, public_index,
}
use cosmic.Connector.Serve.{
  Flight, Serving, World, Polled, Stream, broken, quiet, readable, Reading, bytes, interrupted,
  ended, swap_remove, settle, verdict, look, sweep, answer_of, conclude, serve, receive, round,
  flight_max, wait_of,
}
use cosmic.Connector.Serve.Account.{send_inv}
use cosmic.Connector.Serve.Rounds.{held_sweep}

pub record IsServing (s : Serving) : Type 0 where
  pub flights : length s.flight ≤ flight_max
  pub room : length s.held < request_bytes

length-swap_remove : (fs : List Flight) (at : ℕ) → length (swap_remove fs at) ≤ length fs
unfolding swap_remove
length-swap_remove fs at = elim (Option-cases (get_elem? fs (length fs - 1))) [
  | inl e ↦ rw (e, swap_remove) (omega arith)
  | inr (l, e) ↦
      rw (e, swap_remove)
        (omega (arith, length-take (length fs - 1) (set fs at l), length-set fs at l))
]

flights_settle :
    (w : World) (at failure : ℕ) (s : Serving) {s' : Serving}
    → settle w at failure s ≡ some s'
    → length s'.flight ≤ length s.flight
unfolding settle
flights_settle w at failure s {s'} h = elim (Option-cases (get_elem? s.flight at)) [
  | inl e ↦ let same : some s ≡ some s' = rw (settle, e) at h in ground arith
  | inr (f, e) ↦ omega (
    arith,
    ap length
        (send_inv w (record s { flight = swap_remove s.flight at }) f.tag failure (some f.fd)
          (rw (settle, e) at h)).0,
    length-swap_remove s.flight at,
  )
]

flights_sweep :
    (w : World) (polled : ℕ → Polled) (i : ℕ) (s : Serving) {s' : Serving}
    → sweep w polled i s ≡ some s'
    → length s'.flight ≤ length s.flight
unfolding sweep look
flights_sweep w polled zero s h = ground arith
flights_sweep w polled (suc i) s {s'} h = elim (Option-cases (get_elem? s.flight i)) [
  | inl e ↦ flights_sweep w polled i s (rw (sweep, look, e) at h)
  | inr (f, e) ↦ elim (Option-cases (verdict w.now (polled i) f)) [
    | inl keep ↦ flights_sweep w polled i s (rw (sweep, look, e, keep) at h)
    | inr (failure, ends) ↦ elim (Option-cases (settle w i failure s)) [
      | inl gone ↦ let stopped : none ≡ some s' = rw (sweep, look, e, ends, gone) at h in cc
      | inr (s₁, went) ↦ omega (
        arith,
        flights_sweep w polled i s₁ (rw (sweep, look, e, ends, went) at h),
        flights_settle w i failure s went,
      )
    ]
  ]
]

-- Only a request that found room has a socket.
connect-room :
    (net : Network) (plan : Plan) (request : Request) (room : Bool) (fd : ℕ)
    → (connect net plan request room).fd ≡ some fd
    → room ≡ true
unfolding connect
connect-room net plan request true fd h = refl
connect-room net plan request false fd h = ground arith

public_connect-room :
    (net : Network) (plan : Plan) (request : Request) (room : Bool) (fd : ℕ)
    → (public_connect net plan request room).fd ≡ some fd
    → room ≡ true
unfolding public_connect
public_connect-room net plan request true fd h = refl
public_connect-room net plan request false fd h = ground arith

-- A connect joins those in flight only where there was room.
flights_conclude :
    (w : World) (plan : Plan) (s : Serving) (request : Request) (failure : ℕ) (fd : Option ℕ)
    {s' : Serving}
    → ((n : ℕ) → fd ≡ some n → length s.flight < flight_max)
    → length s.flight ≤ flight_max
    → conclude w plan s request failure fd ≡ some s'
    → length s'.flight ≤ flight_max
unfolding conclude
flights_conclude w plan s request failure none room few h =
    omega (arith, ap length (send_inv w s request.tag failure none h).0)
flights_conclude w plan s request failure (some fd) {s'} room few h = elim (Option-cases w.later) [
  | inl e ↦ ground (
    arith,
    send_inv w (record s { closed = s.closed ++ fd ∷ [] }) request.tag eio none {s' = s'},
    send_inv w s request.tag failure (some fd) {s' = s'},
  )
  | inr (now, e) ↦ ground (
    arith,
    room fd refl,
    send_inv w s request.tag failure (some fd) {s' = s'},
    length-append s.flight
        (record { fd = fd; tag = request.tag; deadline = now + wait_of plan request } ∷ []),
  )
]

flights_serve :
    (w : World) (plan : Plan) (s : Serving) {s' : Serving}
    → length s.flight ≤ flight_max
    → serve w plan s ≡ some s'
    → length s'.flight ≤ flight_max
unfolding serve answer_of
flights_serve w plan s few h =
    let request = decode s.held in
    let room = ltb (length s.flight) flight_max in
    let answer = answer_of w plan request room in
    flights_conclude w plan s request answer.failure answer.fd
      (λ n e. ltb→lt (length s.flight) flight_max (has_room request room n e)) few h
  where
    has_room :
        (request : Request) (room : Bool) (n : ℕ)
        → (answer_of w plan request room).fd ≡ some n
        → room ≡ true
    has_room request room n e = elim (Bool-cases (request.index == public_index)) [
      | inl public ↦ public_connect-room w.net plan request room n (rw (answer_of, public) at e)
      | inr table ↦ connect-room w.net plan request room n (rw (answer_of, table) at e)
    ]

-- What a read can give: no more than the rest of a request.
abbrev pub Fits : Stream → Serving → Type 0
Fits (readable (bytes bs)) s = length s.held + length bs ≤ request_bytes
Fits (readable interrupted) s = Unit
Fits (readable ended) s = Unit
Fits quiet s = Unit
Fits broken s = Unit

received :
    (w : World) (plan : Plan) (s s' : Serving)
    → IsServing s
    → (reading : Reading) (s₁ : Serving) → length s₁.flight ≤ flight_max
    → s₁.held ≡ s.held
    → Fits (readable reading) s
    → receive w plan reading s₁ ≡ some s'
    → IsServing s'
unfolding receive
received w plan s s' v ended s₁ few same fits h = cc
received w plan s s' v interrupted s₁ few same fits h =
    let e : s₁ ≡ s' = cc in
    record {
      flights = omega (arith, few, ap (λ (x : Serving). length x.flight) e);
      room = omega (arith, v.room, ap length same, ap (λ (x : Serving). length x.held) e);
    }
received w plan s s' v (bytes bs) s₁ few same fits h =
    elim (Bool-cases (length (s₁.held ++ bs) == request_bytes)) [
      | inl whole ↦ elim (Option-cases (serve w plan (record s₁ { held = s₁.held ++ bs }))) [
        | inl e ↦ let gone : none ≡ some s' = rw (receive, whole, e) at h in cc
        | inr (s₂, e) ↦
            let emptied : record s₂ { held = [] } ≡ s' = of-some (rw (receive, whole, e) at h) in
            record {
              flights = omega (
                arith,
                flights_serve w plan (record s₁ { held = s₁.held ++ bs }) few e,
                ap (λ (x : Serving). length x.flight) emptied,
              );
              room = omega (arith, ap (λ (x : Serving). length x.held) emptied);
            }
      ]
      | inr part ↦
          let e : record s₁ { held = s₁.held ++ bs } ≡ s' = of-some (rw (receive, part) at h) in
          let size : length (s₁.held ++ bs) ≡ length s₁.held + length bs =
            length-append s₁.held bs in
          record {
            flights = omega (arith, few, ap (λ (x : Serving). length x.flight) e);
            room =
                not_full (length (s₁.held ++ bs)) _ part (omega (arith, size, ap length same))
                  (ap (λ (x : Serving). length x.held) e);
          }
    ]
  where
    not_full :
        (n m : ℕ) → (n == request_bytes) ≡ false → n ≤ request_bytes → n ≡ m → m < request_bytes
    not_full n m e le same = ground arith

-- A round of the serving loop that does not end the process keeps at most 64 connects in flight
-- and fewer than 36 bytes of the next request, where it began so and the read gave no more than
-- the rest of a request.
pub round-IsServing :
    (w : World) (plan : Plan) (polled : ℕ → Polled) (stream : Stream) (s s' : Serving)
    → IsServing s
    → Fits stream s
    → round w plan polled stream s ≡ some s'
    → IsServing s'
unfolding round receive
round-IsServing w plan polled broken s s' v fits h = cc
round-IsServing w plan polled quiet s s' v fits h = record {
  flights = omega (arith, v.flights, flights_sweep w polled (length s.flight) s h);
  room = omega (arith, v.room, ap length (held_sweep w polled (length s.flight) s h));
}
round-IsServing w plan polled (readable reading) s s' v fits h =
    elim (Option-cases (sweep w polled (length s.flight) s)) [
      | inl e ↦ let gone : none ≡ some s' = rw (round, e) at h in cc
      | inr (s₁, e) ↦
          received w plan s s' v reading s₁
            (omega (arith, v.flights, flights_sweep w polled (length s.flight) s e))
            (held_sweep w polled (length s.flight) s e) fits (rw (round, e) at h)
    ]
