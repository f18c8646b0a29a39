-- ===== src/Connector/Serve/Rounds.antt =====
-- What one round of connector_loop does to the requests' tags and to the bytes of the next one.
use mathlib.Core.Path.{subst}
use cosmic.Prelude.{
  ℕ, zero, suc, ◌+◌, ◌≡◌, Option, none, some, List, [], ◌++◌, arith, ◌==◌, if◌then◌else◌, ◌∙◌,
  length, get_elem?, Option-cases, Bool-cases, inl, inr,
}
use cosmic.Connector.Request.{Request, Plan, decode, request_bytes}
use cosmic.Connector.Serve.{
  Serving, World, Polled, Stream, broken, quiet, readable, Reading, bytes, interrupted, ended,
  swap_remove, settle, verdict, look, sweep, serve, receive, round,
}
use cosmic.Connector.Serve.Account.{send_inv, count_tag, count_sweep, count_serve}

-- The tag of the request that a round completes, if it completes one.
abbrev pub completed : Stream → List ℕ → Option Request
completed (readable (bytes bs)) held =
    if length (held ++ bs) == request_bytes then some (decode (held ++ bs)) else none
completed (readable interrupted) held = none
completed (readable ended) held = none
completed quiet held = none
completed broken held = none

abbrev pub new_tag : Option Request → ℕ → ℕ
new_tag none tag = 0
new_tag (some request) tag = if request.tag == tag then 1 else 0

held_settle :
    (w : World) (at failure : ℕ) (s : Serving) {s' : Serving}
    → settle w at failure s ≡ some s'
    → s'.held ≡ s.held
unfolding settle
held_settle w at failure s {s'} h = elim (Option-cases (get_elem? s.flight at)) [
  | inl e ↦ let same : some s ≡ some s' = rw (settle, e) at h in cc
  | inr (f, e) ↦
      (send_inv w (record s { flight = swap_remove s.flight at }) f.tag failure (some f.fd)
        (rw (settle, e) at h)).2
]

held_look :
    (w : World) (polled : ℕ → Polled) (i : ℕ) (s : Serving) {s' : Serving}
    → look w polled i s ≡ some s'
    → s'.held ≡ s.held
unfolding look
held_look w polled i s {s'} h = elim (Option-cases (get_elem? s.flight i)) [
  | inl e ↦ let same : some s ≡ some s' = rw (look, e) at h in cc
  | inr (f, e) ↦ elim (Option-cases (verdict w.now (polled i) f)) [
    | inl keep ↦ let same : some s ≡ some s' = rw (look, e, keep) at h in cc
    | inr (failure, ends) ↦ held_settle w i failure s (rw (look, e, ends) at h)
  ]
]

-- The loop over the connects in flight leaves what was read of a request alone.
pub held_sweep :
    (w : World) (polled : ℕ → Polled) (i : ℕ) (s : Serving) {s' : Serving}
    → sweep w polled i s ≡ some s'
    → s'.held ≡ s.held
unfolding sweep
held_sweep w polled zero s h = cc
held_sweep w polled (suc i) s {s'} h = elim (Option-cases (look w polled i s)) [
  | inl e ↦ let gone : none ≡ some s' = rw (sweep, e) at h in cc
  | inr (s₁, e) ↦ held_sweep w polled i s₁ (rw (sweep, e) at h) ∙ held_look w polled i s e
]

count_receive :
    (w : World) (plan : Plan) (reading : Reading) (s : Serving) (tag : ℕ) {s' : Serving}
    → receive w plan reading s ≡ some s'
    → count_tag tag s' ≡ new_tag (completed (readable reading) s.held) tag + count_tag tag s
unfolding receive serve
count_receive w plan ended s tag h = cc
count_receive w plan interrupted s tag h = ground arith
count_receive w plan (bytes bs) s tag {s'} h =
    elim (Bool-cases (length (s.held ++ bs) == request_bytes)) [
      | inl whole ↦ elim (Option-cases (serve w plan (record s { held = s.held ++ bs }))) [
        | inl e ↦ let gone : none ≡ some s' = rw (receive, whole, e) at h in cc
        | inr (s₁, e) ↦
            let emptied : some (record s₁ { held = [] }) ≡ some s' = rw (receive, whole, e) at h in
            let back : count_tag tag s' ≡ count_tag tag s₁ = ground arith in
            rw whole
              (omega (arith, back, count_serve tag w plan (record s { held = s.held ++ bs }) e))
      ]
      | inr part ↦
          let same : some (record s { held = s.held ++ bs }) ≡ some s' = rw (receive, part) at h in
          rw part (ground arith)
    ]

-- After a round of the serving loop that does not end the process, the requests in flight or
-- replied to that have a given tag are as many as before, and one more if the round completed a
-- request with that tag: each request is answered once or still in flight.
pub count_round :
    (w : World) (plan : Plan) (polled : ℕ → Polled) (stream : Stream) (s s' : Serving) (tag : ℕ)
    → round w plan polled stream s ≡ some s'
    → count_tag tag s' ≡ new_tag (completed stream s.held) tag + count_tag tag s
unfolding round
count_round w plan polled broken s s' tag h = cc
count_round w plan polled quiet s s' tag h =
    omega (arith, count_sweep tag w polled (length s.flight) s h)
count_round w plan polled (readable reading) s s' tag h =
    elim (Option-cases (sweep w polled (length s.flight) s)) [
      | inl e ↦ let gone : none ≡ some s' = rw (round, e) at h in cc
      | inr (s₁, e) ↦
          subst
            (λ held.
              count_tag tag s' ≡ new_tag (completed (readable reading) held) tag + count_tag tag s)
            (held_sweep w polled (length s.flight) s e)
            (omega (
              arith,
              count_receive w plan reading s₁ tag (rw (round, e) at h),
              count_sweep tag w polled (length s.flight) s e,
            ))
    ]
