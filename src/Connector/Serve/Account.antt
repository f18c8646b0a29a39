-- ===== src/Connector/Serve/Account.antt =====
-- Every request is answered once: its tag stands among the connects in flight until it is among
-- the replies, and nothing else adds a tag or loses one.
use mathlib.Core.List.{Perm, Permᴰ}
use mathlib.Core.Logic.{∥∥₁_elim}
use mathlib.Core.Path.{ap₂}
use native.Mathlib.Nat.{ℕ_set}
use cosmic.Prelude.{
  ℕ, zero, suc, ◌+◌, ◌≡◌, refl, Option, none, some, List, [], ◌∷◌, ◌++◌, arith, ◌==◌, ltb,
  if◌then◌else◌, ap, ◌∙◌, sym, length, get_elem?, Option-cases, inl, inr, get_elem?-split,
}
use cosmic.Connector.Request.{Request, Plan, decode, eio}
use cosmic.Connector.Serve.{
  Flight, Reply, Serving, World, Polled, swap_remove, settle, send, verdict, look, sweep, answer_of,
  conclude, wait_of, flight_max, serve,
}
use cosmic.Connector.Serve.Sweep.{swap_remove_lem}

abbrev pub reply_of : ℕ → ℕ → Option ℕ → Reply
reply_of to failure fd = record {
  tag = to;
  failure = failure;
  fd = if failure == 0 then fd else none;
}

-- What a reply that was taken changes.
pub send_inv :
    (w : World) (s : Serving) (to failure : ℕ) (fd : Option ℕ) {s' : Serving}
    → send w s to failure fd ≡ some s'
    → (s'.flight ≡ s.flight)
      × (s'.replies ≡ s.replies ++ reply_of to failure fd ∷ [])
      × (s'.held ≡ s.held)
unfolding send
send_inv w s to failure fd h = ground arith

module _ (tag : ℕ) where
  -- How often the tag stands in a list.
  abbrev pub count_flight : List Flight → ℕ
  count_flight [] = 0
  count_flight (f ∷ rest) = (if f.tag == tag then 1 else 0) + count_flight rest

  abbrev pub count_reply : List Reply → ℕ
  count_reply [] = 0
  count_reply (r ∷ rest) = (if r.tag == tag then 1 else 0) + count_reply rest

  abbrev pub count_tag : Serving → ℕ
  count_tag s = count_flight s.flight + count_reply s.replies

  count_flight-append :
      (xs ys : List Flight) → count_flight (xs ++ ys) ≡ count_flight xs + count_flight ys
  count_flight-append [] ys = omega arith
  count_flight-append (f ∷ xs) ys = omega (arith, count_flight-append xs ys)

  count_reply-append :
      (xs ys : List Reply) → count_reply (xs ++ ys) ≡ count_reply xs + count_reply ys
  count_reply-append [] ys = omega arith
  count_reply-append (r ∷ xs) ys = omega (arith, count_reply-append xs ys)

  count_flight-permᴰ : {xs ys : List Flight} → Permᴰ xs ys → count_flight xs ≡ count_flight ys
  count_flight-permᴰ Permᴰ.nil = refl
  count_flight-permᴰ (Permᴰ.cons {a = a} {b = b} e p) = rw e (omega (arith, count_flight-permᴰ p))
  count_flight-permᴰ (Permᴰ.swap e e') = rw (e, e') (omega arith)
  count_flight-permᴰ (Permᴰ.trans p q) = count_flight-permᴰ p ∙ count_flight-permᴰ q

  count_flight-perm : {xs ys : List Flight} → Perm xs ys → count_flight xs ≡ count_flight ys
  count_flight-perm p = ∥∥₁_elim p (ℕ_set _ _) count_flight-permᴰ

  -- Removing one of the connects in flight takes its tag once.
  count_swap_remove :
      (flights : List Flight) (at : ℕ) (f : Flight)
      → get_elem? flights at ≡ some f
      → count_flight flights
        ≡ (if f.tag == tag then 1 else 0) + count_flight (swap_remove flights at)
  count_swap_remove flights at f h =
      let (before, after, e, n) = get_elem?-split flights at f h in
      let (zs, removed, order) = swap_remove_lem before f after in
      let shape : swap_remove flights at ≡ before ++ zs = ap₂ swap_remove e (sym n) ∙ removed in
      omega (
        arith,
        ap count_flight e,
        count_flight-append before (f ∷ after),
        ap count_flight shape,
        count_flight-append before zs,
        count_flight-perm order,
      )

  -- A reply adds its tag.
  count_send :
      (w : World) (s : Serving) (to failure : ℕ) (fd : Option ℕ) {s' : Serving}
      → send w s to failure fd ≡ some s'
      → count_tag s' ≡ (if to == tag then 1 else 0) + count_tag s
  count_send w s to failure fd h =
      let (flights, replies, held) = send_inv w s to failure fd h in
      omega (
        arith,
        ap count_flight flights,
        ap count_reply replies,
        count_reply-append s.replies (reply_of to failure fd ∷ []),
      )

  -- Settling a connect in flight turns its tag into a reply's.
  count_settle :
      (w : World) (at failure : ℕ) (s : Serving) {s' : Serving}
      → settle w at failure s ≡ some s'
      → count_tag s' ≡ count_tag s
  unfolding settle
  count_settle w at failure s {s'} h = elim (Option-cases (get_elem? s.flight at)) [
    | inl e ↦ let same : some s ≡ some s' = rw (settle, e) at h in ground arith
    | inr (f, e) ↦
        let sent : send w (record s { flight = swap_remove s.flight at }) f.tag failure (some f.fd)
            ≡ some s' =
          rw (settle, e) at h in
        omega (
          arith,
          count_send w (record s { flight = swap_remove s.flight at }) f.tag failure (some f.fd)
              sent,
          count_swap_remove s.flight at f e,
        )
  ]

  count_look :
      (w : World) (polled : ℕ → Polled) (i : ℕ) (s : Serving) {s' : Serving}
      → look w polled i s ≡ some s'
      → count_tag s' ≡ count_tag s
  unfolding look
  count_look w polled i s {s'} h = elim (Option-cases (get_elem? s.flight i)) [
    | inl e ↦ let same : some s ≡ some s' = rw (look, e) at h in ground arith
    | inr (f, e) ↦ elim (Option-cases (verdict w.now (polled i) f)) [
      | inl keep ↦ let same : some s ≡ some s' = rw (look, e, keep) at h in ground arith
      | inr (failure, ends) ↦ count_settle w i failure s (rw (look, e, ends) at h)
    ]
  ]

  pub count_sweep :
      (w : World) (polled : ℕ → Polled) (i : ℕ) (s : Serving) {s' : Serving}
      → sweep w polled i s ≡ some s'
      → count_tag s' ≡ count_tag s
  unfolding sweep
  count_sweep w polled zero s h = ground arith
  count_sweep w polled (suc i) s {s'} h = elim (Option-cases (look w polled i s)) [
    | inl e ↦ let gone : none ≡ some s' = rw (sweep, e) at h in cc
    | inr (s₁, e) ↦ count_sweep w polled i s₁ (rw (sweep, e) at h) ∙ count_look w polled i s e
  ]

  -- Serving a request adds its tag, to one list or the other.
  pub count_conclude :
      (w : World) (plan : Plan) (s : Serving) (request : Request) (failure : ℕ) (fd : Option ℕ)
      {s' : Serving}
      → conclude w plan s request failure fd ≡ some s'
      → count_tag s' ≡ (if request.tag == tag then 1 else 0) + count_tag s
  unfolding conclude
  count_conclude w plan s request failure none h = count_send w s request.tag failure none h
  count_conclude w plan s request failure (some fd) {s'} h = elim (Option-cases w.later) [
    | inl e ↦ ground (
      arith,
      count_send w (record s { closed = s.closed ++ fd ∷ [] }) request.tag eio none {s' = s'},
      count_send w s request.tag failure (some fd) {s' = s'},
    )
    | inr (now, e) ↦ ground (
      arith,
      count_send w s request.tag failure (some fd) {s' = s'},
      count_flight-append s.flight
          (record { fd = fd; tag = request.tag; deadline = now + wait_of plan request } ∷ []),
    )
  ]

  pub count_serve :
      (w : World) (plan : Plan) (s : Serving) {s' : Serving}
      → serve w plan s ≡ some s'
      → count_tag s' ≡ (if (decode s.held).tag == tag then 1 else 0) + count_tag s
  unfolding serve
  count_serve w plan s h =
      let answer = answer_of w plan (decode s.held) (ltb (length s.flight) flight_max) in
      count_conclude w plan s (decode s.held) answer.failure answer.fd h
