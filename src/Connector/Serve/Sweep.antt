-- ===== src/Connector/Serve/Sweep.antt =====
-- The loop of connector_loop over the connects in flight: settling one moves the last one into its
-- place, and still each is looked at once.
use mathlib.Core.List.{Perm, append_assoc, append-nil, perm_append_comm, perm_middle}
use mathlib.Core.List.Perm
use mathlib.Core.Path.{subst, ap₂}
use cosmic.Prelude.{
  ℕ, suc, ◌-◌, ◌≡◌, refl, true, Option, none, some, List, [], ◌∷◌, ◌++◌, arith, ◌==◌, if◌then◌else◌,
  ap, ◌∙◌, sym, length, get_elem?, set, take, rev_onto, get_elem?-at_length, set-at_length,
  take-at_length, length-append, length-rev_onto, rev_onto-append, rev_onto-rev_onto, last_cases,
  inl, inr, Option-cases,
}
use cosmic.Connector.Serve.{
  Flight, Reply, Serving, World, Polled, swap_remove, settle, verdict, look, sweep,
}

swap_remove_path :
    (flights : List Flight) (at n : ℕ) (last : Flight)
    → length flights - 1 ≡ n
    → get_elem? flights n ≡ some last
    → swap_remove flights at ≡ take n (set flights at last)
unfolding swap_remove
swap_remove_path flights at n last e found =
    rw (swap_remove, e, found) (ap (λ m. take m (set flights at last)) e)

swap_remove_last :
    (xs : List Flight) (f : Flight) → swap_remove (xs ++ f ∷ []) (length xs) ≡ xs ++ []
swap_remove_last xs f =
    swap_remove_path (xs ++ f ∷ []) (length xs) (length xs) f
      (omega (arith, length-append xs (f ∷ []))) (get_elem?-at_length xs f [])
    ∙ ap (take (length xs)) (set-at_length xs f f [])
    ∙ take-at_length xs (f ∷ [])
    ∙ sym (append-nil xs)

swap_remove_inner :
    (xs : List Flight) (f : Flight) (init : List Flight) (l : Flight)
    → swap_remove (xs ++ f ∷ (init ++ l ∷ [])) (length xs) ≡ xs ++ l ∷ init
swap_remove_inner xs f init l =
    swap_remove_path (xs ++ f ∷ (init ++ l ∷ [])) (length xs) (length (xs ++ l ∷ init)) l
      (omega (
        arith,
        length-append xs (f ∷ (init ++ l ∷ [])),
        length-append init (l ∷ []),
        length-append xs (l ∷ init),
      ))
      (subst (λ n. get_elem? (xs ++ f ∷ (init ++ l ∷ [])) n ≡ some l)
        (omega (arith, length-append xs (f ∷ init), length-append xs (l ∷ init)))
        (ap (λ fs. get_elem? fs (length (xs ++ f ∷ init)))
            (sym (append_assoc xs (f ∷ init) (l ∷ [])))
          ∙ get_elem?-at_length (xs ++ f ∷ init) l []))
    ∙ ap (take (length (xs ++ l ∷ init)))
        (set-at_length xs f l (init ++ l ∷ []) ∙ sym (append_assoc xs (l ∷ init) (l ∷ [])))
    ∙ take-at_length (xs ++ l ∷ init) (l ∷ [])

-- The removal of one element keeps the others: those before it in place, the rest in some order.
pub swap_remove_lem :
    (xs : List Flight) (f : Flight) (ys : List Flight)
    → (zs : List Flight) × (swap_remove (xs ++ f ∷ ys) (length xs) ≡ xs ++ zs) × Perm zs ys
swap_remove_lem xs f ys = elim (last_cases ys) [
  | inl e ↦ (
    [],
    ap (λ l. swap_remove (xs ++ f ∷ l) (length xs)) e ∙ swap_remove_last xs f,
    subst (Perm []) (sym e) (Perm.refl []),
  )
  | inr (init, l, e) ↦ (
    l ∷ init,
    ap (λ m. swap_remove (xs ++ f ∷ m) (length xs)) e ∙ swap_remove_inner xs f init l,
    subst (Perm (l ∷ init)) (sym e) (perm_append_comm (l ∷ []) init),
  )
]

-- What a socket's verdict makes of it, its place in the array given by what is still to look at.
module _ (w : World) (polled : ℕ → Polled) where
  abbrev pub judged : Flight → List Flight → Option ℕ
  judged f rest = verdict w.now (polled (length rest)) f

  -- The connects that stay in flight.
  pub kept : List Flight → List Flight
  kept [] = []
  kept (f ∷ rest) = elim (judged f rest) [ none ↦ f ∷ kept rest | some e ↦ kept rest ]

  -- The replies to those that end, in the order in which they are looked at.
  pub settled : List Flight → List Reply
  settled [] = []
  settled (f ∷ rest) = elim (judged f rest) [
    | none ↦ settled rest
    | some e ↦
        record { tag = f.tag; failure = e; fd = if e == 0 then some f.fd else none } ∷ settled rest
  ]

-- The reply to a connect that ends, and the state after it.
abbrev reply_to : Flight → ℕ → Reply
reply_to f failure = record {
  tag = f.tag;
  failure = failure;
  fd = if failure == 0 then some f.fd else none;
}

abbrev settled_state : Serving → ℕ → Flight → ℕ → Serving
settled_state s at f failure = record {
  flight = swap_remove s.flight at;
  held = s.held;
  replies = s.replies ++ reply_to f failure ∷ [];
  closed = s.closed ++ f.fd ∷ [];
}

settle_path :
    (w : World) (at failure : ℕ) (s : Serving) (f : Flight)
    → get_elem? s.flight at ≡ some f
    → ((n : ℕ) (r : Reply) → w.takes n r ≡ true)
    → settle w at failure s ≡ some (settled_state s at f failure)
unfolding settle
settle_path w at failure s f found takes = rw (settle, found, takes)

sweep_keep :
    (w : World) (polled : ℕ → Polled) (i : ℕ) (s : Serving) (f : Flight)
    → get_elem? s.flight i ≡ some f
    → verdict w.now (polled i) f ≡ none
    → sweep w polled (suc i) s ≡ sweep w polled i s
unfolding sweep look
sweep_keep w polled i s f found keep = rw (sweep, look, found, keep)

sweep_end :
    (w : World) (polled : ℕ → Polled) (i failure : ℕ) (s s' : Serving) (f : Flight)
    → get_elem? s.flight i ≡ some f
    → verdict w.now (polled i) f ≡ some failure
    → settle w i failure s ≡ some s'
    → sweep w polled (suc i) s ≡ sweep w polled i s'
unfolding sweep look
sweep_end w polled i failure s s' f found ends gone = rw (sweep, look, found, ends, gone)

-- The next one to look at is the last of what is left.
next_found :
    (rest after : List Flight) (f : Flight) (flights : List Flight)
    → flights ≡ rev_onto rest (f ∷ after)
    → (flights ≡ rev_onto rest [] ++ f ∷ after)
      × (length (rev_onto rest []) ≡ length rest)
      × (get_elem? flights (length rest) ≡ some f)
next_found rest after f flights e =
    let split : flights ≡ rev_onto rest [] ++ f ∷ after = e ∙ rev_onto-append rest [] (f ∷ after) in
    let size : length (rev_onto rest []) ≡ length rest = omega (arith, length-rev_onto rest []) in
    (split, size, ap₂ get_elem? split (sym size) ∙ get_elem?-at_length (rev_onto rest []) f after)

module _ (w : World) (polled : ℕ → Polled) (takes : (n : ℕ) (r : Reply) → w.takes n r ≡ true) where
  -- `rest` is still to look at, its last element first; `after` has been.
  pub sweep-from :
      (rest after : List Flight) (s : Serving)
      → s.flight ≡ rev_onto rest after
      → (s' : Serving) × (sweep w polled (length rest) s ≡ some s')
        × Perm s'.flight (kept w polled rest ++ after)
        × (s'.replies ≡ s.replies ++ settled w polled rest)
        × (s'.held ≡ s.held)
  unfolding sweep kept settled
  sweep-from [] after s e = (
    s,
    refl,
    subst (λ l. Perm l after) (sym e) (Perm.refl after),
    sym (append-nil s.replies),
    refl,
  )
  sweep-from (f ∷ rest) after s e = elim (Option-cases (judged w polled f rest)) [
    | inl keep ↦
        let (s', run, flights, replies, held) = sweep-from rest (f ∷ after) s e in
        rw (keep, kept, settled)
          (
            s',
            sweep_keep w polled (length rest) s f found.2 keep ∙ run,
            Perm.trans flights (perm_middle (kept w polled rest) after),
            replies,
            held,
          )
    | inr (failure, ends) ↦
        let (zs, removed, order) = swap_remove_lem (rev_onto rest []) f after in
        let s₁ = settled_state s (length rest) f failure in
        let (s', run, flights, replies, held) =
          sweep-from rest zs s₁
            (ap₂ swap_remove found.0 (sym found.1) ∙ removed ∙ sym (rev_onto-append rest [] zs)) in
        rw (ends, kept, settled)
          (
            s',
            sweep_end w polled (length rest) failure s s₁ f found.2 ends
                  (settle_path w (length rest) failure s f found.2 takes)
                ∙ run,
            Perm.trans flights (Perm.append_left (kept w polled rest) order),
            replies ∙ append_assoc s.replies (reply_to f failure ∷ []) (settled w polled rest),
            held,
          )
  ]
    where
      found :
          (s.flight ≡ rev_onto rest [] ++ f ∷ after)
          × (length (rev_onto rest []) ≡ length rest)
          × (get_elem? s.flight (length rest) ≡ some f)
      found = next_found rest after f s.flight e

  -- Where the stream takes every reply, the loop over the connects in flight settles each that
  -- its socket or the clock ends, with its own error and once, in their order from the last; it
  -- keeps exactly the others, in some order, and leaves the bytes of the next request alone.
  pub sweep-settles :
      (s : Serving)
      → (s' : Serving) × (sweep w polled (length s.flight) s ≡ some s')
        × Perm s'.flight (kept w polled (rev_onto s.flight []))
        × (s'.replies ≡ s.replies ++ settled w polled (rev_onto s.flight []))
        × (s'.held ≡ s.held)
  sweep-settles s =
      let (s', run, flights, replies, held) =
        sweep-from (rev_onto s.flight []) [] s
          (sym (rev_onto-rev_onto s.flight [] [] ∙ append-nil s.flight)) in
      (
        s',
        ap (λ n. sweep w polled n s) (omega (arith, length-rev_onto s.flight [])) ∙ run,
        subst (Perm s'.flight) (append-nil (kept w polled (rev_onto s.flight []))) flights,
        replies,
        held,
      )
