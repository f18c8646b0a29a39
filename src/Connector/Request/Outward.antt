-- ===== src/Connector/Request/Outward.antt =====
-- connector_public_connect of core/connector.c: what a public request connects to.
use cosmic.Prelude.{
  ℕ, zero, suc, ◌≡◌, refl, Bool, true, some, List, [], ◌∷◌, arith, ap, ◌∙◌, length, length-take,
  take, sym, none, of-some, Bool-cases, inl, inr, ◌⊎◌, ==_iff, ◌==◌, ◌||◌,
}
use mathlib.Core.Path.{subst}
use cosmic.Prelude.Results.{Result, ok, err}
use cosmic.Connector.Table.{Sockaddr, Family, inet, inet6}
use cosmic.Connector.Address.{public_allowed, AreBytes}
use cosmic.Connector.Address.Allowed.{ArePrefixes, IsAllowed, public_allowed-IsAllowed}
use cosmic.Connector.Request.{
  Request, Network, Plan, public_connect, family_length, begin, scratch_address, Answer,
  einprogress, eintr,
}
use cosmic.Connector.Request.Wire.{take_all}

take-AreBytes : (n : ℕ) (bs : List ℕ) → AreBytes bs → AreBytes (take n bs)
take-AreBytes zero bs h = tt
take-AreBytes (suc n) [] h = tt
take-AreBytes (suc n) (b ∷ bs) h = (h.0, take-AreBytes n bs h.1)

-- A connect that was made, or one that is under way: of a socket, an address of a size, and the answer.
abbrev pub IsBegun : Network → ℕ → Sockaddr → ℕ → Answer → Type 0
IsBegun net fd address size answer =
    ((net.connect fd address size ≡ ok tt) × (answer ≡ record { failure = 0; fd = some fd }))
    ⊎ (((net.connect fd address size ≡ err 115) ⊎ (net.connect fd address size ≡ err 4))
        × (answer ≡ record { failure = 115; fd = some fd }))

-- What a public request ends with where it ends with the socket `fd`: the lists allow the host that
-- it names, and the socket was made for, and asked to connect to, that host and the request's own
-- port, by a socket address of the given size.
pub record ConnectsTo (net : Network) (plan : Plan) (request : Request) (answer : Answer) (fd : ℕ)
    (family : Family) (host : List ℕ) (size : ℕ) : Type 0 where
  pub allowed : IsAllowed plan.lists host
  pub made : net.socket (record { family = family; host = host; port = request.port }) ≡ ok fd
  pub begun :
      IsBegun net fd (record { family = family; host = host; port = request.port }) size answer

answered :
    {A : Type 0} (answer : Result ℕ A) → ((e : ℕ) × (answer ≡ err e)) ⊎ ((a : A) × (answer ≡ ok a))
answered (err e) = inl (e, refl)
answered (ok a) = inr (a, refl)

-- What the system answered where a connect leaves a socket.
begin-IsBegun :
    (net : Network) (address : Sockaddr) (size fd : ℕ)
    → (begin net address size).fd ≡ some fd
    → (net.socket address ≡ ok fd) × IsBegun net fd address size (begin net address size)
unfolding begin
begin-IsBegun net address size fd h = elim (answered (net.socket address)) [
  | inl (e, refused) ↦ let no : none ≡ some fd = rw (begin, refused) at h in absurd cc
  | inr (made, was_made) ↦ elim (answered (net.connect made address size)) [
    | inl (e, failed) ↦ elim (Bool-cases (e == einprogress || e == eintr)) [
      | inl waits ↦
          let same : made ≡ fd = of-some (rw (begin, was_made, failed, waits) at h) in
          let either : (e ≡ 115) ⊎ (e ≡ 4) = begun_by e waits in
          (
            was_made ∙ ap ok same,
            inr (
              elim either [
                | inl progress ↦
                    inl (ap (λ m. net.connect m address size) (sym same) ∙ failed ∙ ap err progress)
                | inr interrupted ↦
                    inr (
                      ap (λ m. net.connect m address size) (sym same) ∙ failed ∙ ap err interrupted)
              ],
              rw (begin, was_made, failed, waits)
                  (ap (λ m. record { failure = 115; fd = some m }) same),
            ),
          )
      | inr over ↦ let no : none ≡ some fd = rw (begin, was_made, failed, over) at h in absurd cc
    ]
    | inr (_, worked) ↦
        let same : made ≡ fd = of-some (rw (begin, was_made, worked) at h) in
        (
          was_made ∙ ap ok same,
          inl (
            ap (λ m. net.connect m address size) (sym same) ∙ worked,
            rw (begin, was_made, worked) (ap (λ m. record { failure = 0; fd = some m }) same),
          ),
        )
  ]
]
  where
    begun_by : (e : ℕ) → (e == einprogress || e == eintr) ≡ true → (e ≡ 115) ⊎ (e ≡ 4)
    begun_by e waits = elim (Bool-cases (e == einprogress)) [
      | inl progress ↦ inl ((==_iff e einprogress).0 progress)
      | inr other ↦ inr ((==_iff e eintr).0 (ground arith))
    ]

-- A request that leaves a socket has passed every check.
public_connect-passes :
    (net : Network) (plan : Plan) (request : Request) (room : Bool) (fd : ℕ)
    → (public_connect net plan request room).fd ≡ some fd
    → (public_allowed plan.lists
          (take (family_length request.family) request.address)
          (family_length request.family)
        ≡ true)
      × ((request.family ≡ 4) ⊎ (request.family ≡ 6))
      × (public_connect net plan request room
          ≡ begin net (scratch_address request).0 (scratch_address request).1)
unfolding public_connect
public_connect-passes net plan request room fd h = (ground arith, families, ground arith)
  where
    families : (request.family ≡ 4) ⊎ (request.family ≡ 6)
    families = elim (Bool-cases (request.family == 4)) [
      | inl four ↦ inl ((==_iff request.family 4).0 four)
      | inr other ↦ elim (Bool-cases (request.family == 6)) [
        | inl six ↦ inr ((==_iff request.family 6).0 six)
        | inr neither ↦ absurd (ground arith)
      ]
    ]

scratch_inet :
    (request : Request)
    → request.family ≡ 4
    → scratch_address request
      ≡ (record { family = inet; host = take 4 request.address; port = request.port }, 16)
scratch_inet request four = ground arith

scratch_inet6 :
    (request : Request)
    → request.family ≡ 6
    → scratch_address request
      ≡ (record { family = inet6; host = request.address; port = request.port }, 28)
scratch_inet6 request six = ground arith

-- Where the lists hold well-formed prefixes and a public request with a 16-byte address ends
-- with a socket, the request is for IPv4 or for IPv6, the lists allow the host that it names
-- (the first 4 bytes of the address, or all 16), the socket was made for that family, that host
-- and the request's port, and it was asked to connect to them, at the family's size of a socket
-- address: either it connected and the answer is a success with the socket, or the connect was
-- interrupted or goes on and the answer is EINPROGRESS with the socket.
pub public_connect-IsAllowed :
    (net : Network) (plan : Plan) (request : Request) (room : Bool) (fd : ℕ)
    → ArePrefixes plan.lists.deny
    → ArePrefixes plan.lists.own
    → AreBytes request.address
    → length request.address ≡ 16
    → (public_connect net plan request room).fd ≡ some fd
    → ((request.family ≡ 4)
        × ConnectsTo net plan request
            (public_connect net plan request room)
            fd
            inet
            (take 4 request.address)
            16)
      ⊎ ((request.family ≡ 6)
          × ConnectsTo net plan request
              (public_connect net plan request room)
              fd
              inet6
              request.address
              28)
public_connect-IsAllowed net plan request room fd vd vo bytes size h =
    let (known, families, asked) = public_connect-passes net plan request room fd h in
    elim families [
      | inl four ↦
          let at : public_connect net plan request room
              ≡ begin net
                  (record { family = inet; host = take 4 request.address; port = request.port })
                  16 =
            asked ∙ ap (λ a. begin net a.0 a.1) (scratch_inet request four) in
          let judged : public_allowed plan.lists (take 4 request.address) 4 ≡ true =
            ap (λ l. public_allowed plan.lists (take l request.address) l)
              (ap family_length (sym four))
            ∙ known in
          let sized : length (take 4 request.address) ≡ 4 =
            omega (arith, length-take 4 request.address) in
          inl (
            four,
            record {
              allowed =
                  (public_allowed-IsAllowed plan.lists (take 4 request.address) vd vo
                      (take-AreBytes 4 request.address bytes)).0
                    (ap (public_allowed plan.lists (take 4 request.address)) sized ∙ judged);
              made = (begin-IsBegun net _ 16 fd (sym (ap (λ a. a.fd) at) ∙ h)).0;
              begun =
                  subst (IsBegun net fd _ 16) (sym at)
                    ((begin-IsBegun net _ 16 fd (sym (ap (λ a. a.fd) at) ∙ h)).1);
            },
          )
      | inr six ↦
          let at : public_connect net plan request room
              ≡ begin net (record { family = inet6; host = request.address; port = request.port })
                  28 =
            asked ∙ ap (λ a. begin net a.0 a.1) (scratch_inet6 request six) in
          let judged : public_allowed plan.lists request.address 16 ≡ true =
            ap (λ a. public_allowed plan.lists a 16) (sym (take_all 16 request.address size))
            ∙ ap (λ l. public_allowed plan.lists (take l request.address) l)
                (ap family_length (sym six))
            ∙ known in
          inr (
            six,
            record {
              allowed =
                  (public_allowed-IsAllowed plan.lists request.address vd vo bytes).0
                    (ap (public_allowed plan.lists request.address) size ∙ judged);
              made = (begin-IsBegun net _ 28 fd (sym (ap (λ a. a.fd) at) ∙ h)).0;
              begun =
                  subst (IsBegun net fd _ 28) (sym at)
                    ((begin-IsBegun net _ 28 fd (sym (ap (λ a. a.fd) at) ∙ h)).1);
            },
          )
    ]
