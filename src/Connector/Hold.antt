-- ===== src/Connector/Hold.antt =====
-- connector_hold of core/connector.c: what a connector's process does to itself before it serves.
-- Each system call is an action, and the kernel answers it with 0 or an error.
use cosmic.Prelude.{
  ℕ, zero, suc, ◌+◌, ◌-◌, ◌^◌, ◌<◌, ◌≡◌, refl, ap, Bool, true, false, not, ◌&&◌, ◌||◌, List, [],
  ◌∷◌, ◌++◌, ◌==◌, leb, ltb, arith, if◌then◌else◌, Bool-cases, inl, inr,
}
use cosmic.Connector.Request.{eperm, einval}

pub data Action : Type 0 where
  -- plan->close_refused and plan->filter_refused, which answer EPERM
  refused : Action
  close_range : ℕ → ℕ → Action
  default_signal : ℕ → Action
  ignore_pipe : Action
  unblock_signals : Action
  not_dumpable : Action
  no_new_privileges : Action
  read_limit : Action
  limit_files : ℕ → Action
  no_core : Action
  install_filter : Action

-- What of struct connector_plan this reads.
pub record Holding : Type 0 where
  pub control : ℕ
  pub status : ℕ
  pub close_refused : Bool
  pub filter_refused : Bool

abbrev pub uint_max : ℕ
uint_max = 2 ^ 32 - 1

-- The descriptors below, between and above the two that are kept.
pub closing : ℕ → ℕ → List Action
closing first second =
    (if ltb 0 first then close_range 0 (first - 1) ∷ [] else [])
    ++ (if ltb (first + 1) second then close_range (first + 1) (second - 1) ∷ [] else [])
    ++ close_range (second + 1) uint_max ∷ []

-- The loop over the signals from `signal` on, without SIGKILL and SIGSTOP.
pub signals_from : ℕ → ℕ → List Action
signals_from signal zero = []
signals_from signal (suc left) =
    (if signal == 9 || signal == 19 then [] else default_signal signal ∷ [])
    ++ signals_from (suc signal) left

-- The calls after the signals'; `most` is the hard limit on descriptors.
abbrev setup : ℕ → List Action
setup most =
    ignore_pipe
    ∷ unblock_signals
    ∷ not_dumpable
    ∷ no_new_privileges
    ∷ read_limit
    ∷ limit_files (if ltb most 256 then most else 256)
    ∷ no_core
    ∷ []

abbrev refusing : Bool → List Action
refusing b = if b then refused ∷ [] else []

-- The whole of it, in order.
before_filter : Holding → ℕ → ℕ → List Action
unfolding closing signals_from
before_filter plan nsig most =
    refusing plan.close_refused
    ++ closing (if ltb plan.control plan.status then plan.control else plan.status)
        (if ltb plan.status plan.control then plan.control else plan.status)
    ++ signals_from 1 (nsig - 1)
    ++ setup most
    ++ refusing plan.filter_refused

pub hold_actions : Holding → ℕ → ℕ → List Action
unfolding before_filter
hold_actions plan nsig most = before_filter plan nsig most ++ install_filter ∷ []

-- The kernel's answer, or this code's own; a signal that cannot be set (EINVAL) is passed over.
abbrev pub answer : (Action → ℕ) → Action → ℕ
answer kernel refused = eperm
answer kernel (default_signal n) =
    if kernel (default_signal n) == einval then 0 else kernel (default_signal n)
answer kernel (close_range a b) = kernel (close_range a b)
answer kernel ignore_pipe = kernel ignore_pipe
answer kernel unblock_signals = kernel unblock_signals
answer kernel not_dumpable = kernel not_dumpable
answer kernel no_new_privileges = kernel no_new_privileges
answer kernel read_limit = kernel read_limit
answer kernel (limit_files n) = kernel (limit_files n)
answer kernel no_core = kernel no_core
answer kernel install_filter = kernel install_filter

-- Actions up to the first that fails, and its error or 0.
pub attempt : (Action → ℕ) → List Action → List Action × ℕ
attempt kernel [] = ([], 0)
attempt kernel (a ∷ rest) =
    let (done, failure) = attempt kernel rest in
    if answer kernel a == 0 then (a ∷ done, failure) else ([], answer kernel a)

-- connector_hold
unfoldable pub hold : (Action → ℕ) → ℕ → ℕ → Holding → List Action × ℕ
unfolding hold_actions attempt
hold kernel nsig most plan = attempt kernel (hold_actions plan nsig most)

-- Whether an action leaves a descriptor open, and whether all do.
abbrev pub leaves : ℕ → Action → Bool
leaves fd (close_range a b) = not (leb a fd && leb fd b)
leaves fd _ = true

pub survives : ℕ → List Action → Bool
survives fd [] = true
survives fd (a ∷ rest) = leaves fd a && survives fd rest

attempt-all :
    (kernel : Action → ℕ) (actions : List Action)
    → (attempt kernel actions).1 ≡ 0
    → (attempt kernel actions).0 ≡ actions
unfolding attempt
attempt-all kernel [] h = refl
attempt-all kernel (a ∷ rest) h = elim (Bool-cases (answer kernel a == 0)) [
  | inl good ↦
      let left : (attempt kernel rest).1 ≡ 0 = rw (attempt, good) at h in
      rw (attempt, good) (ap (λ l. a ∷ l) (attempt-all kernel rest left))
  | inr bad ↦ let no : answer kernel a ≡ 0 = rw (attempt, bad) at h in absurd (ground arith)
]

survives-append :
    (fd : ℕ) (xs ys : List Action) → survives fd (xs ++ ys) ≡ (survives fd xs && survives fd ys)
unfolding survives
survives-append fd [] ys = refl
survives-append fd (x ∷ xs) ys = ground (arith, survives-append fd xs ys)

survives-signals : (fd signal left : ℕ) → survives fd (signals_from signal left) ≡ true
unfolding survives signals_from
survives-signals fd signal zero = refl
survives-signals fd signal (suc left) =
    let rest = survives-signals fd (suc signal) left in
    elim (Bool-cases (signal == 9 || signal == 19)) [
      | inl skipped ↦ rw (signals_from, skipped) rest
      | inr set ↦ rw (signals_from, set) rest
    ]

survives-closing :
    (fd control status : ℕ)
    → fd < 2 ^ 32
    → survives fd (
        closing
          (if ltb control status then control else status)
          (if ltb status control then control else status))
      ≡ (fd == control || fd == status)
unfolding survives closing
survives-closing fd control status h = ground arith

survives-refusing : (fd : ℕ) (b : Bool) → survives fd (refusing b) ≡ true
unfolding survives
survives-refusing fd true = refl
survives-refusing fd false = refl

survives-actions :
    (plan : Holding) (nsig most fd : ℕ)
    → fd < 2 ^ 32
    → survives fd (hold_actions plan nsig most) ≡ (fd == plan.control || fd == plan.status)
unfolding survives hold_actions before_filter
survives-actions plan nsig most fd h =
    let set = survives-signals fd 1 (nsig - 1) in
    let kept = survives-closing fd plan.control plan.status h in
    let close = survives-refusing fd plan.close_refused in
    let filter = survives-refusing fd plan.filter_refused in
    simp (survives-append fd, set, close, filter) (ground arith)

-- Where connector_hold returns 0, the last call that it made installs the filter, and of the
-- descriptors below 2^32 its calls leave exactly the control and the status one open.
pub hold-survives :
    (kernel : Action → ℕ) (nsig most : ℕ) (plan : Holding) (fd : ℕ)
    → fd < 2 ^ 32
    → (hold kernel nsig most plan).1 ≡ 0
    → ((before : List Action) × ((hold kernel nsig most plan).0 ≡ before ++ install_filter ∷ []))
      × (survives fd (hold kernel nsig most plan).0 ≡ (fd == plan.control || fd == plan.status))
unfolding hold hold_actions
hold-survives kernel nsig most plan fd h ok =
    let all : (hold kernel nsig most plan).0 ≡ hold_actions plan nsig most =
      attempt-all kernel (hold_actions plan nsig most) ok in
    rw all ((before_filter plan nsig most, refl), survives-actions plan nsig most fd h)
