-- ===== src/Promises/Program/Grants.antt =====
-- What the tables of grants of core/promises.c come to for one call.
use cosmic.Prelude.{
  ℕ, ◌≡◌, refl, ◌∙◌, Bool, true, false, ◌&&◌, ◌||◌, List, [], ◌∷◌, arith, ◌==◌, ltb, bit_or,
  if◌then◌else◌, Bool-cases, inl, inr,
}
use cosmic.Promises.Calls.{Call}
use cosmic.Promises.Calls.Numbers.{same_call}
use cosmic.Promises.Rules.{
  Rule, rule_none, rule_allow, rule_signal, rule_socket_unix, rule_socket_inet,
  rule_socket_unix_inet, rule_clone_nest, rule_prlimit_nest, rank, same_rule,
}
use cosmic.Promises.Rules.Tables.{Grant, basics, nest_calls, fork_calls, jit_calls, fattr_calls}
use cosmic.Promises.Program.{
  RuleOf, update, add, has_bit, with_sockets, with_promises, with_signals, with_limits, with_pids,
  with_held, rules_for,
}
use cosmic.Promises.Program.Added.{best, rank-add, rank-eq}

unfoldable pub named : List Grant → Call → Bool
named [] call = false
named (g ∷ table) call = same_call call g.call || named table call

or_left : (a b : Bool) → (a || b) ≡ false → a ≡ false
or_left a b h = ground arith

or_right : (a b : Bool) → (a || b) ≡ false → b ≡ false
or_right a b h = ground arith

best-unnamed :
    (n : ℕ) (table : List Grant) (call : Call) → named table call ≡ false → best n table call ≡ n
unfolding best named
best-unnamed n [] call h = refl
best-unnamed n (g ∷ table) call h =
    let other = or_left (same_call call g.call) (named table call) h in
    let later = or_right (same_call call g.call) (named table call) h in
    rw other (best-unnamed n table call later)

-- A table that does not name a call leaves its rule.
pub add-unnamed :
    (rules : RuleOf) (table : List Grant) (call : Call)
    → named table call ≡ false
    → add rules table call ≡ rules call
add-unnamed rules table call h =
    rank-eq _ _ (rank-add table rules call ∙ best-unnamed (rank (rules call)) table call h)

update-other :
    (rules : RuleOf) (call other : Call) (rule : Rule)
    → same_call other call ≡ false
    → update rules call rule other ≡ rules other
unfolding update
update-other rules call other rule h = rw (h, update) refl

-- A call whose rule is not set outside the tables, and that no promise but `jit` grants more of.
pub record IsPlain (call : Call) : Type 0 where
  pub socket : same_call call Call.socket ≡ false
  pub clone : same_call call Call.clone ≡ false
  pub pidfd : same_call call Call.pidfd_send_signal ≡ false
  pub rlimit : same_call call Call.setrlimit ≡ false
  pub prlimit : same_call call Call.prlimit64 ≡ false
  pub pgid : same_call call Call.getpgid ≡ false
  pub sid : same_call call Call.getsid ≡ false
  pub set_pgid : same_call call Call.setpgid ≡ false
  pub caps : same_call call Call.capget ≡ false
  pub fork : named fork_calls call ≡ false
  pub fattr : named fattr_calls call ≡ false
  pub nest : named nest_calls call ≡ false

-- What both branches of a test leave alone.
either :
    (call : Call) (rule : Rule) (b : Bool) (f g : RuleOf)
    → f call ≡ rule
    → g call ≡ rule
    → (if b then f else g) call ≡ rule
either call rule true f g p q = p
either call rule false f g p q = q

module _ (call : Call) (p : IsPlain call) (rule : Rule) where
  updated :
      (rules : RuleOf) (other : Call) (r : Rule)
      → same_call call other ≡ false
      → rules call ≡ rule
      → update rules other r call ≡ rule
  updated rules other r h e = update-other rules other call r h ∙ e

  added :
      (rules : RuleOf) (table : List Grant)
      → named table call ≡ false
      → rules call ≡ rule
      → add rules table call ≡ rule
  added rules table h e = add-unnamed rules table call h ∙ e

  with_sockets-plain :
      (rules : RuleOf) (sockets held : ℕ)
      → rules call ≡ rule
      → with_sockets rules sockets held call ≡ rule
  unfolding with_sockets
  with_sockets-plain rules sockets held e =
      let asked = if has_bit held 2 then bit_or sockets 1 else sockets in
      let unix = update rules Call.socket rule_socket_unix in
      let inet = update rules Call.socket rule_socket_inet in
      let both = update rules Call.socket rule_socket_unix_inet in
      let third = if asked == bit_or 1 2 then both else rules in
      let second = if asked == 2 then inet else third in
      let third_kept : third call ≡ rule =
        either call rule (asked == bit_or 1 2) both rules
          (updated rules Call.socket rule_socket_unix_inet p.socket e) e in
      let second_kept : second call ≡ rule =
        either call rule (asked == 2) inet third
          (updated rules Call.socket rule_socket_inet p.socket e) third_kept in
      either call rule (asked == 1) unix second
        (updated rules Call.socket rule_socket_unix p.socket e) second_kept

  -- The promises, where `jit` is not promised or does not name the call.
  with_promises-plain :
      (rules : RuleOf) (promises : ℕ)
      → (has_bit promises 2 && named jit_calls call) ≡ false
      → rules call ≡ rule
      → with_promises rules promises call ≡ rule
  unfolding with_promises
  with_promises-plain rules promises idle e =
      let forked = if has_bit promises 1 then add rules fork_calls else rules in
      let jitted = if has_bit promises 2 then add forked jit_calls else forked in
      let marked = if has_bit promises 4 then add jitted fattr_calls else jitted in
      let nested = add marked nest_calls in
      let cloned = update nested Call.clone rule_clone_nest in
      let after_fork : forked call ≡ rule =
        either call rule (has_bit promises 1) (add rules fork_calls) rules
          (added rules fork_calls p.fork e) e in
      let after_jit : jitted call ≡ rule = jit forked after_fork in
      let after_fattr : marked call ≡ rule =
        either call rule (has_bit promises 4) (add jitted fattr_calls) jitted
          (added jitted fattr_calls p.fattr after_jit) after_jit in
      let after_nest : nested call ≡ rule = added marked nest_calls p.nest after_fattr in
      let after_clone : (if has_bit promises 1 then cloned else nested) call ≡ rule =
        either call rule (has_bit promises 1) cloned nested
          (updated nested Call.clone rule_clone_nest p.clone after_nest) after_nest in
      either call rule (has_bit promises 8) (if has_bit promises 1 then cloned else nested) marked
        after_clone after_fattr
    where
      jit :
          (forked : RuleOf)
          → forked call ≡ rule
          → (if has_bit promises 2 then add forked jit_calls else forked) call ≡ rule
      jit forked e' = elim (Bool-cases (has_bit promises 2)) [
        | inr no_jit ↦ rw no_jit e'
        | inl jits ↦ rw jits (added forked jit_calls (rw jits at idle) e')
      ]

  with_signals-plain :
      (rules : RuleOf)
      → same_rule rule rule_signal ≡ false
      → rules call ≡ rule
      → with_signals rules call ≡ rule
  unfolding with_signals
  with_signals-plain rules calm e =
      updated (λ c. if same_rule (rules c) rule_signal then rule_allow else rules c)
        Call.pidfd_send_signal rule_allow p.pidfd (rw e (rw calm refl))

  with_limits-plain : (rules : RuleOf) → rules call ≡ rule → with_limits rules call ≡ rule
  unfolding with_limits
  with_limits-plain rules e =
      let settable = update rules Call.setrlimit rule_allow in
      let kept : settable call ≡ rule = updated rules Call.setrlimit rule_allow p.rlimit e in
      either call rule (ltb (rank (settable Call.prlimit64)) (rank rule_prlimit_nest))
        (update settable Call.prlimit64 rule_prlimit_nest) settable
        (updated settable Call.prlimit64 rule_prlimit_nest p.prlimit kept) kept

  with_pids-plain : (rules : RuleOf) → rules call ≡ rule → with_pids rules call ≡ rule
  unfolding with_pids
  with_pids-plain rules e =
      let first = update rules Call.getpgid rule_allow in
      let second = update first Call.getsid rule_allow in
      let third = update second Call.setpgid rule_allow in
      updated third Call.capget rule_allow p.caps (
        updated second Call.setpgid rule_allow p.set_pgid (
          updated first Call.getsid rule_allow p.sid
            (updated rules Call.getpgid rule_allow p.pgid e)))

  -- The rule of such a call is what the basics say.
  pub rules_for-plain :
      (promises sockets held : ℕ)
      → (has_bit promises 2 && named jit_calls call) ≡ false
      → same_rule rule rule_signal ≡ false
      → add (λ c. rule_none) basics call ≡ rule
      → rules_for promises sockets held call ≡ rule
  unfolding rules_for with_held
  rules_for-plain promises sockets held idle calm basic =
      let asked = with_sockets (add (λ c. rule_none) basics) sockets held in
      let given = with_promises asked promises in
      let signalled = if has_bit held 1 then with_signals given else given in
      let limited = if has_bit held 4 then with_limits signalled else signalled in
      let asked_kept = with_sockets-plain (add (λ c. rule_none) basics) sockets held basic in
      let given_kept : given call ≡ rule = with_promises-plain asked promises idle asked_kept in
      let signalled_kept : signalled call ≡ rule =
        either call rule (has_bit held 1) (with_signals given) given
          (with_signals-plain given calm given_kept) given_kept in
      let limited_kept : limited call ≡ rule =
        either call rule (has_bit held 4) (with_limits signalled) signalled
          (with_limits-plain signalled signalled_kept) signalled_kept in
      either call rule (has_bit held 8) (with_pids limited) limited
        (with_pids-plain limited limited_kept) limited_kept
