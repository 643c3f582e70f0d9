-- ===== src/PolicyConn/Streams.antt =====
-- What the peer of a `policyConn` (internal/tun_bridge.go) receives.
use bill_vpn.Common.{
  ℕ, ◌≡◌, refl, true, false, ◌||◌, List, [], ◌∷◌, ◌++◌, Bytes, length, ◌==◌, append_assoc,
  append-nil, arith, All, All-snoc, Returns, returns, Returns-bind, Returns-if, Returns-map,
  Bool-cases, inl, inr,
}
use mathlib.Core.List.{flatten}
use bill_vpn.Fragment.Deliver.{stream}
use bill_vpn.Policy.{is_block}
use bill_vpn.Route.Plan.{DialPlan}
use bill_vpn.PolicyConn.{
  Event, wrote, fragmented, desynced, alert, shut, broke, Conn, World, act, act_anyway,
  flush_pending, close_unless, is_raw, try_handle_pending, write_conn, write_all,
}

-- The bytes that the events without an error put in band.
unfoldable pub sent : List Event → Bytes
sent [] = []
sent (wrote p ∷ es) = p ++ sent es
sent (fragmented ops ∷ es) = stream ops ++ sent es
sent (desynced _ p _ _ _ _ ∷ es) = p ++ sent es
sent (alert _ _ ∷ es) = sent es
sent (shut ∷ es) = sent es
sent (broke e ∷ es) = sent es

sent-append : (xs ys : List Event) → sent (xs ++ ys) ≡ sent xs ++ sent ys
unfolding sent
sent-append [] ys = refl
sent-append (wrote p ∷ es) ys = simp (sent-append es ys, append_assoc)
sent-append (fragmented ops ∷ es) ys = simp (sent-append es ys, append_assoc)
sent-append (desynced _ p _ _ _ _ ∷ es) ys = simp (sent-append es ys, append_assoc)
sent-append (alert _ _ ∷ es) ys = sent-append es ys
sent-append (shut ∷ es) ys = sent-append es ys
sent-append (broke e ∷ es) ys = sent-append es ys

-- A call that closes the inner connection, or fails to.
pub data Closes : Event → Type 0 where
  closed : Closes shut
  not_closed : Closes (broke shut)

-- A connection whose plan blocks, of which the inner connection has only been closed.
record IsSilent (c : Conn) : Type 0 where
  blocks : (c.plan.blocked || is_block c.plan.policy.mode) ≡ true
  waits : c.handled ≡ false
  only_shut : All Closes c.events

IsSilent-shut : (w : World) (c : Conn) → IsSilent c → IsSilent (act_anyway w shut c)
unfolding act_anyway act
IsSilent-shut w c s = elim (Bool-cases (w.accepts c.events shut)) [
  | inl e ↦
      rw (act_anyway, act, e)
        (record {
          blocks = s.blocks;
          waits = s.waits;
          only_shut = All-snoc Closes c.events shut s.only_shut closed;
        })
  | inr e ↦
      rw (act_anyway, act, e)
        (record {
          blocks = s.blocks;
          waits = s.waits;
          only_shut = All-snoc Closes c.events (broke shut) s.only_shut not_closed;
        })
]

IsSilent-write :
    (w : World) (b : Bytes) (c : Conn) → IsSilent c → Returns IsSilent (write_conn w b c)
unfolding write_conn try_handle_pending
IsSilent-write w b c s =
    Returns-if c.closed (λ e. returns s)
      (λ e.
        Returns-if c.handled (λ f. absurd (ground (arith, s.waits)))
          (λ f.
            Returns-if (length (c.pending ++ b) == 0)
              (λ g.
                returns (record { blocks = s.blocks; waits = s.waits; only_shut = s.only_shut }))
              (λ g.
                Returns-if (c.plan.blocked || is_block c.plan.policy.mode)
                  (λ h. returns (
                    IsSilent-shut w (record c { closed = true; pending = c.pending ++ b })
                      (record { blocks = s.blocks; waits = s.waits; only_shut = s.only_shut })))
                  (λ h. absurd (ground (arith, s.blocks))))))

IsSilent-write_all :
    (w : World) (bs : List Bytes) (c : Conn) → IsSilent c → Returns IsSilent (write_all w bs c)
unfolding write_all
IsSilent-write_all w [] c s = returns s
IsSilent-write_all w (b ∷ bs) c s =
    Returns-bind (IsSilent-write w b c s) (λ c' s'. IsSilent-write_all w bs c' s')

-- `BridgeTCP`'s wrapper as it is made.
unfoldable pub new_conn : DialPlan → Conn
new_conn plan = record { plan = plan; handled = false; closed = false; pending = []; events = [] }

-- A connection whose plan blocks does nothing to the inner connection but close it, or fail to: it
-- neither writes to it nor sends an alert, whatever is written and whatever the inner connection does. No
-- write panics.
pub blocked_sends_nothing :
    (w : World) (plan : DialPlan) (bs : List Bytes)
    → (plan.blocked || is_block plan.policy.mode) ≡ true
    → Returns (λ c. All Closes c.events) (write_all w bs (new_conn plan))
unfolding new_conn
blocked_sends_nothing w plan bs h =
    Returns-map (λ c s. s.only_shut)
      (IsSilent-write_all w bs (new_conn plan)
        (record { blocks = h; waits = refl; only_shut = tt }))

-- An open connection in raw mode that holds nothing back, and what it has sent.
record IsPassing (all : Bytes) (c : Conn) : Type 0 where
  mode_raw : is_raw c.plan.policy.mode ≡ true
  unblocked : (c.plan.blocked || is_block c.plan.policy.mode) ≡ false
  is_open : c.closed ≡ false
  holds_nothing : c.pending ≡ []
  passed : sent c.events ≡ all

IsPassing-act :
    (w : World) (all b : Bytes) (c : Conn)
    → ((es : List Event) (e : Event) → w.accepts es e ≡ true)
    → IsPassing all c
    → IsPassing (all ++ b) (act_anyway w (wrote b) c)
unfolding act_anyway act sent
IsPassing-act w all b c ok p =
    rw (act_anyway, act, ok c.events (wrote b))
      (record {
        mode_raw = p.mode_raw;
        unblocked = p.unblocked;
        is_open = p.is_open;
        holds_nothing = p.holds_nothing;
        passed = rw (sent-append c.events (wrote b ∷ []), p.passed, append-nil b) refl;
      })

IsPassing-flush :
    (w : World) (all : Bytes) (x : ℕ) (b : Bytes) (c : Conn)
    → ((es : List Event) (e : Event) → w.accepts es e ≡ true)
    → IsPassing all (record c { pending = [] })
    → c.pending ≡ x ∷ b
    → IsPassing (all ++ (x ∷ b)) (close_unless (flush_pending w c))
unfolding flush_pending act sent
IsPassing-flush w all x b c ok p h =
    rw (flush_pending, act, h, ok c.events (wrote (x ∷ b)))
      (record {
        mode_raw = p.mode_raw;
        unblocked = p.unblocked;
        is_open = refl;
        holds_nothing = refl;
        passed = rw (sent-append c.events (wrote (x ∷ b) ∷ []), p.passed, append-nil b) refl;
      })

IsPassing-write :
    (w : World) (all b : Bytes) (c : Conn)
    → ((es : List Event) (e : Event) → w.accepts es e ≡ true)
    → IsPassing all c
    → Returns (IsPassing (all ++ b)) (write_conn w b c)
unfolding write_conn try_handle_pending
IsPassing-write w all b c ok p =
    Returns-if c.closed (λ e. absurd (ground (arith, p.is_open)))
      (λ e.
        Returns-if c.handled (λ f. returns (IsPassing-act w all b c ok p))
          (λ f. rw p.holds_nothing (pass b)))
  where
    pass :
        (d : Bytes)
        → Returns (IsPassing (all ++ d)) (try_handle_pending w (record c { pending = d }))
    pass [] = rw (append-nil all) (
        returns (record {
          mode_raw = p.mode_raw;
          unblocked = p.unblocked;
          is_open = p.is_open;
          holds_nothing = refl;
          passed = p.passed;
        }))
    pass (x ∷ d) =
        Returns-if (length (x ∷ d) == 0) (λ g. absurd (ground arith))
          (λ g.
            Returns-if (c.plan.blocked || is_block c.plan.policy.mode)
              (λ h. absurd (ground (arith, p.unblocked)))
              (λ h.
                Returns-if (is_raw c.plan.policy.mode)
                  (λ k. returns (
                    IsPassing-flush w all x d (record c { pending = x ∷ d }) ok
                      (record {
                        mode_raw = p.mode_raw;
                        unblocked = p.unblocked;
                        is_open = p.is_open;
                        holds_nothing = refl;
                        passed = p.passed;
                      })
                      refl))
                  (λ k. absurd (ground (arith, p.mode_raw)))))

IsPassing-write_all :
    (w : World) (all : Bytes) (bs : List Bytes) (c : Conn)
    → ((es : List Event) (e : Event) → w.accepts es e ≡ true)
    → IsPassing all c
    → Returns (IsPassing (all ++ flatten bs)) (write_all w bs c)
unfolding write_all flatten
IsPassing-write_all w all [] c ok p = rw (append-nil all) (returns p)
IsPassing-write_all w all (b ∷ bs) c ok p =
    Returns-bind (IsPassing-write w all b c ok p) (λ c' p'.
      rw (← append_assoc all b (flatten bs)) (IsPassing-write_all w (all ++ b) bs c' ok p'))

-- In raw mode, on a plan that does not block and with an inner connection that takes everything,
-- what is sent is what was written, in order and once, and no write panics.
pub raw_sends_all :
    (w : World) (plan : DialPlan) (bs : List Bytes)
    → ((es : List Event) (e : Event) → w.accepts es e ≡ true)
    → (plan.blocked || is_block plan.policy.mode) ≡ false
    → is_raw plan.policy.mode ≡ true
    → Returns (λ c. sent c.events ≡ flatten bs) (write_all w bs (new_conn plan))
unfolding new_conn sent
raw_sends_all w plan bs ok h k =
    Returns-map (λ c p. p.passed)
      (IsPassing-write_all w [] bs (new_conn plan) ok (record {
        mode_raw = k;
        unblocked = h;
        is_open = refl;
        holds_nothing = refl;
        passed = refl;
      }))
