-- ===== src/Realtime/Fanout.antt =====
-- What a delivery sends, counts and drops.
use civiclens.Access.{citizen}
use civiclens.Realtime.Events.{DomainEvent, View, may_receive, view_for}
use civiclens.Realtime.Manager.{
  Connection, Manager, disconnect, sends, count_results, targets, has_other_id, deliver,
}
use civiclens.Realtime.Audience.{view_for_internal}
use civiclens.Prelude.{
  ℕ, ◌+◌, String, ◌≡◌, refl, sym, ap, ◌∙◌, inl, inr, Bool, true, false, not, ◌&&◌, ◌||◌, none, List,
  [], ◌∷◌, map, arith, eq_iff, Bool-cases, length, any, filter, All, str_eq, All-map, Mem, All-Mem,
}

-- A message to a connection of the list that may receive the event: it is what that connection's
-- user may see, with no staff-only part for a citizen.
abbrev pub IsAllowed : List Connection → DomainEvent → Connection × View → Type 0
IsAllowed conns event (c, view) =
    Mem c conns
    × (may_receive c.ctx event ≡ true)
    × (view ≡ view_for c.ctx event)
    × (c.ctx.role ≡ citizen → view.internal ≡ none)

to_targets :
    (event : DomainEvent) (every cs : List Connection)
    → All (λ c. Mem c every) cs
    → All (IsAllowed every event) (map (λ c. (c, view_for c.ctx event)) (targets event cs))
to_targets event every [] k = tt
to_targets event every (c ∷ cs) k = elim (Bool-cases (may_receive c.ctx event)) [
  | inl e ↦ rw e ((k.0, e, refl, (view_for_internal c.ctx event).0), to_targets event every cs k.1)
  | inr e ↦ rw e (to_targets event every cs k.1)
]

-- Whether one of the messages goes to a connection with this identifier
abbrev pub is_sent_to : String → List (Connection × View) → Bool
is_sent_to id ss = any (λ s. str_eq s.0.id id) ss

or_true : (b : Bool) → (b || true) ≡ true
or_true true = refl
or_true false = refl

-- A connection that may receive the event gets a message.
abbrev IsReached : DomainEvent → List Connection → Connection → Type 0
IsReached event cs c =
    may_receive c.ctx event ≡ true
    → is_sent_to c.id (map (λ d. (d, view_for d.ctx event)) (targets event cs)) ≡ true

IsReached-still :
    (event : DomainEvent) (c : Connection) (cs : List Connection) (d : Connection)
    → IsReached event cs d
    → IsReached event (c ∷ cs) d
IsReached-still event c cs d h m = elim (Bool-cases (may_receive c.ctx event)) [
  | inl e ↦ rw (e, h m) (or_true _)
  | inr e ↦ rw e (h m)
]

reaches_target : (event : DomainEvent) (cs : List Connection) → All (IsReached event cs) cs
reaches_target event [] = tt
reaches_target event (c ∷ cs) = (
  λ m. rw (m, (eq_iff c.id c.id).1 refl) refl,
  All-map (IsReached event cs) (IsReached event (c ∷ cs)) (IsReached-still event c cs) cs
      (reaches_target event cs),
)

-- Every message of a delivery goes to a connection of the manager that may receive the event, and
-- is what its user may see of the event, without a staff-only part for a citizen; and every
-- connection of the manager that may receive the event gets a message.
pub sends-IsAllowed :
    (event : DomainEvent) (m : Manager)
    → All (IsAllowed m.conns event) (sends event m)
      × All (λ c. may_receive c.ctx event ≡ true → is_sent_to c.id (sends event m) ≡ true) m.conns
unfolding sends
sends-IsAllowed event m =
    (to_targets event m.conns m.conns (All-Mem m.conns), reaches_target event m.conns)

-- The connections that did not take their message.
abbrev pub failures :
    (Connection → View → Bool) → List (Connection × View) → List (Connection × View)
failures takes ss = filter (λ s. not (takes s.0 s.1)) ss

-- Whether a connection has another identifier than those that failed.
unfoldable pub is_kept : List (Connection × View) → Connection → Bool
is_kept [] c = true
is_kept (f ∷ fs) c = has_other_id f.0.id c && is_kept fs c

filter_twice :
    (p q : Connection → Bool) (cs : List Connection)
    → filter q (filter p cs) ≡ filter (λ c. p c && q c) cs
filter_twice p q [] = refl
filter_twice p q (c ∷ cs) = elim (Bool-cases (p c)) [
  | inl e ↦ rw e (rw (filter_twice p q cs))
  | inr e ↦ rw e (rw (filter_twice p q cs))
]

record HasCounted (takes : Connection → View → Bool) (ss : List (Connection × View)) (sent : ℕ)
    (m : Manager) (r : ℕ × Manager) : Type 0 where
  total : r.0 + r.1.dropped_total ≡ sent + m.dropped_total + length ss
  failed : r.1.dropped_total ≡ m.dropped_total + length (failures takes ss)
  kept : r.1.conns ≡ filter (is_kept (failures takes ss)) m.conns
  delivered : r.1.delivered_total ≡ m.delivered_total

filter_all : (cs : List Connection) → filter (is_kept []) cs ≡ cs
unfolding is_kept
filter_all [] = refl
filter_all (c ∷ cs) = ap (λ x. c ∷ x) (filter_all cs)

count_results-HasCounted :
    (takes : Connection → View → Bool) (ss : List (Connection × View)) (sent : ℕ) (m : Manager)
    → HasCounted takes ss sent m (count_results takes ss (sent, m))
unfolding count_results is_kept
count_results-HasCounted takes [] sent m = record {
  total = omega arith;
  failed = omega arith;
  kept = sym (filter_all m.conns);
  delivered = refl;
}
count_results-HasCounted takes (s ∷ ss) sent m = elim (Bool-cases (takes s.0 s.1)) [
  | inl e ↦
      let h = count_results-HasCounted takes ss (sent + 1) m in
      rw e (record {
        total = omega (arith, h.total);
        failed = rw e h.failed;
        kept = rw e h.kept;
        delivered = h.delivered;
      })
  | inr e ↦
      let m' = disconnect s.0.id (record m { dropped_total = m.dropped_total + 1 }) in
      let h = count_results-HasCounted takes ss sent m' in
      rw e (record {
        total = omega (arith, h.total);
        failed = rw e (omega (arith, h.failed));
        kept =
            rw e
              (h.kept ∙ filter_twice (has_other_id s.0.id) (is_kept (failures takes ss)) m.conns);
        delivered = h.delivered;
      })
]

-- A delivery counts every message once, as delivered or as dropped: it returns the number of those
-- that went through, adds it to the one total and the others to the other, and drops exactly the
-- connections that did not take theirs.
pub deliver_counts :
    (takes : Connection → View → Bool) (event : DomainEvent) (m : Manager)
    → ((deliver takes event m).0 + length (failures takes (sends event m)) ≡ length (sends event m))
      × ((deliver takes event m).1.delivered_total ≡ m.delivered_total + (deliver takes event m).0)
      × ((deliver takes event m).1.dropped_total
          ≡ m.dropped_total + length (failures takes (sends event m)))
      × ((deliver takes event m).1.conns
          ≡ filter (is_kept (failures takes (sends event m))) m.conns)
unfolding deliver
deliver_counts takes event m =
    let h = count_results-HasCounted takes (sends event m) 0 m in
    (omega (arith, h.total, h.failed), omega (arith, h.delivered), h.failed, h.kept)
