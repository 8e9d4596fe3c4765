-- ===== src/Domain/Participation/History.antt =====
-- The audited history of a participation: it tells the state, and grows by one audited entry.
use culturago_stellar.Base.{
  ℕ, ◌+◌, ◌≡◌, refl, sym, ap, true, some, String, List, [], ◌∷◌, ◌++◌, Result, ok, err, arith,
  length,
}
use culturago_stellar.Domain.Participation.{
  ParticipationState, registered, checked_in, participation_confirmed, credential_issued,
  ParticipationTransition, ParticipationRecord, create_participation, transition_participation,
  can_issue_credential_for,
}

-- How far a participation is.
abbrev pub stage : ParticipationState → ℕ
stage registered = 0
stage checked_in = 1
stage participation_confirmed = 2
stage credential_issued = 3

-- A history leads from one state to another by single stages: each entry starts where the one
-- before it ended, and ends one stage later.
abbrev pub Leads : ParticipationState → List ParticipationTransition → ParticipationState → Type 0
Leads s [] t = s ≡ t
Leads s (h ∷ hs) t = (h.from ≡ s) × (stage h.to ≡ stage s + 1) × Leads h.to hs t

Leads-append :
    (s : ParticipationState) (hs : List ParticipationTransition) (h : ParticipationTransition)
    → stage h.to ≡ stage h.from + 1
    → Leads s hs h.from
    → Leads s (hs ++ h ∷ []) h.to
Leads-append s [] h next l = (sym l, rw l next, refl)
Leads-append s (g ∷ hs) h next l = (l.0, l.1, Leads-append g.to hs h next l.2)

Leads-length :
    (s t : ParticipationState) (hs : List ParticipationTransition)
    → Leads s hs t
    → stage t ≡ stage s + length hs
Leads-length s t [] l = ground arith
Leads-length s t (h ∷ hs) l = omega (arith, l.1, Leads-length h.to t hs l.2)

-- The record tells its own past.
abbrev pub IsAudited : ParticipationRecord → Type 0
IsAudited r = Leads registered r.history r.state

create-IsAudited :
    (i s e : String) {r : ParticipationRecord} → create_participation i s e ≡ ok r → IsAudited r
unfolding create_participation
create-IsAudited i s e h = ground arith

allowed-stage :
    (r : ParticipationRecord) (to : ParticipationState) (actor at : String)
    {q : ParticipationRecord}
    → transition_participation r to actor at ≡ ok q
    → stage to ≡ stage r.state + 1
unfolding transition_participation
allowed-stage r to actor at h = ground arith

-- What `transitionParticipation` does when it succeeds: the state moves on by one stage, the history
-- is the old one with one entry more, which names the two states, the actor and the time, and the
-- identity of the participation stays.
pub transition_appends :
    (r : ParticipationRecord) (to : ParticipationState) (actor at : String)
    {q : ParticipationRecord}
    → transition_participation r to actor at ≡ ok q
    → (stage to ≡ stage r.state + 1)
      × (q.state ≡ to)
      × (q.history
          ≡ r.history ++ record { from = r.state; to = to; actor_id = actor; at = at } ∷ [])
      × (q.participation_id ≡ r.participation_id)
      × (q.subject_id ≡ r.subject_id)
      × (q.event_id ≡ r.event_id)
unfolding transition_participation
transition_appends r to actor at h = ground arith

transition-IsAudited :
    (r : ParticipationRecord) (to : ParticipationState) (actor at : String)
    {q : ParticipationRecord}
    → IsAudited r
    → transition_participation r to actor at ≡ ok q
    → IsAudited q
transition-IsAudited r to actor at v h =
    let (next, state, history, _, _, _) = transition_appends r to actor at h in
    rw (state, history) (Leads-append registered r.history _ next v)

-- One audited step of the state machine, or none: what a list of requests makes of a participation.
-- A request that is refused leaves the record as it was.
pub record Request : Type 0 where
  pub to : ParticipationState
  pub actor_id : String
  pub at : String

abbrev pub after : ParticipationRecord → Result ParticipationRecord → ParticipationRecord
after r (ok q) = q
after r (err e) = r

unfoldable pub advance_all : ParticipationRecord → List Request → ParticipationRecord
advance_all r [] = r
advance_all r (q ∷ qs) = advance_all (after r (transition_participation r q.to q.actor_id q.at)) qs

after-IsAudited :
    (r : ParticipationRecord) (to : ParticipationState) (actor at : String)
    (x : Result ParticipationRecord)
    → transition_participation r to actor at ≡ x
    → IsAudited r
    → IsAudited (after r x)
after-IsAudited r to actor at (ok q) e v = transition-IsAudited r to actor at v e
after-IsAudited r to actor at (err c) e v = v

advance_all-IsAudited :
    (r : ParticipationRecord) (qs : List Request) → IsAudited r → IsAudited (advance_all r qs)
unfolding advance_all
advance_all-IsAudited r [] v = v
advance_all-IsAudited r (q ∷ qs) v =
    advance_all-IsAudited (after r (transition_participation r q.to q.actor_id q.at)) qs
      (after-IsAudited r q.to q.actor_id q.at _ refl v)

two_entries :
    (hs : List ParticipationTransition)
    → Leads registered hs participation_confirmed
    → length hs ≡ 2
    → (a b : ParticipationTransition) × (hs ≡ a ∷ b ∷ [])
      × (a.from ≡ registered)
      × (a.to ≡ checked_in)
      × (b.from ≡ checked_in)
      × (b.to ≡ participation_confirmed)
two_entries [] l n = cc
two_entries (a ∷ []) l n = absurd (omega (arith, n))
two_entries (a ∷ b ∷ []) l n = (a, b, refl, l.0, ground arith, ground arith, l.2.2)
two_entries (a ∷ b ∷ c ∷ hs) l n = absurd (omega (arith, n))

confirmed_state :
    (r : ParticipationRecord)
    → can_issue_credential_for (some r) ≡ true
    → r.state ≡ participation_confirmed
unfolding can_issue_credential_for
confirmed_state r h = ground arith

confirmed_entries :
    (r : ParticipationRecord)
    → IsAudited r
    → r.state ≡ participation_confirmed
    → (a b : ParticipationTransition) × (r.history ≡ a ∷ b ∷ [])
      × (a.from ≡ registered)
      × (a.to ≡ checked_in)
      × (b.from ≡ checked_in)
      × (b.to ≡ participation_confirmed)
confirmed_entries r v e =
    two_entries r.history (rw e at v)
      (omega (arith, Leads-length registered r.state r.history v, ap stage e))

-- A participation that `canIssueCredentialFor` accepts, after any requests on a new one, has exactly
-- two audited entries: the check-in, and the confirmation after it.
pub confirmed_history :
    (i s e : String) (new : ParticipationRecord) (qs : List Request)
    → create_participation i s e ≡ ok new
    → can_issue_credential_for (some (advance_all new qs)) ≡ true
    → (a b : ParticipationTransition) × ((advance_all new qs).history ≡ a ∷ b ∷ [])
      × (a.from ≡ registered)
      × (a.to ≡ checked_in)
      × (b.from ≡ checked_in)
      × (b.to ≡ participation_confirmed)
confirmed_history i s e new qs c h =
    confirmed_entries (advance_all new qs) (advance_all-IsAudited new qs (create-IsAudited i s e c))
      (confirmed_state (advance_all new qs) h)
