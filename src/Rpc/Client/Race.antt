-- ===== src/Rpc/Client/Race.antt =====
-- An answer that is delivered before its call is in the table.
use thiam_api.Rpc.Client.{
  Message, act_serve, PendingCall, Place, idle, published, waiting, answered, given_up, Call,
  Client, Event, publish, add, wake, give_up, serve, act_publish, act_add, act_wake, act_give_up,
  woken, update, step, steps,
}
use thiam_api.Errors.{nil, Error}
use thiam_api.Base.{
  ap, sym, ◌≢◌, String, ℕ, ◌==◌, ==_iff, ◌≡◌, refl, subst, Bool, true, false, Option, none, some,
  List, [], ◌∷◌, if◌then◌else◌, arith,
}

-- The caller has no answer: it is about to add its call, it waits for one whose channel is open, or it
-- has given up.
abbrev pub IsUnanswered : Place → Option PendingCall → Type 0
IsUnanswered published none = Unit {0}
IsUnanswered waiting (some p) = p.is_done ≡ false
IsUnanswered (given_up e) none = Unit {0}
IsUnanswered place entry = ⊥

abbrev pub Unanswered : Call → Type 0
Unanswered c = IsUnanswered c.place c.entry

-- No delivery for the id.
abbrev pub NotFor : ℕ → List Event → Type 0
NotFor i [] = Unit {0}
NotFor i (serve m ∷ es) = ((i == m.correlation_id) ≡ false) × NotFor i es
NotFor i (e ∷ es) = NotFor i es

woken-Unanswered : (b : Bool) (q : PendingCall) → q.is_done ≡ b → b ≡ false → Unanswered (woken b q)
woken-Unanswered true q e h = absurd (ground (arith, h))
woken-Unanswered false q e h = e

act-Unanswered :
    (e : Error) (p : Place) (o : Option PendingCall)
    → IsUnanswered p o
    → Unanswered (act_publish p o)
      × Unanswered (act_add p o)
      × Unanswered (act_wake p o)
      × Unanswered (act_give_up e p o)
act-Unanswered e idle o h = absurd h
act-Unanswered e published none h = (h, refl, h, h)
act-Unanswered e published (some q) h = absurd h
act-Unanswered e waiting none h = absurd h
act-Unanswered e waiting (some q) h = (h, h, woken-Unanswered q.is_done q refl h, tt)
act-Unanswered e (answered s b) o h = absurd h
act-Unanswered e (given_up x) none h = (h, h, h, h)
act-Unanswered e (given_up x) (some q) h = absurd h

-- The call of `j`, after the one of `i` was set.
set-Unanswered :
    (i j : ℕ) (c : Call) (calls : ℕ → Call) (b : Bool)
    → (j == i) ≡ b
    → ((j == i) ≡ true → Unanswered c)
    → Unanswered (calls j)
    → Unanswered (if b then c else calls j)
set-Unanswered i j c calls true e h k = h e
set-Unanswered i j c calls false e h k = k

updated-Unanswered :
    (i j : ℕ) (act : Place → Option PendingCall → Call) (c : Client)
    → (IsUnanswered (c.calls j).place (c.calls j).entry
        → Unanswered (act (c.calls j).place (c.calls j).entry))
    → Unanswered (c.calls j)
    → Unanswered ((update i act c).calls j)
updated-Unanswered i j act c keeps h =
    set-Unanswered i j (act (c.calls i).place (c.calls i).entry) c.calls (j == i) refl
      (λ e.
        subst (λ n. Unanswered (act (c.calls n).place (c.calls n).entry)) ((==_iff j i).0 e)
          (keeps h))
      h

steps-Unanswered :
    (j : ℕ) (es : List Event) (c : Client)
    → NotFor j es
    → Unanswered (c.calls j)
    → Unanswered ((steps es c).calls j)
unfolding steps step
steps-Unanswered j [] c n h = h
steps-Unanswered j (publish i ∷ es) c n h =
    steps-Unanswered j es (step (publish i) c) n
      (updated-Unanswered i j act_publish c (λ k. (act-Unanswered nil _ _ k).0) h)
steps-Unanswered j (add i ∷ es) c n h =
    steps-Unanswered j es (step (add i) c) n
      (updated-Unanswered i j act_add c (λ k. (act-Unanswered nil _ _ k).1) h)
steps-Unanswered j (wake i ∷ es) c n h =
    steps-Unanswered j es (step (wake i) c) n
      (updated-Unanswered i j act_wake c (λ k. (act-Unanswered nil _ _ k).2) h)
steps-Unanswered j (give_up i e ∷ es) c n h =
    steps-Unanswered j es (step (give_up i e) c) n
      (updated-Unanswered i j (act_give_up e) c (λ k. (act-Unanswered e _ _ k).3) h)
steps-Unanswered j (serve m ∷ es) c n h = steps-Unanswered j es (step (serve m) c) n.1 (
    set-Unanswered m.correlation_id j _ c.calls (j == m.correlation_id) refl
      (λ e. absurd (ground (arith, e, n.0))) h)

not_answered :
    (p : Place) (o : Option PendingCall) (status : String) (body : List ℕ)
    → IsUnanswered p o
    → p ≢ answered status body
not_answered idle o s b h = absurd h
not_answered published o s b h = λ e. absurd (ground (arith, e))
not_answered waiting o s b h = λ e. absurd (ground (arith, e))
not_answered (answered t d) o s b h = absurd h
not_answered (given_up x) o s b h = λ e. absurd (ground (arith, e))

-- The call of the id after a delivery for it that finds no entry.
served_early :
    (m : Message) (c : Client) (p : Place) (o : Option PendingCall)
    → p ≡ published
    → o ≡ none
    → Unanswered (record { place = p; entry = act_serve m o })
served_early m c p o e f =
    subst (λ q. Unanswered (record { place = q; entry = act_serve m o })) (sym e)
      (subst (λ x. Unanswered (record { place = published; entry = act_serve m x })) (sym f) tt)

-- An answer that is delivered after its request was published and before the call is in the table is
-- lost: whatever happens after that, if no other delivery is for the id, its caller never returns
-- with an answer.
pub steps_lose_answer :
    (m : Message) (es : List Event) (c : Client)
    → (c.calls m.correlation_id).place ≡ published
    → (c.calls m.correlation_id).entry ≡ none
    → NotFor m.correlation_id es
    → (status : String) (body : List ℕ)
    → ((steps (serve m ∷ es) c).calls m.correlation_id).place ≢ answered status body
unfolding steps step
steps_lose_answer m es c p o n status body =
    let i = m.correlation_id in
    not_answered _ _ status body (
      steps-Unanswered i es (step (serve m) c) n (
        set-Unanswered i i _ c.calls (i == i) refl
          (λ e. served_early m c (c.calls i).place (c.calls i).entry p o)
          (subst Unanswered (ap (λ q. record { place = q; entry = (c.calls i).entry }) (sym p))
            (subst (λ x. Unanswered (record { place = published; entry = x })) (sym o) tt))))
