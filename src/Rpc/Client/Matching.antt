-- ===== src/Rpc/Client/Matching.antt =====
-- An answer reaches the call that it was given for.
use thiam_api.Errors.{Error}
use thiam_api.Base.{
  ==_iff, sym, subst, refl, if◌then◌else◌, ◌==◌, false, arith, inl, inr, Bool, ℕ, ◌≡◌, true, ◌⊎◌,
  Option, none, some, List, [], ◌∷◌, String,
}
use thiam_api.Rpc.Client.{
  give_up, wake, add, publish, serve, update, act_give_up, woken, Event, steps, step, Call,
  act_serve, act_wake, act_add, act_publish, Message, PendingCall, Place, idle, published, waiting,
  answered, given_up, Client,
}

-- A message with this id, status and body is among those.
abbrev pub Delivered : ℕ → String → List ℕ → List Message → Type 0
Delivered i status body [] = ⊥
Delivered i status body (m ∷ ms) =
    (m ≡ record { correlation_id = i; status = status; body = body }) ⊎ Delivered i status body ms

-- There is an entry exactly while the caller waits; a closed one holds what was delivered for the id,
-- and so does the answer that a caller got.
abbrev pub Matches : List Message → ℕ → Place → Option PendingCall → Type 0
Matches ms i idle none = Unit {0}
Matches ms i published none = Unit {0}
Matches ms i (answered status body) none = Delivered i status body ms
Matches ms i (given_up e) none = Unit {0}
Matches ms i waiting (some p) = p.is_done ≡ true → Delivered i p.status p.body ms
Matches ms i place entry = ⊥

abbrev pub IsMatched : Client → Type 0
IsMatched c = (i : ℕ) → Matches c.delivered i (c.calls i).place (c.calls i).entry

act_publish-Matches :
    (ms : List Message) (i : ℕ) (p : Place) (o : Option PendingCall)
    → Matches ms i p o
    → Matches ms i (act_publish p o).place (act_publish p o).entry
act_publish-Matches ms i idle none h = tt
act_publish-Matches ms i idle (some q) h = absurd h
act_publish-Matches ms i published none h = h
act_publish-Matches ms i published (some q) h = absurd h
act_publish-Matches ms i waiting none h = absurd h
act_publish-Matches ms i waiting (some q) h = h
act_publish-Matches ms i (answered s b) none h = h
act_publish-Matches ms i (answered s b) (some q) h = absurd h
act_publish-Matches ms i (given_up x) none h = h
act_publish-Matches ms i (given_up x) (some q) h = absurd h

act_add-Matches :
    (ms : List Message) (i : ℕ) (p : Place) (o : Option PendingCall)
    → Matches ms i p o
    → Matches ms i (act_add p o).place (act_add p o).entry
act_add-Matches ms i idle none h = h
act_add-Matches ms i idle (some q) h = absurd h
act_add-Matches ms i published none h = λ d. absurd (ground arith)
act_add-Matches ms i published (some q) h = absurd h
act_add-Matches ms i waiting none h = absurd h
act_add-Matches ms i waiting (some q) h = h
act_add-Matches ms i (answered s b) none h = h
act_add-Matches ms i (answered s b) (some q) h = absurd h
act_add-Matches ms i (given_up x) none h = h
act_add-Matches ms i (given_up x) (some q) h = absurd h

woken-Matches :
    (ms : List Message) (i : ℕ) (b : Bool) (q : PendingCall)
    → q.is_done ≡ b
    → (q.is_done ≡ true → Delivered i q.status q.body ms)
    → Matches ms i (woken b q).place (woken b q).entry
woken-Matches ms i true q e h = h e
woken-Matches ms i false q e h = h

act_wake-Matches :
    (ms : List Message) (i : ℕ) (p : Place) (o : Option PendingCall)
    → Matches ms i p o
    → Matches ms i (act_wake p o).place (act_wake p o).entry
act_wake-Matches ms i idle none h = h
act_wake-Matches ms i idle (some q) h = absurd h
act_wake-Matches ms i published none h = h
act_wake-Matches ms i published (some q) h = absurd h
act_wake-Matches ms i waiting none h = absurd h
act_wake-Matches ms i waiting (some q) h = woken-Matches ms i q.is_done q refl h
act_wake-Matches ms i (answered s b) none h = h
act_wake-Matches ms i (answered s b) (some q) h = absurd h
act_wake-Matches ms i (given_up x) none h = h
act_wake-Matches ms i (given_up x) (some q) h = absurd h

act_give_up-Matches :
    (e : Error) (ms : List Message) (i : ℕ) (p : Place) (o : Option PendingCall)
    → Matches ms i p o
    → Matches ms i (act_give_up e p o).place (act_give_up e p o).entry
act_give_up-Matches e ms i idle none h = tt
act_give_up-Matches e ms i idle (some q) h = absurd h
act_give_up-Matches e ms i published none h = h
act_give_up-Matches e ms i published (some q) h = absurd h
act_give_up-Matches e ms i waiting none h = absurd h
act_give_up-Matches e ms i waiting (some q) h = tt
act_give_up-Matches e ms i (answered s b) none h = h
act_give_up-Matches e ms i (answered s b) (some q) h = absurd h
act_give_up-Matches e ms i (given_up x) none h = h
act_give_up-Matches e ms i (given_up x) (some q) h = absurd h

-- A delivery more changes nothing for other ids, and gives the id's entry its answer.
delivered-Matches :
    (m : Message) (ms : List Message) (i : ℕ) (p : Place) (o : Option PendingCall)
    → Matches ms i p o
    → Matches (m ∷ ms) i p o
delivered-Matches m ms i idle none h = h
delivered-Matches m ms i idle (some q) h = absurd h
delivered-Matches m ms i published none h = h
delivered-Matches m ms i published (some q) h = absurd h
delivered-Matches m ms i waiting none h = absurd h
delivered-Matches m ms i waiting (some q) h = λ d. inr (h d)
delivered-Matches m ms i (answered s b) none h = inr h
delivered-Matches m ms i (answered s b) (some q) h = absurd h
delivered-Matches m ms i (given_up x) none h = h
delivered-Matches m ms i (given_up x) (some q) h = absurd h

act_serve-Matches :
    (m : Message) (ms : List Message) (p : Place) (o : Option PendingCall)
    → Matches ms m.correlation_id p o
    → Matches (m ∷ ms) m.correlation_id p (act_serve m o)
act_serve-Matches m ms idle none h = h
act_serve-Matches m ms idle (some q) h = absurd h
act_serve-Matches m ms published none h = h
act_serve-Matches m ms published (some q) h = absurd h
act_serve-Matches m ms waiting none h = absurd h
act_serve-Matches m ms waiting (some q) h = λ d. inl refl
act_serve-Matches m ms (answered s b) none h = inr h
act_serve-Matches m ms (answered s b) (some q) h = absurd h
act_serve-Matches m ms (given_up x) none h = h
act_serve-Matches m ms (given_up x) (some q) h = absurd h

-- A property of all entries, after one was set.
set-at :
    (P : ℕ → Call → Type 0) (i : ℕ) (c : Call) (calls : ℕ → Call) (j : ℕ) (b : Bool)
    → (j == i) ≡ b
    → P i c
    → P j (calls j)
    → P j (if b then c else calls j)
set-at P i c calls j true e h k = subst (λ n. P n c) (sym ((==_iff j i).0 e)) h
set-at P i c calls j false e h k = k

updated-IsMatched :
    (c : Client) (i : ℕ) (act : Place → Option PendingCall → Call)
    → ((p : Place) (o : Option PendingCall)
        → Matches c.delivered i p o
        → Matches c.delivered i (act p o).place (act p o).entry)
    → IsMatched c
    → IsMatched (update i act c)
updated-IsMatched c i act keeps h j =
    set-at (λ n d. Matches c.delivered n d.place d.entry) i
      (act (c.calls i).place (c.calls i).entry) c.calls j (j == i) refl
      (keeps (c.calls i).place (c.calls i).entry (h i)) (h j)

pub step-IsMatched : (e : Event) (c : Client) → IsMatched c → IsMatched (step e c)
unfolding step
step-IsMatched (publish i) c h =
    updated-IsMatched c i act_publish (act_publish-Matches c.delivered i) h
step-IsMatched (add i) c h = updated-IsMatched c i act_add (act_add-Matches c.delivered i) h
step-IsMatched (wake i) c h = updated-IsMatched c i act_wake (act_wake-Matches c.delivered i) h
step-IsMatched (give_up i e) c h =
    updated-IsMatched c i (act_give_up e) (act_give_up-Matches e c.delivered i) h
step-IsMatched (serve m) c h = λ j.
    set-at (λ n d. Matches (m ∷ c.delivered) n d.place d.entry) m.correlation_id _ c.calls j
      (j == m.correlation_id) refl
      (act_serve-Matches m c.delivered (c.calls m.correlation_id).place
        (c.calls m.correlation_id).entry (h m.correlation_id))
      (delivered-Matches m c.delivered j (c.calls j).place (c.calls j).entry (h j))

-- However callers, timeouts and deliveries interleave, an answer that a caller returns with is one
-- that was delivered for its own id, and there is an entry in the table for exactly the ids whose
-- callers wait, if that was so at the start.
pub steps-IsMatched : (es : List Event) (c : Client) → IsMatched c → IsMatched (steps es c)
unfolding steps
steps-IsMatched [] c h = h
steps-IsMatched (e ∷ es) c h = steps-IsMatched es (step e c) (step-IsMatched e c h)
