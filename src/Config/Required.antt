-- ===== src/Config/Required.antt =====
-- Variables that have to be set.
use thiam_api.Base.{◌≡◌, refl, subst, sym, Option, none, List, [], ◌∷◌, ◌++◌, String, ◌⊎◌, inl, inr}
use thiam_api.Exec.{err}
use thiam_api.Errors.{wrap}
use thiam_api.Config.{
  new_config, Config, Tag, required, Parser, Fields, filled, unread, from_option, ◌and◌,
  config_fields, parsed,
}

-- What the documentation of the parser says of variables that are not set.
pub record Documented (lookup : String → Option String) (p : Parser) : Type 0 where
  pub unset_string : (v : String) → lookup v ≡ none → p.string_of (required v) ≡ none
  pub unset_int : (v : String) → lookup v ≡ none → p.int_of (required v) ≡ none

abbrev pub Among : {A : Type 0} → A → List A → Type 0
Among a [] = ⊥
Among a (b ∷ bs) = (a ≡ b) ⊎ Among a bs

Among-left : {A : Type 0} (a : A) (bs cs : List A) → Among a bs → Among a (bs ++ cs)
Among-left a [] cs h = absurd h
Among-left a (b ∷ bs) cs (inl e) = inl e
Among-left a (b ∷ bs) cs (inr h) = inr (Among-left a bs cs h)

Among-right : {A : Type 0} (a : A) (bs cs : List A) → Among a cs → Among a (bs ++ cs)
Among-right a [] cs h = h
Among-right a (b ∷ bs) cs h = inr (Among-right a bs cs h)

-- The field of the tag was not read.
abbrev pub Lacks : {A : Type 0} → Tag → Fields A → Type 0
Lacks t (filled a) = ⊥
Lacks t (unread ts) = Among t ts

module _ {A B : Type 0} where
  Lacks-left : (t : Tag) (f : Fields (A → B)) (a : Fields A) → Lacks t f → Lacks t (f and a)
  Lacks-left t (filled f) a h = absurd h
  Lacks-left t (unread ts) (filled a) h = h
  Lacks-left t (unread ts) (unread us) h = Among-left t ts us h

  Lacks-right : (t : Tag) (f : Fields (A → B)) (a : Fields A) → Lacks t a → Lacks t (f and a)
  Lacks-right t f (filled a) h = absurd h
  Lacks-right t (filled f) (unread us) h = h
  Lacks-right t (unread ts) (unread us) h = Among-right t ts us h

Lacks-from_option : {A : Type 0} (t : Tag) (o : Option A) → o ≡ none → Lacks t (from_option t o)
Lacks-from_option t o e = subst (λ x. Lacks t (from_option t x)) (sym e) (inl refl)

-- The variables with the tag `required`; `PG_POOL_MAX` is a number.
abbrev pub required_names : List String
required_names =
    "APP_NAME" ∷ "APP_VERSION" ∷ "HTTP_PORT" ∷ "LOG_LEVEL" ∷ "PG_POOL_MAX" ∷ "PG_URL" ∷ "GRPC_PORT"
    ∷ "RMQ_RPC_SERVER" ∷ "RMQ_RPC_CLIENT" ∷ "RMQ_URL" ∷ "NATS_RPC_SERVER" ∷ "NATS_URL" ∷ []

Lacks-parsed :
    (p : Parser) (t : Tag) (c : Fields Config)
    → Lacks t c
    → (ts : List Tag) × (parsed p c ≡ err (wrap "config error: " "" (p.failure ts))) × Among t ts
Lacks-parsed p t (filled c) h = absurd h
Lacks-parsed p t (unread ts) h = (ts, refl, h)

ruleset lacking = (Lacks-left, Lacks-right, Lacks-from_option)

-- The parser reads neither a text nor a number.
Unread : Parser → String → Type 0
Unread p v = (p.string_of (required v) ≡ none) × (p.int_of (required v) ≡ none)

-- A variable whose name is known.
at_name :
    (p : Parser) (v name : String)
    → v ≡ name
    → Unread p v
    → (Unread p name → Lacks (required name) (config_fields p))
    → Lacks (required v) (config_fields p)
at_name p v name e h k =
    subst (λ x. Lacks (required x) (config_fields p)) (sym e) (k (subst (Unread p) e h))

Lacks-config_fields :
    (p : Parser) (v : String)
    → Among v required_names
    → Unread p v
    → Lacks (required v) (config_fields p)
unfolding config_fields Unread
Lacks-config_fields p v (inl e) h = at_name p v "APP_NAME" e h (λ k. search lacking depth 20)
Lacks-config_fields p v (inr (inl e)) h =
    at_name p v "APP_VERSION" e h (λ k. search lacking depth 20)
Lacks-config_fields p v (inr (inr (inl e))) h =
    at_name p v "HTTP_PORT" e h (λ k. search lacking depth 20)
Lacks-config_fields p v (inr (inr (inr (inl e)))) h =
    at_name p v "LOG_LEVEL" e h (λ k. search lacking depth 20)
Lacks-config_fields p v (inr (inr (inr (inr (inl e))))) h =
    at_name p v "PG_POOL_MAX" e h (λ k. search lacking depth 20)
Lacks-config_fields p v (inr (inr (inr (inr (inr (inl e)))))) h =
    at_name p v "PG_URL" e h (λ k. search lacking depth 20)
Lacks-config_fields p v (inr (inr (inr (inr (inr (inr (inl e))))))) h =
    at_name p v "GRPC_PORT" e h (λ k. search lacking depth 20)
Lacks-config_fields p v (inr (inr (inr (inr (inr (inr (inr (inl e)))))))) h =
    at_name p v "RMQ_RPC_SERVER" e h (λ k. search lacking depth 20)
Lacks-config_fields p v (inr (inr (inr (inr (inr (inr (inr (inr (inl e))))))))) h =
    at_name p v "RMQ_RPC_CLIENT" e h (λ k. search lacking depth 20)
Lacks-config_fields p v (inr (inr (inr (inr (inr (inr (inr (inr (inr (inl e)))))))))) h =
    at_name p v "RMQ_URL" e h (λ k. search lacking depth 20)
Lacks-config_fields p v (inr (inr (inr (inr (inr (inr (inr (inr (inr (inr (inl e))))))))))) h =
    at_name p v "NATS_RPC_SERVER" e h (λ k. search lacking depth 20)
Lacks-config_fields p v (inr (inr (inr (inr (inr (inr (inr (inr (inr (inr (inr (inl e))))))))))))
      h =
    at_name p v "NATS_URL" e h (λ k. search lacking depth 20)
Lacks-config_fields p v (inr (inr (inr (inr (inr (inr (inr (inr (inr (inr (inr (inr (h)))))))))))))
      k =
    absurd h

-- Without a required variable there is no configuration; the error names the field.
pub new_config_lacking :
    (lookup : String → Option String) (p : Parser)
    → Documented lookup p
    → (v : String) → Among v required_names
    → lookup v ≡ none
    → (ts : List Tag) × (new_config p ≡ err (wrap "config error: " "" (p.failure ts)))
      × Among (required v) ts
unfolding new_config Unread
new_config_lacking lookup p d v h e =
    Lacks-parsed p (required v) (config_fields p)
      (Lacks-config_fields p v h (d.unset_string v e, d.unset_int v e))
