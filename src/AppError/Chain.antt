-- ===== src/AppError/Chain.antt =====
-- The kind of an error that is wrapped and joined.
use thiam_api.Errors.{
  timeout, errors_as, or_else, Kind, unknown, Head, Error, nil, leaf, wrap, join, app,
}
use thiam_api.AppError.Options.{new_error_options}
use thiam_api.AppError.{
  is_timeout, is_external, external, is_internal, internal, is_forbidden, forbidden,
  is_unauthorized, unauthorized, is_conflict, conflict, is_not_found, not_found, is_validation,
  validation, ℕ, Bool, new_error, to_error, Setting, String, as_app_error, found, is_kind,
  kind_code, get_kind, kind_of,
}
use thiam_api.Base.{
  map, ◌+◌, ◌==◌, ap, sym, ◌∙◌, refl, arith, ◌≡◌, Option, none, some, List, [], ◌∷◌, ◌++◌,
}

-- The errors of the tree in the order of the text, each before its cause.
abbrev pub heads : Error → List Head
heads nil = []
heads (leaf a s) = []
heads (wrap before after e) = heads e
heads (join e es) = heads e ++ heads es
heads (app h e) = h ∷ heads e

-- `fmt.Errorf` with these texts before `%w`, the innermost first.
abbrev pub wraps : List String → Error → Error
wraps [] e = e
wraps (before ∷ ts) e = wraps ts (wrap before "" e)

abbrev pub first_kind : List Head → Kind
first_kind [] = unknown
first_kind (h ∷ hs) = h.kind

-- The head that `errors.As` finds.
abbrev pub head_of : Option (Head × Error) → List Head
head_of none = []
head_of (some (h, e)) = h ∷ []

abbrev pub front : List Head → List Head
front [] = []
front (h ∷ hs) = h ∷ []

front-append :
    (o p : Option (Head × Error)) (hs ks : List Head)
    → head_of o ≡ front hs
    → head_of p ≡ front ks
    → head_of (or_else o p) ≡ front (hs ++ ks)
front-append none p [] ks a b = b
front-append none p (h ∷ hs) ks a b = ground arith
front-append (some q) p [] ks a b = ground arith
front-append (some q) p (h ∷ hs) ks a b = a

pub errors_as-heads : (e : Error) → head_of (errors_as e) ≡ front (heads e)
unfolding errors_as
errors_as-heads nil = refl
errors_as-heads (leaf a s) = refl
errors_as-heads (wrap before after e) = errors_as-heads e
errors_as-heads (join e es) =
    front-append (errors_as e) (errors_as es) (heads e) (heads es) (errors_as-heads e)
      (errors_as-heads es)
errors_as-heads (app h e) = refl

found-kind :
    (o : Option (Head × Error)) (hs : List Head)
    → head_of o ≡ front hs
    → kind_of (found o) ≡ first_kind hs
found-kind none [] h = refl
found-kind none (k ∷ hs) h = ground arith
found-kind (some (k, e)) [] h = ground arith
found-kind (some (k, e)) (j ∷ hs) h = ground arith

-- The kind of an error is that of the first application error in its tree, read from the outside
-- in and from left to right, and unknown if there is none.
pub get_kind-heads : (e : Error) → get_kind e ≡ first_kind (heads e)
unfolding get_kind as_app_error
get_kind-heads e = ground (arith, found-kind (errors_as e) (heads e) (errors_as-heads e))

-- The nil test of `GetKind` is not needed.
pub get_kind_lem : (e : Error) → get_kind e ≡ kind_of (as_app_error e)
unfolding get_kind as_app_error errors_as
get_kind_lem nil = refl
get_kind_lem (leaf a s) = refl
get_kind_lem (wrap before after e) = refl
get_kind_lem (join e es) = refl
get_kind_lem (app h e) = refl

kind_code_inj : (j k : Kind) → kind_code j ≡ kind_code k → j ≡ k
kind_code_inj j k h = ground arith

get_kind-wraps : (ts : List String) (e : Error) → get_kind (wraps ts e) ≡ get_kind e
unfolding get_kind as_app_error errors_as
get_kind-wraps [] e = refl
get_kind-wraps (t ∷ ts) e = get_kind-wraps ts (wrap t "" e) ∙ sym (get_kind_lem e)

get_kind-new_error :
    (k : Kind) (message : String) (os : List Setting)
    → get_kind (to_error (new_error k message os)) ≡ k
unfolding get_kind as_app_error errors_as
get_kind-new_error k message os = (new_error_options k message os "").0

-- What the eight predicates say of an error, in the order of the kinds.
abbrev pub verdicts : Error → List Bool
verdicts e =
    is_validation e
    ∷ is_not_found e
    ∷ is_conflict e
    ∷ is_unauthorized e
    ∷ is_forbidden e
    ∷ is_internal e
    ∷ is_external e
    ∷ is_timeout e
    ∷ []

-- The list that is true at one place only, and false if the place is not one of these.
abbrev pub only_at : ℕ → ℕ → List Kind → List Bool
only_at i n [] = []
only_at i n (k ∷ ks) = (i == n) ∷ only_at i (n + 1) ks

abbrev pub named_kinds : List Kind
named_kinds =
    validation ∷ not_found ∷ conflict ∷ unauthorized ∷ forbidden ∷ internal ∷ external ∷ timeout
    ∷ []

-- An error that a constructor made, with whatever message, options and cause, and that was then
-- wrapped any number of times, has the kind of its constructor; of the eight predicates exactly the
-- one of this kind holds, and none for the kind unknown.
pub predicates-new_error :
    (k : Kind) (message : String) (os : List Setting) (ts : List String)
    → let e = wraps ts (to_error (new_error k message os)) in
      (get_kind e ≡ k) × (verdicts e ≡ only_at (kind_code k) 1 named_kinds)
unfolding is_kind
predicates-new_error k message os ts =
    let q =
      get_kind-wraps ts (to_error (new_error k message os)) ∙ get_kind-new_error k message os in
    (q, ap (λ j. map (λ i. kind_code j == kind_code i) named_kinds) q)
